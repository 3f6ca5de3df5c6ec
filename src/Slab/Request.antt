-- ===== src/Slab/Request.antt =====
-- A new page of the buddy allocator in the slab allocator.
use mathlib.Core.Path.{subst}
use jyy_os.Prelude.{
  ℕ, suc, ◌+◌, ◌-◌, ◌%◌, ◌≤◌, ◌<◌, ◌≡◌, ◌≢◌, ◌⊎◌, inl, inr, ◌∙◌, sym, ap, List, [], ◌∷◌, All,
  length, update, update_ne, update_self, arith, Option, none, some, eq-cases, Outcome, done, ◌>>=◌,
}
use jyy_os.Slab.{
  Stick, Slab, write_stick, initialize_a_slab_new_page, find_the_free_space_in_slab, add_page,
}
use jyy_os.Slab.Classes.{Class}
use jyy_os.Slab.Lists.{Linked, Linked-same}
use jyy_os.Slab.Fresh.{Blocks, All-map, initialize-Blocks}
use jyy_os.Slab.State.{PageOk, PageOk-same, next_of, Chain, Ok, apart_words}
use jyy_os.Slab.Find.{Taken, find-Taken}

-- A page with a kind is not a page without one.
pub other_kind :
    (kind : ℕ → Option ℕ) (page q j : ℕ) → kind page ≡ none → kind q ≡ some j → page ≢ q
other_kind kind page q j none_yet e z = let f = ap kind z in cc

module _ {P : Type 0} where
  -- The state with a new page of blocks of 2 ^ k bytes at the front of the list of a processor
  pub record Grown (n : ℕ) (s : Slab P) (kind : ℕ → Option ℕ) (cpu k page : ℕ) (s' : Slab P)
      : Type 0 where
    pub ok : Ok n s' (update kind page (some k))
    pub head : s'.cpu_own_area cpu (k - 5) ≡ page
    pub some_space : 0 < (s'.sticks page).current_slab_free_space
    pub sticks : (q : ℕ) → page ≢ q → s'.sticks q ≡ s.sticks q
    pub words : (x : ℕ) → (x ≤ page) ⊎ (page + 4096 ≤ x) → s'.next_free x ≡ s.next_free x
    pub pool : s'.pool ≡ s.pool

  -- The state with the page linked in front of the list of its processor
  abbrev pub linked_page : Slab P → ℕ → ℕ → ℕ → Slab P
  linked_page s cpu k page =
      let linked =
        write_stick s page
          (record (s.sticks page) { next_slab_stick = s.cpu_own_area cpu (k - 5) }) in
      record linked {
        cpu_own_area = update s.cpu_own_area cpu (update (s.cpu_own_area cpu) (k - 5) page);
      }

  initialize-Grown :
      (n cpu k page : ℕ) (s : Slab P) (kind : ℕ → Option ℕ)
      → Ok n s kind
      → Class k
      → kind page ≡ none
      → page % 4096 ≡ 0
      → 0 < page
      → (s.sticks page).slab_lock ≡ 0
      → (s' : Slab P) × (initialize_a_slab_new_page k page (linked_page s cpu k page) ≡ done s')
        × Grown (suc n) s kind cpu k page s'
  initialize-Grown n cpu k page s kind ok class none_yet start positive unlocked = (
    s',
    i.2,
    record {
      ok = record {
        unlocked = λ q j e. elim (eq-cases page q) [
          | inl y ↦ subst (λ x. (s'.sticks x).slab_lock ≡ 0) y.0 lock
          | inr y ↦
              ap (λ (t : Stick). t.slab_lock) (sticks q y.0)
              ∙ ok.unlocked q j (sym (update_ne kind page q (some k) y.0) ∙ e)
        ];
        pages = λ q j e. elim (eq-cases page q) [
          | inl y ↦
              let one : some k ≡ some j =
                sym (update_self kind page (some k)) ∙ ap (update kind page (some k)) y.0 ∙ e in
              let same : k ≡ j = cc in
              subst (λ x. PageOk s' q x) same
                (subst (λ x. PageOk s' x k) y.0
                  (record {
                    class = class;
                    start = start;
                    positive = positive;
                    free = i.1;
                    blocks = i.3;
                    space = i.4;
                    few = i.5.1;
                  }))
          | inr y ↦
              let old = ok.pages q j (sym (update_ne kind page q (some k) y.0) ∙ e) in
              PageOk-same s s' q j (sticks q y.0) (apart_words s s' page q i.11 start old.start y.0)
                old
        ];
        chains = λ c j cl. elim (eq-cases cpu c) [
          | inr y ↦ kept c j cl (own c j (inl y.0))
          | inl y ↦ elim (eq-cases (k - 5) (j - 5)) [
            | inr z ↦ kept c j cl (own c j (inr z.0))
            | inl z ↦
                let same : k ≡ j = omega (arith, z.0, class, cl) in
                subst (λ x. Chain (suc n) s' (update kind page (some k)) x j) y.0
                  (subst (λ x. Chain (suc n) s' (update kind page (some k)) cpu x) same longer)
          ]
        ];
      };
      head = head;
      some_space = omega (arith, i.4, i.5.0);
      sticks = sticks;
      words = i.11;
      pool = i.8;
    },
  )
    where
      s1 : Slab P
      s1 = linked_page s cpu k page

      i :
          (s' : Slab P) × (l : List ℕ) × (initialize_a_slab_new_page k page s1 ≡ done s')
          × Blocks s' page k l
          × ((s'.sticks page).current_slab_free_space ≡ length l)
          × ((0 < length l) × (length l ≤ 127))
          × ((s'.sticks page).slab_lock ≡ (s1.sticks page).slab_lock)
          × ((s'.sticks page).next_slab_stick ≡ (s1.sticks page).next_slab_stick)
          × (s'.pool ≡ s1.pool)
          × (s'.cpu_own_area ≡ s1.cpu_own_area)
          × ((q : ℕ) → page ≢ q → s'.sticks q ≡ s1.sticks q)
          × ((x : ℕ) → (x ≤ page) ⊎ (page + 4096 ≤ x) → s'.next_free x ≡ s1.next_free x)
      i = initialize-Blocks page k s1 class start

      s' : Slab P
      s' = i.0

      sticks : (q : ℕ) → page ≢ q → s'.sticks q ≡ s.sticks q
      sticks q ne = i.10 q ne ∙ update_ne s.sticks page q _ ne

      at : s1.sticks page ≡ record (s.sticks page) { next_slab_stick = s.cpu_own_area cpu (k - 5) }
      at =
          update_self s.sticks page
            (record (s.sticks page) { next_slab_stick = s.cpu_own_area cpu (k - 5) })

      lock : (s'.sticks page).slab_lock ≡ 0
      lock = i.6 ∙ ap (λ (t : Stick). t.slab_lock) at ∙ unlocked

      next : next_of s' page ≡ s.cpu_own_area cpu (k - 5)
      next = i.7 ∙ ap (λ (t : Stick). t.next_slab_stick) at

      mine : ℕ → ℕ
      mine = update (s.cpu_own_area cpu) (k - 5) page

      head : s'.cpu_own_area cpu (k - 5) ≡ page
      head =
          ap (λ (f : ℕ → ℕ → ℕ). f cpu (k - 5)) i.9
          ∙ ap (λ (f : ℕ → ℕ). f (k - 5)) (update_self s.cpu_own_area cpu mine)
          ∙ update_self (s.cpu_own_area cpu) (k - 5) page

      own :
          (c j : ℕ)
          → (cpu ≢ c) ⊎ (k - 5 ≢ j - 5)
          → s'.cpu_own_area c (j - 5) ≡ s.cpu_own_area c (j - 5)
      own c j ne = ap (λ (f : ℕ → ℕ → ℕ). f c (j - 5)) i.9 ∙ elim (eq-cases cpu c) [
        | inr y ↦ ap (λ (f : ℕ → ℕ). f (j - 5)) (update_ne s.cpu_own_area cpu c mine y.0)
        | inl y ↦ elim ne [
          | inl z ↦ absurd (z y.0)
          | inr z ↦
              ap (λ x. update s.cpu_own_area cpu mine x (j - 5)) (sym y.0)
              ∙ ap (λ (f : ℕ → ℕ). f (j - 5)) (update_self s.cpu_own_area cpu mine)
              ∙ update_ne (s.cpu_own_area cpu) (k - 5) (j - 5) page z
              ∙ ap (λ x. s.cpu_own_area x (j - 5)) y.0
        ]
      ]

      old_links :
          (c j : ℕ) (cl : Class j)
          → Linked (next_of s') (s.cpu_own_area c (j - 5)) (ok.chains c j cl).chain
      old_links c j cl =
          Linked-same (next_of s) (next_of s') (s.cpu_own_area c (j - 5)) (ok.chains c j cl).chain
            (All-map (λ p. kind p ≡ some j) (λ p. next_of s' p ≡ next_of s p)
              (ok.chains c j cl).chain
              (λ p e.
                ap (λ (t : Stick). t.next_slab_stick)
                  (sticks p (other_kind kind page p j none_yet e)))
              (ok.chains c j cl).kinds)
            (ok.chains c j cl).linked

      old_kinds :
          (c j : ℕ) (cl : Class j)
          → All (λ p. update kind page (some k) p ≡ some j) (ok.chains c j cl).chain
      old_kinds c j cl =
          All-map (λ p. kind p ≡ some j) (λ p. update kind page (some k) p ≡ some j)
            (ok.chains c j cl).chain
            (λ p e. update_ne kind page p (some k) (other_kind kind page p j none_yet e) ∙ e)
            (ok.chains c j cl).kinds

      kept :
          (c j : ℕ) (cl : Class j)
          → s'.cpu_own_area c (j - 5) ≡ s.cpu_own_area c (j - 5)
          → Chain (suc n) s' (update kind page (some k)) c j
      kept c j cl e = record {
        chain = (ok.chains c j cl).chain;
        linked =
            subst (λ h. Linked (next_of s') h (ok.chains c j cl).chain) (sym e) (old_links c j cl);
        kinds = old_kinds c j cl;
        short = omega (arith, (ok.chains c j cl).short);
      }

      longer : Chain (suc n) s' (update kind page (some k)) cpu k
      longer = record {
        chain = page ∷ (ok.chains cpu k class).chain;
        linked = (
          head,
          positive,
          subst (λ h. Linked (next_of s') h (ok.chains cpu k class).chain) (sym next)
              (old_links cpu k class),
        );
        kinds = (update_self kind page (some k), old_kinds cpu k class);
        short = omega (arith, (ok.chains cpu k class).short);
      }

  -- `request_a_slab_from_bbma` with a page at hand: the new page has a free block, and gives it.
  pub add_page-Taken :
      (bbma_alloc : P → ℕ → Outcome (ℕ × P)) (n cpu k page : ℕ) (s : Slab P) (kind : ℕ → Option ℕ)
      → Ok n s kind
      → Class k
      → kind page ≡ none
      → page % 4096 ≡ 0
      → 0 < page
      → (s.sticks page).slab_lock ≡ 0
      → (s' : Slab P) × Grown (suc n) s kind cpu k page s'
        × Taken
            (suc n)
            s'
            (update kind page (some k))
            k
            (add_page bbma_alloc (suc (suc n)) cpu k page s)
  unfolding add_page
  add_page-Taken bbma_alloc n cpu k page s kind ok class none_yet start positive unlocked =
      let g = initialize-Grown n cpu k page s kind ok class none_yet start positive unlocked in
      (
        g.0,
        g.2,
        subst
            (λ m.
              Taken (suc n) g.0 (update kind page (some k)) k
                (m >>= find_the_free_space_in_slab (suc (suc n)) cpu k))
            (sym g.1)
            (elim (find-Taken (suc n) cpu k g.0 (update kind page (some k)) g.2.ok class) [
              | inl taken ↦ taken
              | inr (e, (c, none_free)) ↦
                  absurd (go g.0 c.chain c.linked none_free g.2.head g.2.some_space)
            ]),
      )
    where
      go :
          (s' : Slab P) (l : List ℕ)
          → Linked (next_of s') (s'.cpu_own_area cpu (k - 5)) l
          → All (λ p. (s'.sticks p).current_slab_free_space ≡ 0) l
          → s'.cpu_own_area cpu (k - 5) ≡ page
          → 0 < (s'.sticks page).current_slab_free_space
          → ⊥
      go s' [] linked none_free head some_space = omega (arith, linked, head, positive)
      go s' (p ∷ l) linked none_free head some_space =
          let same : p ≡ page = sym linked.0 ∙ head in
          omega
            (arith, some_space, ap (λ q. (s'.sticks q).current_slab_free_space) same, none_free.0)
