-- ===== src/Slab/Find.antt =====
-- `find_the_free_space_in_slab` between two states of the allocator.
use mathlib.Core.Path.{subst, fun_ext}
use jyy_os.Prelude.{
  ℕ, zero, suc, ◌-◌, ◌<◌, ◌≡◌, ◌⊎◌, inl, inr, ◌∙◌, refl, sym, ap, List, [], ◌∷◌, All, length,
  update, update_ne, update_self, arith, Option, some, eq-cases, ==_iff, ne→==, lt→ltb, Outcome,
  done, ◌>>=◌,
}
use jyy_os.Slab.{
  Stick, Slab, write_stick, find_page_from, find_the_avaliable_page_in_slab_and_lock, take_block,
  find_the_free_space_in_slab,
}
use jyy_os.Slab.Classes.{Class}
use jyy_os.Slab.Lists.{Linked}
use jyy_os.Slab.Fresh.{Blocks}
use jyy_os.Slab.State.{PageOk, next_of, Chain, Ok, Changed, Changed-Ok}

module _ {P : Type 0} where
  -- Two writes of a stick are the second.
  write_twice :
      (s : Slab P) (page : ℕ) (a b : Stick)
      → write_stick (write_stick s page a) page b ≡ write_stick s page b
  write_twice s page a b =
      ap (λ (f : ℕ → Stick). record s { sticks = f })
        (fun_ext λ q. elim (eq-cases page q) [
          | inl y ↦
              subst (λ x. update (update s.sticks page a) page b x ≡ update s.sticks page b x) y.0
                (update_self (update s.sticks page a) page b ∙ sym (update_self s.sticks page b))
          | inr y ↦
              update_ne (update s.sticks page a) page q b y.0
              ∙ update_ne s.sticks page q a y.0
              ∙ sym (update_ne s.sticks page q b y.0)
        ])

  -- A stick that is locked and unlocked is as before.
  relock :
      (s : Slab P) (page : ℕ)
      → (s.sticks page).slab_lock ≡ 0
      → write_stick s page (record (s.sticks page) { slab_lock = 0 }) ≡ s
  relock s page e =
      ap (λ (f : ℕ → Stick). record s { sticks = f })
        (fun_ext λ q. elim (eq-cases page q) [
          | inl y ↦
              subst
                (λ x.
                  update s.sticks page (record (s.sticks page) { slab_lock = 0 }) x ≡ s.sticks x)
                y.0
                (update_self s.sticks page _
                  ∙ ap (λ l. record (s.sticks page) { slab_lock = l }) (sym e))
          | inr y ↦ update_ne s.sticks page q _ y.0
        ])

  abbrev pub locked : Slab P → ℕ → Slab P
  locked s page = write_stick s page (record (s.sticks page) { slab_lock = 1 })

  -- The search ends at a page with a free block, which it locks, or finds none.
  FoundPage : (s : Slab P) (chain : List ℕ) (kinds : ℕ → Type 0) (r : Outcome (ℕ × Slab P)) → Type 0
  FoundPage s chain kinds r =
      ((page : ℕ) × (r ≡ done (page, locked s page))
        × kinds page
        × (0 < (s.sticks page).current_slab_free_space)
        × (0 < page))
      ⊎ ((r ≡ done (0, s)) × All (λ p. (s.sticks p).current_slab_free_space ≡ 0) chain)

  find_page_from-FoundPage :
      (kinds : ℕ → Type 0) (fuel head : ℕ) (s : Slab P) (chain : List ℕ)
      → ((q : ℕ) → kinds q → (s.sticks q).slab_lock ≡ 0)
      → Linked (next_of s) head chain
      → All kinds chain
      → length chain < fuel
      → FoundPage s chain kinds (find_page_from fuel head s)
  unfolding find_page_from FoundPage
  find_page_from-FoundPage kinds zero head s chain free linked ks enough =
      absurd (omega (arith, enough))
  find_page_from-FoundPage kinds (suc n) head s [] free linked ks enough =
      inr (rw ((==_iff head 0).1 linked) refl, tt)
  find_page_from-FoundPage kinds (suc n) head s (p ∷ chain) free linked ks enough =
      let stick = s.sticks p in
      let again : write_stick (locked s p) p (record stick { slab_lock = 0 }) ≡ s =
        write_twice s p _ _ ∙ relock s p (free p ks.0) in
      let there = ne→== p 0 (λ e. omega (arith, e, linked.1)) in
      elim (eq-cases stick.current_slab_free_space 0) [
        | inl y ↦
            elim (find_page_from-FoundPage kinds n (next_of s p) s chain free linked.2 ks.1
              (omega (arith, enough))) [
                | inl (page, r, k, some_space, positive) ↦
                    inl (
                      page,
                      rw (linked.0, there, free p ks.0, y.1, again) r,
                      k,
                      some_space,
                      positive,
                    )
                | inr (r, none_free) ↦
                    inr (rw (linked.0, there, free p ks.0, y.1, again) r, (y.0, none_free))
              ]
        | inr y ↦
            inl (p, rw (linked.0, there, free p ks.0, y.1) refl, ks.0, omega (arith, y.0), linked.1)
      ]

  -- A free block of a page of the allocator was taken.
  pub record Taken (n : ℕ) (s : Slab P) (kind : ℕ → Option ℕ) (k : ℕ) (r : Outcome (ℕ × Slab P))
      : Type 0 where
    pub page : ℕ
    pub block : ℕ
    pub left : List ℕ
    pub after : Slab P
    pub result : r ≡ done (block, after)
    pub of_kind : kind page ≡ some k
    pub was : Blocks s page k (block ∷ left)
    pub few : length left < 127
    pub now : Blocks after page k left
    pub changed : Changed s after page
    pub pool : after.pool ≡ s.pool
    pub ok : Ok n after kind

  take_block_lem :
      (s : Slab P) (page : ℕ) (t : Stick)
      → s.sticks page ≡ t
      → 0 < page
      → 0 < t.current_slab_free_space
      → 0 < t.current_slab_free_block_list
      → take_block (page, s)
        ≡ done (
          t.current_slab_free_block_list,
          write_stick s page (record t {
            slab_lock = 0;
            current_slab_free_block_list = s.next_free t.current_slab_free_block_list;
            current_slab_free_space = t.current_slab_free_space - 1;
          }),
        )
  unfolding take_block
  take_block_lem s page t e positive some_space some_block =
      rw
        (
          ne→== page 0 (λ z. omega (arith, z, positive)),
          e,
          lt→ltb 0 t.current_slab_free_space some_space,
          ne→== t.current_slab_free_block_list 0 (λ z. omega (arith, z, some_block)),
        )
        refl

  -- What `take_block` does on a page that is locked and has a free block
  take_block-Taken :
      (n : ℕ) (s : Slab P) (kind : ℕ → Option ℕ) (page k : ℕ)
      → Ok n s kind
      → kind page ≡ some k
      → 0 < (s.sticks page).current_slab_free_space
      → Taken n s kind k (take_block (page, locked s page))
  unfolding take_block
  take_block-Taken n s kind page k ok e some_space = go old.free refl
    where
      old : PageOk s page k
      old = ok.pages page k e

      go : (l : List ℕ) → old.free ≡ l → Taken n s kind k (take_block (page, locked s page))
      go [] empty = absurd (omega (arith, some_space, old.space, ap (length {0}) empty))
      go (block ∷ left) whole =
          let stick = s.sticks page in
          let was : Blocks s page k (block ∷ left) = subst (Blocks s page k) whole old.blocks in
          let after_stick : Stick = record stick {
            slab_lock = 0;
            current_slab_free_block_list = s.next_free stick.current_slab_free_block_list;
            current_slab_free_space = stick.current_slab_free_space - 1;
          } in
          let after = write_stick s page after_stick in
          let at = update_self s.sticks page after_stick in
          let now : Blocks after page k left = record {
            linked =
                subst (λ h. Linked s.next_free h left)
                  (ap s.next_free (sym was.linked.0)
                    ∙ sym (ap (λ (t : Stick). t.current_slab_free_block_list) at))
                  was.linked.2;
            slots = was.slots.1;
            different = was.different.1;
          } in
          let changed : Changed s after page = record {
            own = refl;
            lock = ap (λ (t : Stick). t.slab_lock) at;
            next = ap (λ (t : Stick). t.next_slab_stick) at;
            sticks = λ q ne. update_ne s.sticks page q after_stick ne;
            words = λ x out. refl;
          } in
          record {
            page = page;
            block = block;
            left = left;
            after = after;
            result =
                take_block_lem (locked s page) page (record stick { slab_lock = 1 })
                  (update_self s.sticks page _) old.positive some_space
                  (omega (arith, was.linked.0, was.linked.1))
                ∙ ap (λ t. done (stick.current_slab_free_block_list, t))
                    (write_twice s page _ after_stick)
                ∙ ap (λ b. done (b, after)) was.linked.0;
            of_kind = e;
            was = was;
            few = omega (arith, old.few, ap (length {0}) whole);
            now = now;
            changed = changed;
            pool = refl;
            ok =
                Changed-Ok n s after kind page k e
                  (record {
                    class = old.class;
                    start = old.start;
                    positive = old.positive;
                    free = left;
                    blocks = now;
                    space =
                        ap (λ (t : Stick). t.current_slab_free_space) at
                        ∙ omega (arith, old.space, ap (length {0}) whole);
                    few = omega (arith, old.few, ap (length {0}) whole);
                  })
                  changed ok;
          }

  -- With all lists shorter than the fuel, `find_the_free_space_in_slab` takes a free block of the size
  -- that is asked for from a page of the processor, or returns NULL and changes nothing when none of
  -- its pages has one.
  pub find-Taken :
      (fuel cpu k : ℕ) (s : Slab P) (kind : ℕ → Option ℕ)
      → Ok fuel s kind
      → Class k
      → Taken fuel s kind k (find_the_free_space_in_slab (suc fuel) cpu k s)
        ⊎ ((find_the_free_space_in_slab (suc fuel) cpu k s ≡ done (0, s))
            × ((c : Chain fuel s kind cpu k) × All
                  (λ p. (s.sticks p).current_slab_free_space ≡ 0)
                  c.chain))
  unfolding find_the_free_space_in_slab find_the_avaliable_page_in_slab_and_lock FoundPage
      take_block
  find-Taken fuel cpu k s kind ok class =
      let c = ok.chains cpu k class in
      elim (find_page_from-FoundPage (λ p. kind p ≡ some k) (suc fuel) _ s c.chain
        (λ q e. ok.unlocked q k e) c.linked c.kinds (omega (arith, c.short))) [
          | inl (page, r, e, some_space, positive) ↦
              inl (rw r (take_block-Taken fuel s kind page k ok e some_space))
          | inr (r, none_free) ↦ inr (ap (λ m. m >>= take_block) r ∙ refl, (c, none_free))
        ]
