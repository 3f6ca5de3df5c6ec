-- ===== src/Slab/State.antt =====
-- The slab allocator between two calls.
use mathlib.Core.Path.{subst}
use jyy_os.Prelude.{
  ℕ, ◌+◌, ◌-◌, ◌%◌, ◌≤◌, ◌<◌, ◌≡◌, ◌≢◌, ◌⊎◌, inl, inr, ◌∙◌, sym, ap, List, [], ◌∷◌, All, length,
  arith, Option, some, eq-cases, dec_lt,
}
use jyy_os.Slab.{Stick, Slab}
use jyy_os.Slab.Classes.{Class, numbers}
use jyy_os.Slab.Lists.{Linked, Linked-same, Slot}
use jyy_os.Slab.Fresh.{Blocks, All-map}

pub everywhere {ℓ κ} : {A : Type ℓ} (F : A → Type κ) (l : List A) → ((x : A) → F x) → All F l
everywhere F [] f = tt
everywhere F (x ∷ l) f = (f x, everywhere F l f)

-- The blocks of a page are inside it.
pub slot_inside : (page k x : ℕ) → Class k → Slot page k x → (page < x) × (x < page + 4096)
slot_inside page k x c h =
    let n = numbers k c in (omega (arith, h.0), omega (arith, h.1, n.room_for_stick))

module _ {P : Type 0} where
  -- A page of free blocks and blocks that are in use.
  pub record PageOk (s : Slab P) (page k : ℕ) : Type 0 where
    pub class : Class k
    pub start : page % 4096 ≡ 0
    pub positive : 0 < page
    pub free : List ℕ
    pub blocks : Blocks s page k free
    pub space : (s.sticks page).current_slab_free_space ≡ length free
    pub few : length free ≤ 127

  abbrev pub next_of : Slab P → ℕ → ℕ
  next_of s q = (s.sticks q).next_slab_stick

  -- The pages of blocks of 2 ^ k bytes of a processor
  pub record Chain (n : ℕ) (s : Slab P) (kind : ℕ → Option ℕ) (cpu k : ℕ) : Type 0 where
    pub chain : List ℕ
    pub linked : Linked (next_of s) (s.cpu_own_area cpu (k - 5)) chain
    pub kinds : All (λ p. kind p ≡ some k) chain
    pub short : length chain ≤ n

  -- `kind` names the pages of the allocator, with the size of their blocks; the list of a processor
  -- has at most `n` pages for each size; and none of these pages is locked.
  pub record Ok (n : ℕ) (s : Slab P) (kind : ℕ → Option ℕ) : Type 0 where
    pub unlocked : (q k : ℕ) → kind q ≡ some k → (s.sticks q).slab_lock ≡ 0
    pub pages : (p k : ℕ) → kind p ≡ some k → PageOk s p k
    pub chains : (cpu k : ℕ) → Class k → Chain n s kind cpu k

  pub Blocks-same :
      (s s' : Slab P) (page k : ℕ) (l : List ℕ)
      → Class k
      → s'.sticks page ≡ s.sticks page
      → ((x : ℕ) → page < x → x < page + 4096 → s'.next_free x ≡ s.next_free x)
      → Blocks s page k l
      → Blocks s' page k l
  Blocks-same s s' page k l class e words b = record {
    linked =
        subst (λ (t : Stick). Linked s'.next_free t.current_slab_free_block_list l) (sym e)
          (Linked-same s.next_free s'.next_free (s.sticks page).current_slab_free_block_list l
            (All-map (Slot page k) (λ x. s'.next_free x ≡ s.next_free x) l
              (λ x h. let i = slot_inside page k x class h in words x i.0 i.1) b.slots)
            b.linked);
    slots = b.slots;
    different = b.different;
  }

  pub PageOk-same :
      (s s' : Slab P) (page k : ℕ)
      → s'.sticks page ≡ s.sticks page
      → ((x : ℕ) → page < x → x < page + 4096 → s'.next_free x ≡ s.next_free x)
      → PageOk s page k
      → PageOk s' page k
  PageOk-same s s' page k e words ok = record {
    class = ok.class;
    start = ok.start;
    positive = ok.positive;
    free = ok.free;
    blocks = Blocks-same s s' page k ok.free ok.class e words ok.blocks;
    space = ap (λ (t : Stick). t.current_slab_free_space) e ∙ ok.space;
    few = ok.few;
  }

  -- `s'` is `s` but for the stick and the blocks of one page.
  pub record Changed (s s' : Slab P) (page : ℕ) : Type 0 where
    pub own : s'.cpu_own_area ≡ s.cpu_own_area
    pub lock : (s'.sticks page).slab_lock ≡ 0
    pub next : next_of s' page ≡ next_of s page
    pub sticks : (q : ℕ) → page ≢ q → s'.sticks q ≡ s.sticks q
    pub words : (x : ℕ) → (x ≤ page) ⊎ (page + 4096 ≤ x) → s'.next_free x ≡ s.next_free x

  -- Other pages are apart from it.
  pub apart_words :
      (s s' : Slab P) (page q : ℕ)
      → ((x : ℕ) → (x ≤ page) ⊎ (page + 4096 ≤ x) → s'.next_free x ≡ s.next_free x)
      → page % 4096 ≡ 0
      → q % 4096 ≡ 0
      → page ≢ q
      → (x : ℕ) → q < x
      → x < q + 4096
      → s'.next_free x ≡ s.next_free x
  apart_words s s' page q words h h' ne x lo hi = words x (elim (dec_lt page q) [
    | yes lt ↦ inr (omega (arith, h, h', lt, lo))
    | no ge ↦ inl (omega (arith, h, h', ge, ne, hi))
  ])

  pub Changed-Ok :
      (n : ℕ) (s s' : Slab P) (kind : ℕ → Option ℕ) (page k : ℕ)
      → kind page ≡ some k
      → PageOk s' page k
      → Changed s s' page
      → Ok n s kind
      → Ok n s' kind
  Changed-Ok n s s' kind page k e page_ok c ok = record {
    unlocked = λ q j f. elim (eq-cases page q) [
      | inl y ↦ subst (λ x. (s'.sticks x).slab_lock ≡ 0) y.0 c.lock
      | inr y ↦ ap (λ (t : Stick). t.slab_lock) (c.sticks q y.0) ∙ ok.unlocked q j f
    ];
    pages = λ q j f. elim (eq-cases page q) [
      | inl y ↦
          let one : some k ≡ some j = sym e ∙ ap kind y.0 ∙ f in
          let same : k ≡ j = cc in
          subst (λ x. PageOk s' q x) same (subst (λ x. PageOk s' x k) y.0 page_ok)
      | inr y ↦
          let old = ok.pages q j f in
          PageOk-same s s' q j (c.sticks q y.0)
            (apart_words s s' page q c.words page_ok.start old.start y.0) old
    ];
    chains = λ cpu j class.
        let old = ok.chains cpu j class in
        record {
          chain = old.chain;
          linked =
              subst (λ (own : ℕ → ℕ → ℕ). Linked (next_of s') (own cpu (j - 5)) old.chain)
                (sym c.own)
                (Linked-same (next_of s) (next_of s') (s.cpu_own_area cpu (j - 5)) old.chain
                  (everywhere (λ q. next_of s' q ≡ next_of s q) old.chain
                    (λ q. elim (eq-cases page q) [
                      | inl y ↦ subst (λ x. next_of s' x ≡ next_of s x) y.0 c.next
                      | inr y ↦ ap (λ (t : Stick). t.next_slab_stick) (c.sticks q y.0)
                    ]))
                  old.linked);
          kinds = old.kinds;
          short = old.short;
        };
  }
