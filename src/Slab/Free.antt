-- ===== src/Slab/Free.antt =====
-- `kfree` between two states of the allocator.
use mathlib.Core.Path.{subst, subst₂}
use jyy_os.Prelude.{
  ℕ, suc, ◌+◌, ◌-◌, ◌%◌, ◌^◌, ◌≤◌, ◌<◌, ◌≡◌, ◌≢◌, inl, inr, ◌∙◌, refl, sym, ap, List, [], ◌∷◌, All,
  length, update, update_ne, update_self, arith, Option, none, some, eq-cases, ne→==, lt→ltb,
  Outcome, done,
}
use jyy_os.Align.{is_align_to}
use jyy_os.Slab.{Stick, Slab, put_block, slab_align_to_4kb, slab_free, kalloc, kfree}
use jyy_os.Slab.Lists.{Linked, Linked-update, Slot}
use jyy_os.Slab.Fresh.{Blocks}
use jyy_os.Slab.State.{slot_inside, PageOk, Blocks-same, Ok, Changed, Changed-Ok, apart_words}
use jyy_os.Slab.Grant.{PageSource, Backed}
use jyy_os.Slab.Service.{slab_alloc-Served}

-- The page of a slot
slot_page : (page b : ℕ) → page % 4096 ≡ 0 → page < b → b < page + 4096 → slab_align_to_4kb b ≡ page
unfolding slab_align_to_4kb
slot_page page b start lo hi = omega arith

module _ {P : Type 0} where
  -- A block was given back to its page, in front of the other free blocks.
  pub record Freed (n : ℕ) (s : Slab P) (kind : ℕ → Option ℕ) (page k b : ℕ) (l : List ℕ)
      (r : Outcome (Slab P)) : Type 0 where
    pub after : Slab P
    pub result : r ≡ done after
    pub ok : Ok n after kind
    pub now : Blocks after page k (b ∷ l)
    pub pool : after.pool ≡ s.pool
    pub others :
        (q j : ℕ) (m : List ℕ) → kind q ≡ some j → page ≢ q → Blocks s q j m → Blocks after q j m

  put_block-Freed :
      (n : ℕ) (s : Slab P) (kind : ℕ → Option ℕ) (page k b : ℕ) (l : List ℕ)
      → Ok n s kind
      → kind page ≡ some k
      → Slot page k b
      → Blocks s page k l
      → (s.sticks page).current_slab_free_space ≡ length l
      → All (λ x. b ≢ x) l
      → length l < 127
      → Freed n s kind page k b l (done (put_block b page s))
  unfolding put_block
  put_block-Freed n s kind page k b l ok e slot blocks space used few = record {
    after = s';
    result = refl;
    ok =
        Changed-Ok n s s' kind page k e
          (record {
            class = old.class;
            start = old.start;
            positive = old.positive;
            free = b ∷ l;
            blocks = now;
            space = ap (λ (t : Stick). t.current_slab_free_space) at ∙ omega (arith, space, few);
            few = few;
          })
          changed ok;
    now = now;
    pool = refl;
    others = λ q j m f ne bl.
        let its = ok.pages q j f in
        Blocks-same s s' q j m its.class (changed.sticks q ne)
          (apart_words s s' page q changed.words old.start its.start ne) bl;
  }
    where
      old : PageOk s page k
      old = ok.pages page k e

      stick : Stick
      stick = s.sticks page

      new_stick : Stick
      new_stick = record stick {
        slab_lock = 0;
        current_slab_free_block_list = b;
        current_slab_free_space = (stick.current_slab_free_space + 1) % 2 ^ 32;
      }

      s' : Slab P
      s' = record s {
        next_free = update s.next_free b stick.current_slab_free_block_list;
        sticks = update s.sticks page new_stick;
      }

      at : s'.sticks page ≡ new_stick
      at = update_self s.sticks page new_stick

      inside : (page < b) × (b < page + 4096)
      inside = slot_inside page k b old.class slot

      now : Blocks s' page k (b ∷ l)
      now = record {
        linked = (
          ap (λ (t : Stick). t.current_slab_free_block_list) at,
          omega (arith, inside.0),
          subst (λ h. Linked s'.next_free h l)
              (sym (update_self s.next_free b stick.current_slab_free_block_list))
              (Linked-update s.next_free b stick.current_slab_free_block_list
                stick.current_slab_free_block_list l used blocks.linked),
        );
        slots = (slot, blocks.slots);
        different = (used, blocks.different);
      }

      changed : Changed s s' page
      changed = record {
        own = refl;
        lock = ap (λ (t : Stick). t.slab_lock) at;
        next = ap (λ (t : Stick). t.next_slab_stick) at;
        sticks = λ q ne. update_ne s.sticks page q new_stick ne;
        words = λ x out. update_ne s.next_free b x stick.current_slab_free_block_list (λ z.
            elim out [
              | inl le ↦ omega (arith, le, z, inside.0)
              | inr le ↦ omega (arith, le, z, inside.1)
            ]);
      }

  -- In a sound state of the slab allocator, free a block of a page that is not among its free blocks
  -- `l`, which are fewer than 127: `kfree` takes it for a slab, fails no assertion and does not
  -- spin; the block is then the first free block of the page, the free blocks of the other pages are
  -- as before, and the state is sound again.
  pub kfree-Freed :
      (bbma_free : P → ℕ → Outcome P) (n : ℕ) (s : Slab P) (kind : ℕ → Option ℕ) (page k b : ℕ)
      (l : List ℕ)
      → Ok n s kind
      → kind page ≡ some k
      → Slot page k b
      → Blocks s page k l
      → (s.sticks page).current_slab_free_space ≡ length l
      → All (λ x. b ≢ x) l
      → length l < 127
      → Freed n s kind page k b l (kfree bbma_free b s)
  unfolding kfree slab_free is_align_to
  kfree-Freed bbma_free n s kind page k b l ok e slot blocks space used few =
      let old = ok.pages page k e in
      let inside = slot_inside page k b old.class slot in
      rw
        (
          ne→== (b % 4096) 0 (λ z. omega (arith, z, inside, old.start)),
          slot_page page b old.start inside.0 inside.1,
          old.start,
          lt→ltb page b inside.0,
          lt→ltb (b - page) 4096 (omega (arith, inside)),
          ok.unlocked page k e,
        )
        (put_block-Freed n s kind page k b l ok e slot blocks space used few)

-- The words link one list only.
Linked-unique :
    (next : ℕ → ℕ) (head : ℕ) (l m : List ℕ) → Linked next head l → Linked next head m → l ≡ m
Linked-unique next head [] [] a b = refl
Linked-unique next head [] (y ∷ m) a b = absurd (omega (arith, a, b.0, b.1))
Linked-unique next head (x ∷ l) [] a b = absurd (omega (arith, b, a.0, a.1))
Linked-unique next head (x ∷ l) (y ∷ m) a b =
    let same : x ≡ y = sym a.0 ∙ b.0 in
    let rest =
      Linked-unique next (next x) l m a.2 (subst (λ z. Linked next (next z) m) (sym same) b.2) in
    ap (λ z. z ∷ l) same ∙ ap (λ t. y ∷ t) rest

module _ {P : Type 0} (alloc : P → ℕ → Outcome (ℕ × P)) (source : PageSource P alloc)
    (bbma_free : P → ℕ → Outcome P) where
  open source use {Ghost}

  -- In a sound state whose pages are owned: what `kalloc` returned for 1 to 2048 bytes, if it is not
  -- NULL, `kfree` takes back without failing an assertion or a spin; the state is sound again, and
  -- every page of the slab allocator has the free blocks that it had before, in the same order.
  pub kfree-kalloc :
      (n cpu size b : ℕ) (s s' : Slab P) (kind : ℕ → Option ℕ) (g : Ghost)
      → Ok n s kind
      → Backed alloc source s kind g
      → 0 < size
      → size ≤ 2048
      → kalloc alloc (suc (suc n)) cpu size s ≡ done (b, s')
      → b ≢ 0
      → (s'' : Slab P) × (kind' : ℕ → Option ℕ) × (kfree bbma_free b s' ≡ done s'')
        × Ok (suc n) s'' kind'
        × ((q j : ℕ) (l : List ℕ) → kind q ≡ some j → Blocks s q j l → Blocks s'' q j l)
  unfolding kalloc
  kfree-kalloc n cpu size b s s' kind g ok backed some_bytes small e not_null =
      let a = slab_alloc-Served alloc source n cpu size s kind g ok backed some_bytes small in
      let k = a.0 in
      elim a.3 [
        | inr (inr z) ↦ let q = sym z.result ∙ e in absurd (cc)
        | inr (inl (none_left, c)) ↦
            let q = sym none_left ∙ e in let z : 0 ≡ b = cc in absurd (not_null (sym z))
        | inl v ↦
            let q : ◌≡◌ {A = Outcome (ℕ × Slab P)} (done (v.block, v.after)) (done (b, s')) =
              sym v.result ∙ e in
            let qb : v.block ≡ b = cc in
            let qs : v.after ≡ s' = cc in
            let mine = v.ok.pages v.page k v.of_kind in
            let same : mine.free ≡ v.left =
              Linked-unique v.after.next_free _ mine.free v.left mine.blocks.linked v.now.linked in
            let f =
              kfree-Freed bbma_free (suc n) v.after v.kind' v.page k v.block v.left v.ok v.of_kind
                v.slot v.now (mine.space ∙ ap (length {0}) same) v.taken v.few in
            (
              f.after,
              v.kind',
              subst₂ (λ x t. kfree bbma_free x t ≡ done f.after) qb qs f.result,
              f.ok,
              λ q j l e b. elim (eq-cases v.page q) [
                | inr y ↦ let o = v.others q j l e y.0 b in f.others q j l o.0 y.0 o.1
                | inl y ↦ elim v.before [
                  | inr fresh ↦ let z : none ≡ some j = sym fresh ∙ ap kind y.0 ∙ e in absurd (cc)
                  | inl old ↦
                      let z : some k ≡ some j = sym old.0 ∙ ap kind y.0 ∙ e in
                      let kj : k ≡ j = cc in
                      let b' : Blocks s v.page k l =
                        subst₂ (λ x i. Blocks s x i l) (sym y.0) (sym kj) b in
                      let whole : v.block ∷ v.left ≡ l =
                        Linked-unique s.next_free _ (v.block ∷ v.left) l old.1.linked b'.linked in
                      subst₂ (λ x i. Blocks f.after x i l) y.0 kj
                        (subst (Blocks f.after v.page k) whole f.now)
                ]
              ],
            )
      ]
