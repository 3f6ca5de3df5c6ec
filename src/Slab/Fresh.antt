-- ===== src/Slab/Fresh.antt =====
-- `initialize_a_slab_new_page` links all blocks of the page.
use native.Mathlib.Nat.{suc-mul, add-mod_right}
use mathlib.Core.Path.{subst}
use jyy_os.Prelude.{
  ℕ, zero, suc, ◌+◌, ◌-◌, ◌*◌, ◌/◌, ◌%◌, ◌^◌, ◌≤◌, ◌<◌, ◌≡◌, ◌≢◌, ◌⊎◌, inl, inr, ◌∙◌, refl, sym, ap,
  List, [], ◌∷◌, All, length, update, update_ne, update_self, arith, le→leb, true, done,
}
use jyy_os.Align.{is_align_to}
use jyy_os.Slab.{Stick, Slab, link_blocks, write_stick, initialize_a_slab_new_page}
use jyy_os.Slab.Classes.{Class, numbers}
use jyy_os.Slab.Lists.{Linked, Linked-update, Different, Slot}

-- The free blocks of a page, of 2 ^ k bytes each.
pub record Blocks {P : Type 0} (s : Slab P) (page k : ℕ) (l : List ℕ) : Type 0 where
  pub linked : Linked s.next_free (s.sticks page).current_slab_free_block_list l
  pub slots : All (Slot page k) l
  pub different : Different l

-- `s'` is `s` but for the free list of the page, and the words from `lo` to the end of the page.
pub record Inside {P : Type 0} (s s' : Slab P) (page lo : ℕ) : Type 0 where
  pub pool : s'.pool ≡ s.pool
  pub own : s'.cpu_own_area ≡ s.cpu_own_area
  pub lock : (s'.sticks page).slab_lock ≡ (s.sticks page).slab_lock
  pub next : (s'.sticks page).next_slab_stick ≡ (s.sticks page).next_slab_stick
  pub space : (s'.sticks page).current_slab_free_space ≡ (s.sticks page).current_slab_free_space
  pub sticks : (q : ℕ) → page ≢ q → s'.sticks q ≡ s.sticks q
  pub words : (x : ℕ) → (x < lo) ⊎ (page + 4096 ≤ x) → s'.next_free x ≡ s.next_free x

pub All-map {ℓ κ} :
    {A : Type ℓ} (F G : A → Type κ) (l : List A) → ((x : A) → F x → G x) → All F l → All G l
All-map F G [] f a = a
All-map F G (x ∷ l) f a = (f x a.0, All-map F G l f a.1)

module _ {P : Type 0} (page k : ℕ) (some_bytes : 0 < 2 ^ k) where
  pub link_blocks-Blocks :
      (n addr : ℕ) (s : Slab P) (l : List ℕ)
      → Blocks s page k l
      → All (λ x. x < addr) l
      → page + 32 ≤ addr
      → addr % 2 ^ k ≡ 0
      → addr + n * 2 ^ k ≤ page + 4096
      → (l' : List ℕ) × Blocks (link_blocks n k page addr s) page k l'
        × (length l' ≡ n + length l)
        × Inside s (link_blocks n k page addr s) page addr
  unfolding link_blocks
  link_blocks-Blocks zero addr s l b below behind start fits = (
    l,
    b,
    omega arith,
    record {
      pool = refl;
      own = refl;
      lock = refl;
      next = refl;
      space = refl;
      sticks = λ q ne. refl;
      words = λ x out. refl;
    },
  )
  link_blocks-Blocks (suc n) addr s l b below behind start fits =
      let stick = s.sticks page in
      let s1 : Slab P = record s {
        next_free = update s.next_free addr stick.current_slab_free_block_list;
        sticks = update s.sticks page (record stick { current_slab_free_block_list = addr });
      } in
      let at = update_self s.sticks page (record stick { current_slab_free_block_list = addr }) in
      let not_in : All (λ x. addr ≢ x) l =
        All-map (λ x. x < addr) (λ x. addr ≢ x) l (λ x lt e. omega (arith, lt, e)) below in
      let b1 : Blocks s1 page k (addr ∷ l) = record {
        linked = (
          ap (λ (t : Stick). t.current_slab_free_block_list) at,
          omega (arith, behind),
          subst (λ h. Linked (update s.next_free addr stick.current_slab_free_block_list) h l)
              (sym (update_self s.next_free addr stick.current_slab_free_block_list))
              (Linked-update s.next_free addr stick.current_slab_free_block_list
                stick.current_slab_free_block_list l not_in b.linked),
        );
        slots = ((behind, omega (arith, fits, suc-mul n (2 ^ k)), start), b.slots);
        different = (not_in, b.different);
      } in
      let rest =
        link_blocks-Blocks n (addr + 2 ^ k) s1 (addr ∷ l) b1
          (
            omega (arith, some_bytes),
            All-map (λ x. x < addr) (λ x. x < addr + 2 ^ k) l (λ x lt. omega (arith, lt)) below,
          )
          (omega (arith, behind)) (add-mod_right addr (2 ^ k) ∙ start)
          (omega (arith, fits, suc-mul n (2 ^ k))) in
      let i = rest.3 in
      (
        rest.0,
        rest.1,
        omega (arith, rest.2),
        record {
          pool = i.pool;
          own = i.own;
          lock = i.lock ∙ ap (λ (t : Stick). t.slab_lock) at;
          next = i.next ∙ ap (λ (t : Stick). t.next_slab_stick) at;
          space = i.space ∙ ap (λ (t : Stick). t.current_slab_free_space) at;
          sticks = λ q ne.
              i.sticks q ne
              ∙ update_ne s.sticks page q (record stick { current_slab_free_block_list = addr }) ne;
          words = λ x out.
              i.words x (elim out [ inl lt ↦ inl (omega (arith, lt)) | inr le ↦ inr le ])
              ∙ update_ne s.next_free addr x stick.current_slab_free_block_list (λ e. elim out [
                | inl lt ↦ omega (arith, lt, e)
                | inr le ↦ omega (arith, le, e, fits, suc-mul n (2 ^ k), some_bytes)
              ]);
        },
      )

pub is_align_to-page : (page : ℕ) → page % 4096 ≡ 0 → is_align_to page 12 ≡ done true
unfolding is_align_to
is_align_to-page page start = rw start refl

-- A page of the buddy allocator becomes a page of free blocks of 2 ^ k bytes, as many as fit behind
-- the stick; its lock and its place in the list of pages stay.
pub initialize-Blocks :
    {P : Type 0} (page k : ℕ) (s : Slab P)
    → Class k
    → page % 4096 ≡ 0
    → (s' : Slab P) × (l : List ℕ) × (initialize_a_slab_new_page k page s ≡ done s')
      × Blocks s' page k l
      × ((s'.sticks page).current_slab_free_space ≡ length l)
      × ((0 < length l) × (length l ≤ 127))
      × ((s'.sticks page).slab_lock ≡ (s.sticks page).slab_lock)
      × ((s'.sticks page).next_slab_stick ≡ (s.sticks page).next_slab_stick)
      × (s'.pool ≡ s.pool)
      × (s'.cpu_own_area ≡ s.cpu_own_area)
      × ((q : ℕ) → page ≢ q → s'.sticks q ≡ s.sticks q)
      × ((x : ℕ) → (x ≤ page) ⊎ (page + 4096 ≤ x) → s'.next_free x ≡ s.next_free x)
unfolding initialize_a_slab_new_page
initialize-Blocks {P = P} page k s c start =
    let n = numbers k c in
    let space = (4096 - 2 ^ k) / 2 ^ k in
    let s1 : Slab P = write_stick s page (record (s.sticks page) {
      current_slab_free_space = space;
      current_slab_free_block_list = 0;
    }) in
    let at = update_self s.sticks page (record (s.sticks page) {
      current_slab_free_space = space;
      current_slab_free_block_list = 0;
    }) in
    let t =
      link_blocks-Blocks page k (omega (arith, n.room_for_stick)) space (page + 2 ^ k) s1 []
        (record {
          linked = ap (λ (t : Stick). t.current_slab_free_block_list) at;
          slots = tt;
          different = tt;
        })
        tt (omega (arith, n.room_for_stick)) (add-mod_right page (2 ^ k) ∙ n.divides page start)
        (omega (arith, n.whole)) in
    let i = t.3 in
    (
      link_blocks space k page (page + 2 ^ k) s1,
      t.0,
      rw (is_align_to-page page start, le→leb k 11 c.1, n.align, le→leb (2 ^ k) 2048 n.small) refl,
      t.1,
      i.space ∙ ap (λ (t : Stick). t.current_slab_free_space) at ∙ omega (arith, t.2),
      (omega (arith, t.2, n.some_blocks), omega (arith, t.2, n.few_blocks)),
      i.lock ∙ ap (λ (t : Stick). t.slab_lock) at,
      i.next ∙ ap (λ (t : Stick). t.next_slab_stick) at,
      i.pool,
      i.own,
      (λ q ne. i.sticks q ne ∙ update_ne s.sticks page q _ ne),
      λ x out.
          i.words x
            (elim out [ inl le ↦ inl (omega (arith, le, n.room_for_stick)) | inr le ↦ inr le ]),
    )
