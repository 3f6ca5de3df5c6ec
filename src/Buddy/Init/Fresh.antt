-- ===== src/Buddy/Init/Fresh.antt =====
-- What `bbma_init` of tbma.c leaves: every tree wholly free, and as many as the memory holds.
use jyy_os.Prelude.{
  ℕ, zero, suc, ◌+◌, ◌-◌, ◌*◌, ◌^◌, ◌≤◌, ◌<◌, ◌≡◌, refl, Bool, true, false, none, some, ◌==◌, ◌∙◌,
  ap, sym, ne→==, if◌then◌else◌, get_elem?, update, update_self, update_ne, done, arith,
  holds_below, holds_below_lem,
}
use native.Mathlib.Nat.{pow-le-pow_right}
use native.Mathlib.Decide.{ℕ_discrete}
use jyy_os.Buddy.{addr_helper, calculate_addr_helper}
use jyy_os.Buddy.Blocks.{size, size_lem, pow-suc_two}
use jyy_os.Buddy.Spot.{Spot, Spot-left, Spot-right, Spot-root}
use jyy_os.Buddy.Rep.{AllFree}
use jyy_os.Buddy.Init.{fill, fill_levels, initialize_tree}

fill_outside : (n i v : ℕ) (t : ℕ → ℕ) (j : ℕ) → j < i → fill n i v t j ≡ t j
unfolding fill
fill_outside zero i v t j h = refl
fill_outside (suc n) i v t j h =
    fill_outside n (i + 1) v (update t i v) j (omega arith) ∙ update_ne t i j v (omega arith)

fill_inside : (n i v : ℕ) (t : ℕ → ℕ) (j : ℕ) → i ≤ j → j < i + n → fill n i v t j ≡ v
unfolding fill
fill_inside zero i v t j lo hi = absurd (omega arith)
fill_inside (suc n) i v t j lo hi = elim (ℕ_discrete i j) [
  | yes e ↦ fill_outside n (i + 1) v (update t i v) j (omega arith) ∙ rw e (update_self t j v)
  | no ne ↦ fill_inside n (i + 1) v (update t i v) j (omega arith) (omega arith)
]

-- The levels above level `k` of the array hold their sizes.
LevelsDone : ℕ → (ℕ → ℕ) → Type 0
LevelsDone k t = (l j : ℕ) → l < k → 2 ^ l ≤ j → j < 2 ^ suc l → t j ≡ 24 - l

pow_mono : (a b : ℕ) → a ≤ b → 2 ^ a ≤ 2 ^ b
pow_mono a b h = pow-le-pow_right (omega arith) h

stand_fits : ℕ → Bool
stand_fits i = elim (get_elem? calculate_addr_helper i) [ none ↦ false | some h ↦ h == 2 ^ i ]

stands_fit : holds_below stand_fits 13 ≡ true
unfolding holds_below stand_fits
stands_fit = refl

stand_of : (i : ℕ) → i < 13 → addr_helper i ≡ done (2 ^ i)
unfolding stand_fits
stand_of i h = let e = holds_below_lem stand_fits 13 stands_fit i h in ground arith

-- One level is filled, and those above it stay.
level_filled :
    (i : ℕ) (t : ℕ → ℕ)
    → LevelsDone i t
    → LevelsDone (i + 1) (fill (2 ^ suc i - 2 ^ i) (2 ^ i) (24 - i) t)
unfolding LevelsDone
level_filled i t before l j h lo hi = elim (ℕ_discrete l i) [
  | yes e ↦
      fill_inside _ (2 ^ i) (24 - i) t j (rw e at lo)
        (omega (arith, rw e at hi, pow_mono i (suc i)))
      ∙ ap (λ k. 24 - k) (sym e)
  | no ne ↦
      fill_outside _ (2 ^ i) (24 - i) t j (omega (arith, pow_mono (suc l) i))
      ∙ before l j (omega arith) lo hi
]

LevelsDone-none : (t : ℕ → ℕ) → LevelsDone 0 t
unfolding LevelsDone
LevelsDone-none t l j h lo hi = absurd (omega arith)

next_stand :
    (i : ℕ) → i < 13 → (if i == 12 then done 8192 else addr_helper (i + 1)) ≡ done (2 ^ suc i)
next_stand i h = elim (ℕ_discrete i 12) [
  | yes e ↦ rw e
  | no ne ↦
      rw (ne→== i 12 ne) (stand_of (i + 1) (omega arith) ∙ ap (λ k. done (2 ^ k)) (omega arith))
]

levels_filled :
    (n i : ℕ) (t : ℕ → ℕ)
    → i + n ≡ 13
    → LevelsDone i t
    → (t' : ℕ → ℕ) × (fill_levels n i (24 - i) t ≡ done t') × LevelsDone 13 t'
unfolding fill_levels
levels_filled zero i t e before = (t, refl, let q : i ≡ 13 = omega arith in rw q at before)
levels_filled (suc n) i t e before =
    let next : (if i == 12 then done 8192 else addr_helper (i + 1)) ≡ done (2 ^ suc i) =
      next_stand i (omega arith) in
    let size_next : 24 - i - 1 ≡ 24 - (i + 1) = omega arith in
    rw (stand_of i (omega arith), next, size_next)
      (levels_filled n (i + 1) _ (omega arith) (level_filled i t before))

top_entry : (t : ℕ → ℕ) → LevelsDone 13 t → (n i off : ℕ) → Spot i n off → t i ≡ size n
unfolding LevelsDone
top_entry t d n i off s =
    d (12 - n) i (omega arith) s.low (omega (arith, s.high, pow-suc_two (12 - n)))
    ∙ omega (arith, s.level, size_lem n)

-- A tree after `initialize_tree`: every block is free.
filled-AllFree : (t : ℕ → ℕ) → LevelsDone 13 t → (n i off : ℕ) → Spot i n off → AllFree t i n
filled-AllFree t d zero i off s = top_entry t d zero i off s
filled-AllFree t d (suc n) i off s = (
  top_entry t d (suc n) i off s,
  filled-AllFree t d n (i * 2) off (Spot-left s),
  filled-AllFree t d n (i * 2 + 1) _ (Spot-right s),
)

pub initialize_tree_lem :
    (t : ℕ → ℕ) → (t' : ℕ → ℕ) × (initialize_tree t ≡ done t') × AllFree t' 1 12
unfolding initialize_tree
initialize_tree_lem t =
    let (t', e, d) = levels_filled 13 0 t refl (LevelsDone-none t) in
    (t', e, filled-AllFree t' d 12 1 0 Spot-root)
