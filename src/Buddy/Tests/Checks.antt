-- ===== src/Buddy/Tests/Checks.antt =====
-- Tests that decide whether the nodes of a tree stand for a block.
use jyy_os.Prelude.{ℕ, ◌+◌, ◌*◌, ◌≡◌, arith, Bool, true, false, inr, zero, suc, ◌==◌, ◌&&◌, ltb}
use jyy_os.Buddy.Rep.{AllFree, Rep, FreeBelow, Unmerged}
use jyy_os.Buddy.{larger}
use jyy_os.Buddy.Blocks.{Block, free, used, split, size}

unfoldable pub all_free? : (ℕ → ℕ) → ℕ → ℕ → Bool
all_free? t i zero = t i == size zero
all_free? t i (suc n) =
    (t i == size (suc n)) && (all_free? t (i * 2) n && all_free? t (i * 2 + 1) n)

pub all_free?_sound : (t : ℕ → ℕ) (i n : ℕ) → all_free? t i n ≡ true → AllFree t i n
unfolding all_free?
all_free?_sound t i zero h = ground arith
all_free?_sound t i (suc n) h = (
  ground arith,
  all_free?_sound t (i * 2) n (ground arith),
  all_free?_sound t (i * 2 + 1) n (ground arith),
)

below_free? : (ℕ → ℕ) → ℕ → ℕ → Bool
unfolding all_free?
below_free? t i zero = true
below_free? t i (suc n) = all_free? t (i * 2) n && all_free? t (i * 2 + 1) n

unmerged? : Block → Block → Bool
unmerged? free free = false
unmerged? l r = true

unmerged?_sound : (l r : Block) → unmerged? l r ≡ true → Unmerged l r
unfolding unmerged?
unmerged?_sound free free h = cc
unmerged?_sound free used h = tt
unmerged?_sound free (split x y) h = tt
unmerged?_sound used r h = tt
unmerged?_sound (split x y) r h = tt

unfoldable pub rep? : (ℕ → ℕ) → ℕ → ℕ → Block → Bool
unfolding all_free? below_free? unmerged?
rep? t i n free = all_free? t i n
rep? t i n used = (t i == 0) && below_free? t i n
rep? t i zero (split l r) = false
rep? t i (suc n) (split l r) =
    (rep? t (i * 2) n l && rep? t (i * 2 + 1) n r)
    && ((ltb 0 (t i) && (t i == larger (t (i * 2)) (t (i * 2 + 1)))) && unmerged? l r)

below_free?_sound : (t : ℕ → ℕ) (i n : ℕ) → below_free? t i n ≡ true → FreeBelow t i n
unfolding below_free?
below_free?_sound t i zero h = tt
below_free?_sound t i (suc n) h =
    (all_free?_sound t (i * 2) n (ground arith), all_free?_sound t (i * 2 + 1) n (ground arith))

pub rep?_sound : (t : ℕ → ℕ) (i n : ℕ) (b : Block) → rep? t i n b ≡ true → Rep t i n b
unfolding rep?
rep?_sound t i n free h = all_free?_sound t i n h
rep?_sound t i n used h = (ground arith, below_free?_sound t i n (ground arith))
rep?_sound t i zero (split l r) h = cc
rep?_sound t i (suc n) (split l r) h = (
  rep?_sound t (i * 2) n l (ground arith),
  rep?_sound t (i * 2 + 1) n r (ground arith),
  (ground arith, inr (ground arith)),
  unmerged?_sound l r (ground arith),
)
