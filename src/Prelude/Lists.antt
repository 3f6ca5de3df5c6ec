-- ===== src/Prelude/Lists.antt =====
-- Lists measured and indexed by native numbers, under the library's names.
use Prim.Native.Nat.{ℕ, zero, suc, ◌+◌}
use mathlib.Core.Path.{◌≡◌}
use mathlib.Core.List.{List, [], ◌∷◌, ◌++◌}
use mathlib.Core.Option.{Option, none, some}
use native.Mathlib.Omega.{arith}

module _ {ℓ} {A : Type ℓ} where
  abbrev pub length : List A → ℕ
  length [] = 0
  length (x ∷ xs) = suc (length xs)

  abbrev pub get_elem? : List A → ℕ → Option A
  get_elem? [] i = none
  get_elem? (x ∷ xs) zero = some x
  get_elem? (x ∷ xs) (suc i) = get_elem? xs i

  pub length-append : (xs ys : List A) → length (xs ++ ys) ≡ length xs + length ys
  length-append [] ys = omega arith
  length-append (x ∷ xs) ys = omega (arith, length-append xs ys)

  -- A predicate by recursion, which the tactics read and build.
  abbrev pub All {κ} : (A → Type κ) → List A → Type κ
  All P [] = Unit
  All P (x ∷ xs) = P x × All P xs

  pub All-append {κ} : (P : A → Type κ) (l r : List A) → All P l → All P r → All P (l ++ r)
  All-append P [] r a b = b
  All-append P (x ∷ l) r a b = (a.0, All-append P l r a.1 b)

  pub All-split {κ} : (P : A → Type κ) (l r : List A) → All P (l ++ r) → All P l × All P r
  All-split P [] r a = (tt, a)
  All-split P (x ∷ l) r a = let h = All-split P l r a.1 in ((a.0, h.0), h.1)

  -- The first `n`, or all when there are fewer
  abbrev pub take : ℕ → List A → List A
  take n [] = []
  take zero (x ∷ l) = []
  take (suc n) (x ∷ l) = x ∷ take n l
