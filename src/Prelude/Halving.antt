-- ===== src/Prelude/Halving.antt =====
-- Ancestors in a binary tree that is kept in an array: node `i` has the children `i * 2` and
-- `i * 2 + 1`, so the ancestors of an index are its repeated halves.
use jyy_os.Prelude.{ℕ, zero, suc, ◌+◌, ◌*◌, ◌/◌, ◌≤◌, ◌<◌, ◌≡◌, arith, refl}
use native.Mathlib.Decide.{dec_lt}

unfoldable pub halves : ℕ → ℕ → ℕ
halves zero j = j
halves (suc k) j = halves k j / 2

-- `j` is `i` or stands below it.
abbrev pub Under : ℕ → ℕ → Type 0
Under i j = (k : ℕ) × (halves k j ≡ i)

pub Under-self : (i : ℕ) → Under i i
unfolding halves
Under-self i = (0, refl)

pub Under-left : (i j : ℕ) → Under (i * 2) j → Under i j
unfolding halves
Under-left i j (k, e) = (suc k, omega arith)

pub Under-right : (i j : ℕ) → Under (i * 2 + 1) j → Under i j
unfolding halves
Under-right i j (k, e) = (suc k, omega arith)

halves-le : (k l j : ℕ) → k < l → halves l j ≤ halves k j / 2
unfolding halves
halves-le k zero j h = elim h [ ]
halves-le k (suc l) j h = elim (dec_lt k l) [
  | yes p ↦ omega (arith, halves-le k l j p)
  | no p ↦ let e : k ≡ l = omega arith in rw e (omega arith)
]

-- A node is in no subtree of its children, and the children's subtrees are apart.
pub not-Under-left : (i : ℕ) → 0 < i → ¬ Under (i * 2) i
unfolding halves
not-Under-left i h (zero, e) = omega arith
not-Under-left i h (suc k, e) = omega (arith, halves-le 0 (suc k) i (omega arith))

pub not-Under-right : (i : ℕ) → 0 < i → ¬ Under (i * 2 + 1) i
unfolding halves
not-Under-right i h (zero, e) = omega arith
not-Under-right i h (suc k, e) = omega (arith, halves-le 0 (suc k) i (omega arith))

pub Under-apart : (i j : ℕ) → 0 < i → Under (i * 2) j → ¬ Under (i * 2 + 1) j
Under-apart i j h (k, e) (l, e') = elim (dec_lt k l) [
  | yes p ↦ omega (arith, halves-le k l j p)
  | no p ↦ elim (dec_lt l k) [
    | yes q ↦ omega (arith, halves-le l k j q)
    | no q ↦
        let s : k ≡ l = omega arith in let e'' : halves k j ≡ i * 2 + 1 = rw s e' in omega arith
  ]
]
