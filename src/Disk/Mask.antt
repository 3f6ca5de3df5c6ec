-- ===== src/Disk/Mask.antt =====
-- `a & ~(sz - 1)` for a power of two, as ROUNDDOWN of abstract-machine/klib/include/klib-macros.h
-- takes it with a `uint32_t sz`.
use Prim.Native.Nat.{min, bit_and, bit_and-bitwise, digits}
use native.Mathlib.Numerals.{unary_clauses}
use native.Mathlib.Nat.{div-div-eq-div-mul, zero-div, mul_comm, mul_assoc, pow-suc}
use jyy_os.Prelude.{
  ℕ, zero, suc, ◌+◌, ◌-◌, ◌*◌, ◌/◌, ◌%◌, ◌^◌, ◌≤◌, ◌<◌, ◌≡◌, ◌∙◌, sym, refl, ap, arith,
}

odd_half : (w : ℕ) → 0 < 2 ^ w → ((2 ^ suc w - 1) / 2 ≡ 2 ^ w - 1) × ((2 ^ suc w - 1) % 2 ≡ 1)
odd_half w h = simp unary_clauses (omega arith, omega arith)

even_half :
    (w k : ℕ) → ((2 ^ suc w - 2 ^ suc k) / 2 ≡ 2 ^ w - 2 ^ k) × ((2 ^ suc w - 2 ^ suc k) % 2 ≡ 0)
even_half w k = simp unary_clauses (omega arith, omega arith)

low_digit : (x y : ℕ) → x % 2 ≡ y → min y 1 ≡ y
low_digit x zero e = refl
low_digit x (suc zero) e = refl
low_digit x (suc (suc y)) e = absurd (omega (arith, e))

no_digit : (x : ℕ) → min x 0 ≡ 0
no_digit x = omega arith

low_power : (w a : ℕ) → suc a < 2 ^ suc w → suc a / 2 < 2 ^ w
low_power w a lt = let lt' = simp unary_clauses at lt in omega (arith, lt')

-- The digits of `&` from the lowest one and the digits above it
by_half :
    (n a b upper low : ℕ)
    → b / 2 ≡ upper
    → b % 2 ≡ low
    → digits (λ b. zero) min (suc n) (suc a) b
      ≡ digits (λ b. zero) min n (suc a / 2) upper * 2 + min (suc a % 2) low
by_half n a b upper low e f =
    ap (λ x. digits (λ b. zero) min n (suc a / 2) x * 2 + min (suc a % 2) (b % 2)) e
    ∙ ap (λ x. digits (λ b. zero) min n (suc a / 2) upper * 2 + min (suc a % 2) x) f

digits-mask :
    (n w k a : ℕ)
    → a ≤ n
    → a < 2 ^ w
    → k ≤ w
    → digits (λ b. zero) min n a (2 ^ w - 2 ^ k) ≡ a / 2 ^ k * 2 ^ k
digits-mask zero w k zero h lt le = rw (zero-div (2 ^ k)) (omega arith)
digits-mask zero w k (suc a) h lt le = absurd (omega (arith, h))
digits-mask (suc n) w k zero h lt le = rw (zero-div (2 ^ k)) (omega arith)
digits-mask (suc n) zero k (suc a) h lt le = absurd (omega (arith, lt))
digits-mask (suc n) (suc w) zero (suc a) h lt le =
    let halves = odd_half w (omega (arith, low_power w a lt)) in
    let upper = digits-mask n w 0 (suc a / 2) (omega (arith, h)) (low_power w a lt) (omega arith) in
    by_half n a (2 ^ suc w - 1) _ _ halves.0 halves.1
    ∙ omega (arith, upper, low_digit (suc a) _ refl)
digits-mask (suc n) (suc w) (suc k) (suc a) h lt le =
    let halves = even_half w k in
    let upper =
      digits-mask n w k (suc a / 2) (omega (arith, h)) (low_power w a lt) (omega (arith, le)) in
    let twice : suc a / 2 / 2 ^ k ≡ suc a / (2 ^ k * 2) =
      div-div-eq-div-mul (suc a) 2 (2 ^ k) ∙ ap (λ x. suc a / x) (mul_comm 2 (2 ^ k)) in
    by_half n a (2 ^ suc w - 2 ^ suc k) _ _ halves.0 halves.1
    ∙ omega (arith, upper, no_digit (suc a % 2))
    ∙ mul_assoc (suc a / 2 / 2 ^ k) (2 ^ k) 2
    ∙ ap (λ x. x * (2 ^ k * 2)) twice
    ∙ sym (ap (λ p. suc a / p * p) (pow-suc 2 k))

-- Below 2 ^ w, the bits from number k on are a number without its rest by 2 ^ k.
pub bit_and-mask : (w k a : ℕ) → a < 2 ^ w → k ≤ w → bit_and a (2 ^ w - 2 ^ k) ≡ a / 2 ^ k * 2 ^ k
bit_and-mask w k a lt le =
    bit_and-bitwise a (2 ^ w - 2 ^ k) ∙ digits-mask a w k a (omega arith) lt le
