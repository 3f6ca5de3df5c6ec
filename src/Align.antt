-- ===== src/Align.antt =====
-- kernel/src/lock.c, `align_to` and `is_align_to`: addresses rounded up to a power of two.
-- `x & (2^k - 1)` is `x % 2 ^ k`, and `x & ~(2^k - 1)` is `x - x % 2 ^ k`. `1 << align` is an int
-- in the source, so `align` is at most 30 there; the callers pass 5 to 24.
use jyy_os.Prelude.{ℕ, ◌+◌, ◌-◌, ◌%◌, ◌^◌, ◌==◌, Bool, not, if◌then◌else◌, Outcome, done, panic}

-- `uintptr_t` and `unsigned long` arithmetic
abbrev pub wrap64 : ℕ → ℕ
wrap64 x = x % 2 ^ 64

abbrev pub sub64 : ℕ → ℕ → ℕ
sub64 a b = (a + 2 ^ 64 - b) % 2 ^ 64

unfoldable pub align_to : ℕ → ℕ → Outcome ℕ
align_to n align =
    if not (2 ^ align % 2 ^ align == 0)
    then panic
    else (if n % 2 ^ align == 0 then done n else done (wrap64 (n - n % 2 ^ align + 2 ^ align)))

unfoldable pub is_align_to : ℕ → ℕ → Outcome Bool
is_align_to ptr align =
    if not (2 ^ align % 2 ^ align == 0) then panic else done (ptr % 2 ^ align == 0)
