-- ===== src/Klib.antt =====
-- klib, src/string.c of abstract-machine/klib: functions on memory and on strings. Memory is a byte
-- at each address; an address 0 is NULL. The loops up to a '\0' have fuel.
pub mod Copy
pub mod Str
pub mod Compare
mod Tests
use jyy_os.Prelude.{
  ℕ, zero, suc, ◌+◌, ◌-◌, ◌%◌, ◌^◌, not, ◌&&◌, if◌then◌else◌, ltb, ◌==◌, update, Outcome, done,
  panic, stuck, assert, ◌>>=◌, ◌>>◌,
}

-- The loop of `memset`, with `n` bytes left
unfoldable pub set_bytes : ℕ → ℕ → ℕ → (ℕ → ℕ) → ℕ → ℕ
set_bytes zero p c m = m
set_bytes (suc n) p c m = set_bytes n (p + 1) c (update m p (c % 2 ^ 8))

unfoldable pub memset : ℕ → ℕ → ℕ → (ℕ → ℕ) → Outcome (ℕ → ℕ)
memset s c n m = assert (not (s == 0)) >> done (set_bytes n s c m)

-- The loop of `memcpy`, and that of `memmove` upwards
unfoldable pub copy_bytes : ℕ → ℕ → ℕ → (ℕ → ℕ) → ℕ → ℕ
copy_bytes zero dst src m = m
copy_bytes (suc n) dst src m = copy_bytes n (dst + 1) (src + 1) (update m dst (m src))

unfoldable pub memcpy : ℕ → ℕ → ℕ → (ℕ → ℕ) → Outcome (ℕ → ℕ)
memcpy out src n m = assert (not (out == 0) && not (src == 0)) >> done (copy_bytes n out src m)

-- The other loop of `memmove`, from `i` on, which counts up as well; `left` is how far `i` is from
-- the largest int, beyond which `++i` is undefined.
unfoldable pub move_up : ℕ → ℕ → ℕ → ℕ → (ℕ → ℕ) → Outcome (ℕ → ℕ)
move_up zero i dst src m = panic
move_up (suc left) i dst src m = move_up left (i + 1) dst src (update m (dst + i) (m (src + i)))

-- `memmove` for `n` below 2 ^ 31, which fits into its `int i`.
unfoldable pub memmove : ℕ → ℕ → ℕ → (ℕ → ℕ) → Outcome (ℕ → ℕ)
memmove dst src n m =
    assert (not (dst == 0) && not (src == 0))
    >> (if ltb src dst
        then (if n == 0 then done m else move_up (2 ^ 31 - n) (n - 1) dst src m)
        else done (copy_bytes n dst src m))

unfoldable pub strlen_from : ℕ → ℕ → ℕ → (ℕ → ℕ) → Outcome ℕ
strlen_from zero p len m = stuck
strlen_from (suc n) p len m =
    let rest = strlen_from n (p + 1) (len + 1) m in if m p == 0 then done len else rest

unfoldable pub strlen : ℕ → ℕ → (ℕ → ℕ) → Outcome ℕ
strlen fuel s m = assert (not (s == 0)) >> strlen_from fuel s 0 m

unfoldable pub strncpy : ℕ → ℕ → ℕ → (ℕ → ℕ) → Outcome (ℕ → ℕ)
strncpy dst src n m =
    assert (not (dst == 0) && not (src == 0)) >> done (update (copy_bytes n dst src m) (dst + n) 0)

unfoldable pub strcpy : ℕ → ℕ → ℕ → (ℕ → ℕ) → Outcome (ℕ → ℕ)
strcpy fuel dst src m =
    assert (not (dst == 0) && not (src == 0)) >> strlen fuel src m >>= λ n. strncpy dst src n m

unfoldable pub strcat : ℕ → ℕ → ℕ → (ℕ → ℕ) → Outcome (ℕ → ℕ)
strcat fuel dst src m = assert (not (dst == 0) && not (src == 0)) >> strlen fuel dst m >>= λ n.
    strcpy fuel (dst + n) src m

-- The difference of two signed chars, as the bits of an int
abbrev pub sub_chars : ℕ → ℕ → ℕ
sub_chars a b = (sign a + 2 ^ 32 - sign b) % 2 ^ 32
  where
    sign : ℕ → ℕ
    sign c = if ltb c 128 then c else c + 2 ^ 32 - 2 ^ 8

-- The loop of `memcmp` and of `strncmp`
unfoldable pub compare_bytes : ℕ → ℕ → ℕ → (ℕ → ℕ) → ℕ
compare_bytes zero p q m = 0
compare_bytes (suc n) p q m =
    let rest = compare_bytes n (p + 1) (q + 1) m in
    if m p == m q then rest else sub_chars (m p) (m q)

unfoldable pub memcmp : ℕ → ℕ → ℕ → (ℕ → ℕ) → Outcome ℕ
memcmp s1 s2 n m = assert (not (s1 == 0) && not (s2 == 0)) >> done (compare_bytes n s1 s2 m)

unfoldable pub strncmp : ℕ → ℕ → ℕ → (ℕ → ℕ) → Outcome ℕ
strncmp s1 s2 n m = assert (not (s1 == 0) && not (s2 == 0)) >> done (compare_bytes n s1 s2 m)

unfoldable pub strcmp : ℕ → ℕ → ℕ → (ℕ → ℕ) → Outcome ℕ
strcmp fuel s1 s2 m = assert (not (s1 == 0) && not (s2 == 0)) >> strlen fuel s1 m >>= λ len1.
    strlen fuel s2 m >>= λ len2. strncmp s1 s2 ((if ltb len1 len2 then len1 else len2) + 1) m
