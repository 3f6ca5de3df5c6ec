-- ===== src/Klib/Tests.antt =====
-- Runs of the functions of klib.
use jyy_os.Prelude.{
  ℕ, ◌+◌, ◌^◌, ◌≤◌, ◌<◌, ◌≡◌, ◌≢◌, ◌⊎◌, inl, refl, List, [], ◌∷◌, ◌++◌, if◌then◌else◌, ◌==◌, done,
  panic, arith,
}
use jyy_os.Klib.{memmove, strcat, strcmp}
use jyy_os.Klib.Copy.{memmove_lem}
use jyy_os.Klib.Str.{Str, strcat-Str}
use jyy_os.Klib.Compare.{strcmp-Str}

-- "ab" at 100 and "c" at 200
abbrev memory : ℕ → ℕ
memory x = if x == 100 then 97 else if x == 101 then 98 else if x == 200 then 99 else 0

abbrev ab : List ℕ
ab = 97 ∷ (98 ∷ [])

abbrev just_c : List ℕ
just_c = 99 ∷ []

ab-Str : Str memory 100 ab
ab-Str = (refl, (λ e. omega (arith, e)), (refl, (λ e. omega (arith, e)), refl))

c-Str : Str memory 200 just_c
c-Str = (refl, (λ e. omega (arith, e)), refl)

memory_bytes : (x : ℕ) → memory x < 2 ^ 8
memory_bytes x = ground arith

memmove_example :
    (((99 ≤ 100) ⊎ (◌≡◌ {A = ℕ} 2 0))
      × ((m' : ℕ → ℕ) × (memmove 99 100 2 memory ≡ done m')
          × ((i : ℕ) → i < 2 → m' (99 + i) ≡ memory (100 + i))
          × ((x : ℕ) → (x < 99) ⊎ (99 + 2 ≤ x) → m' x ≡ memory x)))
    ⊎ ((100 < 99) × (0 < 2) × (memmove 99 100 2 memory ≡ panic))
memmove_example = memmove_lem 99 100 2 memory (omega arith) (omega arith)

strcat-Str_example :
    (m' : ℕ → ℕ) × (strcat 8 100 200 memory ≡ done m')
    × Str m' 100 (ab ++ just_c)
    × Str m' 200 just_c
    × ((x : ℕ) → (x < 100) ⊎ (100 + 2 + 1 < x) → m' x ≡ memory x)
strcat-Str_example =
    strcat-Str 8 100 200 memory ab just_c (omega arith) (omega arith) ab-Str c-Str
      (inl (omega arith)) (omega arith) (omega arith)

strcmp-Str_example :
    (c : ℕ) × (strcmp 8 100 200 memory ≡ done c)
    × (((c ≡ 0) × (ab ≡ just_c)) ⊎ ((c ≢ 0) × (ab ≢ just_c)))
strcmp-Str_example =
    strcmp-Str 8 100 200 memory ab just_c (omega arith) (omega arith) memory_bytes ab-Str c-Str
      (omega arith) (omega arith)
