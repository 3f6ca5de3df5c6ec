-- ===== src/Klib/Compare.antt =====
-- `strcmp` says whether two strings are equal.
use jyy_os.Prelude.{
  ℕ, zero, suc, ◌+◌, ◌^◌, ◌<◌, ◌≡◌, ◌≢◌, ◌⊎◌, inl, inr, ◌∙◌, refl, ap, sym, List, [], ◌∷◌, length,
  eq-cases, dec_lt, ==_iff, ne→==, ltb, lt→ltb, le→ltb, if◌then◌else◌, done, arith,
}
use jyy_os.Klib.{sub_chars, compare_bytes, strncmp, strcmp}
use jyy_os.Klib.Str.{Str, strlen-Str}

-- Different bytes have a difference.
sub_chars-ne : (a b : ℕ) → a < 2 ^ 8 → b < 2 ^ 8 → a ≢ b → sub_chars a b ≢ 0
sub_chars-ne a b ha hb ne e = ground (arith, ha, hb, ne, e)

-- The comparison of one byte more than the shorter of two strings has
compare-Str :
    (n p q : ℕ) (m : ℕ → ℕ) (l r : List ℕ)
    → ((x : ℕ) → m x < 2 ^ 8)
    → Str m p l
    → Str m q r
    → (n ≡ length l + 1) ⊎ (n ≡ length r + 1)
    → ((compare_bytes n p q m ≡ 0) × (l ≡ r)) ⊎ ((compare_bytes n p q m ≢ 0) × (l ≢ r))
unfolding compare_bytes
compare-Str zero p q m l r bytes s t size =
    absurd (elim size [ inl e ↦ omega (arith, e) | inr e ↦ omega (arith, e) ])
compare-Str (suc n) p q m [] [] bytes s t size =
    let none_left : n ≡ 0 = elim size [ inl e ↦ omega (arith, e) | inr e ↦ omega (arith, e) ] in
    inl (rw ((==_iff (m p) (m q)).1 (s ∙ sym t), none_left) refl, refl)
compare-Str (suc n) p q m [] (d ∷ r) bytes s t size =
    let ne : m p ≢ m q = λ e. t.1 (sym t.0 ∙ sym e ∙ s) in
    inr (rw (ne→== (m p) (m q) ne) (sub_chars-ne (m p) (m q) (bytes p) (bytes q) ne), λ e. cc)
compare-Str (suc n) p q m (c ∷ l) [] bytes s t size =
    let ne : m p ≢ m q = λ e. s.1 (sym s.0 ∙ e ∙ t) in
    inr (rw (ne→== (m p) (m q) ne) (sub_chars-ne (m p) (m q) (bytes p) (bytes q) ne), λ e. cc)
compare-Str (suc n) p q m (c ∷ l) (d ∷ r) bytes s t size = elim (eq-cases (m p) (m q)) [
  | inr y ↦ inr (
    rw y.1 (sub_chars-ne (m p) (m q) (bytes p) (bytes q) y.0),
    λ e. let h : c ≡ d = cc in y.0 (s.0 ∙ h ∙ sym t.0),
  )
  | inl y ↦
      let cd : c ≡ d = sym s.0 ∙ y.0 ∙ t.0 in
      elim (compare-Str n (p + 1) (q + 1) m l r bytes s.2 t.2
        (elim size [ inl e ↦ inl (omega (arith, e)) | inr e ↦ inr (omega (arith, e)) ])) [
          | inl (e, f) ↦ inl (rw y.1 e, ap (λ x. x ∷ l) cd ∙ ap (λ k. d ∷ k) f)
          | inr (e, f) ↦ inr (rw y.1 e, λ h. f (cc))
        ]
]

-- Compare two strings in a memory of bytes, with fuel for the length of each: `strcmp` returns, and what
-- it returns is 0 when the strings are equal, and not 0 when they differ.
pub strcmp-Str :
    (fuel p q : ℕ) (m : ℕ → ℕ) (l r : List ℕ)
    → 0 < p
    → 0 < q
    → ((x : ℕ) → m x < 2 ^ 8)
    → Str m p l
    → Str m q r
    → length l < fuel
    → length r < fuel
    → (c : ℕ) × (strcmp fuel p q m ≡ done c) × (((c ≡ 0) × (l ≡ r)) ⊎ ((c ≢ 0) × (l ≢ r)))
unfolding strcmp strncmp
strcmp-Str fuel p q m l r hp hq bytes s t el er =
    let n : ℕ = (if ltb (length l) (length r) then length l else length r) + 1 in
    let size : (n ≡ length l + 1) ⊎ (n ≡ length r + 1) = elim (dec_lt (length l) (length r)) [
      | yes lt ↦ inl (rw (lt→ltb (length l) (length r) lt) refl)
      | no ge ↦ inr (rw (le→ltb (length l) (length r) (omega (arith, ge))) refl)
    ] in
    (
      compare_bytes n p q m,
      rw
          (
            ne→== p 0 (λ e. omega (arith, e, hp)),
            ne→== q 0 (λ e. omega (arith, e, hq)),
            strlen-Str fuel p m l hp s el,
            strlen-Str fuel q m r hq t er,
          )
          refl,
      compare-Str n p q m l r bytes s t size,
    )
