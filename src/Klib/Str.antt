-- ===== src/Klib/Str.antt =====
-- Strings in memory: `strlen`, `strcpy` and `strcat`.
use mathlib.Core.Path.{subst}
use jyy_os.Prelude.{
  ℕ, zero, suc, ◌+◌, ◌≤◌, ◌<◌, ◌≡◌, ◌≢◌, ◌⊎◌, inl, inr, ◌∙◌, refl, ap, sym, List, [], ◌∷◌, ◌++◌,
  length, ==_iff, ne→==, update, update_self, update_ne, done, arith,
}
use jyy_os.Klib.{copy_bytes, strlen_from, strlen, strncpy, strcpy, strcat}
use jyy_os.Klib.Copy.{copy-beside, copy-inside}

-- The characters of the list stand from `p` on, none of them '\0', with a '\0' behind them.
abbrev pub Str : (ℕ → ℕ) → ℕ → List ℕ → Type 0
Str m p [] = m p ≡ 0
Str m p (c ∷ l) = (m p ≡ c) × (c ≢ 0) × Str m (p + 1) l

-- A string of which no byte changed
pub Str-same :
    (m m' : ℕ → ℕ) (p : ℕ) (l : List ℕ)
    → ((x : ℕ) → p ≤ x → x ≤ p + length l → m' x ≡ m x)
    → Str m p l
    → Str m' p l
Str-same m m' p [] same s = same p (omega arith) (omega arith) ∙ s
Str-same m m' p (c ∷ l) same s = (
  same p (omega arith) (omega arith) ∙ s.0,
  s.1,
  Str-same m m' (p + 1) l (λ x lo hi. same x (omega (arith, lo)) (omega (arith, hi))) s.2,
)

strlen_from-Str :
    (fuel p len : ℕ) (m : ℕ → ℕ) (l : List ℕ)
    → Str m p l
    → length l < fuel
    → strlen_from fuel p len m ≡ done (len + length l)
unfolding strlen_from
strlen_from-Str zero p len m l s enough = absurd (omega (arith, enough))
strlen_from-Str (suc n) p len m [] s enough = rw ((==_iff (m p) 0).1 s) (ap done (omega arith))
strlen_from-Str (suc n) p len m (c ∷ l) s enough =
    let rest = strlen_from-Str n (p + 1) (len + 1) m l s.2 (omega (arith, enough)) in
    let on : len + 1 + length l ≡ len + suc (length l) = omega arith in
    rw (ne→== (m p) 0 (λ e. s.1 (sym s.0 ∙ e))) (rest ∙ ap (λ (k : ℕ). done k) on)

-- With fuel for the characters of the string and its '\0', `strlen` is their number.
pub strlen-Str :
    (fuel p : ℕ) (m : ℕ → ℕ) (l : List ℕ)
    → 0 < p
    → Str m p l
    → length l < fuel
    → strlen fuel p m ≡ done (length l)
unfolding strlen
strlen-Str fuel p m l hp s enough =
    rw (ne→== p 0 (λ e. omega (arith, e, hp)))
      (strlen_from-Str fuel p 0 m l s enough ∙ ap (λ (k : ℕ). done k) (omega arith))

-- A string behind another makes a longer one.
join :
    (m : ℕ → ℕ) (m' : ℕ → ℕ) (p : ℕ) (l r : List ℕ)
    → Str m p l
    → ((x : ℕ) → p ≤ x → x < p + length l → m' x ≡ m x)
    → Str m' (p + length l) r
    → Str m' p (l ++ r)
join m m' p [] r s same t = subst (λ x. Str m' x r) (omega arith) t
join m m' p (c ∷ l) r s same t = (
  same p (omega arith) (omega arith) ∙ s.0,
  s.1,
  join m m' (p + 1) l r s.2 (λ x lo hi. same x (omega (arith, lo)) (omega (arith, hi)))
      (subst (λ x. Str m' x r) (omega arith) t),
)

-- Copied bytes with a '\0' behind them are a string.
copied :
    (m m' : ℕ → ℕ) (dst src : ℕ) (l : List ℕ)
    → Str m src l
    → ((i : ℕ) → i < length l → m' (dst + i) ≡ m (src + i))
    → m' (dst + length l) ≡ 0
    → Str m' dst l
copied m m' dst src [] s same e = ap m' (omega arith) ∙ e
copied m m' dst src (c ∷ l) s same e = (
  ap m' (omega arith) ∙ same 0 (omega arith) ∙ ap m (omega arith) ∙ s.0,
  s.1,
  copied m m' (dst + 1) (src + 1) l s.2
      (λ i lt. ap m' (omega arith) ∙ same (suc i) (omega (arith, lt)) ∙ ap m (omega arith))
      (ap m' (omega arith) ∙ e),
)

-- Copy a string to bytes apart from it, with fuel for its length: the string is there then, and the
-- bytes beside it are as before.
pub strcpy-Str :
    (fuel dst src : ℕ) (m : ℕ → ℕ) (l : List ℕ)
    → 0 < dst
    → 0 < src
    → Str m src l
    → (dst + length l < src) ⊎ (src + length l < dst)
    → length l < fuel
    → (m' : ℕ → ℕ) × (strcpy fuel dst src m ≡ done m')
      × Str m' dst l
      × ((x : ℕ) → (x < dst) ⊎ (dst + length l < x) → m' x ≡ m x)
unfolding strcpy strncpy
strcpy-Str fuel dst src m l hd hs s apart enough = (
  m',
  rw
      (
        ne→== dst 0 (λ e. omega (arith, e, hd)),
        ne→== src 0 (λ e. omega (arith, e, hs)),
        strlen-Str fuel src m l hs s enough,
      )
      refl,
  copied m m' dst src l s
      (λ i lt.
        update_ne copy (dst + length l) (dst + i) 0 (λ e. omega (arith, e, lt))
        ∙ copy-inside (length l) dst src m i
            (elim apart [ inl a ↦ inl (omega (arith, a)) | inr a ↦ inr (omega (arith, a)) ]) lt)
      (update_self copy (dst + length l) 0),
  λ x out.
      update_ne copy (dst + length l) x 0
        (λ e. elim out [ inl a ↦ omega (arith, a, e) | inr a ↦ omega (arith, a, e) ])
      ∙ copy-beside (length l) dst src m x
          (elim out [ inl a ↦ inl a | inr a ↦ inr (omega (arith, a)) ]),
)
  where
    copy : ℕ → ℕ
    copy = copy_bytes (length l) dst src m

    m' : ℕ → ℕ
    m' = update copy (dst + length l) 0

-- Append a string to another, when the bytes of the one and of the result are apart and the fuel is
-- enough for both: the result is the one string behind the other, and the bytes from its end on, and
-- those before the first string, are as before, so that the appended string is still in its place.
pub strcat-Str :
    (fuel dst src : ℕ) (m : ℕ → ℕ) (l r : List ℕ)
    → 0 < dst
    → 0 < src
    → Str m dst l
    → Str m src r
    → (dst + length l + length r < src) ⊎ (src + length r < dst)
    → length l < fuel
    → length r < fuel
    → (m' : ℕ → ℕ) × (strcat fuel dst src m ≡ done m')
      × Str m' dst (l ++ r)
      × Str m' src r
      × ((x : ℕ) → (x < dst) ⊎ (dst + length l + length r < x) → m' x ≡ m x)
unfolding strcat
strcat-Str fuel dst src m l r hd hs sl sr apart el er =
    let c =
      strcpy-Str fuel (dst + length l) src m r (omega (arith, hd)) hs sr
        (elim apart [ inl a ↦ inl a | inr a ↦ inr (omega (arith, a)) ]) er in
    (
      c.0,
      rw
          (
            ne→== dst 0 (λ e. omega (arith, e, hd)),
            ne→== src 0 (λ e. omega (arith, e, hs)),
            strlen-Str fuel dst m l hd sl el,
          )
          c.1,
      join m c.0 dst l r sl (λ x lo hi. c.3 x (inl hi)) c.2,
      Str-same m c.0 src r
          (λ x lo hi. c.3 x (elim apart [
            | inl a ↦ inr (omega (arith, a, lo))
            | inr a ↦ inl (omega (arith, a, hi))
          ]))
          sr,
      λ x out. c.3 x (elim out [ inl a ↦ inl (omega (arith, a)) | inr a ↦ inr a ]),
    )
