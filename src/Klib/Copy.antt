-- ===== src/Klib/Copy.antt =====
-- What the loops of klib write.
use jyy_os.Prelude.{
  ℕ, zero, suc, ◌+◌, ◌-◌, ◌^◌, ◌≤◌, ◌<◌, ◌≡◌, ◌⊎◌, inl, inr, ◌∙◌, refl, ap, lt→ltb, le→ltb, ne→==,
  eq-cases, dec_lt, update, update_self, update_ne, done, panic, arith,
}
use jyy_os.Klib.{copy_bytes, move_up, memmove}

-- The bytes beside the `n` that are written stay.
pub copy-beside :
    (n dst src : ℕ) (m : ℕ → ℕ) (x : ℕ) → (x < dst) ⊎ (dst + n ≤ x) → copy_bytes n dst src m x ≡ m x
unfolding copy_bytes
copy-beside zero dst src m x out = refl
copy-beside (suc n) dst src m x out =
    copy-beside n (dst + 1) (src + 1) (update m dst (m src)) x
      (elim out [ inl lt ↦ inl (omega (arith, lt)) | inr le ↦ inr (omega (arith, le)) ])
    ∙ update_ne m dst x (m src)
        (λ e. elim out [ inl lt ↦ omega (arith, lt, e) | inr le ↦ omega (arith, le, e) ])

-- Copied upwards, the bytes arrive as they were, when the first is not moved up into the others.
pub copy-inside :
    (n dst src : ℕ) (m : ℕ → ℕ) (i : ℕ)
    → (dst ≤ src) ⊎ (src + n ≤ dst)
    → i < n
    → copy_bytes n dst src m (dst + i) ≡ m (src + i)
unfolding copy_bytes
copy-inside zero dst src m i way lt = absurd (omega (arith, lt))
copy-inside (suc n) dst src m zero way lt =
    ap (copy_bytes n (dst + 1) (src + 1) (update m dst (m src))) (omega arith)
    ∙ copy-beside n (dst + 1) (src + 1) (update m dst (m src)) dst (inl (omega arith))
    ∙ update_self m dst (m src)
    ∙ ap m (omega arith)
copy-inside (suc n) dst src m (suc i) way lt =
    ap (copy_bytes n (dst + 1) (src + 1) (update m dst (m src))) (omega arith)
    ∙ copy-inside n (dst + 1) (src + 1) (update m dst (m src)) i
        (elim way [ inl le ↦ inl (omega (arith, le)) | inr le ↦ inr (omega (arith, le)) ])
        (omega (arith, lt))
    ∙ ap (update m dst (m src)) (omega arith)
    ∙ update_ne m dst (src + suc i) (m src)
        (λ e. elim way [ inl le ↦ omega (arith, le, e) | inr le ↦ omega (arith, le, e, lt) ])

move_up-panic : (left i dst src : ℕ) (m : ℕ → ℕ) → move_up left i dst src m ≡ panic
unfolding move_up
move_up-panic zero i dst src m = refl
move_up-panic (suc left) i dst src m =
    move_up-panic left (i + 1) dst src (update m (dst + i) (m (src + i)))

-- `memmove` of `n` bytes, fewer than 2 ^ 31, between addresses that are not NULL. To the same or a lower
-- address, or with no byte, it returns; then the bytes arrive as they were, however the ranges overlap,
-- and no other byte changes. To a higher address, with a byte or more, it never returns: its index
-- counts up past the largest int.
pub memmove_lem :
    (dst src n : ℕ) (m : ℕ → ℕ)
    → 0 < dst
    → 0 < src
    → (((dst ≤ src) ⊎ (n ≡ 0))
        × ((m' : ℕ → ℕ) × (memmove dst src n m ≡ done m')
            × ((i : ℕ) → i < n → m' (dst + i) ≡ m (src + i))
            × ((x : ℕ) → (x < dst) ⊎ (dst + n ≤ x) → m' x ≡ m x)))
      ⊎ ((src < dst) × (0 < n) × (memmove dst src n m ≡ panic))
unfolding memmove
memmove_lem dst src n m hd hs = elim (dec_lt src dst) [
  | no le ↦ inl (
    inl (omega (arith, le)),
    (
      copy_bytes n dst src m,
      rw
          (
            ne→== dst 0 (λ e. omega (arith, e, hd)),
            ne→== src 0 (λ e. omega (arith, e, hs)),
            le→ltb src dst (omega (arith, le)),
          )
          refl,
      (λ i lt. copy-inside n dst src m i (inl (omega (arith, le))) lt),
      λ x out. copy-beside n dst src m x out,
    ),
  )
  | yes lt ↦ elim (eq-cases n 0) [
    | inl z ↦ inl (
      inr z.0,
      (
        m,
        rw
            (
              ne→== dst 0 (λ e. omega (arith, e, hd)),
              ne→== src 0 (λ e. omega (arith, e, hs)),
              lt→ltb src dst lt,
              z.1,
            )
            refl,
        (λ i l. absurd (omega (arith, l, z.0))),
        λ x out. refl,
      ),
    )
    | inr z ↦ inr (
      lt,
      omega (arith, z.0),
      rw
          (
            ne→== dst 0 (λ e. omega (arith, e, hd)),
            ne→== src 0 (λ e. omega (arith, e, hs)),
            lt→ltb src dst lt,
            z.1,
            move_up-panic (2 ^ 31 - n) (n - 1) dst src m,
          )
          refl,
    )
  ]
]
