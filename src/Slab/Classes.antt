-- ===== src/Slab/Classes.antt =====
-- The seven sizes of slabs: blocks of 32 to 2048 bytes.
use mathlib.Core.Path.{subst}
use jyy_os.Prelude.{
  ℕ, ◌+◌, ◌-◌, ◌*◌, ◌/◌, ◌%◌, ◌^◌, ◌≤◌, ◌<◌, ◌≡◌, ◌≢◌, inl, inr, refl, sym, eq-cases, ◌==◌, done,
  arith,
}
use jyy_os.Align.{align_to, is_align_to}
use jyy_os.Slab.{determine_slab_size, slab_refuse}

-- The exponents of slabs
abbrev pub Class : ℕ → Type 0
Class k = (5 ≤ k) × (k ≤ 11)

-- What holds of each
pub by_class {ℓ} :
    (C : ℕ → Type ℓ) → C 5 → C 6 → C 7 → C 8 → C 9 → C 10 → C 11 → (k : ℕ) → Class k → C k
by_class C c5 c6 c7 c8 c9 c10 c11 k (lo, hi) = elim (eq-cases k 5) [
  | inl e ↦ subst C (sym e.0) c5
  | inr n5 ↦ elim (eq-cases k 6) [
    | inl e ↦ subst C (sym e.0) c6
    | inr n6 ↦ elim (eq-cases k 7) [
      | inl e ↦ subst C (sym e.0) c7
      | inr n7 ↦ elim (eq-cases k 8) [
        | inl e ↦ subst C (sym e.0) c8
        | inr n8 ↦ elim (eq-cases k 9) [
          | inl e ↦ subst C (sym e.0) c9
          | inr n9 ↦ elim (eq-cases k 10) [
            | inl e ↦ subst C (sym e.0) c10
            | inr n10 ↦ subst C (omega (arith, lo, hi, n5.0, n6.0, n7.0, n8.0, n9.0, n10.0)) c11
          ]
        ]
      ]
    ]
  ]
]

-- The numbers of a page of blocks of 2 ^ k bytes. The stick takes the place of one block.
pub record Numbers (k : ℕ) : Type 0 where
  pub align : align_to 32 k ≡ done (2 ^ k)
  pub room_for_stick : 32 ≤ 2 ^ k
  pub small : 2 ^ k ≤ 2 ^ 11
  pub whole : (4096 - 2 ^ k) / 2 ^ k * 2 ^ k + 2 ^ k ≡ 4096
  pub some_blocks : 0 < (4096 - 2 ^ k) / 2 ^ k
  pub few_blocks : (4096 - 2 ^ k) / 2 ^ k < 128
  pub divides : (x : ℕ) → x % 4096 ≡ 0 → x % 2 ^ k ≡ 0
  pub aligned : (x : ℕ) → is_align_to x k ≡ done (x % 2 ^ k == 0)

pub numbers : (k : ℕ) → Class k → Numbers k
unfolding align_to is_align_to
numbers =
    by_class Numbers
      (record {
        align = refl;
        room_for_stick = omega arith;
        small = omega arith;
        whole = refl;
        some_blocks = omega arith;
        few_blocks = omega arith;
        divides = λ x h. omega (arith, h);
        aligned = λ x. refl;
      })
      (record {
        align = refl;
        room_for_stick = omega arith;
        small = omega arith;
        whole = refl;
        some_blocks = omega arith;
        few_blocks = omega arith;
        divides = λ x h. omega (arith, h);
        aligned = λ x. refl;
      })
      (record {
        align = refl;
        room_for_stick = omega arith;
        small = omega arith;
        whole = refl;
        some_blocks = omega arith;
        few_blocks = omega arith;
        divides = λ x h. omega (arith, h);
        aligned = λ x. refl;
      })
      (record {
        align = refl;
        room_for_stick = omega arith;
        small = omega arith;
        whole = refl;
        some_blocks = omega arith;
        few_blocks = omega arith;
        divides = λ x h. omega (arith, h);
        aligned = λ x. refl;
      })
      (record {
        align = refl;
        room_for_stick = omega arith;
        small = omega arith;
        whole = refl;
        some_blocks = omega arith;
        few_blocks = omega arith;
        divides = λ x h. omega (arith, h);
        aligned = λ x. refl;
      })
      (record {
        align = refl;
        room_for_stick = omega arith;
        small = omega arith;
        whole = refl;
        some_blocks = omega arith;
        few_blocks = omega arith;
        divides = λ x h. omega (arith, h);
        aligned = λ x. refl;
      })
      (record {
        align = refl;
        room_for_stick = omega arith;
        small = omega arith;
        whole = refl;
        some_blocks = omega arith;
        few_blocks = omega arith;
        divides = λ x h. omega (arith, h);
        aligned = λ x. refl;
      })

-- The class of a size holds it.
pub determine_slab_size-Class :
    (size : ℕ)
    → determine_slab_size size ≢ slab_refuse
    → Class (determine_slab_size size) × (size ≤ 2 ^ determine_slab_size size)
unfolding determine_slab_size
determine_slab_size-Class size h = ground (arith, h)
