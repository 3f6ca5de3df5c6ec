-- ===== src/Uproc/Areas/Order.antt =====
-- The areas of a task stay in order and apart: `get_suitable_addr` of uproc.c finds a place that
-- `insert_vme_node` accepts.
use jyy_os.Prelude.{
  ℕ, ◌+◌, ◌-◌, ◌*◌, ◌/◌, ◌^◌, ◌≤◌, ◌<◌, ◌≡◌, ◌⊎◌, inl, inr, refl, List, [], ◌∷◌, arith, leb, leb→le,
  leb→lt, Bool-cases, All,
}
use native.Mathlib.Nat.{div-mul-le_self, le-div_iff_mul-le, mul-le-mul_right, div-add-mod'}
use jyy_os.Align.{wrap64}
use jyy_os.Uproc.Areas.{Area, round_down, round_up, suitable_from}

-- Areas in the order of their addresses, from `lo` on, none empty and none touching another's bytes.
abbrev pub InOrder : ℕ → List Area → Type 0
InOrder lo [] = Unit
InOrder lo (c ∷ rest) = (lo ≤ c.vm_start) × (c.vm_start < c.vm_end) × InOrder c.vm_end rest

-- The bytes from `addr` up to `end_addr` are in none of the areas.
abbrev pub Clear : ℕ → ℕ → List Area → Type 0
Clear addr end_addr = All (λ c. (end_addr ≤ c.vm_start) ⊎ (c.vm_end ≤ addr))

pub InOrder-weaken : (lo hi : ℕ) (areas : List Area) → lo ≤ hi → InOrder hi areas → InOrder lo areas
InOrder-weaken lo hi [] h o = tt
InOrder-weaken lo hi (c ∷ rest) h o = (omega (arith, o.0), o.1, o.2)

-- Everything below the first area is clear.
pub Clear-below :
    (addr end_addr lo : ℕ) (areas : List Area)
    → end_addr ≤ lo
    → InOrder lo areas
    → Clear addr end_addr areas
Clear-below addr end_addr lo [] h o = tt
Clear-below addr end_addr lo (c ∷ rest) h o = (
  inl (omega (arith, o.0)),
  Clear-below addr end_addr c.vm_end rest (omega (arith, o.0, o.1)) o.2,
)

-- The end of `length` bytes from `addr` on, rounded up to a page
abbrev pub place_end : ℕ → ℕ → ℕ → ℕ
place_end pgsize length addr = round_up (wrap64 (addr + length)) pgsize

round_down_mono : (a b sz : ℕ) → 0 < sz → a ≤ b → round_down a sz ≤ round_down b sz
round_down_mono a b sz pos h =
    let below : a / sz * sz ≤ b = omega (arith, div-mul-le_self a sz, h) in
    let fewer : a / sz * sz ≤ b / sz * sz = mul-le-mul_right sz ((le-div_iff_mul-le pos).1 below) in
    omega (arith, fewer, div-add-mod' a sz, div-add-mod' b sz)

-- A place behind another ends at its end or behind it.
pub place_end_mono :
    (pgsize length a b : ℕ)
    → 0 < pgsize
    → a ≤ b
    → b + length + pgsize ≤ 2 ^ 64
    → place_end pgsize length a ≤ place_end pgsize length b
place_end_mono pgsize length a b pos h small =
    round_down_mono (wrap64 (wrap64 (a + length) + pgsize - 1))
      (wrap64 (wrap64 (b + length) + pgsize - 1)) pgsize pos (omega (arith, pos, h, small))

-- What the loop gives: the first place from `addr` on with `length` bytes clear of the areas, and the
-- end of those bytes.
pub record Suitable (pgsize length addr : ℕ) (areas : List Area) (r : ℕ × ℕ) : Type 0 where
  pub size : r.1 ≡ place_end pgsize length r.0
  pub above : addr ≤ r.0
  pub clear : Clear r.0 r.1 areas
  pub least :
      (p : ℕ)
      → addr ≤ p
      → p < r.0
      → p + length + pgsize ≤ 2 ^ 64
      → ¬ (Clear p (place_end pgsize length p) areas)

pub suitable_from-Suitable :
    (pgsize length lo : ℕ) (areas : List Area) (addr end_addr : ℕ)
    → 0 < pgsize
    → InOrder lo areas
    → end_addr ≡ place_end pgsize length addr
    → Suitable pgsize length addr areas (suitable_from pgsize length areas addr end_addr)
unfolding suitable_from
suitable_from-Suitable pgsize length lo [] addr end_addr pos o e = record {
  size = e;
  above = omega arith;
  clear = tt;
  least = λ p from to small cl. absurd (omega (arith, from, to));
}
suitable_from-Suitable pgsize length lo (c ∷ rest) addr end_addr pos o e =
    elim (Bool-cases (leb end_addr c.vm_start)) [
      | inl before ↦ rw before (record {
        size = e;
        above = omega arith;
        clear = (
          inl (leb→le _ _ before),
          Clear-below addr end_addr c.vm_end rest (omega (arith, leb→le _ _ before, o.1)) o.2,
        );
        least = λ p from to small cl. absurd (omega (arith, from, to));
      })
      | inr reaches ↦ rw reaches (elim (Bool-cases (leb c.vm_end addr)) [
        | inl passed ↦ rw passed (
            let s = suitable_from-Suitable pgsize length c.vm_end rest addr end_addr pos o.2 e in
            record {
              size = s.size;
              above = s.above;
              clear = (inr (omega (arith, s.above, leb→le _ _ passed)), s.clear);
              least = λ p from to small cl. s.least p from to small cl.1;
            })
        | inr meets ↦ rw meets (
            let s =
              suitable_from-Suitable pgsize length c.vm_end rest c.vm_end
                (place_end pgsize length c.vm_end) pos o.2 refl in
            record {
              size = s.size;
              above = omega (arith, s.above, leb→lt _ _ meets);
              clear = (inr s.above, s.clear);
              least = λ p from to small cl. elim cl.0 [
                | inr behind ↦ s.least p behind to small cl.1
                | inl in_front ↦ omega (
                  arith,
                  in_front,
                  leb→lt _ _ reaches,
                  e,
                  place_end_mono pgsize length addr p pos from small,
                )
              ];
            })
      ])
    ]
