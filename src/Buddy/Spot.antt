-- ===== src/Buddy/Spot.antt =====
-- Which block a node of the array stands for, and `convert_index_to_addr` of tbma.c.
use jyy_os.Prelude.{
  ℕ, suc, ◌+◌, ◌-◌, ◌*◌, ◌/◌, ◌^◌, ◌≤◌, ◌<◌, ◌≡◌, refl, Bool, true, false, ◌==◌, none, some, leb,
  ◌&&◌, holds_below, holds_below_lem, get_elem?, arith, done, sym, ap,
}
use jyy_os.Align.{wrap64, sub64}
use jyy_os.Buddy.{calculate_addr_helper, convert_index_to_addr, Tree, Area, s_16m, max_node}
use jyy_os.Buddy.Blocks.{size, size_lem, pow-suc_two, pow_pos}

entry_fits : ℕ → Bool
entry_fits n = elim (get_elem? calculate_addr_helper (24 - size n)) [
  | none ↦ false
  | some h ↦ h == 2 ^ (12 - n) && leb h 4096
]

entries_fit : holds_below entry_fits 13 ≡ true
unfolding holds_below entry_fits
entries_fit = refl

-- The table of tbma.c holds the first node of each level.
first_entry :
    (n : ℕ)
    → n < 13
    → (get_elem? calculate_addr_helper (24 - size n) ≡ some (2 ^ (12 - n))) × (2 ^ (12 - n) ≤ 4096)
unfolding entry_fits
first_entry n h = let e = holds_below_lem entry_fits 13 entries_fit n h in ground arith

scale : (x y p q : ℕ) → y ≡ x * 2 → q ≡ 2 * p → y * p ≡ x * q
scale x y p q e f = rw (e, f) (omega arith)

-- The last step of `convert_index_to_addr`: no wrap on the way.
unwrapped :
    (m i f p off : ℕ)
    → f ≤ i
    → i ≤ 8192
    → off ≡ (i - f) * p
    → off < 2 ^ 24
    → m + 2 ^ 24 ≤ 2 ^ 64
    → wrap64 (m + wrap64 (sub64 i f * p)) ≡ m + off
unwrapped m i f p off low high place room fits =
    let e : sub64 i f ≡ i - f = omega arith in rw (e, ← place) (omega arith)

-- Node `i` stands for the block of level `n` at the offset `off` in its area.
pub record Spot (i n off : ℕ) : Type 0 where
  pub level : n < 13
  pub low : 2 ^ (12 - n) ≤ i
  pub high : i < 2 * 2 ^ (12 - n)
  pub place : off ≡ (i - 2 ^ (12 - n)) * 2 ^ size n
  pub room : off + 2 ^ size n ≤ 2 ^ 24

pub Spot-root : Spot 1 12 0
Spot-root = omega arith

pub Spot-pos : {i n off : ℕ} → Spot i n off → 0 < i
Spot-pos {i} {n} s = omega (arith, s.low, pow_pos (12 - n))

first-suc : (n : ℕ) → n < 12 → 2 ^ (12 - n) ≡ 2 * 2 ^ (12 - suc n)
first-suc n h = let e : 12 - n ≡ suc (12 - suc n) = omega arith in rw e (pow-suc_two (12 - suc n))

module _ {i n off : ℕ} (s : Spot i (suc n) off) where
  open s use {level, low, high, place, room}

  -- How far the left child is from the first node of its level.
  steps : i * 2 - 2 ^ (12 - n) ≡ (i - 2 ^ (12 - suc n)) * 2
  steps = omega (arith, first-suc n)

  scaled : (i * 2 - 2 ^ (12 - n)) * 2 ^ size n ≡ off
  scaled = omega (
    arith,
    scale (i - 2 ^ (12 - suc n)) (i * 2 - 2 ^ (12 - n)) (2 ^ size n) (2 ^ size (suc n)) steps
        (pow-suc_two (size n)),
  )

  pub Spot-left : Spot (i * 2) n off
  Spot-left = record {
    level = omega arith;
    low = omega (arith, first-suc n);
    high = omega (arith, first-suc n);
    place = sym scaled;
    room = omega (arith, pow-suc_two (size n));
  }

  pub Spot-right : Spot (i * 2 + 1) n (off + 2 ^ size n)
  Spot-right = record {
    level = omega arith;
    low = omega (arith, first-suc n);
    high = omega (arith, first-suc n);
    place = omega (arith, scaled, ap (λ (t : ℕ). t * 2 ^ size n) next);
    room = omega (arith, pow-suc_two (size n));
  }
    where
      next : i * 2 + 1 - 2 ^ (12 - n) ≡ (i * 2 - 2 ^ (12 - n)) + 1
      next = omega (arith, first-suc n)

-- The address at which a tree's area begins, as `convert_index_to_addr` finds it.
abbrev pub mem_of : Area → Tree → ℕ
mem_of area tree =
    wrap64 (area.begin_alloc_addr + sub64 tree.addr area.real_start_addr / max_node * 2 ^ s_16m)

-- For a node of the tree `convert_index_to_addr` returns the address of its block.
pub convert-Spot :
    (area : Area) (tree : Tree) {i n off : ℕ}
    → mem_of area tree + 2 ^ 24 ≤ 2 ^ 64
    → Spot i n off
    → convert_index_to_addr area tree i (size n) ≡ done (mem_of area tree + off)
unfolding convert_index_to_addr
convert-Spot area tree {i} {n} {off} fits s =
    let (entry, small) = first_entry n level in
    let le : i ≤ 8192 = omega arith in
    ground (
      arith,
      entry,
      size_lem n,
      le,
      unwrapped (mem_of area tree) i (2 ^ (12 - n)) (2 ^ size n) off low le place
          (omega (arith, pow_pos (size n))) fits,
    )
  where
    open s use {level, low, high, place, room}

-- Every index is inside the array, which has 8192 bytes.
pub Spot-le : {i n off : ℕ} → Spot i n off → i ≤ 8192
Spot-le {i} {n} s = omega (arith, s.high, first_entry n s.level)
