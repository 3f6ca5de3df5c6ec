-- ===== src/Disk/Places.antt =====
-- The rounds of dev_sd.c: which bytes of which block a round moves, and where the next begins.
use jyy_os.Disk.Mask.{bit_and-mask}
use Prim.Native.Nat.{bit_and}
use native.Mathlib.Nat.{div-add-mod', mod-lt, mul-div_cancel, suc-mul, one-le-pow, pow-le-pow_right}
use jyy_os.Prelude.{
  ℕ, suc, ◌+◌, ◌-◌, ◌*◌, ◌/◌, ◌%◌, ◌^◌, ◌≤◌, ◌<◌, ◌≡◌, ◌⊎◌, inl, inr, ◌∙◌, refl, ap, sym, ltb,
  if◌then◌else◌, dec_lt, arith,
}
use jyy_os.Disk.{sub32, round_start, round_size}

-- A round of a read or a write: `st` is the start of block `block`, which has the byte at `offset`,
-- and no sum wraps.
pub record Round (blksz st offset pos count : ℕ) : Type 0 where
  pub start : st / blksz * blksz ≡ st
  pub back : st ≤ offset
  pub near : offset < st + blksz
  pub some_bytes : 0 < round_size blksz st offset pos count
  pub ends :
      (pos + round_size blksz st offset pos count ≡ count)
      ⊎ (offset + round_size blksz st offset pos count ≡ st + blksz)
  pub inside : offset + round_size blksz st offset pos count ≤ st + blksz
  pub within : pos + round_size blksz st offset pos count ≤ count
  pub next_st : (st + blksz) % 2 ^ 32 ≡ st + blksz
  pub next_pos :
      (pos + round_size blksz st offset pos count) % 2 ^ 32
      ≡ pos + round_size blksz st offset pos count

round :
    (blksz block st offset pos count : ℕ)
    → 0 < blksz
    → st ≡ block * blksz
    → st ≤ offset
    → offset < st + blksz
    → pos < count
    → offset + blksz + (count - pos) ≤ 2 ^ 31
    → count ≤ 2 ^ 31
    → Round blksz st offset pos count
round blksz block st offset pos count hb at back near lt small few = record {
  start = ap (λ x. x / blksz * blksz) at ∙ ap (λ x. x * blksz) (mul-div_cancel block hb) ∙ sym at;
  back = back;
  near = near;
  some_bytes = rw size (ground arith);
  ends = rw size (ground arith);
  inside = rw size (ground arith);
  within = rw size (ground arith);
  next_st = omega arith;
  next_pos = rw size (ground arith);
}
  where
    size :
        round_size blksz st offset pos count
        ≡ (if ltb (count - pos) (blksz - (offset - st)) then count - pos else blksz - (offset - st))
    size =
        let a : sub32 offset st ≡ offset - st = omega arith in
        let b : sub32 blksz (offset - st) ≡ blksz - (offset - st) = omega arith in
        let c : sub32 count pos ≡ count - pos = omega arith in rw (a, b, c) refl

-- A round at `pos` begins at the place `first + pos`, in the block that starts at `st`.
pub record Place (blksz first pos st offset : ℕ) : Type 0 where
  pub here : offset ≡ first + pos
  pub block : ℕ
  pub start : st ≡ block * blksz
  pub back : st ≤ offset
  pub near : offset < st + blksz

pub Place-Round :
    (blksz first pos st offset count : ℕ)
    → 0 < blksz
    → first + count + blksz ≤ 2 ^ 31
    → pos < count
    → Place blksz first pos st offset
    → Round blksz st offset pos count
Place-Round blksz first pos st offset count hb small lt p =
    round blksz p.block st offset pos count hb p.start p.back p.near lt
      (omega (arith, small, lt, p.here)) (omega (arith, small))

-- The next round, if there is one, begins at the start of the next block.
pub next-Place :
    (blksz first pos st offset count : ℕ)
    → 0 < blksz
    → Place blksz first pos st offset
    → (r : Round blksz st offset pos count) → pos + round_size blksz st offset pos count < count
    → Place blksz first (pos + round_size blksz st offset pos count) (st + blksz) (st + blksz)
next-Place blksz first pos st offset count hb p r lt = record {
  here = elim r.ends [ inl e ↦ absurd (omega (arith, e, lt)) | inr e ↦ omega (arith, e, p.here) ];
  block = suc p.block;
  start = omega (arith, p.start, suc-mul p.block blksz);
  back = omega arith;
  near = omega (arith, hb);
}

-- `ROUNDDOWN` for blocks of a power of two
pub first-Place :
    (k first : ℕ) → first + 2 ^ k ≤ 2 ^ 31 → Place (2 ^ k) first 0 (round_start (2 ^ k) first) first
first-Place k first small =
    let positive : 0 < 2 ^ k = one-le-pow k 2 (omega arith) in
    let short : k ≤ 32 = elim (dec_lt 32 k) [
      | no small_enough ↦ omega (arith, small_enough)
      | yes large ↦
          let huge : 2 ^ 33 ≤ 2 ^ k = pow-le-pow_right (omega arith) large in
          absurd (omega (arith, huge, small))
    ] in
    let mask : 2 ^ 32 - 1 - sub32 (2 ^ k) 1 ≡ 2 ^ 32 - 2 ^ k = omega (arith, positive, small) in
    let start : round_start (2 ^ k) first ≡ first / 2 ^ k * 2 ^ k =
      ap (bit_and first) mask ∙ bit_and-mask 32 k first (omega (arith, small)) short in
    record {
      here = omega arith;
      block = first / 2 ^ k;
      start = start;
      back = omega (arith, start, div-add-mod' first (2 ^ k));
      near = omega (arith, start, div-add-mod' first (2 ^ k), mod-lt first positive);
    }
