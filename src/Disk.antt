-- ===== src/Disk.antt =====
-- The disk, kernel/src/dev/dev_sd.c: `sd_read` and `sd_write` over whole blocks. The disk of AM is the
-- byte at each place, of which `blk_read` and `blk_write` move one block; `sd` is the buffer of a block.
-- An `int` and a `uint32_t` stand in 32 bits, and their sums wrap; an `offset` that is negative as an
-- `int` has no place on a disk. A loop has fuel; without an end it is `stuck`.
pub mod Mask
pub mod Places
pub mod Read
pub mod Rounds
mod Tests
use Prim.Native.Nat.{bit_and}
use jyy_os.Prelude.{
  ℕ, zero, suc, ◌+◌, ◌-◌, ◌*◌, ◌/◌, ◌%◌, ◌^◌, ◌&&◌, if◌then◌else◌, ltb, leb, Outcome, done, stuck,
}

-- `memcpy` of `n` bytes to place `d` from place `f` of another array
abbrev pub copied : ℕ → (ℕ → ℕ) → ℕ → (ℕ → ℕ) → ℕ → ℕ → ℕ
copied n dst d src f i = if leb d i && ltb i (d + n) then src (f + (i - d)) else dst i

-- `blk_read` and `blk_write` of block `b`
unfoldable pub blk_read : ℕ → (ℕ → ℕ) → ℕ → (ℕ → ℕ) → ℕ → ℕ
blk_read blksz disk b sd i = if ltb i blksz then disk (b * blksz + i) else sd i

unfoldable pub blk_write : ℕ → (ℕ → ℕ) → ℕ → (ℕ → ℕ) → ℕ → ℕ
blk_write blksz sd b disk x =
    if leb (b * blksz) x && ltb x (b * blksz + blksz) then sd (x - b * blksz) else disk x

abbrev pub sub32 : ℕ → ℕ → ℕ
sub32 a b = (a + 2 ^ 32 - b) % 2 ^ 32

-- `ROUNDDOWN(offset, sd->blksz)`: `offset & ~(blksz - 1)`
abbrev pub round_start : ℕ → ℕ → ℕ
round_start blksz offset = bit_and offset (2 ^ 32 - 1 - sub32 blksz 1)

-- How many bytes a round moves.
abbrev pub round_size : ℕ → ℕ → ℕ → ℕ → ℕ → ℕ
round_size blksz st offset pos count =
    let n = sub32 blksz (sub32 offset st) in
    let left = sub32 count pos in if ltb left n then left else n

-- The loop of `sd_read` with `st`, `offset` and `pos`: what it returns, and what is in the caller's
-- buffer then
unfoldable pub read_rounds :
    ℕ → ℕ → (ℕ → ℕ) → ℕ → ℕ → ℕ → ℕ → (ℕ → ℕ) → (ℕ → ℕ) → Outcome (ℕ × (ℕ → ℕ))
read_rounds zero blksz disk st offset pos count sd buf = stuck
read_rounds (suc fuel) blksz disk st offset pos count sd buf =
    let n = round_size blksz st offset pos count in
    let sd' = blk_read blksz disk (st / blksz) sd in
    let next = (st + blksz) % 2 ^ 32 in
    let rest =
      read_rounds fuel blksz disk next next ((pos + n) % 2 ^ 32) count sd'
        (copied n buf pos sd' (offset - st)) in
    if ltb pos count then rest else done (pos, buf)

unfoldable pub sd_read : ℕ → (ℕ → ℕ) → ℕ → ℕ → (ℕ → ℕ) → (ℕ → ℕ) → Outcome (ℕ × (ℕ → ℕ))
sd_read blksz disk offset count sd buf =
    read_rounds (count + 1) blksz disk (round_start blksz offset) offset 0 count sd buf

-- The loop of `sd_write`: what it returns, and the disk then
unfoldable pub write_rounds :
    ℕ → ℕ → (ℕ → ℕ) → ℕ → ℕ → ℕ → ℕ → (ℕ → ℕ) → (ℕ → ℕ) → Outcome (ℕ × (ℕ → ℕ))
write_rounds zero blksz buf st offset pos count sd disk = stuck
write_rounds (suc fuel) blksz buf st offset pos count sd disk =
    let n = round_size blksz st offset pos count in
    let sd1 = if ltb n blksz then blk_read blksz disk (st / blksz) sd else sd in
    let sd2 = copied n sd1 (offset - st) buf pos in
    let next = (st + blksz) % 2 ^ 32 in
    let rest =
      write_rounds fuel blksz buf next next ((pos + n) % 2 ^ 32) count sd2
        (blk_write blksz sd2 (st / blksz) disk) in
    if ltb pos count then rest else done (pos, disk)

unfoldable pub sd_write : ℕ → (ℕ → ℕ) → ℕ → ℕ → (ℕ → ℕ) → (ℕ → ℕ) → Outcome (ℕ × (ℕ → ℕ))
sd_write blksz buf offset count sd disk =
    write_rounds (count + 1) blksz buf (round_start blksz offset) offset 0 count sd disk
