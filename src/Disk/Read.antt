-- ===== src/Disk/Read.antt =====
-- What `sd_read` moves.
use native.Mathlib.Nat.{one-le-pow}
use jyy_os.Prelude.{
  ℕ, zero, suc, ◌+◌, ◌-◌, ◌*◌, ◌/◌, ◌^◌, ◌≤◌, ◌<◌, ◌≡◌, ◌∙◌, refl, ap, lt→ltb, le→ltb, le→leb,
  lt→leb, dec_lt, done, arith,
}
use jyy_os.Disk.{copied, blk_read, round_start, round_size, read_rounds, sd_read}
use jyy_os.Disk.Places.{Place, Place-Round, next-Place, first-Place}

-- A byte of an array after `copied`, which is behind the place, before it or in it
pub copied_out : (n d i : ℕ) (dst src : ℕ → ℕ) (f : ℕ) → d + n ≤ i → copied n dst d src f i ≡ dst i
copied_out n d i dst src f out = rw (le→leb d i (omega (arith, out)), le→ltb i (d + n) out) refl

pub copied_before : (n d i : ℕ) (dst src : ℕ → ℕ) (f : ℕ) → i < d → copied n dst d src f i ≡ dst i
copied_before n d i dst src f lt = rw (lt→leb d i lt) refl

pub copied_in :
    (n d i : ℕ) (dst src : ℕ → ℕ) (f : ℕ)
    → d ≤ i
    → i < d + n
    → copied n dst d src f i ≡ src (f + (i - d))
copied_in n d i dst src f le lt = rw (le→leb d i le, lt→ltb i (d + n) lt) refl

-- The bytes of the disk that a round of `sd_read` adds
got_more :
    (blksz b st offset pos n first : ℕ) (disk sd buf : ℕ → ℕ)
    → b * blksz ≡ st
    → st ≤ offset
    → offset + n ≤ st + blksz
    → offset ≡ first + pos
    → ((i : ℕ) → i < pos → buf i ≡ disk (first + i))
    → (i : ℕ) → i < pos + n
    → copied n buf pos (blk_read blksz disk b sd) (offset - st) i ≡ disk (first + i)
unfolding blk_read
got_more blksz b st offset pos n first disk sd buf block back inside here got i lt =
    elim (dec_lt i pos) [
      | yes before ↦
          copied_before n pos i buf (blk_read blksz disk b sd) (offset - st) before ∙ got i before
      | no ge ↦
          copied_in n pos i buf (blk_read blksz disk b sd) (offset - st) (omega (arith, ge)) lt
          ∙ rw (lt→ltb (offset - st + (i - pos)) blksz (omega (arith, ge, lt, inside, back)))
              (ap disk (omega (arith, block, here, back, ge)))
    ]

read_rounds_lem :
    (fuel blksz first st offset pos count : ℕ) (disk sd buf : ℕ → ℕ)
    → 0 < blksz
    → first + count + blksz ≤ 2 ^ 31
    → pos ≤ count
    → (pos < count → Place blksz first pos st offset)
    → count - pos < fuel
    → ((i : ℕ) → i < pos → buf i ≡ disk (first + i))
    → (buf' : ℕ → ℕ) × (read_rounds fuel blksz disk st offset pos count sd buf ≡ done (count, buf'))
      × ((i : ℕ) → i < count → buf' i ≡ disk (first + i))
      × ((i : ℕ) → count ≤ i → buf' i ≡ buf i)
unfolding read_rounds
read_rounds_lem zero blksz first st offset pos count disk sd buf hb small le at enough got =
    absurd (omega (arith, enough))
read_rounds_lem (suc fuel) blksz first st offset pos count disk sd buf hb small le at enough got =
    elim (dec_lt pos count) [
      | no ge ↦ (
        buf,
        rw (le→ltb pos count (omega (arith, ge))) (ap (λ n. done (n, buf)) (omega (arith, ge, le))),
        (λ i lt. got i (omega (arith, lt, ge))),
        λ i out. refl,
      )
      | yes lt ↦
          let p = at lt in
          let r = Place-Round blksz first pos st offset count hb small lt p in
          let n = round_size blksz st offset pos count in
          let sd' = blk_read blksz disk (st / blksz) sd in
          let buf1 = copied n buf pos sd' (offset - st) in
          let rest =
            read_rounds_lem fuel blksz first (st + blksz) (st + blksz) (pos + n) count disk sd' buf1
              hb small r.within (next-Place blksz first pos st offset count hb p r)
              (omega (arith, enough, r.some_bytes, lt))
              (got_more blksz (st / blksz) st offset pos n first disk sd buf r.start r.back r.inside
                p.here got) in
          (
            rest.0,
            rw (lt→ltb pos count lt, r.next_st, r.next_pos) rest.1,
            rest.2,
            λ i out.
                rest.3 i out
                ∙ copied_out n pos i buf sd' (offset - st) (omega (arith, out, r.within, lt)),
          )
    ]

-- Read `count` bytes from `offset` on of a disk of blocks of 2 ^ k bytes, below 2 ^ 31 to the end of
-- the last block: `sd_read` returns `count`, the bytes of the disk are in the caller's buffer, and what
-- is behind them there stays.
pub sd_read_lem :
    (k offset count : ℕ) (disk sd buf : ℕ → ℕ)
    → offset + count + 2 ^ k ≤ 2 ^ 31
    → (buf' : ℕ → ℕ) × (sd_read (2 ^ k) disk offset count sd buf ≡ done (count, buf'))
      × ((i : ℕ) → i < count → buf' i ≡ disk (offset + i))
      × ((i : ℕ) → count ≤ i → buf' i ≡ buf i)
unfolding sd_read
sd_read_lem k offset count disk sd buf small =
    read_rounds_lem (count + 1) (2 ^ k) offset (round_start (2 ^ k) offset) offset 0 count disk sd
      buf (one-le-pow k 2 (omega arith)) small (omega arith)
      (λ lt. first-Place k offset (omega (arith, small))) (omega arith)
      (λ i lt. absurd (omega (arith, lt)))
