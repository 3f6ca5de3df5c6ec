-- ===== src/Disk/Rounds.antt =====
-- What `sd_write` moves, and `sd_read` behind it.
use native.Mathlib.Nat.{one-le-pow}
use jyy_os.Prelude.{
  ℕ, zero, suc, ◌+◌, ◌-◌, ◌*◌, ◌/◌, ◌^◌, ◌≤◌, ◌<◌, ◌≡◌, ◌⊎◌, inl, inr, ◌∙◌, refl, ap, ltb, lt→ltb,
  le→ltb, le→leb, lt→leb, if◌then◌else◌, dec_lt, done, arith,
}
use jyy_os.Disk.{
  copied, blk_read, blk_write, round_start, round_size, sd_read, write_rounds, sd_write,
}
use jyy_os.Disk.Places.{Place, Place-Round, next-Place, first-Place}
use jyy_os.Disk.Read.{copied_out, copied_before, copied_in, sd_read_lem}

-- A byte of the disk after a round of `sd_write`
module _ (blksz b st offset pos n : ℕ) (disk sd buf : ℕ → ℕ) (block : b * blksz ≡ st)
    (back : st ≤ offset) (inside : offset + n ≤ st + blksz) where
  abbrev sd1 : ℕ → ℕ
  sd1 = if ltb n blksz then blk_read blksz disk b sd else sd

  abbrev disk1 : ℕ → ℕ
  disk1 = blk_write blksz (copied n sd1 (offset - st) buf pos) b disk

  in_block :
      (x : ℕ) → st ≤ x → x < st + blksz → disk1 x ≡ copied n sd1 (offset - st) buf pos (x - st)
  unfolding blk_write
  in_block x lo hi =
      rw
        (
          le→leb (b * blksz) x (omega (arith, block, lo)),
          lt→ltb x (b * blksz + blksz) (omega (arith, block, hi)),
        )
        (ap (copied n sd1 (offset - st) buf pos) (omega (arith, block)))

  written : (x : ℕ) → offset ≤ x → x < offset + n → disk1 x ≡ buf (pos + (x - offset))
  written x lo hi =
      in_block x (omega (arith, lo, back)) (omega (arith, hi, inside))
      ∙ copied_in n (offset - st) (x - st) sd1 buf pos (omega (arith, lo, back))
          (omega (arith, lo, hi, back))
      ∙ ap buf (omega (arith, lo, back))

  -- What was read from the block and is written back
  read_back : (x : ℕ) → n < blksz → st ≤ x → x < st + blksz → sd1 (x - st) ≡ disk x
  unfolding blk_read
  read_back x short lo hi =
      rw (lt→ltb n blksz short, lt→ltb (x - st) blksz (omega (arith, lo, hi)))
        (ap disk (omega (arith, block, lo)))

  kept : (x : ℕ) → (x < offset) ⊎ (offset + n ≤ x) → disk1 x ≡ disk x
  unfolding blk_write
  kept x out = elim (dec_lt x st) [
    | yes lt ↦ rw (lt→leb (b * blksz) x (omega (arith, lt, block))) refl
    | no ge ↦ elim (dec_lt x (st + blksz)) [
      | no ge' ↦
          rw
            (
              le→leb (b * blksz) x (omega (arith, ge, block)),
              le→ltb x (b * blksz + blksz) (omega (arith, ge', block)),
            )
            refl
      | yes lt ↦ in_block x (omega (arith, ge)) lt ∙ elim out [
        | inl before ↦
            copied_before n (offset - st) (x - st) sd1 buf pos (omega (arith, before, ge))
            ∙ read_back x (omega (arith, before, ge, inside)) (omega (arith, ge)) lt
        | inr behind ↦
            copied_out n (offset - st) (x - st) sd1 buf pos (omega (arith, behind, back))
            ∙ read_back x (omega (arith, behind, back, lt)) (omega (arith, ge)) lt
      ]
    ]
  ]

write_rounds_lem :
    (fuel blksz first st offset pos count : ℕ) (buf sd disk : ℕ → ℕ)
    → 0 < blksz
    → first + count + blksz ≤ 2 ^ 31
    → pos ≤ count
    → (pos < count → Place blksz first pos st offset)
    → count - pos < fuel
    → ((i : ℕ) → i < pos → disk (first + i) ≡ buf i)
    → (disk' : ℕ → ℕ) × (write_rounds fuel blksz buf st offset pos count sd disk
        ≡ done (count, disk'))
      × ((i : ℕ) → i < count → disk' (first + i) ≡ buf i)
      × ((x : ℕ) → (x < first) ⊎ (first + count ≤ x) → disk' x ≡ disk x)
unfolding write_rounds
write_rounds_lem zero blksz first st offset pos count buf sd disk hb small le at enough put =
    absurd (omega (arith, enough))
write_rounds_lem (suc fuel) blksz first st offset pos count buf sd disk hb small le at enough put =
    elim (dec_lt pos count) [
      | no ge ↦ (
        disk,
        rw (le→ltb pos count (omega (arith, ge)))
            (ap (λ n. done (n, disk)) (omega (arith, ge, le))),
        (λ i lt. put i (omega (arith, lt, ge))),
        λ x out. refl,
      )
      | yes lt ↦
          let p = at lt in
          let r = Place-Round blksz first pos st offset count hb small lt p in
          let n = round_size blksz st offset pos count in
          let w = written blksz (st / blksz) st offset pos n disk sd buf r.start r.back r.inside in
          let k = kept blksz (st / blksz) st offset pos n disk sd buf r.start r.back r.inside in
          let after =
            disk1 blksz (st / blksz) st offset pos n disk sd buf r.start r.back r.inside in
          let more : (i : ℕ) → i < pos + n → after (first + i) ≡ buf i = λ i lt'.
            elim (dec_lt i pos) [
              | yes before ↦ k (first + i) (inl (omega (arith, before, p.here))) ∙ put i before
              | no ge ↦
                  w (first + i) (omega (arith, ge, p.here)) (omega (arith, lt', p.here))
                  ∙ ap buf (omega (arith, p.here, ge))
            ] in
          let sd' =
            copied n (sd1 blksz (st / blksz) st offset pos n disk sd buf r.start r.back r.inside)
              (offset - st) buf pos in
          let rest =
            write_rounds_lem fuel blksz first (st + blksz) (st + blksz) (pos + n) count buf sd'
              after hb small r.within (next-Place blksz first pos st offset count hb p r)
              (omega (arith, enough, r.some_bytes, lt)) more in
          (
            rest.0,
            rw (lt→ltb pos count lt, r.next_st, r.next_pos) rest.1,
            rest.2,
            λ x out.
                rest.3 x out
                ∙ k x (elim out [
                  | inl a ↦ inl (omega (arith, a, p.here))
                  | inr a ↦ inr (omega (arith, a, p.here, r.within, lt))
                ]),
          )
    ]

-- Write `count` bytes at `offset` to a disk of blocks of 2 ^ k bytes and read as many from there, where
-- offset + count + 2 ^ k is at most 2 ^ 31: both calls return `count`, the caller's buffer then holds
-- what was written, and no other byte of the disk has changed, although both move whole blocks.
pub sd_read-sd_write :
    (k offset count : ℕ) (disk sd sd' content buf : ℕ → ℕ)
    → offset + count + 2 ^ k ≤ 2 ^ 31
    → (disk' : ℕ → ℕ) × (buf' : ℕ → ℕ) × (sd_write (2 ^ k) content offset count sd disk
        ≡ done (count, disk'))
      × (sd_read (2 ^ k) disk' offset count sd' buf ≡ done (count, buf'))
      × ((i : ℕ) → i < count → buf' i ≡ content i)
      × ((x : ℕ) → (x < offset) ⊎ (offset + count ≤ x) → disk' x ≡ disk x)
unfolding sd_write
sd_read-sd_write k offset count disk sd sd' content buf small =
    let w =
      write_rounds_lem (count + 1) (2 ^ k) offset (round_start (2 ^ k) offset) offset 0 count
        content sd disk (one-le-pow k 2 (omega arith)) small (omega arith)
        (λ lt. first-Place k offset (omega (arith, small))) (omega arith)
        (λ i lt. absurd (omega (arith, lt))) in
    let r = sd_read_lem k offset count w.0 sd' buf small in
    (w.0, r.0, w.1, r.1, (λ i lt. r.2 i lt ∙ w.2 i lt), w.3)
