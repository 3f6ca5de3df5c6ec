-- ===== src/Disk/Tests.antt =====
-- A write over the border of two blocks of 512 bytes, and a read.
use jyy_os.Prelude.{ℕ, ◌+◌, ◌^◌, ◌≤◌, ◌<◌, ◌≡◌, ◌⊎◌, done, arith}
use jyy_os.Disk.{sd_read, sd_write}
use jyy_os.Disk.Rounds.{sd_read-sd_write}

abbrev zeroes : ℕ → ℕ
zeroes i = 0

abbrev counting : ℕ → ℕ
counting i = i + 1

sd_read-sd_write_example :
    (disk' : ℕ → ℕ) × (buf' : ℕ → ℕ) × (sd_write (2 ^ 9) counting 500 30 zeroes zeroes
      ≡ done (30, disk'))
    × (sd_read (2 ^ 9) disk' 500 30 zeroes zeroes ≡ done (30, buf'))
    × ((i : ℕ) → i < 30 → buf' i ≡ counting i)
    × ((x : ℕ) → (x < 500) ⊎ (500 + 30 ≤ x) → disk' x ≡ zeroes x)
sd_read-sd_write_example =
    sd_read-sd_write 9 500 30 zeroes zeroes zeroes counting zeroes (omega arith)
