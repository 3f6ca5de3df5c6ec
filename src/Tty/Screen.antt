-- ===== src/Tty/Screen.antt =====
-- The screen of a terminal: the part of kernel/src/dev/dev_tty.c that writes characters into the
-- buffer of the screen and marks what has to be drawn again. A pointer into `buf` is its offset
-- from there, `end` is the offset `size`. An access outside the arrays is a `panic`.
pub mod Cells
pub mod Drawn
pub mod Putc
use jyy_os.Prelude.{
  ℕ, zero, suc, ◌+◌, ◌-◌, ◌*◌, ◌%◌, ◌^◌, if◌then◌else◌, ◌==◌, ltb, leb, List, [], ◌∷◌, Outcome,
  done, panic, ◌>>=◌, update,
}

pub record Character : Type 0 where
  pub metadata : ℕ
  pub ch : ℕ

-- `tty_t`: its screen
pub record Screen : Type 0 where
  pub lines : ℕ
  pub columns : ℕ
  pub size : ℕ
  pub buf : ℕ → Character
  pub cursor : ℕ
  pub dirty : ℕ → ℕ

unfoldable pub tty_defaultch : Character
tty_defaultch = record { metadata = 0; ch = 0 }

-- The first `n` entries become those from `k` on: `memmove` to a lower address.
abbrev pub memmove {ℓ} : {A : Type ℓ} → (ℕ → A) → ℕ → ℕ → ℕ → A
memmove array k n i = if ltb i n then array (k + i) else array i

-- The loop of `tty_upd_scrollup` from the cell `place` on
unfoldable pub clear_cells : ℕ → ℕ → Screen → Outcome Screen
clear_cells zero place s = done s
clear_cells (suc n) place s =
    if ltb place s.size
    then clear_cells n (suc place) (record s { buf = update s.buf place tty_defaultch })
    else panic

unfoldable pub tty_upd_scrollup : Screen → Outcome Screen
tty_upd_scrollup s =
    let move_sz = s.columns * (s.lines - 1) in
    if leb s.columns s.cursor
    then clear_cells s.columns (s.cursor - s.columns) (record s {
      buf = memmove s.buf s.columns move_sz;
      dirty = memmove s.dirty s.columns move_sz;
      cursor = s.cursor - s.columns;
    })
    else panic

unfoldable pub tty_upd_cr : Screen → Screen
tty_upd_cr s = record s { cursor = s.cursor - s.cursor % s.columns }

unfoldable pub tty_upd_lf : Screen → Screen
tty_upd_lf s = record s { cursor = s.cursor + s.columns }

-- `ch` is an `unsigned char`.
abbrev pub set_ch : (ℕ → Character) → ℕ → ℕ → ℕ → Character
set_ch buf place c = update buf place (record (buf place) { ch = c % 2 ^ 8 })

unfoldable pub tty_upd_backsp : Screen → Screen
tty_upd_backsp s =
    if ltb 0 s.cursor
    then record s { cursor = s.cursor - 1; buf = set_ch s.buf (s.cursor - 1) 0 }
    else s

unfoldable pub tty_upd_putc : Screen → ℕ → Outcome Screen
tty_upd_putc s ch =
    if ltb s.cursor s.size
    then done (record s { buf = set_ch s.buf s.cursor ch; cursor = s.cursor + 1 })
    else panic

unfoldable pub tty_mark : Screen → ℕ → Outcome Screen
tty_mark s place =
    if ltb place s.size then done (record s { dirty = update s.dirty place 1 }) else panic

-- The loops of `tty_mark_line` and `tty_mark_all`
unfoldable pub mark_cells : ℕ → ℕ → Screen → Outcome Screen
mark_cells zero place s = done s
mark_cells (suc n) place s = tty_mark s place >>= mark_cells n (suc place)

unfoldable pub tty_mark_line : Screen → ℕ → Outcome Screen
tty_mark_line s place = mark_cells s.columns (place - place % s.columns) s

unfoldable pub tty_mark_all : Screen → Outcome Screen
tty_mark_all s = mark_cells s.size 0 s

unfoldable pub putc_return : Screen → Outcome Screen
putc_return s = let s1 = tty_upd_cr s in tty_mark_line s1 s1.cursor

unfoldable pub putc_backspace : Screen → Outcome Screen
putc_backspace s =
    let s1 = tty_upd_backsp s in tty_mark s1 s1.cursor >>= λ s2. tty_mark s2 (s2.cursor + 1)

unfoldable pub putc_newline : Screen → Outcome Screen
putc_newline s =
    let s1 = tty_upd_lf (tty_upd_cr s) in
    if s1.cursor == s1.size
    then tty_upd_scrollup s1 >>= tty_mark_all
    else (tty_mark_line s1 (s1.cursor - s1.columns) >>= λ s2. tty_mark_line s2 s2.cursor)

unfoldable pub putc_other : Screen → ℕ → Outcome Screen
putc_other s ch = tty_upd_putc s ch >>= λ s1.
    if s1.cursor == s1.size
    then tty_upd_scrollup s1 >>= tty_mark_all
    else (tty_mark s1 (s1.cursor - 1) >>= λ s2. tty_mark s2 s2.cursor)

-- `tty_putc`, a case of its `switch` each
unfoldable pub tty_putc : Screen → ℕ → Outcome Screen
tty_putc s ch =
    if ch == 13
    then putc_return s
    else if ch == 8
    then putc_backspace s
    else if ch == 10
    then putc_newline s
    else putc_other s ch

-- The loop of `tty_write`
unfoldable pub put_all : Screen → List ℕ → Outcome Screen
put_all s [] = done s
put_all s (ch ∷ more) = tty_putc s ch >>= λ s1. put_all s1 more
