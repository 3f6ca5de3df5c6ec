-- ===== src/Tty/Screen/Drawn.antt =====
-- When a screen is well-formed, and what a step of it has to mark.
use native.Mathlib.Nat.{mod-lt, mod-le}
use jyy_os.Prelude.{
  ℕ, ◌+◌, ◌-◌, ◌*◌, ◌%◌, ◌^◌, ◌≤◌, ◌<◌, ◌≡◌, ◌≢◌, inl, inr, ap, if◌then◌else◌, ◌==◌, ne→==, Bool,
  ◌&&◌, eq-cases, Outcome, done, update, arith,
}
use jyy_os.Tty.Screen.{Character, Screen, set_ch}
use jyy_os.Tty.Screen.Cells.{row_fits, row_start}

-- The cursor is on the screen, which has at least one column and two cells, and whose characters
-- are bytes.
pub record WellFormed (s : Screen) : Type 0 where
  pub area : s.size ≡ s.columns * s.lines
  pub wide : 0 < s.columns
  pub large : 2 ≤ s.size
  pub on_screen : s.cursor < s.size
  pub bytes : (i : ℕ) → i < s.size → (s.buf i).ch < 2 ^ 8

-- What is drawn for a cell: its character, or a block where the cursor is, if that is shown.
abbrev pub drawn : Bool → Screen → ℕ → ℕ
drawn show s i = if (i == s.cursor) && show then 219 else (s.buf i).ch

-- `s'` comes after `s`: it is well-formed, and a cell that has no mark had none, and looks the same.
pub record After (s s' : Screen) : Type 0 where
  pub good : WellFormed s'
  pub columns : s'.columns ≡ s.columns
  pub lines : s'.lines ≡ s.lines
  pub marked :
      (i : ℕ)
      → i < s.size
      → s'.dirty i ≡ 0
      → (s.dirty i ≡ 0) × ((show : Bool) → drawn show s' i ≡ drawn show s i)

abbrev pub Goes : Screen → Outcome Screen → Type 0
Goes s m = (s' : Screen) × (m ≡ done s') × After s s'

-- The start of a line, and what of the line is on the screen
unfoldable pub start : (s : Screen) → ℕ
start s = s.cursor - s.cursor % s.columns

pub line_on_screen : (s : Screen) → WellFormed s → start s + s.columns ≤ s.size
unfolding start
line_on_screen s g = rw g.area (row_fits s.cursor s.columns s.lines (rw g.area at g.on_screen))

pub cursor_in_line :
    (s : Screen) → WellFormed s → (start s ≤ s.cursor) × (s.cursor < start s + s.columns)
unfolding start
cursor_in_line s g = (omega arith, omega (arith, mod-lt s.cursor g.wide, mod-le s.cursor s.columns))

pub start_of_start : (s : Screen) → start s - start s % s.columns ≡ start s
unfolding start
start_of_start s = omega (arith, row_start s.cursor s.columns)

-- A cell without the cursor, before and after, that holds the same character looks the same.
pub drawn_same :
    (s s' : Screen) (i : ℕ)
    → i ≢ s.cursor
    → i ≢ s'.cursor
    → s'.buf i ≡ s.buf i
    → (show : Bool) → drawn show s' i ≡ drawn show s i
drawn_same s s' i h h' e show =
    rw (ne→== i s.cursor h, ne→== i s'.cursor h') (ap (λ (c : Character). c.ch) e)

-- A cell without a mark when one was put
pub not_marked : (d : ℕ → ℕ) (place i : ℕ) → update d place 1 i ≡ 0 → (place ≢ i) × (d i ≡ 0)
not_marked d place i e = ground (arith, e)

-- What is written is a byte.
pub set_ch-bytes :
    (s : Screen) (place c : ℕ)
    → WellFormed s
    → (i : ℕ) → i < s.size
    → (set_ch s.buf place c i).ch < 2 ^ 8
set_ch-bytes s place c g i lt = elim (eq-cases place i) [
  | inl e ↦ rw e.1 (omega arith)
  | inr n ↦ rw n.1 (g.bytes i lt)
]
