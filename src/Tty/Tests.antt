-- ===== src/Tty/Tests.antt =====
-- Runs of the terminal: a queue of typed characters, and a screen of 80 columns and 25 lines.
use jyy_os.Prelude.{
  ℕ, ◌*◌, ◌%◌, ◌<◌, ◌≤◌, ◌≡◌, refl, true, false, if◌then◌else◌, ◌==◌, List, [], ◌∷◌, length, done,
  arith,
}
use jyy_os.Tty.Cook.{TtyQueue, queue_init}
use jyy_os.Tty.Cook.Lines.{Lines, Holds}
use jyy_os.Tty.Cook.Session.{
  Action, key, read, cooked, line, act, line_act, session, session_refines,
}
use jyy_os.Tty.Screen.{Screen, tty_defaultch, tty_putc}
use jyy_os.Tty.Screen.Drawn.{WellFormed, After}
use jyy_os.Tty.Screen.Putc.{tty_putc-After}
use jyy_os.Tty.Render.{Sprite, fb_write, tty_init, redraw, tty_write}
use jyy_os.Tty.Render.Canvas.{Canvas, drawn_on}
use jyy_os.Tty.Render.Shown.{Displays, Shown, tty_write_lem}
use jyy_os.Tty.Render.Redraw.{redraw_lem, tty_init-WellFormed, tty_write-hidden}

-- A queue in zeroed memory
abbrev empty_queue : TtyQueue
empty_queue = queue_init (λ i. 0)

abbrev no_lines : Lines
no_lines = record { complete = []; current = [] }

empty_queue-Holds : Holds empty_queue no_lines
empty_queue-Holds = record {
  contents = record {
    inside = omega arith;
    room = omega arith;
    rear = refl;
    holds = tt;
    before = refl;
  };
  chars = tt;
  current_chars = tt;
  counted = refl;
}

-- "hj", a backspace, "i", a newline, a backspace that is refused, and a read of two characters
abbrev hello : List Action
hello = key 104 ∷ (key 106 ∷ (key 8 ∷ (key 105 ∷ (key 10 ∷ (key 8 ∷ (read 2 ∷ []))))))

session_refines_example : session act empty_queue hello ≡ session line_act no_lines hello
session_refines_example = session_refines empty_queue no_lines hello empty_queue-Holds (
  (λ e. omega (arith, e)),
  (
    (λ e. omega (arith, e)),
    (
      (λ e. omega (arith, e)),
      ((λ e. omega (arith, e)), ((λ e. omega (arith, e)), ((λ e. omega (arith, e)), (tt, tt)))),
    ),
  ),
)

hello_replies :
    session line_act no_lines hello
    ≡ done (
        cooked 0
        ∷ (cooked 0
            ∷ (cooked 0 ∷ (cooked 0 ∷ (cooked 0 ∷ (cooked 1 ∷ (line (104 ∷ (105 ∷ [])) ∷ [])))))))
hello_replies = refl

abbrev vga : Screen
vga = tty_init 640 400 (λ i. 0)

vga-WellFormed : WellFormed vga
vga-WellFormed = tty_init-WellFormed 640 400 (λ i. 0) (omega arith)

tty_putc-After_example : (s' : Screen) × (tty_putc vga 10 ≡ done s') × After vga s'
tty_putc-After_example = tty_putc-After vga 10 vga-WellFormed

-- "ab" and a newline
abbrev ab : List ℕ
ab = 97 ∷ (98 ∷ (10 ∷ []))

-- A display on which every tile is the blank of character 0
abbrev blank : Canvas
blank x y = if y % 16 == 0 then 1 else 2

redraw_example :
    (sprites : List Sprite) × (s' : Screen) × (redraw false 0 vga ≡ done (sprites, s'))
    × WellFormed s'
    × ((tx ty : ℕ)
        → tx < s'.columns
        → ty < s'.lines
        → Displays false (drawn_on 0 blank sprites) s' tx ty)
unfolding tty_init
redraw_example = redraw_lem false 0 blank vga vga-WellFormed (omega arith, omega arith, omega arith)

vga-Shown : Shown false blank vga
unfolding tty_init tty_defaultch
vga-Shown tx ty hx hy e half hh = ground arith

tty_write_example :
    (sprites : List Sprite) × (s' : Screen) × (tty_write false 0 vga ab ≡ done (sprites, s'))
    × WellFormed s'
    × (length sprites ≤ 2 * vga.size)
    × ((i : ℕ) → i < s'.size → s'.dirty i ≡ 0)
    × ((tx ty : ℕ)
        → tx < s'.columns
        → ty < s'.lines
        → Displays false (drawn_on 0 blank sprites) s' tx ty)
unfolding tty_init
tty_write_example =
    tty_write_lem false 0 blank vga ab vga-WellFormed (omega arith, omega arith, omega arith)
      vga-Shown

tty_write-hidden_example :
    (sprites : List Sprite) × (s' : Screen) × (tty_write true 1 vga ab ≡ done (sprites, s'))
    × (fb_write 0 sprites ≡ [])
tty_write-hidden_example =
    tty_write-hidden true 1 0 vga ab vga-WellFormed (omega arith) (λ e. omega (arith, e))
