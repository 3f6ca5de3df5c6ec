-- ===== src/Tty/Render/Shown.antt =====
-- After a write the display shows the screen.
use native.Mathlib.Nat.{zero-mul, suc-mul, mul_comm, mul-le-mul_left, mul-suc}
use jyy_os.Prelude.{
  ℕ, zero, suc, ◌+◌, ◌*◌, ◌^◌, ◌≤◌, ◌<◌, ◌≡◌, inl, inr, ◌∙◌, refl, ap, sym, Bool, if◌then◌else◌,
  ltb, lt→ltb, eq-cases, List, length, length-append, done, arith,
}
use jyy_os.Tty.Screen.{Screen}
use jyy_os.Tty.Screen.Drawn.{drawn, WellFormed, After}
use jyy_os.Tty.Screen.Putc.{put_all-After}
use jyy_os.Tty.Render.{cell_sprites, row_sprites, all_sprites, tty_render, tty_write}
use jyy_os.Tty.Render.Canvas.{Canvas, drawn_on, lines_tiles}

-- The two tiles of the cell at column `tx` of line `ty` are those of what is drawn for it.
abbrev pub Displays : Bool → Canvas → Screen → ℕ → ℕ → Type 0
Displays show canvas s tx ty =
    (half : ℕ)
    → half < 2
    → canvas (tx * 8) (ty * 16 + half * 8) ≡ drawn show s (ty * s.columns + tx) * 2 + (1 + half)

-- The display shows every cell that has no mark.
abbrev pub Shown : Bool → Canvas → Screen → Type 0
Shown show canvas s =
    (tx ty : ℕ)
    → tx < s.columns
    → ty < s.lines
    → s.dirty (ty * s.columns + tx) ≡ 0
    → Displays show canvas s tx ty

-- A screen that the fields of a sprite have room for
abbrev pub Narrow : ℕ → Screen → Type 0
Narrow display s = (s.columns ≤ 2 ^ 13) × (s.lines < 2 ^ 12) × (display < 2 ^ 4)

row-length :
    (show : Bool) (display : ℕ) (s : Screen) (n x y i : ℕ)
    → length (row_sprites show display s n x y i) ≤ 2 * n
unfolding row_sprites cell_sprites
row-length show display s zero x y i = omega arith
row-length show display s (suc n) x y i = elim (eq-cases (s.dirty i) 0) [
  | inl e ↦ rw e.1 (omega (arith, row-length show display s n (suc x) y (suc i)))
  | inr e ↦ rw e.1 (omega (arith, row-length show display s n (suc x) y (suc i)))
]

all-length :
    (show : Bool) (display : ℕ) (s : Screen) (n y i : ℕ)
    → length (all_sprites show display s n y i) ≤ 2 * (n * s.columns)
unfolding all_sprites
all-length show display s zero y i = omega (arith, zero-mul s.columns)
all-length show display s (suc n) y i = omega (
  arith,
  length-append (row_sprites show display s s.columns 0 y i)
      (all_sprites show display s n (suc y) (i + s.columns)),
  row-length show display s s.columns 0 y i,
  all-length show display s n (suc y) (i + s.columns),
  suc-mul n s.columns,
)

pub cell_inside :
    (columns lines tx ty : ℕ) → tx < columns → ty < lines → ty * columns + tx < columns * lines
cell_inside columns lines tx ty hx hy =
    omega (arith, mul-le-mul_left columns hy, mul-suc columns ty, mul_comm ty columns, hx)

-- What is written is marked, so the display still shows the cells without a mark.
Shown-After :
    (show : Bool) (canvas : Canvas) (s s' : Screen)
    → WellFormed s
    → After s s'
    → Shown show canvas s
    → Shown show canvas s'
Shown-After show canvas s s' g a shown tx ty hx hy e half hh =
    let hx' : tx < s.columns = omega (arith, hx, a.columns) in
    let hy' : ty < s.lines = omega (arith, hy, a.lines) in
    let i : ℕ = ty * s.columns + tx in
    let one : ty * s'.columns + tx ≡ i = ap (λ c. ty * c + tx) a.columns in
    let lt : i < s.size = omega (arith, g.area, cell_inside s.columns s.lines tx ty hx' hy') in
    let m = a.marked i lt (ap s'.dirty (sym one) ∙ e) in
    shown tx ty hx' hy' m.0 half hh
    ∙ ap (λ t. t * 2 + (1 + half)) (sym (m.1 show))
    ∙ ap (λ j. drawn show s' j * 2 + (1 + half)) (sym one)

-- Draw a screen of which the display shows the cells without a mark: the display shows all cells.
render-Displays :
    (show : Bool) (display : ℕ) (canvas : Canvas) (s : Screen)
    → WellFormed s
    → Narrow display s
    → Shown show canvas s
    → (tx ty : ℕ) → tx < s.columns
    → ty < s.lines
    → Displays show (drawn_on display canvas (all_sprites show display s s.lines 0 0)) s tx ty
render-Displays show display canvas s g (narrow, low, few) shown tx ty hx hy half hh =
    lines_tiles show display s (record { narrow = narrow; low = low; few = few; bytes = g.bytes })
      s.lines 0 0 ty tx ty (ty * s.columns + tx) half canvas
      (omega (arith, g.area, mul_comm s.columns s.lines)) (omega arith) hh hy hx (omega arith)
      (omega arith)
    ∙ elim (eq-cases (s.dirty (ty * s.columns + tx)) 0) [
      | inl e ↦ rw e.1 (shown tx ty hx hy e.0 half hh)
      | inr n ↦ rw n.1 refl
    ]

-- Write characters to a terminal whose display is the one that is seen, when the display shows the
-- cells without a mark. The screen is well-formed again and has no marks, the sprites fit into
-- `sp_buf`, and when `fb_write` has drawn them every cell of the display shows the screen.
pub tty_write_lem :
    (show : Bool) (display : ℕ) (canvas : Canvas) (s : Screen) (chars : List ℕ)
    → WellFormed s
    → Narrow display s
    → Shown show canvas s
    → (sprites : _) × (s' : Screen) × (tty_write show display s chars ≡ done (sprites, s'))
      × WellFormed s'
      × (length sprites ≤ 2 * s.size)
      × ((i : ℕ) → i < s'.size → s'.dirty i ≡ 0)
      × ((tx ty : ℕ)
          → tx < s'.columns
          → ty < s'.lines
          → Displays show (drawn_on display canvas sprites) s' tx ty)
unfolding tty_write tty_render
tty_write_lem show display canvas s chars g fits shown =
    let a = put_all-After s chars g in
    let s1 = a.0 in
    let kept = Shown-After show canvas s s1 g a.2 shown in
    let same : s1.size ≡ s.size =
      a.2.good.area
      ∙ ap (λ n. n * s1.lines) a.2.columns
      ∙ ap (λ n. s.columns * n) a.2.lines
      ∙ sym g.area in
    (
      all_sprites show display s1 s1.lines 0 0,
      record s1 { dirty = λ i. if ltb i s1.size then 0 else s1.dirty i },
      rw (a.1) refl,
      record {
        area = a.2.good.area;
        wide = a.2.good.wide;
        large = a.2.good.large;
        on_screen = a.2.good.on_screen;
        bytes = a.2.good.bytes;
      },
      omega (
        arith,
        all-length show display s1 s1.lines 0 0,
        mul_comm s1.columns s1.lines,
        a.2.good.area,
        same,
      ),
      (λ i lt. rw (lt→ltb i s1.size lt) refl),
      render-Displays show display canvas s1 a.2.good
          (omega (arith, fits.0, a.2.columns), omega (arith, fits.1, a.2.lines), fits.2) kept,
    )
