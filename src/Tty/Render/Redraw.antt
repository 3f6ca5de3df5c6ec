-- ===== src/Tty/Render/Redraw.antt =====
-- A terminal that comes to be seen, and one that is not seen.
use native.Mathlib.Nat.{zero-mul}
use jyy_os.Prelude.{
  ℕ, zero, suc, ◌+◌, ◌*◌, ◌/◌, ◌%◌, ◌^◌, ◌≤◌, ◌<◌, ◌≡◌, ◌≢◌, inl, inr, ◌∙◌, refl, ap, Bool, true,
  false, ◌&&◌, ◌==◌, ltb, ne→==, eq-cases, List, [], ◌∷◌, ◌++◌, done, arith,
}
use jyy_os.Tty.Screen.{Screen, tty_defaultch, tty_mark_all}
use jyy_os.Tty.Screen.Cells.{mark_cells_lem}
use jyy_os.Tty.Screen.Drawn.{drawn, WellFormed}
use jyy_os.Tty.Screen.Putc.{put_all-After}
use jyy_os.Tty.Render.{
  Sprite, sprite, cell_sprites, row_sprites, all_sprites, fb_write, tty_init, redraw, tty_render,
  tty_write,
}
use jyy_os.Tty.Render.Canvas.{Canvas, drawn_on, fb_write-append}
use jyy_os.Tty.Render.Shown.{cell_inside, Displays, Shown, Narrow, tty_write_lem}

-- Redraw a well-formed terminal whose display is the one that is seen: whatever the display showed
-- before, every cell of it shows the screen after.
pub redraw_lem :
    (show : Bool) (display : ℕ) (canvas : Canvas) (s : Screen)
    → WellFormed s
    → Narrow display s
    → (sprites : List Sprite) × (s' : Screen) × (redraw show display s ≡ done (sprites, s'))
      × WellFormed s'
      × ((tx ty : ℕ)
          → tx < s'.columns
          → ty < s'.lines
          → Displays show (drawn_on display canvas sprites) s' tx ty)
unfolding redraw tty_mark_all
redraw_lem show display canvas s g fits =
    let m = mark_cells_lem s.size 0 s (omega arith) in
    let s1 : Screen = record s { dirty = m.0 } in
    let all_marked : Shown show canvas s1 = λ tx ty hx hy e.
      absurd (elim (m.2 (ty * s.columns + tx) e).1 [
        | inl lt ↦ omega (arith, lt)
        | inr le ↦ omega (arith, le, g.area, cell_inside s.columns s.lines tx ty hx hy)
      ]) in
    let w =
      tty_write_lem show display canvas s1 []
        (record {
          area = g.area;
          wide = g.wide;
          large = g.large;
          on_screen = g.on_screen;
          bytes = g.bytes;
        })
        fits all_marked in
    (w.0, w.1, rw (m.1) w.2, w.3, w.6)

some_columns : (columns lines : ℕ) → 2 ≤ columns * lines → 0 < columns
some_columns zero lines h = omega (arith, h, zero-mul lines)
some_columns (suc columns) lines h = omega arith

-- The screen that `tty_init` makes is well-formed when the frame buffer has room for two cells.
pub tty_init-WellFormed :
    (width height : ℕ) (marks : ℕ → ℕ)
    → 2 ≤ (width / 8) * (height / 16)
    → WellFormed (tty_init width height marks)
unfolding tty_init tty_defaultch
tty_init-WellFormed width height marks h = record {
  area = refl;
  wide = some_columns (width / 8) (height / 16) h;
  large = h;
  on_screen = omega (arith, h);
  bytes = λ i lt. omega arith;
}

and_false : (b : Bool) → (b && false) ≡ false
and_false true = refl
and_false false = refl

sprite_hidden :
    (current : ℕ) (sp : Sprite) (more : List Sprite)
    → (sp.display == current) ≡ false
    → fb_write current (sp ∷ more) ≡ fb_write current more
unfolding fb_write
sprite_hidden current sp more e = rw (e, and_false (ltb 0 sp.texture)) refl

module _ (show : Bool) (display current : ℕ) (s : Screen) (few : display < 2 ^ 4)
    (other : display ≢ current) where
  cell_hidden : (x y i : ℕ) → fb_write current (cell_sprites show display s x y i) ≡ []
  unfolding fb_write cell_sprites
  cell_hidden x y i = elim (eq-cases (s.dirty i) 0) [
    | inl e ↦ rw e.1 refl
    | inr e ↦
        let draw : ℕ = drawn show s i in
        let hidden = ne→== (display % 2 ^ 4) current (λ z. other (omega (arith, z, few))) in
        let lower = sprite (draw * 2 + 2) (x * 8) (y * 16 + 8) display in
        rw e.1 (
          sprite_hidden current (sprite (draw * 2 + 1) (x * 8) (y * 16) display) (lower ∷ []) hidden
          ∙ sprite_hidden current lower [] hidden)
  ]

  row_hidden : (n x y i : ℕ) → fb_write current (row_sprites show display s n x y i) ≡ []
  unfolding fb_write row_sprites
  row_hidden zero x y i = refl
  row_hidden (suc n) x y i =
      fb_write-append current (cell_sprites show display s x y i)
        (row_sprites show display s n (suc x) y (suc i))
      ∙ ap (λ l. l ++ fb_write current (row_sprites show display s n (suc x) y (suc i)))
          (cell_hidden x y i)
      ∙ row_hidden n (suc x) y (suc i)

  all_hidden : (n y i : ℕ) → fb_write current (all_sprites show display s n y i) ≡ []
  unfolding fb_write all_sprites
  all_hidden zero y i = refl
  all_hidden (suc n) y i =
      fb_write-append current (row_sprites show display s s.columns 0 y i)
        (all_sprites show display s n (suc y) (i + s.columns))
      ∙ ap (λ l. l ++ fb_write current (all_sprites show display s n (suc y) (i + s.columns)))
          (row_hidden s.columns 0 y i)
      ∙ all_hidden n (suc y) (i + s.columns)

-- Write characters to a well-formed terminal whose display is not the one that is seen: nothing is
-- drawn.
pub tty_write-hidden :
    (show : Bool) (display current : ℕ) (s : Screen) (chars : List ℕ)
    → WellFormed s
    → display < 2 ^ 4
    → display ≢ current
    → (sprites : List Sprite) × (s' : Screen) × (tty_write show display s chars
        ≡ done (sprites, s'))
      × (fb_write current sprites ≡ [])
unfolding tty_write tty_render
tty_write-hidden show display current s chars g few other =
    let a = put_all-After s chars g in
    (
      all_sprites show display a.0 a.0.lines 0 0,
      (tty_render show display a.0).1,
      rw (a.1) refl,
      all_hidden show display current a.0 few other a.0.lines 0 0,
    )
