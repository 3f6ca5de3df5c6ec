-- ===== src/Tty/Render.antt =====
-- The drawing of a terminal: `tty_render` and `tty_write` of kernel/src/dev/dev_tty.c, and the
-- sprites that `fb_write` of kernel/src/dev/dev_video.c draws. `show` is `show_cursor`.
pub mod Canvas
pub mod Shown
pub mod Redraw
use jyy_os.Prelude.{
  ℕ, zero, suc, ◌+◌, ◌*◌, ◌/◌, ◌%◌, ◌^◌, Bool, ◌&&◌, if◌then◌else◌, ◌==◌, ltb, List, [], ◌∷◌, ◌++◌,
  Outcome, done, panic, ◌>>=◌,
}
use jyy_os.Tty.Screen.{Screen, tty_defaultch, tty_mark_all, put_all}

-- `struct sprite`, with fields of 16, 16, 16, 4 and 12 bits
pub record Sprite : Type 0 where
  pub texture : ℕ
  pub x : ℕ
  pub y : ℕ
  pub display : ℕ
  pub z : ℕ

abbrev pub sprite : ℕ → ℕ → ℕ → ℕ → Sprite
sprite texture x y display = record {
  texture = texture % 2 ^ 16;
  x = x % 2 ^ 16;
  y = y % 2 ^ 16;
  display = display % 2 ^ 4;
  z = 0;
}

-- What `tty_render` puts into `sp_buf` for the cell `i`, at column `x` of line `y`.
unfoldable pub cell_sprites : Bool → ℕ → Screen → ℕ → ℕ → ℕ → List Sprite
cell_sprites show display s x y i =
    let draw = if (i == s.cursor) && show then 219 else (s.buf i).ch in
    if s.dirty i == 0
    then []
    else (sprite (draw * 2 + 1) (x * 8) (y * 16) display
        ∷ (sprite (draw * 2 + 2) (x * 8) (y * 16 + 8) display ∷ []))

-- The inner loop of `tty_render`, from column `x` on, with `n` columns left; `i` is where `ch` and
-- `d` point.
unfoldable pub row_sprites : Bool → ℕ → Screen → ℕ → ℕ → ℕ → ℕ → List Sprite
row_sprites show display s zero x y i = []
row_sprites show display s (suc n) x y i =
    cell_sprites show display s x y i ++ row_sprites show display s n (suc x) y (suc i)

-- The outer loop, from line `y` on, with `n` lines left.
unfoldable pub all_sprites : Bool → ℕ → Screen → ℕ → ℕ → ℕ → List Sprite
all_sprites show display s zero y i = []
all_sprites show display s (suc n) y i =
    row_sprites show display s s.columns 0 y i
    ++ all_sprites show display s n (suc y) (i + s.columns)

-- `tty_render`: the sprites that go to the frame buffer, and the screen without marks.
unfoldable pub tty_render : Bool → ℕ → Screen → List Sprite × Screen
tty_render show display s = (
  all_sprites show display s s.lines 0 0,
  record s { dirty = λ i. if ltb i s.size then 0 else s.dirty i },
)

-- A tile that the graphics device is told to draw.
pub record Draw : Type 0 where
  pub at_x : ℕ
  pub at_y : ℕ
  pub tile : ℕ

-- The loop of `fb_write` over sprites: what it draws when `current` is the display that is seen.
unfoldable pub fb_write : ℕ → List Sprite → List Draw
fb_write current [] = []
fb_write current (sp ∷ more) =
    if ltb 0 sp.texture && (sp.display == current)
    then record { at_x = sp.x; at_y = sp.y; tile = sp.texture } ∷ fb_write current more
    else fb_write current more

-- `tty_write`: the characters go to the screen, and the frame buffer is sent what has changed.
unfoldable pub tty_write : Bool → ℕ → Screen → List ℕ → Outcome (List Sprite × Screen)
tty_write show display s chars = put_all s chars >>= λ s1. done (tty_render show display s1)

-- The screen that `tty_init` makes on a frame buffer of `width` and `height` pixels.
unfoldable pub tty_init : ℕ → ℕ → (ℕ → ℕ) → Screen
tty_init width height marks =
    let lines = height / 16 in
    let columns = width / 8 in
    let size = columns * lines in
    record {
      lines = lines;
      columns = columns;
      size = size;
      buf = λ i. tty_defaultch;
      cursor = 0;
      dirty = λ i. if ltb i size then 0 else marks i;
    }

-- What `dev_tty_task` does first, and when another terminal comes to be seen: all cells are marked,
-- and an empty text is written.
unfoldable pub redraw : Bool → ℕ → Screen → Outcome (List Sprite × Screen)
redraw show display s = tty_mark_all s >>= λ s1. tty_write show display s1 []
