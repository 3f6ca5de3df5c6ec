-- ===== src/Tty/Render/Canvas.antt =====
-- What stands on the display after the sprites are drawn.
use native.Mathlib.Nat.{suc-mul, zero-mul}
use mathlib.Core.Path.{subst}
use jyy_os.Prelude.{
  ℕ, zero, suc, ◌+◌, ◌*◌, ◌%◌, ◌^◌, ◌≤◌, ◌<◌, ◌≡◌, ◌≢◌, ◌⊎◌, inl, inr, ◌∙◌, refl, ap, Bool, true,
  false, not, ◌&&◌, if◌then◌else◌, ◌==◌, ltb, ne→==, ==_iff, lt→ltb, eq-cases, List, [], ◌∷◌, ◌++◌,
  arith,
}
use jyy_os.Tty.Screen.{Screen}
use jyy_os.Tty.Screen.Drawn.{drawn}
use jyy_os.Tty.Render.{Sprite, sprite, cell_sprites, row_sprites, all_sprites, Draw, fb_write}

-- The tile at each place
abbrev pub Canvas : Type 0
Canvas = ℕ → ℕ → ℕ

unfoldable pub paint : Canvas → List Draw → Canvas
paint canvas [] = canvas
paint canvas (d ∷ more) =
    paint (λ x y. if (d.at_x == x) && (d.at_y == y) then d.tile else canvas x y) more

pub fb_write-append :
    (current : ℕ) (l r : List Sprite)
    → fb_write current (l ++ r) ≡ fb_write current l ++ fb_write current r
unfolding fb_write
fb_write-append current [] r = refl
fb_write-append current (sp ∷ l) r =
    choose (ltb 0 sp.texture && (sp.display == current))
      (record { at_x = sp.x; at_y = sp.y; tile = sp.texture }) _ _ _ (fb_write-append current l r)
  where
    choose :
        (b : Bool) (d : Draw) (k m n : List Draw)
        → k ≡ m ++ n
        → (if b then d ∷ k else k) ≡ (if b then d ∷ m else m) ++ n
    choose true d k m n e = ap (λ t. d ∷ t) e
    choose false d k m n e = e

paint-append : (l r : List Draw) (c : Canvas) → paint c (l ++ r) ≡ paint (paint c l) r
unfolding paint
paint-append [] r c = refl
paint-append (d ∷ l) r c = paint-append l r _

-- The canvas after the sprites
abbrev pub drawn_on : ℕ → Canvas → List Sprite → Canvas
drawn_on current c sprites = paint c (fb_write current sprites)

drawn_on-append :
    (current : ℕ) (c : Canvas) (l r : List Sprite)
    → drawn_on current c (l ++ r) ≡ drawn_on current (drawn_on current c l) r
drawn_on-append current c l r =
    ap (paint c) (fb_write-append current l r)
    ∙ paint-append (fb_write current l) (fb_write current r) c

-- The two tiles of a cell, in numbers that fit into the fields of a sprite. `half` is 0 above, 1 below.
two_tiles :
    (c : Canvas) (draw x y current tx ty half : ℕ)
    → draw < 2 ^ 8
    → x * 8 < 2 ^ 16
    → y * 16 + 8 < 2 ^ 16
    → current < 2 ^ 4
    → half < 2
    → drawn_on current c
        (sprite (draw * 2 + 1) (x * 8) (y * 16) current
          ∷ (sprite (draw * 2 + 2) (x * 8) (y * 16 + 8) current ∷ []))
        (tx * 8)
        (ty * 16 + half * 8)
      ≡ (if (x == tx) && (y == ty) then draw * 2 + (1 + half) else c (tx * 8) (ty * 16 + half * 8))
unfolding paint fb_write
two_tiles c draw x y current tx ty half d hx hy hc hh =
    rw
      (
        lt→ltb 0 ((draw * 2 + 1) % 2 ^ 16) (omega (arith, d)),
        lt→ltb 0 ((draw * 2 + 2) % 2 ^ 16) (omega (arith, d)),
        (==_iff (current % 2 ^ 4) current).1 (omega (arith, hc)),
      )
      (ground (arith, d, hx, hy, hh))

if_not_eq : (a b : ℕ) (q r : Bool) (t u : ℕ) → a ≢ b → (if (a == b) && q && r then t else u) ≡ u
if_not_eq a b q r t u h = rw (ne→== a b h) refl

-- The numbers of a screen fit into the fields of a sprite.
pub record Fits (current : ℕ) (s : Screen) : Type 0 where
  pub narrow : s.columns ≤ 2 ^ 13
  pub low : s.lines < 2 ^ 12
  pub few : current < 2 ^ 4
  pub bytes : (i : ℕ) → i < s.size → (s.buf i).ch < 2 ^ 8

drawn-byte :
    (current : ℕ) (s : Screen)
    → Fits current s
    → (show : Bool) (i : ℕ) → i < s.size
    → drawn show s i < 2 ^ 8
drawn-byte current s f show i lt = ground (arith, f.bytes i lt)

module _ (show : Bool) (current : ℕ) (s : Screen) (f : Fits current s) where
  cell_tiles :
      (c : Canvas) (x y i tx ty half : ℕ)
      → i < s.size
      → x < s.columns
      → y < s.lines
      → half < 2
      → drawn_on current c (cell_sprites show current s x y i) (tx * 8) (ty * 16 + half * 8) ≡ (
          if (x == tx) && (y == ty) && not (s.dirty i == 0)
          then drawn show s i * 2 + (1 + half)
          else c (tx * 8) (ty * 16 + half * 8))
  unfolding paint fb_write cell_sprites
  cell_tiles c x y i tx ty half lt hx hy hh = elim (eq-cases (s.dirty i) 0) [
    | inl e ↦ rw e.1 (ground arith)
    | inr n ↦ rw n.1 (
        two_tiles c (drawn show s i) x y current tx ty half (drawn-byte current s f show i lt)
          (omega (arith, hx, f.narrow)) (omega (arith, hy, f.low)) f.few hh
        ∙ ground arith)
  ]

  -- Other lines, and the columns beside a part of a line, keep their tiles.
  row_beside :
      (n x y i tx ty half : ℕ) (c : Canvas)
      → i + n ≤ s.size
      → x + n ≤ s.columns
      → y < s.lines
      → half < 2
      → (y ≢ ty) ⊎ ((tx < x) ⊎ (x + n ≤ tx))
      → drawn_on current c (row_sprites show current s n x y i) (tx * 8) (ty * 16 + half * 8)
        ≡ c (tx * 8) (ty * 16 + half * 8)
  unfolding row_sprites paint fb_write
  row_beside zero x y i tx ty half c hi hx hy hh o = refl
  row_beside (suc n) x y i tx ty half c hi hx hy hh o =
      ap (λ (k : Canvas). k (tx * 8) (ty * 16 + half * 8))
        (drawn_on-append current c (cell_sprites show current s x y i)
          (row_sprites show current s n (suc x) y (suc i)))
      ∙ row_beside n (suc x) y (suc i) tx ty half _ (omega (arith, hi)) (omega (arith, hx)) hy hh
          (ground (arith, o))
      ∙ cell_tiles c x y i tx ty half (omega (arith, hi)) (omega (arith, hx)) hy hh
      ∙ ground (arith, o)

  -- A cell of the part of the line, `k` columns on
  row_tiles :
      (n x y i k tx j half : ℕ) (c : Canvas)
      → i + n ≤ s.size
      → x + n ≤ s.columns
      → y < s.lines
      → half < 2
      → k < n
      → tx ≡ x + k
      → j ≡ i + k
      → drawn_on current c (row_sprites show current s n x y i) (tx * 8) (y * 16 + half * 8) ≡ (
          if not (s.dirty j == 0)
          then drawn show s j * 2 + (1 + half)
          else c (tx * 8) (y * 16 + half * 8))
  unfolding row_sprites paint fb_write
  row_tiles zero x y i k tx j half c hi hx hy hh hk e e' = absurd (omega (arith, hk))
  row_tiles (suc n) x y i zero tx j half c hi hx hy hh hk e e' =
      let first : i ≡ j = omega (arith, e') in
      ap (λ (k : Canvas). k (tx * 8) (y * 16 + half * 8))
        (drawn_on-append current c (cell_sprites show current s x y i)
          (row_sprites show current s n (suc x) y (suc i)))
      ∙ row_beside n (suc x) y (suc i) tx y half _ (omega (arith, hi)) (omega (arith, hx)) hy hh
          (inr (inl (omega (arith, e))))
      ∙ cell_tiles c x y i tx y half (omega (arith, hi)) (omega (arith, hx)) hy hh
      ∙ rw (first, (==_iff x tx).1 (omega (arith, e)), (==_iff y y).1 refl) refl
  row_tiles (suc n) x y i (suc k) tx j half c hi hx hy hh hk e e' =
      let beside = cell_tiles c x y i tx y half (omega (arith, hi)) (omega (arith, hx)) hy hh in
      let same = beside ∙ if_not_eq x tx _ _ _ _ (λ z. omega (arith, z, e)) in
      ap (λ (k : Canvas). k (tx * 8) (y * 16 + half * 8))
        (drawn_on-append current c (cell_sprites show current s x y i)
          (row_sprites show current s n (suc x) y (suc i)))
      ∙ row_tiles n (suc x) y (suc i) k tx j half _ (omega (arith, hi)) (omega (arith, hx)) hy hh
          (omega (arith, hk)) (omega (arith, e)) (omega (arith, e'))
      ∙ ap (λ t. if not (s.dirty j == 0) then drawn show s j * 2 + (1 + half) else t) same

  -- The lines above keep their tiles.
  lines_beside :
      (n y i tx ty half : ℕ) (c : Canvas)
      → i + n * s.columns ≤ s.size
      → y + n ≤ s.lines
      → half < 2
      → ty < y
      → drawn_on current c (all_sprites show current s n y i) (tx * 8) (ty * 16 + half * 8)
        ≡ c (tx * 8) (ty * 16 + half * 8)
  unfolding all_sprites paint fb_write
  lines_beside zero y i tx ty half c hi hy hh o = refl
  lines_beside (suc n) y i tx ty half c hi hy hh o =
      ap (λ (k : Canvas). k (tx * 8) (ty * 16 + half * 8))
        (drawn_on-append current c (row_sprites show current s s.columns 0 y i)
          (all_sprites show current s n (suc y) (i + s.columns)))
      ∙ lines_beside n (suc y) (i + s.columns) tx ty half _ (omega (arith, hi, suc-mul n s.columns))
          (omega (arith, hy)) hh (omega (arith, o))
      ∙ row_beside s.columns 0 y i tx ty half c (omega (arith, hi, suc-mul n s.columns))
          (omega arith) (omega (arith, hy)) hh (inl (λ e. omega (arith, e, o)))

  -- A cell of the lines, `k` lines on
  pub lines_tiles :
      (n y i k tx ty j half : ℕ) (c : Canvas)
      → i + n * s.columns ≤ s.size
      → y + n ≤ s.lines
      → half < 2
      → k < n
      → tx < s.columns
      → ty ≡ y + k
      → j ≡ i + k * s.columns + tx
      → drawn_on current c (all_sprites show current s n y i) (tx * 8) (ty * 16 + half * 8) ≡ (
          if not (s.dirty j == 0)
          then drawn show s j * 2 + (1 + half)
          else c (tx * 8) (ty * 16 + half * 8))
  unfolding all_sprites paint fb_write
  lines_tiles zero y i k tx ty j half c hi hy hh hk ht e e' = absurd (omega (arith, hk))
  lines_tiles (suc n) y i zero tx ty j half c hi hy hh hk ht e e' =
      let here : y ≡ ty = omega (arith, e) in
      ap (λ (k : Canvas). k (tx * 8) (ty * 16 + half * 8))
        (drawn_on-append current c (row_sprites show current s s.columns 0 y i)
          (all_sprites show current s n (suc y) (i + s.columns)))
      ∙ lines_beside n (suc y) (i + s.columns) tx ty half _ (omega (arith, hi, suc-mul n s.columns))
          (omega (arith, hy)) hh (omega (arith, e))
      ∙ subst
          (λ l.
            drawn_on current c (row_sprites show current s s.columns 0 y i) (tx * 8)
              (l * 16 + half * 8)
            ≡ (if not (s.dirty j == 0)
                then drawn show s j * 2 + (1 + half)
                else c (tx * 8) (l * 16 + half * 8)))
          here
          (row_tiles s.columns 0 y i tx tx j half c (omega (arith, hi, suc-mul n s.columns))
            (omega arith) (omega (arith, hy)) hh ht (omega arith)
            (omega (arith, e', zero-mul s.columns)))
  lines_tiles (suc n) y i (suc k) tx ty j half c hi hy hh hk ht e e' =
      ap (λ (k : Canvas). k (tx * 8) (ty * 16 + half * 8))
        (drawn_on-append current c (row_sprites show current s s.columns 0 y i)
          (all_sprites show current s n (suc y) (i + s.columns)))
      ∙ lines_tiles n (suc y) (i + s.columns) k tx ty j half _
          (omega (arith, hi, suc-mul n s.columns)) (omega (arith, hy)) hh (omega (arith, hk)) ht
          (omega (arith, e)) (omega (arith, e', suc-mul k s.columns))
      ∙ ap (λ t. if not (s.dirty j == 0) then drawn show s j * 2 + (1 + half) else t)
          (row_beside s.columns 0 y i tx ty half c (omega (arith, hi, suc-mul n s.columns))
            (omega arith) (omega (arith, hy)) hh (inl (λ z. omega (arith, z, e))))
