-- ===== src/Tty/Screen/Cells.antt =====
-- The cells that the loops of the screen go through, and the arithmetic of its lines.
use native.Mathlib.Nat.{div-add-mod, mul-mod_right, mul-le-mul_left, mul-suc, mul-zero}
use jyy_os.Prelude.{
  ℕ, zero, suc, ◌+◌, ◌-◌, ◌*◌, ◌/◌, ◌%◌, ◌≤◌, ◌<◌, ◌≡◌, ◌⊎◌, inl, inr, ◌∙◌, refl, ap, sym, lt→ltb,
  le→leb, eq-cases, dec_lt, done, update, update_self, update_ne, arith,
}
use jyy_os.Tty.Screen.{
  Character, Screen, tty_defaultch, memmove, tty_upd_scrollup, clear_cells, tty_mark, mark_cells,
}

-- The cells from `place` on are marked, and no mark is taken away.
pub mark_cells_lem :
    (n place : ℕ) (s : Screen)
    → place + n ≤ s.size
    → (d : ℕ → ℕ) × (mark_cells n place s ≡ done (record s { dirty = d }))
      × ((i : ℕ) → d i ≡ 0 → (s.dirty i ≡ 0) × ((i < place) ⊎ (place + n ≤ i)))
unfolding mark_cells tty_mark
mark_cells_lem zero place s h = (s.dirty, refl, λ i e. (e, ground arith))
mark_cells_lem (suc n) place s h =
    let m =
      mark_cells_lem n (suc place) (record s { dirty = update s.dirty place 1 })
        (omega (arith, h)) in
    (
      m.0,
      rw (lt→ltb place s.size (omega (arith, h))) m.1,
      λ i e. (old i (m.2 i e), beside i (m.2 i e)),
    )
  where
    old :
        (i : ℕ)
        → ((update s.dirty place 1 i ≡ 0) × ((i < suc place) ⊎ (suc place + n ≤ i)))
        → s.dirty i ≡ 0
    old i e = ground (arith, e.0)

    beside :
        (i : ℕ)
        → ((update s.dirty place 1 i ≡ 0) × ((i < suc place) ⊎ (suc place + n ≤ i)))
        → (i < place) ⊎ (place + suc n ≤ i)
    beside i e = ground (arith, e.0, e.1)

-- The cells from `place` on are cleared, and no other changes.
pub clear_cells_lem :
    (n place : ℕ) (s : Screen)
    → place + n ≤ s.size
    → (b : ℕ → Character) × (clear_cells n place s ≡ done (record s { buf = b }))
      × ((i : ℕ) → i < place → b i ≡ s.buf i)
      × ((i : ℕ) → place ≤ i → i < place + n → b i ≡ tty_defaultch)
unfolding clear_cells
clear_cells_lem zero place s h =
    (s.buf, refl, (λ i lt. refl), λ i le lt. absurd (omega (arith, le, lt)))
clear_cells_lem (suc n) place s h =
    let m =
      clear_cells_lem n (suc place) (record s { buf = update s.buf place tty_defaultch })
        (omega (arith, h)) in
    (
      m.0,
      rw (lt→ltb place s.size (omega (arith, h))) m.1,
      (λ i lt.
          m.2 i (omega (arith, lt))
          ∙ update_ne s.buf place i tty_defaultch (λ e. omega (arith, e, lt))),
      λ i le lt. elim (eq-cases place i) [
        | inl e ↦
            m.2 i (omega (arith, e.0))
            ∙ ap (λ j. update s.buf place tty_defaultch j) (sym e.0)
            ∙ update_self s.buf place tty_defaultch
        | inr e ↦ m.3 i (omega (arith, e.0, le)) (omega (arith, lt))
      ],
    )

-- The line of a cell of the screen ends on the screen.
pub row_fits :
    (c columns lines : ℕ) → c < columns * lines → c - c % columns + columns ≤ columns * lines
row_fits c columns lines h = elim (dec_lt q lines) [
  | yes lt ↦ omega (arith, mul-le-mul_left columns lt, mul-suc columns q, div-add-mod c columns, h)
  | no ge ↦
      let le : lines ≤ q = omega (arith, ge) in
      absurd (omega (arith, mul-le-mul_left columns le, div-add-mod c columns, h))
]
  where
    q : ℕ
    q = c / columns

-- A line starts at a multiple of the columns.
pub row_start : (c columns : ℕ) → (c - c % columns) % columns ≡ 0
row_start c columns =
    ap (λ x. x % columns) (omega (arith, div-add-mod c columns))
    ∙ mul-mod_right columns (c / columns)

-- The screen without its last line
pub area_less :
    (columns lines : ℕ) → 0 < columns * lines → columns * (lines - 1) + columns ≡ columns * lines
area_less columns zero h = omega (arith, h, mul-zero columns)
area_less columns (suc lines) h =
    ap (λ n. columns * n + columns) (omega arith) ∙ sym (mul-suc columns lines)

-- The screen scrolls up when the cursor is behind its end: each line but the first goes one line up,
-- the last is cleared, and the cursor is at its start.
pub tty_upd_scrollup_lem :
    (s : Screen)
    → 0 < s.size
    → s.size ≡ s.columns * s.lines
    → s.cursor ≡ s.size
    → (b : ℕ → Character) × (d : ℕ → ℕ) × (tty_upd_scrollup s
        ≡ done (record s { buf = b; dirty = d; cursor = s.cursor - s.columns }))
      × (s.columns ≤ s.size)
      × ((i : ℕ) → i + s.columns < s.size → b i ≡ s.buf (s.columns + i))
      × ((i : ℕ) → s.size ≤ i + s.columns → i < s.size → b i ≡ tty_defaultch)
unfolding tty_upd_scrollup
tty_upd_scrollup_lem s h area e =
    let m = clear_cells_lem s.columns (s.cursor - s.columns) moved (omega (arith, fits, e)) in
    (
      m.0,
      moved.dirty,
      rw (le→leb s.columns s.cursor (omega (arith, fits, e))) m.1,
      fits,
      (λ i lt. m.2 i (omega (arith, lt, e)) ∙ rw (lt→ltb i move_sz (omega (arith, lt, less))) refl),
      λ i le lt. m.3 i (omega (arith, le, e)) (omega (arith, lt, e, fits)),
    )
  where
    move_sz : ℕ
    move_sz = s.columns * (s.lines - 1)

    moved : Screen
    moved = record s {
      buf = memmove s.buf s.columns move_sz;
      dirty = memmove s.dirty s.columns move_sz;
      cursor = s.cursor - s.columns;
    }

    less : move_sz + s.columns ≡ s.size
    less = area_less s.columns s.lines (rw area at h) ∙ sym area

    fits : s.columns ≤ s.size
    fits = omega (arith, less)
