-- ===== src/Tty/Screen/Putc.antt =====
-- `tty_putc` stays on the screen, and marks every cell that looks different after it.
use jyy_os.Prelude.{
  ℕ, ◌+◌, ◌-◌, ◌*◌, ◌%◌, ◌^◌, ◌<◌, ◌≡◌, inl, inr, ◌∙◌, refl, ap, sym, lt→ltb, le→ltb, eq-cases,
  dec_lt, List, [], ◌∷◌, done, ◌>>=◌, update, update_ne, arith,
}
use jyy_os.Tty.Screen.{
  Screen, tty_defaultch, set_ch, tty_upd_scrollup, tty_upd_cr, tty_upd_lf, tty_upd_backsp,
  tty_upd_putc, tty_mark, mark_cells, tty_mark_line, tty_mark_all, putc_return, putc_backspace,
  putc_newline, putc_other, tty_putc, put_all,
}
use jyy_os.Tty.Screen.Cells.{mark_cells_lem, tty_upd_scrollup_lem}
use jyy_os.Tty.Screen.Drawn.{
  WellFormed, After, Goes, start, line_on_screen, cursor_in_line, start_of_start, drawn_same,
  not_marked, set_ch-bytes,
}

return-Goes : (s : Screen) → WellFormed s → Goes s (putc_return s)
unfolding putc_return tty_upd_cr tty_mark_line start
return-Goes s g =
    let fits = line_on_screen s g in
    let inside = cursor_in_line s g in
    let m = mark_cells_lem s.columns (start s) (tty_upd_cr s) fits in
    (
      record s { cursor = start s; dirty = m.0 },
      ap (λ p. mark_cells s.columns p (tty_upd_cr s)) (start_of_start s) ∙ m.1,
      record {
        good = record {
          area = g.area;
          wide = g.wide;
          large = g.large;
          on_screen = omega (arith, inside.0, g.on_screen);
          bytes = g.bytes;
        };
        columns = refl;
        lines = refl;
        marked = λ i lt' e. (
          (m.2 i e).0,
          λ show.
              drawn_same s (record s { cursor = start s; dirty = m.0 }) i
                (λ x. ground (arith, x, (m.2 i e).1, inside))
                (λ x. ground (arith, x, (m.2 i e).1, g.wide)) refl show,
        );
      },
    )

backspace-Goes : (s : Screen) → WellFormed s → Goes s (putc_backspace s)
unfolding putc_backspace tty_upd_backsp tty_mark
backspace-Goes s g = elim (dec_lt 0 s.cursor) [
  | yes lt ↦
      let before = s.cursor - 1 in
      let s' : Screen = record s {
        cursor = before;
        buf = set_ch s.buf before 0;
        dirty = update (update s.dirty before 1) (before + 1) 1;
      } in
      (
        s',
        rw
            (
              lt→ltb 0 s.cursor lt,
              lt→ltb before s.size (omega (arith, g.on_screen)),
              lt→ltb (before + 1) s.size (omega (arith, lt, g.on_screen)),
            )
            refl,
        record {
          good = record {
            area = g.area;
            wide = g.wide;
            large = g.large;
            on_screen = omega (arith, g.on_screen);
            bytes = set_ch-bytes s before 0 g;
          };
          columns = refl;
          lines = refl;
          marked = λ i lt' e.
              let outer = not_marked (update s.dirty before 1) (before + 1) i e in
              let inner = not_marked s.dirty before i outer.1 in
              (
                inner.1,
                drawn_same s s' i (λ z. outer.0 (omega (arith, z, lt))) (λ z. inner.0 (sym z))
                    (update_ne s.buf before i (record (s.buf before) { ch = 0 % 2 ^ 8 }) inner.0),
              );
        },
      )
  | no ge ↦ (
    record s { dirty = update (update s.dirty s.cursor 1) (s.cursor + 1) 1 },
    rw
        (
          le→ltb 0 s.cursor (omega (arith, ge)),
          lt→ltb s.cursor s.size g.on_screen,
          lt→ltb (s.cursor + 1) s.size (omega (arith, ge, g.large)),
        )
        refl,
    record {
      good = record {
        area = g.area;
        wide = g.wide;
        large = g.large;
        on_screen = g.on_screen;
        bytes = g.bytes;
      };
      columns = refl;
      lines = refl;
      marked = λ i lt' e. (
        (not_marked s.dirty s.cursor i
            (not_marked (update s.dirty s.cursor 1) (s.cursor + 1) i e).1).1,
        λ show. refl,
      );
    },
  )
]

-- The screen moves up by a line when the cursor has left it, and every cell is marked.
scroll-Goes :
    (s s1 : Screen)
    → WellFormed s
    → s1.columns ≡ s.columns
    → s1.lines ≡ s.lines
    → s1.size ≡ s.size
    → s1.cursor ≡ s1.size
    → ((i : ℕ) → i < s.size → (s1.buf i).ch < 2 ^ 8)
    → Goes s (tty_upd_scrollup s1 >>= tty_mark_all)
unfolding tty_upd_scrollup tty_mark_all tty_defaultch
scroll-Goes s s1 g c l z e bytes =
    let u =
      tty_upd_scrollup_lem s1 (omega (arith, g.large, z))
        (z ∙ g.area ∙ sym (ap (λ n. n * s1.lines) c ∙ ap (λ n. s.columns * n) l)) e in
    let s2 : Screen = record s1 { buf = u.0; dirty = u.1; cursor = s1.cursor - s1.columns } in
    let m = mark_cells_lem s1.size 0 s2 (omega arith) in
    (
      record s2 { dirty = m.0 },
      rw u.2 m.1,
      record {
        good = record {
          area = z ∙ g.area ∙ sym (ap (λ n. n * s1.lines) c ∙ ap (λ n. s.columns * n) l);
          wide = omega (arith, c, g.wide);
          large = omega (arith, z, g.large);
          on_screen = omega (arith, e, z, g.large, c, g.wide);
          bytes = λ i lt. elim (dec_lt (i + s1.columns) s1.size) [
            | yes p ↦ rw (u.4 i p) (bytes (s1.columns + i) (omega (arith, p, z)))
            | no p ↦ rw (u.5 i (omega (arith, p)) lt) (omega arith)
          ];
        };
        columns = c;
        lines = l;
        marked = λ i lt f.
            absurd
              (elim (m.2 i f).1 [ inl a ↦ omega (arith, a) | inr a ↦ omega (arith, a, lt, z) ]);
      },
    )

newline-Goes : (s : Screen) → WellFormed s → Goes s (putc_newline s)
unfolding putc_newline tty_upd_lf tty_upd_cr tty_mark_line start
newline-Goes s g = elim (eq-cases (start s + s.columns) s.size) [
  | inl y ↦
      rw y.1
        (scroll-Goes s (record s { cursor = start s + s.columns }) g refl refl refl y.0 g.bytes)
  | inr n ↦
      let inside = cursor_in_line s g in
      let down : Screen = record s { cursor = start s + s.columns } in
      let lt : start s + s.columns < s.size = omega (arith, line_on_screen s g, n.0) in
      let g' : WellFormed down = record {
        area = g.area;
        wide = g.wide;
        large = g.large;
        on_screen = lt;
        bytes = g.bytes;
      } in
      let m1 = mark_cells_lem s.columns (start s) down (line_on_screen s g) in
      let m2 =
        mark_cells_lem s.columns (start down) (record down { dirty = m1.0 })
          (line_on_screen down g') in
      let back : start s + s.columns - s.columns ≡ start s = omega arith in
      (
        record down { dirty = m2.0 },
        rw (n.1, back, start_of_start s, m1.1) m2.1,
        record {
          good = record {
            area = g.area;
            wide = g.wide;
            large = g.large;
            on_screen = lt;
            bytes = g.bytes;
          };
          columns = refl;
          lines = refl;
          marked = λ i lt' e.
              let outer = m2.2 i e in
              let inner = m1.2 i outer.0 in
              (
                inner.0,
                drawn_same s (record down { dirty = m2.0 }) i
                    (λ x. ground (arith, x, inner.1, inside))
                    (λ x. ground (arith, x, outer.1, cursor_in_line down g')) refl,
              );
        },
      )
]

other-Goes : (s : Screen) (ch : ℕ) → WellFormed s → Goes s (putc_other s ch)
unfolding putc_other tty_upd_putc tty_mark
other-Goes s ch g = rw (lt→ltb s.cursor s.size g.on_screen) (elim (eq-cases (s.cursor + 1) s.size) [
  | inl y ↦ rw y.1 (
      scroll-Goes s (record s { buf = set_ch s.buf s.cursor ch; cursor = s.cursor + 1 }) g refl refl
        refl y.0 (set_ch-bytes s s.cursor ch g))
  | inr n ↦
      let back : s.cursor + 1 - 1 ≡ s.cursor = omega arith in
      let s' : Screen = record s {
        buf = set_ch s.buf s.cursor ch;
        cursor = s.cursor + 1;
        dirty = update (update s.dirty s.cursor 1) (s.cursor + 1) 1;
      } in
      (
        s',
        rw
            (
              n.1,
              back,
              lt→ltb s.cursor s.size g.on_screen,
              lt→ltb (s.cursor + 1) s.size (omega (arith, n.0, g.on_screen)),
            )
            refl,
        record {
          good = record {
            area = g.area;
            wide = g.wide;
            large = g.large;
            on_screen = omega (arith, n.0, g.on_screen);
            bytes = set_ch-bytes s s.cursor ch g;
          };
          columns = refl;
          lines = refl;
          marked = λ i lt' e.
              let outer = not_marked (update s.dirty s.cursor 1) (s.cursor + 1) i e in
              let inner = not_marked s.dirty s.cursor i outer.1 in
              (
                inner.1,
                drawn_same s s' i (λ z. inner.0 (sym z)) (λ z. outer.0 (sym z))
                    (update_ne s.buf s.cursor i (record (s.buf s.cursor) { ch = ch % 2 ^ 8 })
                      inner.0),
              );
        },
      )
])

-- Write a character to a well-formed screen. Nothing outside the buffers is accessed, the screen is
-- well-formed again, of the same size, and every cell without a mark had none before and is drawn
-- the same, whatever is drawn for the cursor.
pub tty_putc-After :
    (s : Screen) (ch : ℕ) → WellFormed s → (s' : Screen) × (tty_putc s ch ≡ done s') × After s s'
unfolding tty_putc
tty_putc-After s ch g = elim (eq-cases ch 13) [
  | inl y ↦ rw y.1 (return-Goes s g)
  | inr n ↦ rw n.1 (elim (eq-cases ch 8) [
    | inl y ↦ rw y.1 (backspace-Goes s g)
    | inr n' ↦ rw n'.1 (elim (eq-cases ch 10) [
      | inl y ↦ rw y.1 (newline-Goes s g)
      | inr n'' ↦ rw n''.1 (other-Goes s ch g)
    ])
  ])
]

After-trans : (s s1 s2 : Screen) → WellFormed s → After s s1 → After s1 s2 → After s s2
After-trans s s1 s2 g a b = record {
  good = b.good;
  columns = b.columns ∙ a.columns;
  lines = b.lines ∙ a.lines;
  marked = λ i lt e.
      let later = b.marked i (omega (arith, lt, same)) e in
      let sooner = a.marked i lt later.0 in (sooner.0, λ show. later.1 show ∙ sooner.1 show);
}
  where
    same : s1.size ≡ s.size
    same =
        a.good.area
        ∙ ap (λ n. n * s1.lines) a.columns
        ∙ ap (λ n. s.columns * n) a.lines
        ∙ sym g.area

pub put_all-After :
    (s : Screen) (chars : List ℕ)
    → WellFormed s
    → (s' : Screen) × (put_all s chars ≡ done s') × After s s'
unfolding put_all
put_all-After s [] g = (
  s,
  refl,
  record { good = g; columns = refl; lines = refl; marked = λ i lt e. (e, λ show. refl) },
)
put_all-After s (ch ∷ more) g =
    let a = tty_putc-After s ch g in
    let b = put_all-After a.0 more a.2.good in (b.0, rw (a.1) b.1, After-trans s a.0 b.0 g a.2 b.2)
