-- ===== src/Tty/Cook/Reading.antt =====
-- `tty_read` on a ring that holds lines.
use mathlib.Core.List.{append_assoc, append-nil}
use mathlib.Core.Path.{subst}
use jyy_os.Prelude.{
  ℕ, zero, suc, ◌+◌, ◌-◌, ◌<◌, ◌≡◌, ◌≢◌, ◌∙◌, refl, ap, sym, false, ◌==◌, ne→==, le→ltb, lt→ltb,
  dec_lt, List, [], ◌∷◌, ◌++◌, All, take, length, length-append, Outcome, done, arith,
}
use jyy_os.Prelude.Ring.{slot, slot-lt, slot-slot, HoldsFrom, HoldsFrom-shift, HoldsFrom-split}
use jyy_os.Tty.Cook.{TtyQueue, tty_cook_buf_sz, step, put, read_loop, tty_read}
use jyy_os.Tty.Cook.Contents.{step-slot}
use jyy_os.Tty.Cook.Lines.{Lines, stored, used, Holds}

front_slot : (front : ℕ) → front < tty_cook_buf_sz → front ≡ slot tty_cook_buf_sz front 0
front_slot front h = ground arith

put-zero : (count : ℕ) (got : List ℕ) → put count got 0 ≡ got
unfolding put
put-zero count got = ground arith

take_zero : (l : List ℕ) → take 0 l ≡ []
take_zero [] = refl
take_zero (x ∷ l) = refl

-- What is put into the buffer is the start of the line, as far as there is room.
put_more :
    (count : ℕ) (got l : List ℕ) (ch : ℕ)
    → ch ≢ 0
    → put count got ch ++ take (count - length (put count got ch)) l
      ≡ got ++ take (count - length got) (ch ∷ l)
unfolding put
put_more count got l ch nz = elim (dec_lt (length got) count) [
  | yes lt ↦
      let left : count - length got ≡ suc (count - length (got ++ (ch ∷ []))) =
        omega (arith, lt, length-append got (ch ∷ [])) in
      rw (lt→ltb _ _ lt, ne→== ch 0 nz)
        (append_assoc got (ch ∷ []) (take (count - length (got ++ (ch ∷ []))) l)
          ∙ ap (λ k. got ++ take k (ch ∷ l)) (sym left))
  | no ge ↦
      let left : count - length got ≡ 0 = omega (arith, ge) in
      rw (le→ltb (length got) count (omega (arith, ge)), left) (ap (λ t. got ++ t) (take_zero l))
]

-- The loop, `i` characters from the front, before the rest `l` of a line: it ends behind the line.
read_loop-line :
    (n count : ℕ) (q : TtyQueue) (got l r : List ℕ) (front i : ℕ)
    → front < tty_cook_buf_sz
    → q.front ≡ slot tty_cook_buf_sz front i
    → i + length l < tty_cook_buf_sz
    → All (λ x. x ≢ 0) l
    → HoldsFrom q.buf tty_cook_buf_sz front i (l ++ (0 ∷ r))
    → length l < n
    → read_loop n count q got
      ≡ done (
        got ++ take (count - length got) l,
        record q { front = slot tty_cook_buf_sz front (suc (i + length l)) },
      )
unfolding read_loop
read_loop-line zero count q got l r front i h e room nz o enough = absurd (omega (arith, enough))
read_loop-line (suc n) count q got [] r front i h e room nz o enough =
    let here : q.buf q.front ≡ 0 = ap q.buf e ∙ o.0 in
    let next : step q.front ≡ slot tty_cook_buf_sz front (suc (i + 0)) =
      ap step e
      ∙ step-slot front i h (omega (arith, room))
      ∙ ap (slot tty_cook_buf_sz front) (omega arith) in
    rw (here, put-zero count got, next) (ap (λ g. done (g, _)) (sym (append-nil got)))
read_loop-line (suc n) count q got (ch ∷ l) r front i h e room nz o enough =
    let here : q.buf q.front ≡ ch = ap q.buf e ∙ o.0 in
    let next : step q.front ≡ slot tty_cook_buf_sz front (suc i) =
      ap step e ∙ step-slot front i h (omega (arith, room)) in
    let test : (q.buf q.front == 0) ≡ false = ne→== _ 0 (λ z. nz.0 (sym here ∙ z)) in
    let rest =
      read_loop-line n count (record q { front = step q.front }) (put count got ch) l r front
        (suc i) h next (omega (arith, room)) nz.1 o.1 (omega (arith, enough)) in
    let behind : suc i + length l ≡ i + suc (length l) = omega arith in
    let ends : List ℕ → ℕ → Outcome (List ℕ × TtyQueue) =
      λ g k. done (g, record q { front = slot tty_cook_buf_sz front (suc k) }) in
    rw (test, here)
      (rest
        ∙ ap (λ g. ends g (suc i + length l)) (put_more count got l ch nz.0)
        ∙ ap (λ k. ends (got ++ take (count - length got) (ch ∷ l)) k) behind)

behind_line :
    (front n : ℕ)
    → front < tty_cook_buf_sz
    → suc n < tty_cook_buf_sz
    → slot tty_cook_buf_sz (slot tty_cook_buf_sz front (suc n)) 1023 ≡ slot tty_cook_buf_sz front n
behind_line front n h lt = ground arith

-- A read of lines of which one is complete gives the first characters of the first line, as many as
-- the caller asks for, and takes away the whole line.
pub tty_read-Holds :
    (q : TtyQueue) (l : List ℕ) (d : Lines) (count : ℕ)
    → Holds q (record d { complete = l ∷ d.complete })
    → (q' : TtyQueue) × (tty_read q count ≡ done (take count l, q')) × Holds q' d
unfolding tty_read
tty_read-Holds q l d count h = (
  q',
  rw (ne→== q.cooked 0 (omega (arith, h.counted))) loop,
  record {
    contents = record {
      inside =
          slot-lt tty_cook_buf_sz q.front (suc (length l)) h.contents.inside (omega (arith, lt));
      room = omega (arith, lt);
      rear =
          h.contents.rear
          ∙ sym (
              slot-slot tty_cook_buf_sz q.front (suc (length l)) (length (used d)) _
                h.contents.inside size h.contents.room);
      holds =
          HoldsFrom-shift q.buf tty_cook_buf_sz q.front (suc (length l)) 0 (suc (0 + length l))
            (used d) h.contents.inside (omega arith) (omega (arith, lt)) parts.1.1;
      before =
          ap q.buf (behind_line q.front (length l) h.contents.inside (omega (arith, lt)))
          ∙ subst (λ k. q.buf (slot tty_cook_buf_sz q.front k) ≡ 0) (omega arith) parts.1.0;
    };
    chars = h.chars.1;
    current_chars = h.current_chars;
    counted = omega (arith, h.counted);
  },
)
  where
    s : List ℕ
    s = used (record d { complete = l ∷ d.complete })

    q' : TtyQueue
    q' = record q { front = slot tty_cook_buf_sz q.front (suc (length l)); cooked = q.cooked - 1 }

    whole : s ≡ l ++ (0 ∷ used d)
    whole = append_assoc l (0 ∷ stored d.complete) d.current

    size : length s ≡ suc (length l) + length (used d)
    size = ap (length {0}) whole ∙ omega (arith, length-append l (0 ∷ used d))

    lt : suc (length l) + length (used d) < tty_cook_buf_sz
    lt = omega (arith, size, h.contents.room)

    there : HoldsFrom q.buf tty_cook_buf_sz q.front 0 (l ++ (0 ∷ used d))
    there = subst (λ w. HoldsFrom q.buf tty_cook_buf_sz q.front 0 w) whole h.contents.holds

    parts :
        HoldsFrom q.buf tty_cook_buf_sz q.front 0 l
        × HoldsFrom q.buf tty_cook_buf_sz q.front (0 + length l) (0 ∷ used d)
    parts = HoldsFrom-split q.buf tty_cook_buf_sz q.front 0 l (0 ∷ used d) there

    loop0 :
        read_loop tty_cook_buf_sz count (record q { cooked = q.cooked - 1 }) []
        ≡ done (
          take (count - 0) l,
          record q {
            front = slot tty_cook_buf_sz q.front (suc (0 + length l));
            cooked = q.cooked - 1;
          },
        )
    loop0 =
        read_loop-line tty_cook_buf_sz count (record q { cooked = q.cooked - 1 }) [] l (used d)
          q.front 0 h.contents.inside (front_slot q.front h.contents.inside) (omega (arith, lt))
          h.chars.0 there (omega (arith, lt))

    loop :
        read_loop tty_cook_buf_sz count (record q { cooked = q.cooked - 1 }) []
        ≡ done (take count l, q')
    loop =
        subst
          (λ n.
            read_loop tty_cook_buf_sz count (record q { cooked = q.cooked - 1 }) []
            ≡ done (take n l, q'))
          (omega arith)
          (subst
            (λ k.
              read_loop tty_cook_buf_sz count (record q { cooked = q.cooked - 1 }) []
              ≡ done (
                take (count - 0) l,
                record q { front = slot tty_cook_buf_sz q.front (suc k); cooked = q.cooked - 1 },
              ))
            (omega arith) loop0)
