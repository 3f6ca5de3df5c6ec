-- ===== src/Tty/Cook/Session.antt =====
-- The queue of a terminal in use: characters are typed and lines are read, in any order.
use jyy_os.Prelude.{
  ℕ, ◌≡◌, ◌≢◌, ◌⊎◌, inl, inr, refl, ap, if◌then◌else◌, ==_iff, leb, le→leb, lt→leb, List, [], ◌∷◌,
  All, take, length, Outcome, done, panic, stuck, ◌>>=◌,
}
use jyy_os.Tty.Cook.{TtyQueue, tty_cook_buf_sz, tty_cook, tty_read}
use jyy_os.Tty.Cook.Lines.{Lines, used, typed, refused, Holds, tty_cook-Holds}
use jyy_os.Tty.Cook.Reading.{tty_read-Holds}

-- A character that is typed, or a read of at most so many characters
pub data Action : Type 0 where
  key : ℕ → Action
  read : ℕ → Action

-- What the one who acts is told: what `tty_cook` returns, or the characters that were read.
pub data Reply : Type 0 where
  cooked : ℕ → Reply
  line : List ℕ → Reply

abbrev pub act : TtyQueue → Action → Outcome (Reply × TtyQueue)
act q (key ch) = tty_cook q ch >>= λ r. done (cooked r.0, r.1)
act q (read count) = tty_read q count >>= λ r. done (line r.0, r.1)

-- The same of the lines alone: a read waits while no line is complete.
abbrev pub line_act : Lines → Action → Outcome (Reply × Lines)
line_act d (key ch) =
    if leb tty_cook_buf_sz (length (used (typed d ch)))
    then panic
    else done (cooked (refused d ch), typed d ch)
line_act d (read count) = elim d.complete [
  | [] ↦ stuck
  | l ∷ ls ↦ done (line (take count l), record d { complete = ls })
]

-- One action after another, and all replies
abbrev pub session {ℓ} :
    {S : Type ℓ} → (S → Action → Outcome (Reply × S)) → S → List Action → Outcome (List Reply)
session move s [] = done []
session move s (a ∷ more) =
    move s a >>= λ r. session move r.1 more >>= λ replies. done (r.0 ∷ replies)

-- No character that is typed is `'\0'`.
abbrev pub Printing : Action → Type 0
Printing (key ch) = ch ≢ 0
Printing (read count) = Unit

-- The two moves agree, and the ring holds the lines again.
Agree : Outcome (Reply × TtyQueue) → Outcome (Reply × Lines) → Type 0
Agree m w =
    ((q : TtyQueue) × (d : Lines) × (r : Reply) × (m ≡ done (r, q)) × (w ≡ done (r, d)) × Holds q d)
    ⊎ ((m ≡ panic) × (w ≡ panic))
    ⊎ ((m ≡ stuck) × (w ≡ stuck))

key-Agree :
    (q : TtyQueue) (d : Lines) (ch : ℕ)
    → ch ≢ 0
    → Holds q d
    → Agree (act q (key ch)) (line_act d (key ch))
unfolding Agree
key-Agree q d ch nz h = elim (tty_cook-Holds q d ch nz h) [
  | inl (q', room, e, h') ↦ inl (
    q',
    typed d ch,
    cooked (refused d ch),
    rw e refl,
    rw (lt→leb tty_cook_buf_sz _ room) refl,
    h',
  )
  | inr (full, e) ↦ inr (inl (rw e refl, rw (le→leb tty_cook_buf_sz _ full) refl))
]

read-Agree :
    (q : TtyQueue) (ls : List (List ℕ)) (c : List ℕ) (count : ℕ)
    → Holds q (record { complete = ls; current = c })
    → Agree (act q (read count)) (line_act (record { complete = ls; current = c }) (read count))
unfolding Agree tty_read
read-Agree q [] c count h = inr (inr (rw ((==_iff q.cooked 0).1 h.counted) refl, refl))
read-Agree q (l ∷ ls) c count h =
    let p = tty_read-Holds q l (record { complete = ls; current = c }) count h in
    inl (
      p.0,
      record { complete = ls; current = c },
      line (take count l),
      ap (λ m. m >>= λ r. done (line r.0, r.1)) p.1,
      refl,
      p.2,
    )

act-Agree :
    (q : TtyQueue) (d : Lines) (a : Action)
    → Printing a
    → Holds q d
    → Agree (act q a) (line_act d a)
act-Agree q d (key ch) nz h = key-Agree q d ch nz h
act-Agree q d (read count) nz h = read-Agree q d.complete d.current count h

-- Take a ring of typed characters that holds the lines `d`. Whatever is typed at it and read from
-- it, in any order, as long as no character `'\0'` is typed: what the calls return, and whether they
-- panic or wait for ever, is what the line discipline says. There a newline completes the current
-- line; a backspace takes back the last character of the current line, and never one of a line that
-- is complete; a read gives the start of the first complete line, as much as is asked for, and drops
-- the line; and the panic comes when the characters and one `'\0'` for each complete line are 1024.
pub session_refines :
    (q : TtyQueue) (d : Lines) (actions : List Action)
    → Holds q d
    → All Printing actions
    → session act q actions ≡ session line_act d actions
unfolding Agree
session_refines q d [] h nz = refl
session_refines q d (a ∷ more) h nz = elim (act-Agree q d a nz.0 h) [
  | inl (q', d', r, e, f, h') ↦
      let rest = session_refines q' d' more h' nz.1 in
      rw (e, f) (ap (λ w. w >>= λ replies. done (r ∷ replies)) rest)
  | inr (inl (e, f)) ↦ rw (e, f) refl
  | inr (inr (e, f)) ↦ rw (e, f) refl
]
