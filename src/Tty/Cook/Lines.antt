-- ===== src/Tty/Cook/Lines.antt =====
-- A line discipline: the lines that were completed and not read, and the line being typed.
use mathlib.Core.List.{append_assoc, append-nil}
use mathlib.Core.Path.{subst}
use jyy_os.Prelude.{
  ℕ, suc, ◌+◌, ◌≤◌, ◌<◌, ◌≡◌, ◌≢◌, ◌⊎◌, inl, inr, ◌∙◌, refl, ap, sym, false, if◌then◌else◌, ◌==◌,
  eq-cases, ne→==, All-split, List, [], ◌∷◌, ◌++◌, All, All-append, length, length-append, done,
  panic, arith,
}
use jyy_os.Tty.Cook.{
  TtyQueue, tty_cook_buf_sz, newline, backspace, tty_pop_back, cook_newline, tty_cook,
}
use jyy_os.Tty.Cook.Contents.{
  Contents, tty_enqueue-Contents, tty_pop_back-Contents, tty_pop_back-zero, tty_pop_back-nil,
}

pub record Lines : Type 0 where
  pub complete : List (List ℕ)
  pub current : List ℕ

-- How the complete lines stand in the ring
abbrev pub stored : List (List ℕ) → List ℕ
stored [] = []
stored (l ∷ ls) = l ++ (0 ∷ stored ls)

abbrev pub used : Lines → List ℕ
used d = stored d.complete ++ d.current

-- All but the last
abbrev pub drop_last : List ℕ → List ℕ
drop_last [] = []
drop_last (x ∷ []) = []
drop_last (x ∷ (y ∷ l)) = x ∷ drop_last (y ∷ l)

-- A character is typed: a newline completes the line, a backspace takes back the last character
-- of it, any other goes behind it.
abbrev pub typed : Lines → ℕ → Lines
typed d ch =
    if ch == newline
    then record { complete = d.complete ++ ((d.current ++ (newline ∷ [])) ∷ []); current = [] }
    else if ch == backspace
    then record d { current = drop_last d.current }
    else record d { current = d.current ++ (ch ∷ []) }

-- 1 for a backspace in an empty line, which is not to be echoed
abbrev pub refused : Lines → ℕ → ℕ
refused d ch = if ch == backspace then (if length d.current == 0 then 1 else 0) else 0

-- The ring holds the lines, and no character of them is `'\0'`.
pub record Holds (q : TtyQueue) (d : Lines) : Type 0 where
  pub contents : Contents q (used d)
  pub chars : All (All (λ x. x ≢ 0)) d.complete
  pub current_chars : All (λ x. x ≢ 0) d.current
  pub counted : q.cooked ≡ length d.complete

stored-append :
    (ls : List (List ℕ)) (l : List ℕ) → stored (ls ++ (l ∷ [])) ≡ stored ls ++ (l ++ (0 ∷ []))
stored-append [] l = refl
stored-append (k ∷ ls) l =
    rw (stored-append ls l) (sym (append_assoc k (0 ∷ stored ls) (l ++ (0 ∷ []))))

-- A list is empty or has a last element.
last_cases :
    (l : List ℕ)
    → (l ≡ []) ⊎ ((k : List ℕ) × (x : ℕ) × (l ≡ k ++ (x ∷ [])) × (drop_last l ≡ k) × (0 < length l))
last_cases [] = inl refl
last_cases (x ∷ []) = inr ([], x, refl, refl, omega arith)
last_cases (x ∷ (y ∷ l)) = elim (last_cases (y ∷ l)) [
  | inl e ↦ cc
  | inr (k, z, e, f, g) ↦ inr (x ∷ k, z, ap (λ w. x ∷ w) e, ap (λ w. x ∷ w) f, omega arith)
]

-- What `tty_cook` does with a character: when the lines then fit into the ring with one place to
-- spare, they are in it; otherwise it is the panic "tty queue full".
abbrev pub Result : TtyQueue → Lines → ℕ → Type 0
Result q d ch =
    ((q' : TtyQueue) × (length (used (typed d ch)) < tty_cook_buf_sz)
      × (tty_cook q ch ≡ done (refused d ch, q'))
      × Holds q' (typed d ch))
    ⊎ ((tty_cook_buf_sz ≤ length (used (typed d ch))) × (tty_cook q ch ≡ panic))

cook_newline-Holds : (q : TtyQueue) (d : Lines) → Holds q d → Result q d newline
unfolding tty_cook cook_newline
cook_newline-Holds q d h = elim (tty_enqueue-Contents q (used d) newline h.contents) [
  | inr (full, e) ↦ inr (omega (arith, full, size), rw e refl)
  | inl (room, (q1, e, c1, same1)) ↦
      elim (tty_enqueue-Contents q1 (used d ++ (newline ∷ [])) 0 c1) [
        | inr (full, e') ↦
            inr (omega (arith, full, size, length-append (used d) (newline ∷ [])), rw (e, e') refl)
        | inl (room', (q2, e', c2, same2)) ↦ inl (
          record q2 { cooked = q2.cooked + 1 },
          omega (arith, room', size, length-append (used d) (newline ∷ [])),
          rw (e, e') refl,
          record {
            contents = again (subst (λ s. Contents q2 s) (sym shape) c2);
            chars = All-append _ d.complete ((d.current ++ (newline ∷ [])) ∷ []) h.chars (
              All-append _ d.current (newline ∷ []) h.current_chars ((λ e. omega (arith, e)), tt),
              tt,
            );
            current_chars = tt;
            counted = omega (
              arith,
              same1,
              same2,
              h.counted,
              length-append d.complete ((d.current ++ (newline ∷ [])) ∷ []),
            );
          },
        )
      ]
]
  where
    again :
        {q : TtyQueue} {s : List ℕ} {n : ℕ} → Contents q s → Contents (record q { cooked = n }) s
    again c = record {
      inside = c.inside;
      room = c.room;
      rear = c.rear;
      holds = c.holds;
      before = c.before;
    }

    shape : used (typed d newline) ≡ (used d ++ (newline ∷ [])) ++ (0 ∷ [])
    shape =
        ap (λ s. s ++ []) (stored-append d.complete (d.current ++ (newline ∷ [])))
        ∙ append-nil _
        ∙ sym (append_assoc (stored d.complete) (d.current ++ (newline ∷ [])) (0 ∷ []))
        ∙ ap (λ s. s ++ (0 ∷ [])) (sym (append_assoc (stored d.complete) d.current (newline ∷ [])))

    size : length (used (typed d newline)) ≡ suc (suc (length (used d)))
    size =
        ap (length {0}) shape
        ∙ omega (
          arith,
          length-append (used d ++ (newline ∷ [])) (0 ∷ []),
          length-append (used d) (newline ∷ []),
        )

-- The stored lines are none or end with a `'\0'`.
stored_end : (ls : List (List ℕ)) → (stored ls ≡ []) ⊎ ((k : List ℕ) × (stored ls ≡ k ++ (0 ∷ [])))
stored_end [] = inl refl
stored_end (l ∷ ls) = elim (stored_end ls) [
  | inl e ↦ inr (l, ap (λ s. l ++ (0 ∷ s)) e)
  | inr (k, e) ↦
      inr (l ++ (0 ∷ k), ap (λ s. l ++ (0 ∷ s)) e ∙ sym (append_assoc l (0 ∷ k) (0 ∷ [])))
]

pop_refused : (q : TtyQueue) (d : Lines) → Holds q d → d.current ≡ [] → tty_pop_back q ≡ (1, q)
pop_refused q d h e = elim (stored_end d.complete) [
  | inl f ↦ tty_pop_back-nil q (subst (λ s. Contents q s) (whole ∙ f) h.contents)
  | inr (k, f) ↦ tty_pop_back-zero q k (subst (λ s. Contents q s) (whole ∙ f) h.contents)
]
  where
    whole : used d ≡ stored d.complete
    whole = ap (λ c. stored d.complete ++ c) e ∙ append-nil (stored d.complete)

backspace-Holds : (q : TtyQueue) (d : Lines) → Holds q d → Result q d backspace
unfolding tty_cook
backspace-Holds q d h = elim (last_cases d.current) [
  | inl e ↦ inl (
    q,
    omega (
      arith,
      ap (λ c. length (stored d.complete ++ drop_last c)) e,
      ap (λ c. length (stored d.complete ++ c)) e,
      h.contents.room,
    ),
    rw (pop_refused q d h e, e) refl,
    record {
      contents =
          subst (λ c. Contents q (stored d.complete ++ c)) (e ∙ sym (ap drop_last e)) h.contents;
      chars = h.chars;
      current_chars = rw e tt;
      counted = h.counted;
    },
  )
  | inr (k, x, e, f, some_left) ↦
      let apart = All-split _ k (x ∷ []) (subst (λ c. All (λ y. y ≢ 0) c) e h.current_chars) in
      let split : used d ≡ (stored d.complete ++ k) ++ (x ∷ []) =
        ap (λ c. stored d.complete ++ c) e ∙ sym (append_assoc (stored d.complete) k (x ∷ [])) in
      let p =
        tty_pop_back-Contents q (stored d.complete ++ k) x apart.1.0
          (subst (λ s. Contents q s) split h.contents) in
      inl (
        p.0,
        rw f p.2.room,
        rw (p.1, ne→== (length d.current) 0 (omega (arith, some_left))) refl,
        record {
          contents = rw f p.2;
          chars = h.chars;
          current_chars = rw f apart.0;
          counted = p.3 ∙ h.counted;
        },
      )
]

other-Holds :
    (q : TtyQueue) (d : Lines) (ch : ℕ)
    → ch ≢ 0
    → (ch == newline) ≡ false
    → (ch == backspace) ≡ false
    → Holds q d
    → Result q d ch
unfolding tty_cook
other-Holds q d ch nz a b h = elim (tty_enqueue-Contents q (used d) ch h.contents) [
  | inr (full, e) ↦ inr (rw (a, b) (omega (arith, full, size)), rw (a, b, e) refl)
  | inl (room, (q1, e, c, same)) ↦ inl (
    q1,
    rw (a, b) (omega (arith, room, size)),
    rw (a, b, e) refl,
    rw (a, b)
        (record {
          contents = subst (λ s. Contents q1 s) shape c;
          chars = h.chars;
          current_chars = All-append _ d.current (ch ∷ []) h.current_chars (nz, tt);
          counted = same ∙ h.counted;
        }),
  )
]
  where
    shape : used d ++ (ch ∷ []) ≡ stored d.complete ++ (d.current ++ (ch ∷ []))
    shape = append_assoc (stored d.complete) d.current (ch ∷ [])

    size : length (stored d.complete ++ (d.current ++ (ch ∷ []))) ≡ suc (length (used d))
    size = ap (length {0}) (sym shape) ∙ omega (arith, length-append (used d) (ch ∷ []))

-- `tty_cook` on a character that is not `'\0'`
pub tty_cook-Holds : (q : TtyQueue) (d : Lines) (ch : ℕ) → ch ≢ 0 → Holds q d → Result q d ch
tty_cook-Holds q d ch nz h = elim (eq-cases ch newline) [
  | inl a ↦ subst (λ x. Result q d x) (sym a.0) (cook_newline-Holds q d h)
  | inr a ↦ elim (eq-cases ch backspace) [
    | inl b ↦ subst (λ x. Result q d x) (sym b.0) (backspace-Holds q d h)
    | inr b ↦ other-Holds q d ch nz a.1 b.1 h
  ]
]
