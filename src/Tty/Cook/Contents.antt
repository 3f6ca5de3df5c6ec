-- ===== src/Tty/Cook/Contents.antt =====
-- What the ring of typed characters holds.
use mathlib.Core.Path.{subst}
use jyy_os.Prelude.{
  ℕ, suc, ◌-◌, ◌<◌, ◌≡◌, ◌≢◌, ◌⊎◌, inl, inr, ◌∙◌, refl, ap, sym, false, if◌then◌else◌, ◌==◌, ne→==,
  ==_iff, eq-cases, List, [], ◌∷◌, ◌++◌, length, length-append, done, panic, update, update_self,
  update_ne, arith,
}
use jyy_os.Prelude.Ring.{
  slot, slot-ne, HoldsFrom, HoldsFrom-update, HoldsFrom-append, HoldsFrom-last,
}
use jyy_os.Tty.Cook.{TtyQueue, tty_cook_buf_sz, step, tty_enqueue, tty_pop_back}

-- The characters from `front` to `rear` are the list, and `'\0'` stands before them.
pub record Contents (q : TtyQueue) (s : List ℕ) : Type 0 where
  pub inside : q.front < tty_cook_buf_sz
  pub room : length s < tty_cook_buf_sz
  pub rear : q.rear ≡ slot tty_cook_buf_sz q.front (length s)
  pub holds : HoldsFrom q.buf tty_cook_buf_sz q.front 0 s
  pub before : q.buf (slot tty_cook_buf_sz q.front 1023) ≡ 0

pub step-slot :
    (front n : ℕ)
    → front < tty_cook_buf_sz
    → n < tty_cook_buf_sz
    → step (slot tty_cook_buf_sz front n) ≡ slot tty_cook_buf_sz front (suc n)
step-slot front n h lt = ground arith

full_slot :
    (front n : ℕ)
    → front < tty_cook_buf_sz
    → n < tty_cook_buf_sz
    → (slot tty_cook_buf_sz front (suc n) == front) ≡ (suc n == tty_cook_buf_sz)
full_slot front n h lt = ground arith

-- A `'\0'` written anywhere leaves a `'\0'`.
zero_kept : (buf : ℕ → ℕ) (i j : ℕ) → buf j ≡ 0 → update buf i 0 j ≡ 0
zero_kept buf i j e = ground (arith, e)

-- One more character goes to the back; with 1023 in the ring it is the panic "tty queue full".
pub tty_enqueue-Contents :
    (q : TtyQueue) (s : List ℕ) (ch : ℕ)
    → Contents q s
    → ((suc (length s) < tty_cook_buf_sz)
        × ((q' : TtyQueue) × (tty_enqueue q ch ≡ done q')
            × Contents q' (s ++ (ch ∷ []))
            × (q'.cooked ≡ q.cooked)))
      ⊎ ((suc (length s) ≡ tty_cook_buf_sz) × (tty_enqueue q ch ≡ panic))
unfolding tty_enqueue
tty_enqueue-Contents q s ch c = elim (eq-cases (suc (length s)) tty_cook_buf_sz) [
  | inl y ↦ inr (y.0, rw (full, y.1) refl)
  | inr n ↦
      let lt : suc (length s) < tty_cook_buf_sz = omega (arith, n.0, c.room) in
      inl (
        lt,
        (
          q',
          rw (full, n.1) refl,
          record {
            inside = c.inside;
            room = omega (arith, lt, length-append s (ch ∷ []));
            rear =
                moved
                ∙ ap (slot tty_cook_buf_sz q.front) (omega (arith, length-append s (ch ∷ [])));
            holds =
                HoldsFrom-append q'.buf tty_cook_buf_sz q.front 0 (length s) s (ch ∷ [])
                  (omega arith) (old lt) (new lt, tt);
            before =
                zero_kept (update q.buf q.rear ch) (step q.rear) (slot tty_cook_buf_sz q.front 1023)
                  (rw c.rear (
                    update_ne q.buf (slot tty_cook_buf_sz q.front (length s))
                      (slot tty_cook_buf_sz q.front 1023) ch
                      (slot-ne tty_cook_buf_sz q.front (length s) 1023 c.inside (omega (arith, lt))
                        (omega arith))
                    ∙ c.before));
          },
          refl,
        ),
      )
]
  where
    q' : TtyQueue
    q' = record q { buf = update (update q.buf q.rear ch) (step q.rear) 0; rear = step q.rear }

    moved : step q.rear ≡ slot tty_cook_buf_sz q.front (suc (length s))
    moved = ap step c.rear ∙ step-slot q.front (length s) c.inside c.room

    full : (step q.rear == q.front) ≡ (suc (length s) == tty_cook_buf_sz)
    full = rw moved (full_slot q.front (length s) c.inside c.room)

    old : suc (length s) < tty_cook_buf_sz → HoldsFrom q'.buf tty_cook_buf_sz q.front 0 s
    old lt =
        subst (λ r. HoldsFrom (update (update q.buf q.rear ch) r 0) tty_cook_buf_sz q.front 0 s)
          (sym moved)
          (HoldsFrom-update (update q.buf q.rear ch) tty_cook_buf_sz q.front 0 (suc (length s)) 0 s
            c.inside (omega arith) lt
            (subst (λ r. HoldsFrom (update q.buf r ch) tty_cook_buf_sz q.front 0 s) (sym c.rear)
              (HoldsFrom-update q.buf tty_cook_buf_sz q.front 0 (length s) ch s c.inside
                (omega arith) c.room c.holds)))

    new : suc (length s) < tty_cook_buf_sz → q'.buf (slot tty_cook_buf_sz q.front (length s)) ≡ ch
    new lt =
        rw (moved, c.rear)
          (update_ne (update q.buf (slot tty_cook_buf_sz q.front (length s)) ch)
              (slot tty_cook_buf_sz q.front (suc (length s)))
              (slot tty_cook_buf_sz q.front (length s)) 0
              (λ e.
                slot-ne tty_cook_buf_sz q.front (length s) (suc (length s)) c.inside (omega arith)
                  lt (sym e))
            ∙ update_self q.buf (slot tty_cook_buf_sz q.front (length s)) ch)

-- The place before the rear
back_slot :
    (front n : ℕ)
    → front < tty_cook_buf_sz
    → suc n < tty_cook_buf_sz
    → (if slot tty_cook_buf_sz front (suc n) == 0
          then tty_cook_buf_sz
          else slot tty_cook_buf_sz front (suc n))
        - 1
      ≡ slot tty_cook_buf_sz front n
back_slot front n h lt = ground arith

empty_slot :
    (front : ℕ)
    → front < tty_cook_buf_sz
    → (if slot tty_cook_buf_sz front 0 == 0 then tty_cook_buf_sz else slot tty_cook_buf_sz front 0)
        - 1
      ≡ slot tty_cook_buf_sz front 1023
empty_slot front h = ground arith

-- The test that `tty_pop_back` starts with is always passed.
inside_test : (q : TtyQueue) (s : List ℕ) → Contents q s → (q.front == tty_cook_buf_sz) ≡ false
inside_test q s c = ne→== _ _ (omega (arith, c.inside))

-- The last character is taken back when it is not `'\0'`.
pub tty_pop_back-Contents :
    (q : TtyQueue) (s : List ℕ) (ch : ℕ)
    → ch ≢ 0
    → Contents q (s ++ (ch ∷ []))
    → (q' : TtyQueue) × (tty_pop_back q ≡ (0, q')) × Contents q' s × (q'.cooked ≡ q.cooked)
unfolding tty_pop_back
tty_pop_back-Contents q s ch nz c = (
  record q { rear = pos; buf = update q.buf pos 0 },
  rw (inside_test q (s ++ (ch ∷ [])) c, last) refl,
  record {
    inside = c.inside;
    room = omega (arith, lt);
    rear = back;
    holds =
        subst (λ r. HoldsFrom (update q.buf r 0) tty_cook_buf_sz q.front 0 s) (sym back)
          (HoldsFrom-update q.buf tty_cook_buf_sz q.front 0 (length s) 0 s c.inside (omega arith)
            (omega (arith, lt)) parts.0);
    before = zero_kept q.buf pos (slot tty_cook_buf_sz q.front 1023) c.before;
  },
  refl,
)
  where
    pos : ℕ
    pos = (if q.rear == 0 then tty_cook_buf_sz else q.rear) - 1

    lt : suc (length s) < tty_cook_buf_sz
    lt = omega (arith, c.room, length-append s (ch ∷ []))

    rear : q.rear ≡ slot tty_cook_buf_sz q.front (suc (length s))
    rear = c.rear ∙ ap (slot tty_cook_buf_sz q.front) (omega (arith, length-append s (ch ∷ [])))

    back : pos ≡ slot tty_cook_buf_sz q.front (length s)
    back = rw rear (back_slot q.front (length s) c.inside lt)

    parts :
        HoldsFrom q.buf tty_cook_buf_sz q.front 0 s
        × (q.buf (slot tty_cook_buf_sz q.front (length s)) ≡ ch)
    parts = HoldsFrom-last q.buf tty_cook_buf_sz q.front s ch c.holds

    last : (q.buf pos == 0) ≡ false
    last = ne→== _ _ (λ e. nz (sym parts.1 ∙ ap q.buf (sym back) ∙ e))

-- Nothing is taken back behind a `'\0'`, nor from an empty ring.
pub tty_pop_back-zero :
    (q : TtyQueue) (s : List ℕ) → Contents q (s ++ (0 ∷ [])) → tty_pop_back q ≡ (1, q)
unfolding tty_pop_back
tty_pop_back-zero q s c = rw (inside_test q (s ++ (0 ∷ [])) c, (==_iff _ 0).1 last) refl
  where
    pos : ℕ
    pos = (if q.rear == 0 then tty_cook_buf_sz else q.rear) - 1

    lt : suc (length s) < tty_cook_buf_sz
    lt = omega (arith, c.room, length-append s (0 ∷ []))

    rear : q.rear ≡ slot tty_cook_buf_sz q.front (suc (length s))
    rear = c.rear ∙ ap (slot tty_cook_buf_sz q.front) (omega (arith, length-append s (0 ∷ [])))

    last : q.buf pos ≡ 0
    last =
        ap q.buf (rw rear (back_slot q.front (length s) c.inside lt))
        ∙ (HoldsFrom-last q.buf tty_cook_buf_sz q.front s 0 c.holds).1

pub tty_pop_back-nil : (q : TtyQueue) → Contents q [] → tty_pop_back q ≡ (1, q)
unfolding tty_pop_back
tty_pop_back-nil q c = rw (inside_test q [] c, (==_iff _ 0).1 last) refl
  where
    last : q.buf ((if q.rear == 0 then tty_cook_buf_sz else q.rear) - 1) ≡ 0
    last = ap q.buf (rw c.rear (empty_slot q.front c.inside)) ∙ c.before
