-- ===== src/Input/Events/Holding.antt =====
-- A ring that holds a list of events: a push appends to it, and a pop takes its first.
use jyy_os.Prelude.{
  ℕ, suc, ◌+◌, ◌%◌, ◌<◌, ◌≡◌, ◌∙◌, ap, sym, ◌⊎◌, inl, inr, refl, false, ◌==◌, ne→==, ==_iff,
  eq-cases, List, [], ◌∷◌, ◌++◌, length, length-append, done, panic, update, update_self, arith,
}
use mathlib.Core.Path.{subst}
use jyy_os.Prelude.Ring.{
  slot, slot-ne, HoldsFrom, HoldsFrom-update, HoldsFrom-append, HoldsFrom-next,
}
use jyy_os.Input.Events.{Event, Queue, n_events, push_store, pop_take}

-- The ring holds the events of a list of fewer than NEVENTS, the first at `front`.
pub record Holding (q : Queue) (l : List Event) : Type 0 where
  pub inside : q.front < n_events
  pub room : length l < n_events
  pub rear : q.rear ≡ slot n_events q.front (length l)
  pub holds : HoldsFrom q.events n_events q.front 0 l

-- The place behind a place
next_slot :
    (front i : ℕ)
    → front < n_events
    → i < n_events
    → (slot n_events front i + 1) % n_events ≡ slot n_events front (suc i)
next_slot front i h lt = ground arith

full_slot :
    (front n : ℕ)
    → front < n_events
    → n < n_events
    → (slot n_events front (suc n) == front) ≡ (suc n == n_events)
full_slot front n h lt = ground arith

front_slot : (front : ℕ) → front < n_events → slot n_events front 0 ≡ front
front_slot front h = ground arith

second_slot : (front : ℕ) → front < n_events → (front + 1) % n_events ≡ slot n_events front 1
second_slot front h = ground arith

rear_slot :
    (front n : ℕ)
    → front < n_events
    → suc n < n_events
    → slot n_events front (suc n) ≡ slot n_events ((front + 1) % n_events) n
rear_slot front n h lt = ground arith

-- A push to a ring that holds fewer than 127 events appends the event; with 127 it is the panic
-- "input queue full".
pub push_store-Holding :
    (q : Queue) (l : List Event) (ev : Event)
    → Holding q l
    → ((suc (length l) < n_events)
        × ((q' : Queue) × (push_store q ev ≡ done q')
            × Holding q' (l ++ (ev ∷ []))
            × (q'.event_sem ≡ q.event_sem)))
      ⊎ ((suc (length l) ≡ n_events) × (push_store q ev ≡ panic))
unfolding push_store
push_store-Holding q l ev h =
    let rear = q.rear in
    let next : (q.rear + 1) % n_events ≡ slot n_events q.front (suc (length l)) =
      rw h.rear (next_slot q.front (length l) h.inside h.room) in
    elim (eq-cases (suc (length l)) n_events) [
      | inl y ↦ inr (y.0, rw (next, full_slot q.front (length l) h.inside h.room, y.1) refl)
      | inr n ↦ inl (
        omega (arith, n.0, h.room),
        (
          record q { events = update q.events q.rear ev; rear = (q.rear + 1) % n_events },
          rw (next, full_slot q.front (length l) h.inside h.room, n.1) refl,
          record {
            inside = h.inside;
            room = omega (arith, n.0, h.room, length-append l (ev ∷ []));
            rear = next ∙ ap (slot n_events q.front) (omega (arith, length-append l (ev ∷ [])));
            holds =
                HoldsFrom-append (update q.events q.rear ev) n_events q.front 0 (length l) l
                  (ev ∷ []) (omega arith)
                  (subst (λ r. HoldsFrom (update q.events r ev) n_events q.front 0 l) (sym h.rear)
                    (HoldsFrom-update q.events n_events q.front 0 (length l) ev l h.inside
                      (omega arith) h.room h.holds))
                  (
                    ap (update q.events q.rear ev) (sym h.rear) ∙ update_self q.events q.rear ev,
                    tt,
                  );
          },
          refl,
        ),
      )
    ]

-- A pop from a ring that holds events gives the first and leaves the others.
pub pop_take-Holding :
    (q : Queue) (e : Event) (l : List Event)
    → Holding q (e ∷ l)
    → (q' : Queue) × (pop_take q ≡ done (e, q')) × Holding q' l × (q'.event_sem ≡ q.event_sem)
unfolding pop_take
pop_take-Holding q e l h =
    let left : (slot n_events q.front (suc (length l)) == q.front) ≡ false = ne→== _ _ (λ x.
      slot-ne n_events q.front 0 (suc (length l)) h.inside (omega arith) h.room
        (front_slot q.front h.inside ∙ sym x)) in
    let first : q.events q.front ≡ e =
      ap q.events (sym (front_slot q.front h.inside)) ∙ h.holds.0 in
    let moved : (q.front + 1) % n_events ≡ slot n_events q.front 1 = second_slot q.front h.inside in
    (
      record q { front = (q.front + 1) % n_events },
      rw (h.rear, left, first) refl,
      record {
        inside = omega arith;
        room = omega (arith, h.room);
        rear = h.rear ∙ rear_slot q.front (length l) h.inside h.room;
        holds =
            subst (λ f. HoldsFrom q.events n_events f 0 l) (sym moved)
              (HoldsFrom-next q.events n_events q.front 0 l h.inside (omega (arith, h.room))
                h.holds.1);
      },
      refl,
    )

-- A pop from a ring that holds no event is the panic "input queue empty".
pub pop_take-empty : (q : Queue) → Holding q [] → pop_take q ≡ panic
unfolding pop_take
pop_take-empty q h = rw (h.rear, front_slot q.front h.inside, (==_iff q.front q.front).1 refl) refl
