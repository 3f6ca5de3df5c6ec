-- ===== src/Input/Events/Fifo.antt =====
-- The ring between the threads that push events and those that pop them, in any order of their
-- critical sections, waits and signals.
use mathlib.Core.List.{append_assoc}
use mathlib.Core.Path.{subst}
use jyy_os.Prelude.{
  ℕ, suc, ◌+◌, ◌<◌, ◌≡◌, inl, inr, refl, sym, ◌∙◌, ap, List, [], ◌∷◌, ◌++◌, length, length-append,
  done, done-inj, if_false, Bool-cases, ◌==◌, arith,
}
use jyy_os.Prelude.Ring.{slot}
use jyy_os.Input.Events.{n_events, Event, Queue, push_store, push_signal, pop_wait, pop_take}
use jyy_os.Input.Events.Holding.{Holding, push_store-Holding, pop_take-Holding}

-- The ring, with the threads that have pushed and not signalled, those that have waited and not
-- popped, and all events that were pushed and popped so far.
pub record Traffic : Type 0 where
  pub queue : Queue
  pub unsignalled : ℕ
  pub admitted : ℕ
  pub pushed : List Event
  pub popped : List Event

pub data Step : Traffic → Traffic → Type 0 where
  store :
      (t : Traffic) (ev : Event) (q : Queue)
      → push_store t.queue ev ≡ done q
      → Step t
          (record t { queue = q; unsignalled = t.unsignalled + 1; pushed = t.pushed ++ (ev ∷ []) })
  signal :
      (t : Traffic) (n : ℕ)
      → t.unsignalled ≡ suc n
      → Step t (record t { queue = push_signal t.queue; unsignalled = n })
  wait :
      (t : Traffic) (q : Queue)
      → pop_wait t.queue ≡ done q
      → Step t (record t { queue = q; admitted = t.admitted + 1 })
  take :
      (t : Traffic) (n : ℕ) (ev : Event) (q : Queue)
      → t.admitted ≡ suc n
      → pop_take t.queue ≡ done (ev, q)
      → Step t (record t { queue = q; admitted = n; popped = t.popped ++ (ev ∷ []) })

pub data Reach (start : Traffic) : Traffic → Type 0 where
  here : Reach start start
  later : (s t : Traffic) → Reach start s → Step s t → Reach start t

-- The ring holds what was pushed and not popped, and the count of its semaphore is the number of
-- events less those that are not signalled and those that are promised to a thread.
pub record Fifo (t : Traffic) : Type 0 where
  pub inside : List Event
  pub holds : Holding t.queue inside
  pub order : t.pushed ≡ t.popped ++ inside
  pub count : length inside ≡ t.queue.event_sem + t.admitted + t.unsignalled

same_ring :
    (q : Queue) (l : List Event) (n : ℕ) → Holding q l → Holding (record q { event_sem = n }) l
same_ring q l n h = record { inside = h.inside; room = h.room; rear = h.rear; holds = h.holds }

store-Fifo :
    (t : Traffic) (ev : Event) (q : Queue)
    → push_store t.queue ev ≡ done q
    → Fifo t
    → Fifo (record t { queue = q; unsignalled = t.unsignalled + 1; pushed = t.pushed ++ (ev ∷ []) })
store-Fifo t ev q e f = elim (push_store-Holding t.queue f.inside ev f.holds) [
  | inr full ↦ absurd (cc (full.1, e))
  | inl (lt, (q', r, h, same)) ↦
      let one : q' ≡ q = done-inj (sym r ∙ e) in
      let kept : q.event_sem ≡ t.queue.event_sem =
        subst (λ (x : Queue). x.event_sem ≡ t.queue.event_sem) one same in
      record {
        inside = f.inside ++ (ev ∷ []);
        holds = subst (λ x. Holding x (f.inside ++ (ev ∷ []))) one h;
        order = ap (λ l. l ++ (ev ∷ [])) f.order ∙ append_assoc t.popped f.inside (ev ∷ []);
        count = omega (arith, length-append f.inside (ev ∷ []), f.count, kept);
      }
]

take-Fifo :
    (t : Traffic) (n : ℕ) (ev : Event) (q : Queue)
    → t.admitted ≡ suc n
    → pop_take t.queue ≡ done (ev, q)
    → Fifo t
    → Fifo (record t { queue = q; admitted = n; popped = t.popped ++ (ev ∷ []) })
take-Fifo t n ev q a e f = go f.inside refl
  where
    go :
        (l : List Event)
        → f.inside ≡ l
        → Fifo (record t { queue = q; admitted = n; popped = t.popped ++ (ev ∷ []) })
    go [] empty = absurd (omega (arith, f.count, ap (length {0}) empty))
    go (x ∷ l) first =
        let p = pop_take-Holding t.queue x l (subst (λ i. Holding t.queue i) first f.holds) in
        let one : ◌≡◌ {A = Event × Queue} (x, p.0) (ev, q) = done-inj (sym p.1 ∙ e) in
        let kept : q.event_sem ≡ t.queue.event_sem =
          subst (λ (y : Event × Queue). y.1.event_sem ≡ t.queue.event_sem) one p.3 in
        record {
          inside = l;
          holds = subst (λ (y : Event × Queue). Holding y.1 l) one p.2;
          order =
              f.order
              ∙ ap (λ i. t.popped ++ i) first
              ∙ ap (λ (y : Event × Queue). t.popped ++ (y.0 ∷ l)) one
              ∙ sym (append_assoc t.popped (ev ∷ []) l);
          count = omega (arith, f.count, ap (length {0}) first, a, kept);
        }

Step-Fifo : (s t : Traffic) → Step s t → Fifo s → Fifo t
unfolding push_signal pop_wait
Step-Fifo _ _ (store t ev q e) f = store-Fifo t ev q e f
Step-Fifo _ _ (take t n ev q a e) f = take-Fifo t n ev q a e f
Step-Fifo _ _ (signal t n u) f = record {
  inside = f.inside;
  holds = same_ring t.queue f.inside _ f.holds;
  order = f.order;
  count = omega (arith, f.count, u);
}
Step-Fifo _ _ (wait t q e) f = elim (Bool-cases (t.queue.event_sem == 0)) [
  | inl y ↦ absurd (cc (rw y at e))
  | inr n ↦
      let one = done-inj (if_false _ _ n e) in
      subst (λ x. Fifo (record t { queue = x; admitted = t.admitted + 1 })) one
        (record {
          inside = f.inside;
          holds = same_ring t.queue f.inside _ f.holds;
          order = f.order;
          count = ground (arith, f.count);
        })
]

Reach-Fifo : (start t : Traffic) → Reach start t → Fifo start → Fifo t
Reach-Fifo start _ here f = f
Reach-Fifo start t (later s t' r step) f = Step-Fifo s t step (Reach-Fifo start s r f)

-- No event was pushed or popped, and the ring is as `input_init` leaves it.
pub record Fresh (t : Traffic) : Type 0 where
  pub front : t.queue.front ≡ 0
  pub rear : t.queue.rear ≡ 0
  pub sem : t.queue.event_sem ≡ 0
  pub quiet : (t.unsignalled ≡ 0) × (t.admitted ≡ 0)
  pub none_yet : (t.pushed ≡ []) × (t.popped ≡ [])

Fresh-Fifo : (t : Traffic) → Fresh t → Fifo t
Fresh-Fifo t f = record {
  inside = [];
  holds = record {
    inside = omega (arith, f.front);
    room = omega arith;
    rear = f.rear ∙ sym (ap (λ x. slot n_events x 0) f.front);
    holds = tt;
  };
  order = f.none_yet.0 ∙ sym (ap (λ l. l ++ []) f.none_yet.1);
  count = omega (arith, f.sem, f.quiet.0, f.quiet.1);
}

-- Start from the ring that `input_init` leaves, and let threads push, signal, wait and pop in any
-- order. In every state that is reached the events that were pushed are those that were popped
-- followed by those in the ring, in one order; the ring holds as many as the count of the semaphore,
-- the events that are not signalled and the threads that were let in; and a thread that was let in
-- pops an event: the panic "input queue empty" is not reached.
pub events-Fifo :
    (start t : Traffic)
    → Fresh start
    → Reach start t
    → Fifo t × (0 < t.admitted → (ev : Event) × (q : Queue) × (pop_take t.queue ≡ done (ev, q)))
events-Fifo start t fresh r = (f, go f.inside refl)
  where
    f : Fifo t
    f = Reach-Fifo start t r (Fresh-Fifo start fresh)

    go :
        (l : List Event)
        → f.inside ≡ l
        → 0 < t.admitted
        → (ev : Event) × (q : Queue) × (pop_take t.queue ≡ done (ev, q))
    go [] e some_in = absurd (omega (arith, f.count, ap (length {0}) e))
    go (x ∷ l) e some_in =
        let p = pop_take-Holding t.queue x l (subst (λ i. Holding t.queue i) e f.holds) in
        (x, p.0, p.1)
