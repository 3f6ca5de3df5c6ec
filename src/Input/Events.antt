-- ===== src/Input/Events.antt =====
-- The ring of events of kernel/src/dev/dev_input.c, lines 16 to 38. `event_sem` is the count of that
-- semaphore; a `sem_wait` at 0 waits, and is `stuck` until another thread signals.
pub mod Holding
pub mod Fifo
use jyy_os.Prelude.{
  ℕ, ◌+◌, ◌-◌, ◌%◌, ◌^◌, Bool, if◌then◌else◌, ◌==◌, Outcome, done, panic, stuck, ◌>>=◌, update,
}

abbrev pub n_events : ℕ
n_events = 128

-- `struct input_event`
pub record Event : Type 0 where
  pub ctrl : Bool
  pub alt : Bool
  pub code : ℕ

-- `event`; the field `data` has 16 bits.
abbrev pub event : Bool → Bool → ℕ → Event
event ctrl alt code = record { ctrl = ctrl; alt = alt; code = code % 2 ^ 16 }

-- The ring of an `input_t`
pub record Queue : Type 0 where
  pub events : ℕ → Event
  pub front : ℕ
  pub rear : ℕ
  pub event_sem : ℕ

abbrev pub is_empty : Queue → Bool
is_empty q = q.rear == q.front

-- The critical section of `push_event`, and the signal after it.
unfoldable pub push_store : Queue → Event → Outcome Queue
push_store q ev =
    let q' = record q { events = update q.events q.rear ev; rear = (q.rear + 1) % n_events } in
    if is_empty q' then panic else done q'

unfoldable pub push_signal : Queue → Queue
push_signal q = record q { event_sem = q.event_sem + 1 }

unfoldable pub push_event : Queue → Event → Outcome Queue
push_event q ev = push_store q ev >>= λ q'. done (push_signal q')

-- The wait of `pop_event`, and its critical section.
unfoldable pub pop_wait : Queue → Outcome Queue
pop_wait q = if q.event_sem == 0 then stuck else done (record q { event_sem = q.event_sem - 1 })

unfoldable pub pop_take : Queue → Outcome (Event × Queue)
pop_take q =
    if is_empty q
    then panic
    else done (q.events q.front, record q { front = (q.front + 1) % n_events })

unfoldable pub pop_event : Queue → Outcome (Event × Queue)
pop_event q = pop_wait q >>= pop_take
