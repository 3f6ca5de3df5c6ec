-- ===== src/Input/Tests.antt =====
-- The keyboard at small inputs: shift and a letter, and one event on its way through the ring.
use jyy_os.Prelude.{ℕ, ◌≡◌, ◌<◌, refl, true, false, [], ◌∷◌, ◌++◌, done, arith, update}
use jyy_os.Input.Keymap.{keymap_entries, find_key, key_lshift}
use jyy_os.Input.Events.{Event, Queue, event, push_store, pop_take}
use jyy_os.Input.Events.Holding.{Holding}
use jyy_os.Input.Events.Fifo.{Traffic, Step, Reach, Fifo, events-Fifo}
use jyy_os.Input.{Keys, Input, input_init, hold_key, typed}
use jyy_os.Input.History.{History, held, sent, sent_all, type_all}
use jyy_os.Input.Modifiers.{After, type_all_lem}

abbrev key_a : ℕ
key_a = 43

-- Left shift goes down, then the key A, then left shift goes up.
abbrev shift_a : History
shift_a = (key_lshift, true) ∷ (key_a, true) ∷ (key_lshift, false) ∷ []

abbrev fresh : Input
fresh = input_init (λ i. event false false 0)

fresh-Holding : Holding fresh.queue []
fresh-Holding = record { inside = omega arith; room = omega arith; rear = refl; holds = tt }

shift_a_sent : sent_all fresh.keys shift_a ≡ event false false b'A' ∷ []
unfolding sent_all sent held hold_key typed find_key keymap_entries
shift_a_sent = refl

type_all_example :
    (s' : Input) × (type_all fresh shift_a ≡ done s')
    × Holding s'.queue ([] ++ sent_all fresh.keys shift_a)
    × After fresh.keys s'.keys shift_a
type_all_example =
    type_all_lem shift_a fresh [] (omega arith, (omega arith, (omega arith, tt))) fresh-Holding
      (rw shift_a_sent (omega arith))

abbrev caps_on : Keys
caps_on = record fresh.keys { capslock = true }

-- The key A goes down with the capitals lock on.
abbrev fresh_caps : Input
fresh_caps = record fresh { keys = caps_on }

-- One event is stored and signalled, and a thread is let in for it.
abbrev quiet : Traffic
quiet = record { queue = fresh.queue; unsignalled = 0; admitted = 0; pushed = []; popped = [] }

abbrev stored : Traffic
stored = record {
  queue = record fresh.queue {
    events = update fresh.queue.events 0 (event false false 97);
    rear = 1;
  };
  unsignalled = 1;
  admitted = 0;
  pushed = event false false 97 ∷ [];
  popped = [];
}

stored-Reach : Reach quiet stored
unfolding push_store
stored-Reach =
    Reach.later quiet stored Reach.here (Step.store quiet (event false false 97) stored.queue refl)

events-Fifo_example :
    Fifo stored
    × (0 < stored.admitted → (ev : Event) × (q : Queue) × (pop_take stored.queue ≡ done (ev, q)))
events-Fifo_example =
    events-Fifo quiet stored
      (record {
        front = refl;
        rear = refl;
        sem = refl;
        quiet = (refl, refl);
        none_yet = (refl, refl);
      })
      stored-Reach
