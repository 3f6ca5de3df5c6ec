-- ===== src/Input/History.antt =====
-- A history of key events: the keys that it leaves down, the events that it sends to readers of the
-- device, and the run of `input_keydown` on one event of it.
use mathlib.Core.Path.{subst}
use mathlib.Core.List.{append-nil}
use jyy_os.Prelude.{
  ℕ, ◌+◌, ◌<◌, ◌≡◌, inl, inr, refl, sym, Bool, true, false, not, ◌&&◌, if◌then◌else◌, ◌==◌, lt→ltb,
  Bool-cases, Option, none, some, List, [], ◌∷◌, ◌++◌, length, Outcome, done, ◌>>=◌, arith,
}
use jyy_os.Input.Keymap.{keymap, keymap_entries, find_key, plain, key_capslock}
use jyy_os.Input.Events.{Event, Queue, push_event, push_signal}
use jyy_os.Input.Events.Holding.{Holding, push_store-Holding}
use jyy_os.Input.{Keys, Input, hold_key, typed, with_keys, input_keydown}

-- A code and whether its key went down, oldest first.
abbrev pub History : Type 0
History = List (ℕ × Bool)

-- Whether a key is down after a history: as its last event says, or as before.
unfoldable pub down_after : ℕ → Bool → History → Bool
down_after key before [] = before
down_after key before ((code, down) ∷ rest) =
    down_after key (if code == key then down else before) rest

-- The capitals lock turns over whenever its key goes down.
unfoldable pub caps_after : Bool → History → Bool
caps_after before [] = before
caps_after before ((code, down) ∷ rest) =
    caps_after (if (code == key_capslock) && down then not before else before) rest

abbrev pub or_keep : Keys → Option Keys → Keys
or_keep k none = k
or_keep k (some k') = k'

-- The keys after one event
unfoldable pub held : Keys → ℕ → Bool → Keys
held k code down = or_keep k (hold_key k code down)

abbrev pub chars_at : ℕ → ℕ × ℕ
chars_at code = find_key keymap_entries code

-- The events that one key event sends to readers.
abbrev pub sent_by : Option Keys → Keys → ℕ → Bool → List Event
sent_by (some k') k code down = []
sent_by none k code false = []
sent_by none k code true = if plain (chars_at code) == 0 then [] else typed k (chars_at code) ∷ []

unfoldable pub sent : Keys → ℕ → Bool → List Event
sent k code down = sent_by (hold_key k code down) k code down

unfoldable pub sent_all : Keys → History → List Event
sent_all k [] = []
sent_all k ((code, down) ∷ rest) = sent k code down ++ sent_all (held k code down) rest

-- `input_keydown` for each event of a history.
unfoldable pub type_all : Input → History → Outcome Input
type_all s [] = done s
type_all s ((code, down) ∷ rest) = input_keydown s code down >>= λ s'. type_all s' rest

pub record Typed (s : Input) (l : List Event) (k : Keys) (run : Outcome Input) : Type 0 where
  pub after : Input
  pub result : run ≡ done after
  pub holds : Holding after.queue l
  pub keys : after.keys ≡ k

push-Holding :
    (q : Queue) (l : List Event) (ev : Event)
    → Holding q l
    → length l + 1 < 128
    → (q' : Queue) × (push_event q ev ≡ done q') × Holding q' (l ++ (ev ∷ []))
unfolding push_event push_signal
push-Holding q l ev h lt = elim (push_store-Holding q l ev h) [
  | inr full ↦ absurd (omega (arith, full.0))
  | inl (room, (q', r, h', same)) ↦ (
    push_signal q',
    rw r refl,
    record { inside = h'.inside; room = h'.room; rear = h'.rear; holds = h'.holds },
  )
]

pub one-Typed :
    (s : Input) (l : List Event) (code : ℕ) (down : Bool)
    → code < 256
    → Holding s.queue l
    → length l + length (sent s.keys code down) < 128
    → Typed s (l ++ sent s.keys code down) (held s.keys code down) (input_keydown s code down)
unfolding input_keydown sent held keymap
one-Typed s l code down small h lt = go (hold_key s.keys code down) down lt
  where
    go :
        (o : Option Keys) (d : Bool)
        → length l + length (sent_by o s.keys code d) < 128
        → Typed s (l ++ sent_by o s.keys code d) (or_keep s.keys o) (with_keys s code d o)
    go (some k) d lt = record {
      after = record s { keys = k };
      result = refl;
      holds = subst (λ x. Holding s.queue x) (sym (append-nil l)) h;
      keys = refl;
    }
    go none false lt = record {
      after = s;
      result = refl;
      holds = subst (λ x. Holding s.queue x) (sym (append-nil l)) h;
      keys = refl;
    }
    go none true lt = elim (Bool-cases (plain (chars_at code) == 0)) [
      | inl y ↦ rw y (record {
        after = s;
        result = rw (lt→ltb code 256 small, y) refl;
        holds = subst (λ x. Holding s.queue x) (sym (append-nil l)) h;
        keys = refl;
      })
      | inr n ↦
          let p = push-Holding s.queue l (typed s.keys (chars_at code)) h (rw n at lt) in
          rw n (record {
            after = record s { queue = p.0 };
            result = rw (lt→ltb code 256 small, n, p.1) refl;
            holds = p.2;
            keys = refl;
          })
    ]
