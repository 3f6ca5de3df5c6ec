-- ===== src/Input.antt =====
-- kernel/src/dev/dev_input.c: the keyboard, from the key events of AM to the events that a reader
-- of the device gets.
pub mod Keymap
pub mod Events
pub mod History
pub mod Modifiers
pub mod Letters
mod Tests
use jyy_os.Prelude.{
  ℕ, ◌+◌, ◌%◌, Bool, true, false, not, ◌&&◌, ◌||◌, if◌then◌else◌, ltb, leb, ◌==◌, Option, none,
  some, Outcome, done, panic, ◌>>=◌,
}
use jyy_os.Input.Keymap.{
  keymap, plain, shifted, key_capslock, key_lctrl, key_rctrl, key_lalt, key_ralt, key_lshift,
  key_rshift,
}
use jyy_os.Input.Events.{Event, event, Queue, push_event}

-- The keys of `input_t` that stay down, and the capitals lock.
pub record Keys : Type 0 where
  pub capslock : Bool
  pub lshift_down : Bool
  pub rshift_down : Bool
  pub lctrl_down : Bool
  pub rctrl_down : Bool
  pub lalt_down : Bool
  pub ralt_down : Bool

pub record Input : Type 0 where
  pub keys : Keys
  pub queue : Queue

-- `a ^ b` of two flags
abbrev pub xor : Bool → Bool → Bool
xor true b = not b
xor false b = b

-- The cases of `input_keydown` for a key that stays down; the test is `keydown`. `none` is the
-- `default` case.
unfoldable pub hold_key : Keys → ℕ → Bool → Option Keys
hold_key k code down =
    if code == key_capslock
    then some (record k { capslock = if down then not k.capslock else k.capslock })
    else if code == key_lctrl
    then some (record k { lctrl_down = down })
    else if code == key_rctrl
    then some (record k { rctrl_down = down })
    else if code == key_lalt
    then some (record k { lalt_down = down })
    else if code == key_ralt
    then some (record k { ralt_down = down })
    else if code == key_lshift
    then some (record k { lshift_down = down })
    else if code == key_rshift
    then some (record k { rshift_down = down })
    else none

-- The event of the `default` case, for a key that has a character.
unfoldable pub typed : Keys → ℕ × ℕ → Event
typed k chars =
    let ctrl = k.lctrl_down || k.rctrl_down in
    let alt = k.lalt_down || k.ralt_down in
    let shift = k.lshift_down || k.rshift_down in
    let letter = leb b'a' (plain chars) && leb (plain chars) b'z' in
    let upper = if letter then xor shift k.capslock else shift in
    if ctrl || alt
    then event ctrl alt (plain chars)
    else if upper
    then event false false (shifted chars)
    else event false false (plain chars)

abbrev pub press : Input → Option (ℕ × ℕ) → Outcome Input
press in_dev none = panic
press in_dev (some chars) =
    if plain chars == 0
    then done in_dev
    else (push_event in_dev.queue (typed in_dev.keys chars) >>= λ q.
        done (record in_dev { queue = q }))

abbrev pub input_default : Input → ℕ → Bool → Outcome Input
input_default in_dev code true = press in_dev (keymap code)
input_default in_dev code false = done in_dev

abbrev pub with_keys : Input → ℕ → Bool → Option Keys → Outcome Input
with_keys in_dev code down none = input_default in_dev code down
with_keys in_dev code down (some k) = done (record in_dev { keys = k })

-- `input_keydown`
unfoldable pub input_keydown : Input → ℕ → Bool → Outcome Input
input_keydown in_dev code down = with_keys in_dev code down (hold_key in_dev.keys code down)

-- The values of `input_init`; `junk` is what the array of events holds before.
abbrev pub input_init : (ℕ → Event) → Input
input_init junk = record {
  keys = record {
    capslock = false;
    lshift_down = false;
    rshift_down = false;
    lctrl_down = false;
    rctrl_down = false;
    lalt_down = false;
    ralt_down = false;
  };
  queue = record { events = junk; front = 0; rear = 0; event_sem = 0 };
}
