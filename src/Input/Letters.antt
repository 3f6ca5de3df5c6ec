-- ===== src/Input/Letters.antt =====
-- The letters of the keyboard, from a key that goes down to the event in the ring.
use jyy_os.Prelude.{
  ℕ, zero, suc, ◌+◌, Bool, true, not, ◌&&◌, ◌||◌, if◌then◌else◌, leb, ◌==◌, List, [], ◌∷◌, Outcome,
  done, ◌>>=◌,
}
use jyy_os.Input.Keymap.{
  plain, shifted, key_capslock, key_lctrl, key_rctrl, key_lalt, key_ralt, key_lshift, key_rshift,
}
use jyy_os.Input.Events.{Event, Queue, pop_take}
use jyy_os.Input.Events.Holding.{Holding}
use jyy_os.Input.{Input}
use jyy_os.Input.History.{chars_at}

-- The keys that change a flag and send nothing
abbrev holds_flag : ℕ → Bool
holds_flag code =
    (code == key_capslock)
    || (code == key_lctrl)
    || (code == key_rctrl)
    || (code == key_lalt)
    || (code == key_ralt)
    || (code == key_lshift)
    || (code == key_rshift)

-- Where the table has a letter, its second character is the capital, and the key has no flag.
letters : ℕ → Bool
letters code =
    let c = plain (chars_at code) in
    if leb b'a' c && leb c b'z'
    then ((shifted (chars_at code) + 32 == c) && not (holds_flag code))
    else true

abbrev pub is_letter : ℕ → Bool
is_letter code = leb b'a' (plain (chars_at code)) && leb (plain (chars_at code)) b'z'

-- Readers take a number of events from the ring, one after another.
unfoldable pub pop_all : ℕ → Queue → Outcome (List Event × Queue)
pop_all zero q = done ([], q)
pop_all (suc n) q = pop_take q >>= λ r. pop_all n r.1 >>= λ t. done (r.0 ∷ t.0, t.1)
