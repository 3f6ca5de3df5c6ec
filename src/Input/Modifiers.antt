-- ===== src/Input/Modifiers.antt =====
-- What a history of key events comes to: the keys that are down, the capitals lock and the events
-- that readers of the device get.
use mathlib.Core.Path.{subst}
use mathlib.Core.List.{append_assoc, append-nil}
use jyy_os.Prelude.{
  ℕ, ◌+◌, ◌<◌, ◌≡◌, refl, sym, ◌∙◌, ap, Bool, not, ◌&&◌, if◌then◌else◌, ◌==◌, List, [], ◌∷◌, ◌++◌,
  length, length-append, All, done, arith,
}
use jyy_os.Input.Keymap.{
  key_capslock, key_lctrl, key_rctrl, key_lalt, key_ralt, key_lshift, key_rshift,
}
use jyy_os.Input.Events.{Event}
use jyy_os.Input.Events.Holding.{Holding}
use jyy_os.Input.{Keys, Input, hold_key}
use jyy_os.Input.History.{
  History, down_after, caps_after, held, sent, sent_all, type_all, Typed, one-Typed,
}

-- The keys after a whole history
unfoldable pub held_all : Keys → History → Keys
held_all k [] = k
held_all k ((code, down) ∷ rest) = held_all (held k code down) rest

type_all-Typed :
    (h : History) (s : Input) (l : List Event)
    → All (λ e. e.0 < 256) h
    → Holding s.queue l
    → length l + length (sent_all s.keys h) < 128
    → Typed s (l ++ sent_all s.keys h) (held_all s.keys h) (type_all s h)
unfolding sent_all held_all type_all
type_all-Typed [] s l small hold lt = record {
  after = s;
  result = refl;
  holds = subst (λ x. Holding s.queue x) (sym (append-nil l)) hold;
  keys = refl;
}
type_all-Typed ((code, down) ∷ rest) s l small hold lt =
    let mine = sent s.keys code down in
    let later = sent_all (held s.keys code down) rest in
    let total = length-append mine later in
    let t = one-Typed s l code down small.0 hold (omega (arith, lt, total)) in
    let same : sent_all t.after.keys rest ≡ later = ap (λ k. sent_all k rest) t.keys in
    let r =
      type_all-Typed rest t.after (l ++ mine) small.1 t.holds
        (omega (arith, lt, total, length-append l mine, ap (length {0}) same)) in
    record {
      after = r.after;
      result = rw (t.result, r.result) refl;
      holds =
          subst (λ x. Holding r.after.queue x)
            (ap (λ x. (l ++ mine) ++ x) same ∙ append_assoc l mine later) r.holds;
      keys = r.keys ∙ ap (λ k. held_all k rest) t.keys;
    }

-- The keys `k` are what a history makes of the keys `before`.
pub record After (before k : Keys) (h : History) : Type 0 where
  pub capslock : k.capslock ≡ caps_after before.capslock h
  pub lshift_down : k.lshift_down ≡ down_after key_lshift before.lshift_down h
  pub rshift_down : k.rshift_down ≡ down_after key_rshift before.rshift_down h
  pub lctrl_down : k.lctrl_down ≡ down_after key_lctrl before.lctrl_down h
  pub rctrl_down : k.rctrl_down ≡ down_after key_rctrl before.rctrl_down h
  pub lalt_down : k.lalt_down ≡ down_after key_lalt before.lalt_down h
  pub ralt_down : k.ralt_down ≡ down_after key_ralt before.ralt_down h

-- One event, field by field
record HeldOne (k : Keys) (code : ℕ) (down : Bool) : Type 0 where
  capslock :
      (held k code down).capslock
      ≡ (if (code == key_capslock) && down then not k.capslock else k.capslock)
  lshift_down :
      (held k code down).lshift_down ≡ (if code == key_lshift then down else k.lshift_down)
  rshift_down :
      (held k code down).rshift_down ≡ (if code == key_rshift then down else k.rshift_down)
  lctrl_down : (held k code down).lctrl_down ≡ (if code == key_lctrl then down else k.lctrl_down)
  rctrl_down : (held k code down).rctrl_down ≡ (if code == key_rctrl then down else k.rctrl_down)
  lalt_down : (held k code down).lalt_down ≡ (if code == key_lalt then down else k.lalt_down)
  ralt_down : (held k code down).ralt_down ≡ (if code == key_ralt then down else k.ralt_down)

held-HeldOne : (k : Keys) (code : ℕ) (down : Bool) → HeldOne k code down
unfolding held hold_key
held-HeldOne k code down = record {
  capslock = ground arith;
  lshift_down = ground arith;
  rshift_down = ground arith;
  lctrl_down = ground arith;
  rctrl_down = ground arith;
  lalt_down = ground arith;
  ralt_down = ground arith;
}

held_all-After : (h : History) (k : Keys) → After k (held_all k h) h
unfolding held_all down_after caps_after
held_all-After [] k = record {
  capslock = refl;
  lshift_down = refl;
  rshift_down = refl;
  lctrl_down = refl;
  rctrl_down = refl;
  lalt_down = refl;
  ralt_down = refl;
}
held_all-After ((code, down) ∷ rest) k =
    let o = held-HeldOne k code down in
    let r = held_all-After rest (held k code down) in
    record {
      capslock = r.capslock ∙ ap (λ b. caps_after b rest) o.capslock;
      lshift_down = r.lshift_down ∙ ap (λ b. down_after key_lshift b rest) o.lshift_down;
      rshift_down = r.rshift_down ∙ ap (λ b. down_after key_rshift b rest) o.rshift_down;
      lctrl_down = r.lctrl_down ∙ ap (λ b. down_after key_lctrl b rest) o.lctrl_down;
      rctrl_down = r.rctrl_down ∙ ap (λ b. down_after key_rctrl b rest) o.rctrl_down;
      lalt_down = r.lalt_down ∙ ap (λ b. down_after key_lalt b rest) o.lalt_down;
      ralt_down = r.ralt_down ∙ ap (λ b. down_after key_ralt b rest) o.ralt_down;
    }

-- For a history of keys that the table covers, and room in the ring for the events that it sends,
-- `input_keydown` for each in turn ends; the ring then holds its events and those sent, in order;
-- shift, ctrl and alt are down just where the last event of their key says so, or as before; and
-- the capitals lock has turned over once for each time that its key went down.
pub type_all_lem :
    (h : History) (s : Input) (l : List Event)
    → All (λ e. e.0 < 256) h
    → Holding s.queue l
    → length l + length (sent_all s.keys h) < 128
    → (s' : Input) × (type_all s h ≡ done s')
      × Holding s'.queue (l ++ sent_all s.keys h)
      × After s.keys s'.keys h
type_all_lem h s l small hold lt =
    let t = type_all-Typed h s l small hold lt in
    (
      t.after,
      t.result,
      t.holds,
      subst (λ k. After s.keys k h) (sym t.keys) (held_all-After h s.keys),
    )
