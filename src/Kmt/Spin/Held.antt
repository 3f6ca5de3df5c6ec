-- ===== src/Kmt/Spin/Held.antt =====
-- Spin locks and the processors that hold them, under every interleaving.
use jyy_os.Prelude.{
  Bool-cases, eq-cases, ne→==, ℕ, zero, suc, ◌+◌, ◌≤◌, ◌<◌, ◌≡◌, ◌⊎◌, inl, inr, refl, sym, Bool,
  true, false, done, panic, arith, update,
}
use jyy_os.Kmt.Spin.Nest.{
  one, Nested, Move, Nested-cast, lock-Move, try-Move, unlock-Move, push_pop-Nested, pop_off-Nested,
}
use mathlib.Core.Path.{subst}
use jyy_os.Kmt.Spin.{
  Cpu, Spinlock, released, kmt_spin_init, owns, holding, kmt_spin_lock, kmt_try_spin_lock,
  kmt_spin_unlock,
}

-- All processors and all spin locks of the kernel, by number.
pub record Machine : Type 0 where
  pub cpus : ℕ → Cpu
  pub locks : ℕ → Spinlock

abbrev pub put : Machine → ℕ → ℕ → Cpu → Spinlock → Machine
put s id i c lk = record { cpus = update s.cpus id c; locks = update s.locks i lk }

-- One processor takes a lock, tries one in vain, or frees one, among `n` locks.
pub data Step (n : ℕ) : Machine → Machine → Type 0 where
  acquire :
      (s : Machine) (id i : ℕ) (c : Cpu) (lk : Spinlock)
      → i < n
      → kmt_spin_lock id (s.cpus id) (s.locks i) ≡ done (c, lk)
      → Step n s (put s id i c lk)
  attempt :
      (s : Machine) (id i : ℕ) (b : Bool) (c : Cpu) (lk : Spinlock)
      → i < n
      → kmt_try_spin_lock id (s.cpus id) (s.locks i) ≡ done (b, c, lk)
      → Step n s (put s id i c lk)
  release :
      (s : Machine) (id i : ℕ) (c : Cpu) (lk : Spinlock)
      → i < n
      → kmt_spin_unlock id (s.cpus id) (s.locks i) ≡ done (c, lk)
      → Step n s (put s id i c lk)

pub data Reach (n : ℕ) (start : Machine) : Machine → Type 0 where
  here : Reach n start start
  later : (s t : Machine) → Reach n start s → Step n s t → Reach n start t

-- The number of the first `n` locks that a processor holds.
unfoldable pub held : ℕ → (ℕ → Spinlock) → ℕ → ℕ
held zero locks id = 0
held (suc n) locks id = one (owns (locks n) id) + held n locks id

held-outside :
    (n : ℕ) (locks : ℕ → Spinlock) (i : ℕ) (lk : Spinlock) (id : ℕ)
    → n ≤ i
    → held n (update locks i lk) id ≡ held n locks id
unfolding held
held-outside zero locks i lk id h = refl
held-outside (suc n) locks i lk id h =
    rw (ne→== i n (omega arith), held-outside n locks i lk id (omega arith)) refl

held-update :
    (n : ℕ) (locks : ℕ → Spinlock) (i : ℕ) (lk : Spinlock) (id : ℕ)
    → i < n
    → held n (update locks i lk) id + one (owns (locks i) id) ≡ held n locks id + one (owns lk id)
unfolding held
held-update zero locks i lk id h = absurd (omega arith)
held-update (suc n) locks i lk id h = elim (eq-cases i n) [
  | inl y ↦ rw (y.1, y.0, held-outside n locks n lk id (omega arith)) (omega arith)
  | inr ne ↦ rw ne.1 (omega (arith, held-update n locks i lk id (omega (arith, ne.0))))
]

-- In a state that the processors reach, each is nested as deep as it holds locks.
abbrev pub Held : (b : ℕ → Bool) (n : ℕ) → Machine → Type 0
Held b n s = (id : ℕ) → Nested (b id) (held n s.locks id) (s.cpus id)

Move-Held :
    (b : ℕ → Bool) (n : ℕ) (s : Machine) (id i : ℕ) (c : Cpu) (lk : Spinlock)
    → i < n
    → Move id (s.cpus id) (s.locks i) c lk
    → Held b n s
    → Held b n (put s id i c lk)
Move-Held b n s id i c lk h m ok k =
    let count = held-update n s.locks i lk k h in
    elim (eq-cases id k) [
      | inl y ↦ rw y.1 (
          subst (λ x. Nested (b x) (held n (update s.locks i lk) x) c) y.0
            (m.nest (b id) (held n s.locks id) _ (held-update n s.locks i lk id h) (ok id)))
      | inr ne ↦ rw ne.1 (
          Nested-cast (b k) (held n s.locks k) _ (s.cpus k)
            (omega (rw (m.others k (λ e. ne.0 (sym e))) at count, arith)) (ok k))
    ]

Step-Held : (b : ℕ → Bool) (n : ℕ) (s t : Machine) → Step n s t → Held b n s → Held b n t
Step-Held b n _ _ (acquire s id i c lk h e) ok =
    Move-Held b n s id i c lk h (lock-Move id (s.cpus id) (s.locks i) c lk e) ok
Step-Held b n _ _ (attempt s id i took c lk h e) ok =
    Move-Held b n s id i c lk h (try-Move id (s.cpus id) (s.locks i) took c lk e) ok
Step-Held b n _ _ (release s id i c lk h e) ok =
    Move-Held b n s id i c lk h (unlock-Move id (s.cpus id) (s.locks i) c lk e).0 ok

-- A start with all locks free, no processor nested, and the interrupts as `b` says.
pub record Fresh (b : ℕ → Bool) (s : Machine) : Type 0 where
  pub free : (i : ℕ) → (s.locks i).lock ≡ false
  pub flat : (id : ℕ) → (s.cpus id).noff ≡ 0
  pub flag : (id : ℕ) → (s.cpus id).enabled ≡ b id

held_none :
    (n : ℕ) (locks : ℕ → Spinlock) (id : ℕ)
    → ((i : ℕ) → (locks i).lock ≡ false)
    → held n locks id ≡ 0
unfolding held owns
held_none zero locks id free = refl
held_none (suc n) locks id free = rw (free n, held_none n locks id free) refl

-- Start where all spin locks are free and no processor is nested, and let the processors take, try
-- and free locks in any order. In every state that is reached, each processor's `noff` is the
-- number of locks that it holds; while it holds one, its interrupts are off and `intena` has them as
-- they were at the start; and while it holds none they are as at the start.
pub Reach-Held :
    (b : ℕ → Bool) (n : ℕ) (start s : Machine) → Fresh b start → Reach n start s → Held b n s
Reach-Held b n start _ f here id =
    Nested-cast (b id) 0 _ (start.cpus id) (sym (held_none n start.locks id f.free))
      (record { depth = f.flat id; flag = f.flag id; kept = λ pos. absurd (omega arith) })
Reach-Held b n start t f (later s t' r step) id =
    Step-Held b n s t step (Reach-Held b n start s f r) id

owns-released : (id : ℕ) → owns released id ≡ false
unfolding owns
owns-released id = refl

-- In a state that is reached from such a start, a processor that owns one of the `n` locks a lock frees it with `kmt_spin_unlock`, and the lock is as
-- after `kmt_spin_init`; for a processor that does not own it, the call is the panic "release".
pub unlock-Reach :
    (b : ℕ → Bool) (n : ℕ) (start s : Machine) (id i : ℕ)
    → Fresh b start
    → Reach n start s
    → i < n
    → ((owns (s.locks i) id ≡ true)
        × ((c : Cpu) × (kmt_spin_unlock id (s.cpus id) (s.locks i) ≡ done (c, kmt_spin_init))))
      ⊎ ((owns (s.locks i) id ≡ false) × (kmt_spin_unlock id (s.cpus id) (s.locks i) ≡ panic))
unfolding kmt_spin_unlock holding
unlock-Reach b n start s id i f r h =
    let ok = Reach-Held b n start s f r id in
    let p = push_pop-Nested (b id) (held n s.locks id) (s.cpus id) ok in
    elim (Bool-cases (owns (s.locks i) id)) [
      | inl mine ↦
          let count = rw (mine, owns-released id) at (held-update n s.locks i released id h) in
          let q =
            pop_off-Nested (b id) (held n (update s.locks i released) id) p.0
              (Nested-cast (b id) (held n s.locks id) _ p.0 (omega (count, arith)) p.2) in
          inl (mine, (q.0, rw (p.1, mine, q.1) refl))
      | inr other ↦ inr (other, rw (p.1, other) refl)
    ]
