-- ===== src/Kmt/Spin/Nest.antt =====
-- What each operation on a spin lock does to the nesting of its processor and to the lock's owner.
use jyy_os.Prelude.{
  ap, Bool-cases, ==_iff, le→ltb, eq-cases, ne→==, ℕ, suc, ◌+◌, ◌-◌, ◌<◌, ◌≡◌, ◌≢◌, inl, inr, refl,
  sym, ◌∙◌, Bool, true, false, ◌&&◌, if◌then◌else◌, ◌==◌, Option, none, some, done, arith, ◌>>=◌,
  >>=-eq-done,
}
use mathlib.Core.Path.{subst}
use jyy_os.Kmt.Spin.{
  Cpu, Spinlock, released, is_cpu, push_off, pop_off, owns, holding, kmt_spin_lock,
  kmt_try_spin_lock, kmt_spin_unlock,
}

-- A test as a number
abbrev pub one : Bool → ℕ
one true = 1
one false = 0

-- A processor that holds `h` locks: its nesting depth is `h`; its interrupts are off unless `h` is 0,
-- and then they are as `b` says, which it also keeps for later.
pub record Nested (b : Bool) (h : ℕ) (c : Cpu) : Type 0 where
  pub depth : c.noff ≡ h
  pub flag : c.enabled ≡ (if h == 0 then b else false)
  pub kept : 0 < h → c.intena ≡ b

pub push_off-Nested : (b : Bool) (h : ℕ) (c : Cpu) → Nested b h c → Nested b (suc h) (push_off c)
unfolding push_off
push_off-Nested b h c ok = record {
  depth = omega (arith, ok.depth);
  flag = rw (ne→== (suc h) 0 (omega arith)) refl;
  kept = λ pos. elim (eq-cases h 0) [
    | inl y ↦ rw (ok.depth, y.1) (ok.flag ∙ rw y.1 refl)
    | inr n ↦ rw (ok.depth, n.1) (ok.kept (omega (arith, n.0)))
  ];
}

-- The interrupts after `pop_off`, as the code computes them and as a function of the depth that is left.
flag_lem :
    (zero_left b : Bool)
    → (if zero_left && b then true else false) ≡ (if zero_left then b else false)
flag_lem true true = refl
flag_lem true false = refl
flag_lem false b = refl

pub pop_off-Nested :
    (b : Bool) (h : ℕ) (c : Cpu)
    → Nested b (suc h) c
    → (c' : Cpu) × (pop_off c ≡ done c') × Nested b h c'
unfolding pop_off
pop_off-Nested b h c ok =
    let off : c.enabled ≡ false = ok.flag ∙ rw (ne→== (suc h) 0 (omega arith)) refl in
    let left : suc h - 1 ≡ h = omega arith in
    (
      record c { noff = h; enabled = if (h == 0) && b then true else false },
      rw (off, ok.depth, le→ltb (suc h) 1 (omega arith), left, ok.kept (omega arith)) refl,
      record { depth = refl; flag = flag_lem (h == 0) b; kept = λ pos. ok.kept (omega arith) },
    )

-- `pop_off` undoes `push_off`.
pub push_pop-Nested :
    (b : Bool) (h : ℕ) (c : Cpu)
    → Nested b h c
    → (c' : Cpu) × (pop_off (push_off c) ≡ done c') × Nested b h c'
push_pop-Nested b h c ok = pop_off-Nested b h (push_off c) (push_off-Nested b h c ok)

-- What one operation of processor `id` on a lock does: to its nesting, and to who owns the lock.
pub record Move (id : ℕ) (c : Cpu) (lk : Spinlock) (c' : Cpu) (lk' : Spinlock) : Type 0 where
  pub nest :
      (b : Bool) (h h' : ℕ)
      → h' + one (owns lk id) ≡ h + one (owns lk' id)
      → Nested b h c
      → Nested b h' c'
  pub others : (k : ℕ) → k ≢ id → owns lk' k ≡ owns lk k

pub Nested-cast : (b : Bool) (h h' : ℕ) (c : Cpu) → h ≡ h' → Nested b h c → Nested b h' c
Nested-cast b h h' c e ok = subst (λ x. Nested b x c) e ok

-- Taking a lock that is free
pub taken-Move :
    (id : ℕ) (c : Cpu) (lk : Spinlock)
    → lk.lock ≡ false
    → Move id c lk (push_off c) (record { lock = true; cpu_num = some id })
unfolding owns
taken-Move id c lk free =
    let old : owns lk id ≡ false = rw free refl in
    let new : owns (record { lock = true; cpu_num = some id }) id ≡ true = (==_iff id id).1 refl in
    record {
      nest = λ b h h' e ok.
          Nested-cast b (suc h) h' _ (omega (rw (old, new) at e, arith)) (push_off-Nested b h c ok);
      others = λ k ne. rw (free, ne→== id k (λ e. ne (sym e))) refl;
    }

Move-done :
    (id : ℕ) (c : Cpu) (lk : Spinlock) {p q : Cpu × Spinlock}
    → done p ≡ done q
    → Move id c lk p.0 p.1
    → Move id c lk q.0 q.1
Move-done id c lk {p} {q} e m = subst {A = Cpu × Spinlock} (λ q. Move id c lk q.0 q.1) (cc) m

pub lock-Move :
    (id : ℕ) (c : Cpu) (lk : Spinlock) (c' : Cpu) (lk' : Spinlock)
    → kmt_spin_lock id c lk ≡ done (c', lk')
    → Move id c lk c' lk'
unfolding kmt_spin_lock
lock-Move id c lk c' lk' e = elim (Bool-cases lk.lock) [
  | inl y ↦ absurd (cc)
  | inr n ↦ Move-done id c lk {q = (c', lk')} (rw n at e) (taken-Move id c lk n)
]

-- A lock has one owner at most.
pub owns-one : (lk : Spinlock) (id k : ℕ) → owns lk id ≡ true → k ≢ id → owns lk k ≡ false
unfolding owns
owns-one lk id k mine ne = go lk.lock lk.cpu_num mine
  where
    go : (l : Bool) (n : Option ℕ) → (l && is_cpu n id) ≡ true → (l && is_cpu n k) ≡ false
    go false n h = refl
    go true none h = refl
    go true (some m) h = ne→== m k (λ e. ne (sym e ∙ (==_iff m id).0 h))

-- `holding` leaves the nesting as it was.
pub same-Move :
    (id : ℕ) (c : Cpu) (lk : Spinlock) (c' : Cpu)
    → pop_off (push_off c) ≡ done c'
    → Move id c lk c' lk
same-Move id c lk c' e = record {
  nest = λ b h h' same ok.
      let p = push_pop-Nested b h c ok in
      Nested-cast b h h' c' (omega arith) (subst (λ x. Nested b h x) (cc) p.2);
  others = λ k ne. refl;
}

pub free-Move :
    (id : ℕ) (c : Cpu) (lk : Spinlock) (c1 c2 : Cpu)
    → owns lk id ≡ true
    → pop_off (push_off c) ≡ done c1
    → pop_off c1 ≡ done c2
    → Move id c lk c2 released
unfolding owns
free-Move id c lk c1 c2 mine e1 e2 = record {
  nest = λ b h h' less ok.
      let p = push_pop-Nested b h c ok in
      let fewer : suc h' ≡ h = omega (rw mine at less, arith) in
      let q =
        pop_off-Nested b h' c1
          (Nested-cast b h (suc h') c1 (sym fewer) (subst (λ x. Nested b h x) (cc) p.2)) in
      subst (λ x. Nested b h' x) (cc) q.2;
  others = λ k ne. sym (owns-one lk id k mine ne);
}

pub try-Move :
    (id : ℕ) (c : Cpu) (lk : Spinlock) (b : Bool) (c' : Cpu) (lk' : Spinlock)
    → kmt_try_spin_lock id c lk ≡ done (b, c', lk')
    → Move id c lk c' lk'
unfolding kmt_try_spin_lock
try-Move id c lk b c' lk' e = elim (Bool-cases lk.lock) [
  | inl y ↦
      let r = >>=-eq-done (pop_off (push_off c)) _ (rw y at e) in
      Move-done id c lk {q = (c', lk')} (cc) (same-Move id c lk r.0 r.1)
  | inr n ↦
      Move-done id c lk {q = (c', lk')} (ap (λ r. r >>= λ x. done (x.1, x.2)) (rw n at e))
        (taken-Move id c lk n)
]

holding_lem :
    (id : ℕ) (c : Cpu) (lk : Spinlock) (a : Bool × Cpu)
    → holding id c lk ≡ done a
    → (pop_off (push_off c) ≡ done a.1) × (a.0 ≡ owns lk id)
unfolding holding
holding_lem id c lk a e = let r = >>=-eq-done (pop_off (push_off c)) _ e in (cc, cc)

pub unlock-Move :
    (id : ℕ) (c : Cpu) (lk : Spinlock) (c' : Cpu) (lk' : Spinlock)
    → kmt_spin_unlock id c lk ≡ done (c', lk')
    → Move id c lk c' lk' × (owns lk id ≡ true)
unfolding kmt_spin_unlock
unlock-Move id c lk c' lk' e =
    let r = >>=-eq-done (holding id c lk) _ e in
    let held = holding_lem id c lk r.0 r.1 in
    elim (Bool-cases r.0.0) [
      | inl y ↦
          let q = >>=-eq-done (pop_off r.0.1) _ (rw y at r.2) in
          (
            Move-done id c lk {q = (c', lk')} q.2
                (free-Move id c lk r.0.1 q.0 (sym held.1 ∙ y) held.0 q.1),
            sym held.1 ∙ y,
          )
      | inr n ↦ absurd (cc (rw n at r.2))
    ]

-- A lock that is free, taken and freed again by one processor: the runs end, with the lock as after
-- `kmt_spin_init` and the nesting as before.
pub record Section (id : ℕ) (b : Bool) (h : ℕ) (c : Cpu) (lk : Spinlock) : Type 0 where
  pub taken : Spinlock
  pub takes : kmt_spin_lock id c lk ≡ done (push_off c, taken)
  pub frees :
      (c' : Cpu)
      → Nested b (suc h) c'
      → (c2 : Cpu) × (kmt_spin_unlock id c' taken ≡ done (c2, released)) × Nested b h c2
  pub nested : Nested b (suc h) (push_off c)

pub free-Section :
    (id : ℕ) (b : Bool) (h : ℕ) (c : Cpu) (lk : Spinlock)
    → lk.lock ≡ false
    → Nested b h c
    → Section id b h c lk
unfolding kmt_spin_lock kmt_spin_unlock holding owns
free-Section id b h c lk free ok = record {
  taken = record { lock = true; cpu_num = some id };
  takes = rw free refl;
  frees = λ c' deep.
      let p = push_pop-Nested b (suc h) c' deep in
      let q = pop_off-Nested b h p.0 p.2 in (q.0, rw (p.1, (==_iff id id).1 refl, q.1) refl, q.2);
  nested = push_off-Nested b h c ok;
}
