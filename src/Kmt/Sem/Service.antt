-- ===== src/Kmt/Sem/Service.antt =====
-- The two operations on a semaphore as a whole, its lock included.
use jyy_os.Prelude.{
  ℕ, suc, ◌<◌, ◌≤◌, ◌+◌, ◌-◌, ◌^◌, ◌⊎◌, inl, inr, le→leb, lt→leb, ◌≡◌, ◌≢◌, refl, sym, ◌∙◌, ap,
  Bool, true, false, some, Outcome, done,
}
use mathlib.Core.Path.{subst}
use jyy_os.Kmt.Spin.{Cpu, Spinlock, released, push_off, kmt_spin_lock, kmt_spin_unlock}
use jyy_os.Kmt.Spin.Nest.{Nested, free-Section}
use jyy_os.Kmt.Sem.{
  World, negative, locked, kmt_sem_wait, kmt_sem_signal, wait_body, signal_body, k_max_task,
}
use jyy_os.Kmt.Sem.Waiters.{Counts, no_debt, Signalled, signal-Signalled}
use jyy_os.Kmt.Sem.Wait.{wait-Waited}

-- The world with another processor state and another lock of the semaphore.
abbrev pub with_lock : World → Cpu → Spinlock → World
with_lock w c lk = record w { cpu = c; sem = record w.sem { lock = lk } }

with_lock-Counts : (w : World) (c : Cpu) (lk : Spinlock) → Counts w → Counts (with_lock w c lk)
with_lock-Counts w c lk n = record {
  int = n.int;
  nobody = n.nobody;
  debt = n.debt;
  blocked = n.blocked;
  distinct = n.distinct;
}

-- What a critical section needs: a free lock and a nesting.
pub record Ready (b : Bool) (h : ℕ) (w : World) : Type 0 where
  pub free : w.sem.lock.lock ≡ false
  pub nested : Nested b h w.cpu

-- The outcome of a call: the world after it, its lock free and the nesting as before.
pub record Called (b : Bool) (h : ℕ) (run : Outcome World) : Type 0 where
  pub after : World
  pub result : run ≡ done after
  pub ready : Ready b h after

locked_lem :
    (id : ℕ) (b : Bool) (h : ℕ) (w : World) (body : World → Outcome World) (lk : Spinlock)
    → kmt_spin_lock id w.cpu w.sem.lock ≡ done (push_off w.cpu, lk)
    → (w1 : World) → body (with_lock w (push_off w.cpu) lk) ≡ done w1
    → (c2 : Cpu) → kmt_spin_unlock id w1.cpu w1.sem.lock ≡ done (c2, released)
    → locked id w body ≡ done (with_lock w1 c2 released)
unfolding locked
locked_lem id b h w body lk takes w1 runs c2 frees = rw (takes, runs, frees) refl

-- How a call of `kmt_sem_wait` by task `t` goes on from the world `after`, in which its lock is free
-- again: it returns, with one less in the count and nobody waiting, or it is in `yield`, with a count
-- below 0 and the task the last of the list and blocked.
pub record WaitDone (yield : World → Outcome World) (t : ℕ) (b : Bool) (h : ℕ) (w : World)
    (run : Outcome World) : Type 0 where
  pub after : World
  pub ready : Ready b h after
  pub counts : Counts after
  pub case :
      ((run ≡ done after)
        × (0 < w.sem.resource)
        × (after.sem.resource + 1 ≡ w.sem.resource)
        × (after.sem.task_cnt ≡ 0))
      ⊎ ((run ≡ yield after)
          × (2 ^ 31 ≤ after.sem.resource)
          × (after.sem.task_cnt ≡ w.sem.task_cnt + 1)
          × (after.sem.task_list w.sem.task_cnt ≡ t)
          × (after.block t ≡ true))

-- Let the count of a semaphore agree with its list, be above the smallest `int`, the list have room,
-- the semaphore's lock and the task's `status` be free, the task be not blocked and the processor
-- nested `h` deep. Then `kmt_sem_wait` comes to a world with the lock free, the nesting as before and
-- a count that agrees with the list, whose tasks are different and blocked. If the count was above 0,
-- it is one less there, nobody waits and the call returns that world without a yield; otherwise the
-- count is below 0 there, the task is the last of the list, it is blocked, and the call goes on as
-- `yield` does from that world, whatever `yield` is.
pub wait_lem :
    (yield : World → Outcome World) (id t : ℕ) (b : Bool) (h : ℕ) (w : World)
    → w.sem.resource ≢ 2 ^ 31
    → w.sem.task_cnt < k_max_task
    → w.block t ≡ false
    → (w.status t).lock ≡ false
    → Ready b h w
    → Counts w
    → WaitDone yield t b h w (kmt_sem_wait yield id (some t) w)
unfolding kmt_sem_wait
wait_lem yield id t b h w least few free_task free ready c =
    let s = free-Section id b h w.cpu w.sem.lock ready.free ready.nested in
    let w0 = with_lock w (push_off w.cpu) s.taken in
    let r =
      wait-Waited id t b (suc h) w0 least few free_task free s.nested
        (with_lock-Counts w (push_off w.cpu) s.taken c) in
    let f = s.frees r.0.cpu r.3 in
    let runs =
      locked_lem id b h w (wait_body id (some t)) s.taken s.takes r.0 r.1 f.0
        (ap (λ lk. kmt_spin_unlock id r.0.cpu lk) r.4 ∙ f.1) in
    record {
      after = with_lock r.0 f.0 released;
      ready = record { free = refl; nested = f.2 };
      counts = with_lock-Counts r.0 f.0 released r.2.counts;
      case = elim r.2.case [
        | inl (some_left, one_less, nobody) ↦
            let kept : negative r.0.sem.resource ≡ false =
              lt→leb _ _ (no_debt r.0 r.2.counts nobody) in
            inl (rw (runs, kept) refl, some_left, one_less, nobody)
        | inr (debt, longer, last, stopped) ↦
            inr (rw (runs, le→leb _ _ debt) refl, debt, longer, last, stopped)
      ];
    }

-- Let the count of a semaphore agree with its list and be below the largest `int`, its lock be free
-- and the processor nested `h` deep. Then `kmt_sem_signal` returns, for every value of `rand`, with
-- the lock free and the nesting as before; with nobody waiting the count is one more; otherwise one
-- waiting task is taken from the list and is no longer blocked; and count and list agree again.
pub signal_lem :
    (id rand : ℕ) (b : Bool) (h : ℕ) (w : World)
    → w.sem.resource ≢ 2 ^ 31 - 1
    → Ready b h w
    → Counts w
    → (r : Called b h (kmt_sem_signal id rand w)) × Signalled w r.after
unfolding kmt_sem_signal
signal_lem id rand b h w room ready c =
    let s = free-Section id b h w.cpu w.sem.lock ready.free ready.nested in
    let w0 = with_lock w (push_off w.cpu) s.taken in
    let r = signal-Signalled rand w0 room (with_lock-Counts w (push_off w.cpu) s.taken c) in
    let f = s.frees r.0.cpu (subst (λ x. Nested b (suc h) x) (sym r.3) s.nested) in
    (
      record {
        after = with_lock r.0 f.0 released;
        result =
            locked_lem id b h w (signal_body rand) s.taken s.takes r.0 r.1 f.0
              (ap (λ lk. kmt_spin_unlock id r.0.cpu lk) r.4 ∙ f.1);
        ready = record { free = refl; nested = f.2 };
      },
      record { counts = with_lock-Counts r.0 f.0 released r.2.counts; case = r.2.case },
    )
