-- ===== src/Kmt/Sem.antt =====
-- kernel/src/kmt.c, lines 95 to 147: semaphores. A task is a number, and an `int` stands in 32 bits.
pub mod Waiters
pub mod Wait
pub mod Service
use jyy_os.Prelude.{
  ℕ, ◌+◌, ◌-◌, ◌%◌, ◌^◌, Bool, true, false, ◌||◌, if◌then◌else◌, ltb, leb, ◌==◌, Option, none, some,
  Outcome, done, panic, ◌>>=◌, update,
}
use jyy_os.Kmt.Spin.{Cpu, Spinlock, kmt_spin_lock, kmt_spin_unlock, kmt_spin_init}

-- `sem_t` without its name
pub record Sem : Type 0 where
  pub resource : ℕ
  pub task_cnt : ℕ
  pub task_list : ℕ → ℕ
  pub lock : Spinlock

-- What a call on a semaphore reads and writes: the processor, the semaphore, and the `block` and
-- `status` of the tasks.
pub record World : Type 0 where
  pub cpu : Cpu
  pub sem : Sem
  pub block : ℕ → Bool
  pub status : ℕ → Spinlock

abbrev pub k_max_task : ℕ
k_max_task = 1024

-- `x < 0` for an `int`
abbrev pub negative : ℕ → Bool
negative x = leb (2 ^ 31) x

-- A critical section of the semaphore's lock on processor `id`.
unfoldable pub locked : ℕ → World → (World → Outcome World) → Outcome World
locked id w body = do
  (c, lk) ← kmt_spin_lock id w.cpu w.sem.lock
  w1 ← body (record w { cpu = c; sem = record w.sem { lock = lk } })
  (c2, lk2) ← kmt_spin_unlock id w1.cpu w1.sem.lock
  done (record w1 { cpu = c2; sem = record w1.sem { lock = lk2 } })

-- `current_task->block = true` under the lock `status` of that task
unfoldable pub block_task : ℕ → ℕ → World → Outcome World
block_task id t w = do
  (c, lk) ← kmt_spin_lock id w.cpu (w.status t)
  (c2, lk2) ← kmt_spin_unlock id c lk
  done (record w { cpu = c2; block = update w.block t true; status = update w.status t lk2 })

-- The branch of `resource < 0`; `current` is `none` where `current_task` is null.
unfoldable pub wait_in_list : ℕ → Option ℕ → World → Outcome World
wait_in_list id none w = done w
wait_in_list id (some t) w =
    if ltb w.sem.task_cnt k_max_task
    then block_task id t (record w {
      sem = record w.sem {
        task_list = update w.sem.task_list w.sem.task_cnt t;
        task_cnt = w.sem.task_cnt + 1;
      };
    })
    else panic

unfoldable pub wait_body : ℕ → Option ℕ → World → Outcome World
wait_body id current w =
    let resource = (w.sem.resource + (2 ^ 32 - 1)) % 2 ^ 32 in
    let w1 = record w { sem = record w.sem { resource = resource } } in
    if negative resource then wait_in_list id current w1 else done w1

-- The test of `kmt_sem_wait` after the lock is free: whether the task yields.
abbrev pub yields : World → Bool
yields w = negative w.sem.resource

-- `kmt_sem_wait`; `yield` is AM's trap into the scheduler, which comes back when the task is chosen
-- again.
unfoldable pub kmt_sem_wait : (World → Outcome World) → ℕ → Option ℕ → World → Outcome World
kmt_sem_wait yield id current w =
    locked id w (wait_body id current) >>= λ w1. if yields w1 then yield w1 else done w1

-- `rand` is what that function gives.
unfoldable pub signal_body : ℕ → World → Outcome World
signal_body rand w =
    let resource = (w.sem.resource + 1) % 2 ^ 32 in
    let s = record w.sem { resource = resource } in
    let task_id = rand % s.task_cnt in
    let last = s.task_cnt - 1 in
    if (resource == 0) || negative resource
    then (if ltb 0 s.task_cnt
        then done (record w {
          block = update w.block (s.task_list task_id) false;
          sem = record s {
            task_cnt = last;
            task_list = update s.task_list task_id (s.task_list last);
          };
        })
        else done (record w { sem = s }))
    else done (record w { sem = s })

unfoldable pub kmt_sem_signal : ℕ → ℕ → World → Outcome World
kmt_sem_signal id rand w = locked id w (signal_body rand)

-- `kmt_sem_init`, for a value that is not negative
unfoldable pub kmt_sem_init : ℕ → Sem
kmt_sem_init value = record {
  resource = value % 2 ^ 32;
  task_cnt = 0;
  task_list = λ i. 0;
  lock = kmt_spin_init;
}
