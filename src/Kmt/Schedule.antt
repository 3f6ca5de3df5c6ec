-- ===== src/Kmt/Schedule.antt =====
-- kernel/src/kmt.c, lines 149 to 262: the two handlers by which a trap saves the interrupted thread
-- and chooses the next one.
pub mod Saved
pub mod Alone
pub mod Interleave
mod Tests
use jyy_os.Prelude.{
  ℕ, zero, suc, ◌+◌, ◌-◌, ◌*◌, ◌%◌, ◌^◌, Bool, true, false, not, ◌&&◌, ◌||◌, if◌then◌else◌, ltb,
  leb, ◌==◌, Option, none, some, Outcome, done, panic, stuck, assert, ◌>>=◌, ◌>>◌, update,
}

-- The fields of `task_t` that the handlers use; `status` is the flag of that lock, `context` the
-- array of two entries, and `nested_interrupt` an `int` in 32 bits.
pub record Task {ℓ} (Context : Type ℓ) : Type ℓ where
  pub pid : ℕ
  pub nested_interrupt : ℕ
  pub block : Bool
  pub is_running : Bool
  pub status : Bool
  pub context : ℕ → Option Context

-- A `task_t *` of a `CPU_TASKS`: null, the idle task of the processor, or an entry of `task_list`.
pub data TaskPtr : Type 0 where
  null : TaskPtr
  idle : TaskPtr
  entry : ℕ → TaskPtr

abbrev pub max_task : ℕ
max_task = 32768

abbrev pub same : TaskPtr → TaskPtr → Bool
same null null = true
same idle idle = true
same (entry i) (entry j) = i == j
same _ _ = false

-- `task_list`, `task_cnt`, and the `idle_task`, `current_task` and `save_task` of each processor.
pub record Sched {ℓ} (Context : Type ℓ) : Type ℓ where
  pub task_list : ℕ → Option (Task Context)
  pub task_cnt : ℕ
  pub idle_task : ℕ → Task Context
  pub current_task : ℕ → TaskPtr
  pub save_task : ℕ → TaskPtr

module _ {ℓ} {Context : Type ℓ} where
  -- The task behind a pointer, and the state with that task changed.
  unfoldable pub get_task : Sched Context → ℕ → TaskPtr → Option (Task Context)
  get_task s id null = none
  get_task s id idle = some (s.idle_task id)
  get_task s id (entry i) = s.task_list i

  unfoldable pub set_task : Sched Context → ℕ → TaskPtr → Task Context → Sched Context
  set_task s id null t = s
  set_task s id idle t = record s { idle_task = update s.idle_task id t }
  set_task s id (entry i) t = record s { task_list = update s.task_list i (some t) }

  -- `kmt_create` under its lock: `c` is what `kcontext` makes, and `junk` what the contexts hold.
  unfoldable pub kmt_create :
      Context → (ℕ → Option Context) → Sched Context → Outcome (Sched Context)
  kmt_create c junk s =
      let t : Task Context = record {
        pid = s.task_cnt;
        nested_interrupt = 0;
        block = false;
        is_running = false;
        status = false;
        context = update junk 0 (some c);
      } in
      if ltb s.task_cnt max_task
      then done (record s {
        task_list = update s.task_list s.task_cnt (some t);
        task_cnt = s.task_cnt + 1;
      })
      else panic

  -- An access through a null pointer is the end of the run.
  abbrev pub deref : Option (Task Context) → Outcome (Task Context)
  deref none = panic
  deref (some t) = done t

  -- The first step of `kmt_context_save`, on the current task.
  unfoldable pub save_context : Context → Task Context → Outcome (Task Context)
  save_context c t =
      if ltb 0 t.pid
      then (if ltb t.nested_interrupt 2
          then done (record t {
            context = update t.context t.nested_interrupt (some c);
            nested_interrupt = (t.nested_interrupt + 1) % 2 ^ 32;
          })
          else panic)
      else done (record t { context = update t.context 0 (some c) })

  -- The second step, on the task that was saved at the trap before.
  unfoldable pub let_go : Task Context → Outcome (Task Context)
  let_go t =
      let nested = (t.nested_interrupt + (2 ^ 32 - 1)) % 2 ^ 32 in
      if ltb 0 t.pid
      then (if t.status
          then stuck
          else if ltb nested 3
          then done (record t { is_running = false; nested_interrupt = nested })
          else panic)
      else done t

  unfoldable pub leave_saved : ℕ → Sched Context → Outcome (Sched Context)
  leave_saved id s =
      if same (s.save_task id) null || same (s.save_task id) (s.current_task id)
      then done s
      else (do
        t ← deref (get_task s id (s.save_task id))
        t' ← let_go t
        done (set_task s id (s.save_task id) t'))

  -- `kmt_context_save` on processor `id`
  unfoldable pub kmt_context_save : ℕ → Context → Sched Context → Outcome (Sched Context)
  kmt_context_save id c s = do
    t ← deref (get_task s id (s.current_task id))
    t' ← save_context c t
    s' ← leave_saved id (set_task s id (s.current_task id) t')
    done (record s' { save_task = update s'.save_task id (s'.current_task id) })

  -- One turn of the loop of `kmt_schedule`, on entry `rand_id` and the task there; the test says
  -- whether the loop is left with a task. Nothing comes between `unlock` and the last test of `block`.
  unfoldable pub try_entry : ℕ → ℕ → Sched Context → Task Context → Outcome (Bool × Sched Context)
  try_entry id rand_id s t =
      if same (entry rand_id) (s.current_task id)
      then (if t.block
          then done (false, s)
          else done (
            true,
            set_task s id (entry rand_id)
                (record t { nested_interrupt = (t.nested_interrupt + (2 ^ 32 - 1)) % 2 ^ 32 }),
          ))
      else if t.status
      then stuck
      else if t.is_running || t.block
      then done (false, s)
      else done (
        true,
        record (set_task s id (entry rand_id) (record t { is_running = true })) {
          current_task = update s.current_task id (entry rand_id);
        },
      )

  -- The turn for the value of `rand`; with one task in all, the remainder is one by 0.
  unfoldable pub try_task : ℕ → ℕ → Sched Context → Outcome (Bool × Sched Context)
  try_task id rand s =
      if leb s.task_cnt 1
      then panic
      else (let rand_id = rand % (s.task_cnt - 1) + 1 in
          deref (s.task_list rand_id) >>= try_entry id rand_id s)

  -- The loop, for the values that `rand` gives.
  unfoldable pub try_tasks : ℕ → ℕ → (ℕ → ℕ) → Sched Context → Outcome (Bool × Sched Context)
  try_tasks zero id rands s = done (false, s)
  try_tasks (suc n) id rands s = do
    (fine_task, s') ← try_task id (rands n) s
    (if fine_task then done (true, s') else try_tasks n id rands s')

  unfoldable pub go_idle : ℕ → Sched Context → Sched Context
  go_idle id s = record s { current_task = update s.current_task id idle }

  -- `ret` where a task was found: `context[nested_interrupt]`, which must not be null.
  unfoldable pub read_context : Task Context → Outcome (Option Context)
  read_context t =
      if ltb t.nested_interrupt 2 then non_null (t.context t.nested_interrupt) else panic
    where
      non_null : Option Context → Outcome (Option Context)
      non_null none = panic
      non_null (some c) = done (some c)

  -- What `kmt_schedule` does behind its loop, with the test that the loop gave.
  unfoldable pub dispatch : ℕ → Bool → Sched Context → Outcome (Option Context × Sched Context)
  dispatch id fine_task s1 = do
    let s2 = if fine_task then s1 else go_idle id s1
    t ← deref (get_task s2 id (s2.current_task id))
    assert (not t.block)
    c ← (if fine_task then read_context t else done (t.context 0))
    done (c, s2)

  -- `kmt_schedule` on processor `id`
  unfoldable pub kmt_schedule :
      ℕ → (ℕ → ℕ) → Sched Context → Outcome (Option Context × Sched Context)
  kmt_schedule id rands s = do
    let s0 = if same (s.current_task id) null then go_idle id s else s
    (fine_task, s1) ← try_tasks (s0.task_cnt * 10) id rands s0
    dispatch id fine_task s1
