-- ===== src/Kmt/Schedule/Tests.antt =====
-- Runs of the scheduler on a list with one task.
use jyy_os.Prelude.{
  ℕ, ◌≡◌, ◌⊎◌, inl, inr, refl, true, false, ◌==◌, if◌then◌else◌, none, some, done, update,
}
use jyy_os.Kmt.Schedule.{
  Task, null, idle, entry, Sched, get_task, set_task, go_idle, read_context, try_entry, try_task,
  try_tasks, dispatch, kmt_schedule,
}
use jyy_os.Kmt.Schedule.Saved.{Alone, Running}
use jyy_os.Kmt.Schedule.Alone.{Chosen, kmt_schedule-Alone}
use jyy_os.Kmt.Schedule.Interleave.{Step, Reach, Running-Alone}

-- A context is a number.
abbrev ready : Task ℕ
ready = record {
  pid = 1;
  nested_interrupt = 0;
  block = false;
  is_running = false;
  status = false;
  context = λ i. some 40;
}

abbrev at_rest : Sched ℕ
at_rest = record {
  task_list = λ i. if i == 1 then some ready else none;
  task_cnt = 2;
  idle_task = λ id. ready;
  current_task = λ id. null;
  save_task = λ id. null;
}

abbrev idle_0 : Sched ℕ
idle_0 = record at_rest { current_task = update at_rest.current_task 0 idle }

abbrev busy_0 : Sched ℕ
busy_0 = record idle_0 {
  task_list = update idle_0.task_list 1 (some (record ready { is_running = true }));
  current_task = update idle_0.current_task 0 (entry 1);
}

busy_0-Reach : Reach at_rest busy_0
unfolding go_idle try_task try_entry set_task
busy_0-Reach =
    Reach.later idle_0 busy_0 (Reach.later at_rest idle_0 Reach.here (Step.idled at_rest 0))
      (Step.tried idle_0 busy_0 0 0 true refl)

Running-Alone_example : (◌≡◌ {A = ℕ} 0 0) × Running busy_0 1
Running-Alone_example =
    Running-Alone at_rest busy_0 0 0 1 (λ id. refl) (λ id. refl) busy_0-Reach refl (inl refl)

at_rest-Alone : Alone at_rest
at_rest-Alone = record {
  marked = λ k i u. elim u [ inl v ↦ absurd (cc v) | inr v ↦ absurd (cc v) ];
  apart = λ k j i u v. elim u [ inl w ↦ absurd (cc w) | inr w ↦ absurd (cc w) ];
}

scheduled : kmt_schedule 0 (λ n. 0) at_rest ≡ done (some 40, busy_0)
unfolding kmt_schedule try_tasks go_idle try_task try_entry set_task dispatch read_context get_task
scheduled = refl

kmt_schedule-Alone_example : Alone busy_0 × ((busy_0.current_task 0 ≡ idle) ⊎ Chosen busy_0 0)
kmt_schedule-Alone_example =
    kmt_schedule-Alone at_rest 0 (λ n. 0) (some 40) busy_0 scheduled at_rest-Alone
