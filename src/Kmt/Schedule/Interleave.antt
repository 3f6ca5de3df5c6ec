-- ===== src/Kmt/Schedule/Interleave.antt =====
-- The handlers of all processors, in any order and turn by turn.
use mathlib.Core.Path.{subst}
use jyy_os.Prelude.{
  ℕ, ◌≡◌, ◌⊎◌, inl, inr, Bool, ltb, eq-cases, Bool-cases, if_true, if_false, Option, none, some,
  done, done-inj,
}
use jyy_os.Kmt.Schedule.{
  Task, null, entry, max_task, Sched, get_task, set_task, kmt_create, kmt_context_save, try_task,
  go_idle,
}
use jyy_os.Kmt.Schedule.Saved.{
  Alone, Uses, Running, set_task-Alone, go_idle-Alone, context_save-Alone,
}
use jyy_os.Kmt.Schedule.Alone.{try-Tried}

-- One step of a processor `id`: `kmt_context_save`, one turn of the loop of `kmt_schedule`, its fall
-- back to the idle task, `kmt_create` at an entry that was empty, or a change to a task that leaves
-- `is_running`, as those of semaphores and of traps are. The steps of a processor may come in any
-- order here, also in orders that its traps do not make.
pub data Step {ℓ} {Context : Type ℓ} : Sched Context → Sched Context → Type ℓ where
  saved :
      (s s' : Sched Context) (id : ℕ) (c : Context) → kmt_context_save id c s ≡ done s' → Step s s'
  tried :
      (s s' : Sched Context) (id rand : ℕ) (b : Bool)
      → try_task id rand s ≡ done (b, s')
      → Step s s'
  idled : (s : Sched Context) (id : ℕ) → Step s (go_idle id s)
  created :
      (s s' : Sched Context) (c : Context) (junk : ℕ → Option Context)
      → s.task_list s.task_cnt ≡ none
      → kmt_create c junk s ≡ done s'
      → Step s s'
  touched :
      (s : Sched Context) (id p : ℕ) (t t' : Task Context)
      → s.task_list p ≡ some t
      → t'.is_running ≡ t.is_running
      → Step s (set_task s id (entry p) t')

pub data Reach {ℓ} {Context : Type ℓ} (start : Sched Context) : Sched Context → Type ℓ where
  here : Reach start start
  later : (s t : Sched Context) → Reach start s → Step s t → Reach start t

module _ {ℓ} {Context : Type ℓ} where
  create-Alone :
      (s s' : Sched Context) (c : Context) (junk : ℕ → Option Context)
      → s.task_list s.task_cnt ≡ none
      → kmt_create c junk s ≡ done s'
      → Alone s
      → Alone s'
  unfolding kmt_create
  create-Alone s s' c junk empty e a = elim (Bool-cases (ltb s.task_cnt max_task)) [
    | inr n ↦ absurd (cc (if_false _ _ n e))
    | inl y ↦
        subst (λ x. Alone x) (done-inj (if_true _ _ y e))
          (record {
            marked = λ k i u. elim (eq-cases s.task_cnt i) [
              | inl same ↦
                  let there = (a.marked k i u).1 in
                  absurd (cc (subst (λ x. s.task_list x ≡ none) same.0 empty, there))
              | inr other ↦ rw other.1 (a.marked k i u)
            ];
            apart = a.apart;
          })
  ]

  Step-Alone : (s t : Sched Context) → Step s t → Alone s → Alone t
  unfolding get_task
  Step-Alone _ _ (saved s s' id c e) a = context_save-Alone s s' id c e a
  Step-Alone _ _ (tried s s' id rand b e) a = (try-Tried s id rand (b, s') e a).0
  Step-Alone _ _ (idled s id) a = go_idle-Alone s id a
  Step-Alone _ _ (created s s' c junk empty e) a = create-Alone s s' c junk empty e a
  Step-Alone _ _ (touched s id p t t' e m) a = set_task-Alone s id (entry p) t t' e m a

  Reach-Alone : (start s : Sched Context) → Reach start s → Alone start → Alone s
  Reach-Alone start _ here a = a
  Reach-Alone start t (later s t' r step) a = Step-Alone s t step (Reach-Alone start s r a)

  -- Start where no processor has a current or a saved task, as `kmt_init` leaves them, and let the
  -- processors go on in any order, turn by turn of the loop of `kmt_schedule`. In no state that is
  -- reached do two processors run one entry of `task_list`, or does one run an entry that another has
  -- still to save; and each entry that a processor runs is marked as running.
  pub Running-Alone :
      (start s : Sched Context) (k j i : ℕ)
      → ((id : ℕ) → start.current_task id ≡ null)
      → ((id : ℕ) → start.save_task id ≡ null)
      → Reach start s
      → s.current_task k ≡ entry i
      → (s.current_task j ≡ entry i) ⊎ (s.save_task j ≡ entry i)
      → (k ≡ j) × Running s i
  Running-Alone start s k j i no_current no_save r mine theirs =
      let a = Reach-Alone start s r (record {
        marked = λ k i u. absurd (unused k i u);
        apart = λ k j i u v. absurd (unused k i u);
      }) in
      (a.apart k j i (inl mine) theirs, a.marked k i (inl mine))
    where
      unused : (k i : ℕ) → ¬ Uses start k i
      unused k i (inl v) = cc (no_current k, v)
      unused k i (inr v) = cc (no_save k, v)
