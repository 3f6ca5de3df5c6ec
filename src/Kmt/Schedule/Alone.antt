-- ===== src/Kmt/Schedule/Alone.antt =====
-- No thread runs on two processors at once, whatever their traps do.
use mathlib.Core.Path.{subst}
use jyy_os.Prelude.{
  ℕ, zero, suc, ◌+◌, ◌-◌, ◌*◌, ◌%◌, ◌≡◌, ◌≢◌, ◌⊎◌, inl, inr, refl, sym, ◌∙◌, ap, Bool, true, false,
  not, ◌||◌, if◌then◌else◌, leb, eq-cases, Bool-cases, if_true, if_false, Option, some, done,
  assert, >>=-eq-done, done-inj, update, update_self,
}
use jyy_os.Kmt.Schedule.{
  Task, null, idle, entry, same, Sched, get_task, set_task, deref, try_entry, try_task, try_tasks,
  go_idle, read_context, dispatch, kmt_schedule,
}
use jyy_os.Kmt.Schedule.Saved.{
  Alone, Uses, entry_same, or_false, set_task-Alone, go_idle-Alone, deref-some,
}

or_false_left : (a b : Bool) → (a || b) ≡ false → a ≡ false
or_false_left true b h = h
or_false_left false b h = refl

entry-inj : {i j : ℕ} → entry i ≡ entry j → i ≡ j
entry-inj e = cc

module _ {ℓ} {Context : Type ℓ} where
  -- The processor's current task is an entry that is marked and not blocked.
  pub record Chosen (s : Sched Context) (id : ℕ) : Type ℓ where
    pub number : ℕ
    pub task : Task Context
    pub current : s.current_task id ≡ entry number
    pub there : s.task_list number ≡ some task
    pub unblocked : task.block ≡ false
    pub marked : task.is_running ≡ true

  -- Taking an entry that is not marked: nobody uses it.
  take-Alone :
      (s : Sched Context) (id p : ℕ) (t : Task Context)
      → s.task_list p ≡ some t
      → t.is_running ≡ false
      → Alone s
      → Alone (record (set_task s id (entry p) (record t { is_running = true })) {
        current_task = update s.current_task id (entry p);
      })
  unfolding set_task
  take-Alone s id p t e idle_task a = record {
    marked = λ k i u. elim (eq-cases p i) [
      | inl y ↦ (record t { is_running = true }, rw y.1 refl, refl)
      | inr n ↦ rw n.1 (a.marked k i (before k i n.0 u))
    ];
    apart = λ k j i u v. elim (eq-cases p i) [
      | inl y ↦ only k i y.0 u ∙ sym (only j i y.0 v)
      | inr n ↦ a.apart k j i (before k i n.0 u) (before j i n.0 v)
    ];
  }
    where
      New : Sched Context
      New = record (set_task s id (entry p) (record t { is_running = true })) {
        current_task = update s.current_task id (entry p);
      }

      unused : (k : ℕ) → ¬ Uses s k p
      unused k u = let r = a.marked k p u in cc (e, r.1, r.2, idle_task)

      before : (k i : ℕ) → p ≢ i → Uses New k i → Uses s k i
      before k i ne (inr v) = inr v
      before k i ne (inl v) = elim (eq-cases id k) [
        | inl y ↦ absurd (ne (entry-inj (rw y.1 at v)))
        | inr n ↦ inl (rw n.1 at v)
      ]

      only : (k i : ℕ) → p ≡ i → Uses New k i → k ≡ id
      only k i h (inr v) = absurd (unused k (inr (v ∙ ap (λ x. entry x) (sym h))))
      only k i h (inl v) = elim (eq-cases id k) [
        | inl y ↦ sym y.0
        | inr n ↦ absurd (unused k (inl ((rw n.1 at v) ∙ ap (λ x. entry x) (sym h))))
      ]

  -- After a turn of the loop the marks are right, and if it leaves the loop a task is chosen.
  abbrev pub Tried : ℕ → Bool × Sched Context → Type ℓ
  Tried id r = Alone r.1 × (r.0 ≡ true → Chosen r.1 id)

  missed : (s : Sched Context) (id : ℕ) → Alone s → Tried id (false, s)
  missed s id a = (a, λ e. absurd (cc e))

  -- The turn that meets the current task again.
  again-Tried :
      (s : Sched Context) (id p n : ℕ) (t : Task Context)
      → s.current_task id ≡ entry p
      → s.task_list p ≡ some t
      → t.block ≡ false
      → Alone s
      → Tried id (true, set_task s id (entry p) (record t { nested_interrupt = n }))
  unfolding set_task get_task
  again-Tried s id p n t cur e free a =
      let r = a.marked id p (inl cur) in
      let one : t ≡ r.0 = cc in
      (
        set_task-Alone s id (entry p) t (record t { nested_interrupt = n }) e refl a,
        λ found. record {
          number = p;
          task = record t { nested_interrupt = n };
          current = cur;
          there = update_self s.task_list p (some (record t { nested_interrupt = n }));
          unblocked = free;
          marked = ap (λ x. x.is_running) one ∙ r.2;
        },
      )

  take-Tried :
      (s : Sched Context) (id p : ℕ) (t : Task Context)
      → s.task_list p ≡ some t
      → t.is_running ≡ false
      → t.block ≡ false
      → Alone s
      → Tried id (
        true,
        record (set_task s id (entry p) (record t { is_running = true })) {
          current_task = update s.current_task id (entry p);
        },
      )
  unfolding set_task
  take-Tried s id p t e idle_task free a = (
    take-Alone s id p t e idle_task a,
    λ found. record {
      number = p;
      task = record t { is_running = true };
      current = update_self s.current_task id (entry p);
      there = update_self s.task_list p (some (record t { is_running = true }));
      unblocked = free;
      marked = refl;
    },
  )

  try_entry-Tried :
      (s : Sched Context) (id p : ℕ) (t : Task Context) (r : Bool × Sched Context)
      → try_entry id p s t ≡ done r
      → s.task_list p ≡ some t
      → Alone s
      → Tried id r
  unfolding try_entry
  try_entry-Tried s id p t r e there a = elim (Bool-cases (same (entry p) (s.current_task id))) [
    | inl cur ↦ elim (Bool-cases t.block) [
      | inl b ↦
          subst (λ x. Tried id x) (done-inj (if_true _ _ b (if_true _ _ cur e))) (missed s id a)
      | inr f ↦
          subst (λ x. Tried id x) (done-inj (if_false _ _ f (if_true _ _ cur e)))
            (again-Tried s id p _ t (entry_same p _ cur) there f a)
    ]
    | inr other ↦ elim (Bool-cases t.status) [
      | inl held ↦ absurd (cc (if_true _ _ held (if_false _ _ other e)))
      | inr open_lock ↦ elim (Bool-cases (t.is_running || t.block)) [
        | inl busy ↦
            subst (λ x. Tried id x)
              (done-inj (if_true _ _ busy (if_false _ _ open_lock (if_false _ _ other e))))
              (missed s id a)
        | inr ready ↦
            subst (λ x. Tried id x)
              (done-inj (if_false _ _ ready (if_false _ _ open_lock (if_false _ _ other e))))
              (take-Tried s id p t there (or_false_left _ _ ready) (or_false _ _ ready) a)
      ]
    ]
  ]

  pub try-Tried :
      (s : Sched Context) (id rand : ℕ) (r : Bool × Sched Context)
      → try_task id rand s ≡ done r
      → Alone s
      → Tried id r
  unfolding try_task
  try-Tried s id rand r e a = elim (Bool-cases (leb s.task_cnt 1)) [
    | inl y ↦ absurd (cc (rw y at e))
    | inr n ↦
        let p = rand % (s.task_cnt - 1) + 1 in
        let d = >>=-eq-done (deref (s.task_list p)) (try_entry id p s) (rw n at e) in
        try_entry-Tried s id p d.0 r d.2 (deref-some (s.task_list p) d.0 d.1) a
  ]

  try_tasks-Tried :
      (n : ℕ) (s : Sched Context) (id : ℕ) (rands : ℕ → ℕ) (r : Bool × Sched Context)
      → try_tasks n id rands s ≡ done r
      → Alone s
      → Tried id r
  unfolding try_tasks
  try_tasks-Tried zero s id rands r e a = subst (λ x. Tried id x) (done-inj e) (missed s id a)
  try_tasks-Tried (suc n) s id rands r e a =
      let d = >>=-eq-done (try_task id (rands n) s) _ e in
      let t = try-Tried s id (rands n) d.0 d.1 a in
      elim (Bool-cases d.0.0) [
        | inl y ↦ subst (λ x. Tried id x) (done-inj (if_true _ _ y d.2)) (t.0, λ h. t.1 y)
        | inr on ↦ try_tasks-Tried n d.0.1 id rands r (if_false _ _ on d.2) t.0
      ]

  go_idle_lem : (s : Sched Context) (id : ℕ) → (go_idle id s).current_task id ≡ idle
  unfolding go_idle
  go_idle_lem s id = update_self s.current_task id idle

  if_Alone :
      (b : Bool) (s : Sched Context) (id : ℕ) → Alone s → Alone (if b then go_idle id s else s)
  if_Alone true s id a = go_idle-Alone s id a
  if_Alone false s id a = a

  dispatch_lem :
      (id : ℕ) (b : Bool) (s : Sched Context) (c : Option Context) (s' : Sched Context)
      → dispatch id b s ≡ done (c, s')
      → (if b then s else go_idle id s) ≡ s'
  unfolding dispatch
  dispatch_lem id b s c s' e =
      let s2 = if b then s else go_idle id s in
      let d = >>=-eq-done (deref (get_task s2 id (s2.current_task id))) _ e in
      let f = >>=-eq-done (assert (not d.0.block)) _ d.2 in
      let g = >>=-eq-done (if b then read_context d.0 else done (d.0.context 0)) _ f.2 in
      ap (λ p. p.1) (done-inj g.2)

  dispatch-Alone :
      (id : ℕ) (b : Bool) (s : Sched Context) (c : Option Context) (s' : Sched Context)
      → dispatch id b s ≡ done (c, s')
      → Tried id (b, s)
      → Alone s' × ((s'.current_task id ≡ idle) ⊎ Chosen s' id)
  dispatch-Alone id true s c s' e t =
      subst (λ x. Alone x × ((x.current_task id ≡ idle) ⊎ Chosen x id))
        (dispatch_lem id true s c s' e) (t.0, inr (t.1 refl))
  dispatch-Alone id false s c s' e t =
      subst (λ x. Alone x × ((x.current_task id ≡ idle) ⊎ Chosen x id))
        (dispatch_lem id false s c s' e) (go_idle-Alone s id t.0, inl (go_idle_lem s id))

  -- When `kmt_schedule` on a processor returns, from a state in which every entry that a processor
  -- uses is marked as running and is used by no other, the state is such a state again, and the
  -- processor's current task is its idle task or an entry that is marked and not blocked.
  pub kmt_schedule-Alone :
      (s : Sched Context) (id : ℕ) (rands : ℕ → ℕ) (c : Option Context) (s' : Sched Context)
      → kmt_schedule id rands s ≡ done (c, s')
      → Alone s
      → Alone s' × ((s'.current_task id ≡ idle) ⊎ Chosen s' id)
  unfolding kmt_schedule
  kmt_schedule-Alone s id rands c s' e a =
      let s0 = if same (s.current_task id) null then go_idle id s else s in
      let a0 = if_Alone (same (s.current_task id) null) s id a in
      let d = >>=-eq-done (try_tasks (s0.task_cnt * 10) id rands s0) _ e in
      dispatch-Alone id d.0.0 d.0.1 c s' d.2
        (try_tasks-Tried (s0.task_cnt * 10) s0 id rands d.0 d.1 a0)
