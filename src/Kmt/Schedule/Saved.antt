-- ===== src/Kmt/Schedule/Saved.antt =====
-- A thread that a processor uses is marked as running, and `kmt_context_save` keeps the marks right.
use mathlib.Core.Path.{subst}
use jyy_os.Prelude.{
  ℕ, ◌≡◌, ◌≢◌, ◌⊎◌, inl, inr, refl, sym, ◌∙◌, ap, Bool, true, false, ◌||◌, ltb, ==_iff, eq-cases,
  Bool-cases, Option, none, some, done, >>=-eq-done, done-inj, update,
}
use jyy_os.Kmt.Schedule.{
  Task, TaskPtr, null, idle, entry, same, Sched, get_task, set_task, deref, save_context, let_go,
  leave_saved, kmt_context_save, go_idle,
}

pub same_refl : (p : TaskPtr) → same p p ≡ true
same_refl null = refl
same_refl idle = refl
same_refl (entry i) = (==_iff i i).1 refl

pub same_lem : (p q : TaskPtr) → same p q ≡ false → p ≢ q
same_lem p q h e = cc (subst (λ x. same p x ≡ true) e (same_refl p))

pub or_false : (a b : Bool) → (a || b) ≡ false → b ≡ false
or_false true b h = absurd (cc)
or_false false b h = h

pub entry_same : (i : ℕ) (q : TaskPtr) → same (entry i) q ≡ true → q ≡ entry i
entry_same i null h = absurd (cc)
entry_same i idle h = absurd (cc)
entry_same i (entry j) h = ap (λ x. entry x) (sym ((==_iff i j).0 h))

module _ {ℓ} {Context : Type ℓ} where
  -- Processor `k` runs entry `i`, or still has it to save.
  abbrev pub Uses : Sched Context → ℕ → ℕ → Type 0
  Uses s k i = (s.current_task k ≡ entry i) ⊎ (s.save_task k ≡ entry i)

  abbrev pub Running : Sched Context → ℕ → Type ℓ
  Running s i = (t : Task Context) × (s.task_list i ≡ some t) × (t.is_running ≡ true)

  -- An entry that a processor uses is marked as running, and no other processor uses it.
  pub record Alone (s : Sched Context) : Type ℓ where
    pub marked : (k i : ℕ) → Uses s k i → Running s i
    pub apart : (k j i : ℕ) → Uses s k i → Uses s j i → k ≡ j

  -- A task is changed in place, and keeps its mark.
  pub set_task-Alone :
      (s : Sched Context) (id : ℕ) (p : TaskPtr) (t t' : Task Context)
      → get_task s id p ≡ some t
      → t'.is_running ≡ t.is_running
      → Alone s
      → Alone (set_task s id p t')
  unfolding get_task set_task
  set_task-Alone s id null t t' e m a = a
  set_task-Alone s id idle t t' e m a = record { marked = a.marked; apart = a.apart }
  set_task-Alone s id (entry p) t t' e m a = record {
    marked = λ k i u. elim (eq-cases p i) [
      | inl y ↦
          let r = a.marked k i u in
          let there = subst (λ x. s.task_list x ≡ some t) y.0 e in
          let one : t ≡ r.0 = cc in (t', rw y.1 refl, m ∙ ap (λ x. x.is_running) one ∙ r.2)
      | inr n ↦ rw n.1 (a.marked k i u)
    ];
    apart = a.apart;
  }

  pub go_idle-Alone : (s : Sched Context) (id : ℕ) → Alone s → Alone (go_idle id s)
  unfolding go_idle
  go_idle-Alone s id a = record {
    marked = λ k i u. a.marked k i (back k i u);
    apart = λ k j i u v. a.apart k j i (back k i u) (back j i v);
  }
    where
      back : (k i : ℕ) → Uses (go_idle id s) k i → Uses s k i
      back k i (inr v) = inr v
      back k i (inl v) = elim (eq-cases id k) [
        | inl y ↦ absurd (cc (rw y.1 at v))
        | inr n ↦ inl (rw n.1 at v)
      ]

  -- `save_task = current_task`
  abbrev pub keep : Sched Context → ℕ → Sched Context
  keep s id = record s { save_task = update s.save_task id (s.current_task id) }

  -- What a processor uses then, it used before; and `id` uses only its current task.
  keep_lem :
      (s : Sched Context) (id k i : ℕ)
      → Uses (keep s id) k i
      → Uses s k i × (k ≡ id → s.current_task id ≡ entry i)
  keep_lem s id k i (inl v) = (inl v, λ e. subst (λ x. s.current_task x ≡ entry i) e v)
  keep_lem s id k i (inr v) = elim (eq-cases id k) [
    | inl y ↦ let c = rw y.1 at v in (inl (subst (λ x. s.current_task x ≡ entry i) y.0 c), λ e. c)
    | inr n ↦ (inr (rw n.1 at v), λ e. absurd (n.0 (sym e)))
  ]

  keep-Alone : (s : Sched Context) (id : ℕ) → Alone s → Alone (keep s id)
  keep-Alone s id a = record {
    marked = λ k i u. a.marked k i (keep_lem s id k i u).0;
    apart = λ k j i u v. a.apart k j i (keep_lem s id k i u).0 (keep_lem s id j i v).0;
  }

  -- The mark of the task that was saved before may go, when the current one is another.
  drop-Alone :
      (s : Sched Context) (id p : ℕ) (t' : Task Context)
      → s.save_task id ≡ entry p
      → s.current_task id ≢ entry p
      → Alone s
      → Alone (keep (set_task s id (entry p) t') id)
  unfolding set_task
  drop-Alone s id p t' saved other a = record {
    marked = λ k i u.
        let w = keep_lem s id k i u in
        elim (eq-cases p i) [
          | inl y ↦
              let here : k ≡ id = a.apart k id i w.0 (inr (saved ∙ ap (λ x. entry x) y.0)) in
              absurd (other (w.1 here ∙ ap (λ x. entry x) (sym y.0)))
          | inr n ↦ rw n.1 (a.marked k i w.0)
        ];
    apart = λ k j i u v. a.apart k j i (keep_lem s id k i u).0 (keep_lem s id j i v).0;
  }

  pub deref-some : (o : Option (Task Context)) (t : Task Context) → deref o ≡ done t → o ≡ some t
  deref-some none t e = absurd (cc)
  deref-some (some u) t e = cc

  change-Alone :
      (s : Sched Context) (id : ℕ) (p : TaskPtr)
      → s.save_task id ≡ p
      → (t' : Task Context) → same (s.save_task id) (s.current_task id) ≡ false
      → Alone s
      → Alone (keep (set_task s id p t') id)
  unfolding set_task
  change-Alone s id null e t' n a = keep-Alone s id a
  change-Alone s id idle e t' n a =
      keep-Alone (set_task s id idle t') id (record { marked = a.marked; apart = a.apart })
  change-Alone s id (entry p) e t' n a = drop-Alone s id p t' e (λ c. same_lem _ _ n (e ∙ sym c)) a

  leave-Alone :
      (s s' : Sched Context) (id : ℕ) → leave_saved id s ≡ done s' → Alone s → Alone (keep s' id)
  unfolding leave_saved
  leave-Alone s s' id e a =
      elim (Bool-cases (same (s.save_task id) null || same (s.save_task id) (s.current_task id))) [
        | inl y ↦ subst (λ x. Alone (keep x id)) (done-inj (rw y at e)) (keep-Alone s id a)
        | inr n ↦
            let e1 = rw n at e in
            let r = >>=-eq-done (deref (get_task s id (s.save_task id))) _ e1 in
            let q = >>=-eq-done (let_go r.0) _ r.2 in
            subst (λ x. Alone (keep x id)) (done-inj q.2)
              (change-Alone s id (s.save_task id) refl q.0 (or_false _ _ n) a)
      ]

  -- `save_context` keeps the mark of the task.
  save_context-mark :
      (c : Context) (t t' : Task Context)
      → save_context c t ≡ done t'
      → t'.is_running ≡ t.is_running
  unfolding save_context
  save_context-mark c t t' e = elim (Bool-cases (ltb 0 t.pid)) [
    | inr n ↦ sym (ap (λ x. x.is_running) (done-inj (rw n at e)))
    | inl y ↦ elim (Bool-cases (ltb t.nested_interrupt 2)) [
      | inl z ↦ sym (ap (λ x. x.is_running) (done-inj (rw (y, z) at e)))
      | inr z ↦ absurd (cc (rw (y, z) at e))
    ]
  ]

  pub context_save-Alone :
      (s s' : Sched Context) (id : ℕ) (c : Context)
      → kmt_context_save id c s ≡ done s'
      → Alone s
      → Alone s'
  unfolding kmt_context_save
  context_save-Alone s s' id c e a =
      let r = >>=-eq-done (deref (get_task s id (s.current_task id))) _ e in
      let q = >>=-eq-done (save_context c r.0) _ r.2 in
      let l = >>=-eq-done (leave_saved id (set_task s id (s.current_task id) q.0)) _ q.2 in
      subst (λ x. Alone x) (done-inj l.2)
        (leave-Alone _ l.0 id l.1 (
          set_task-Alone s id (s.current_task id) r.0 q.0 (deref-some _ _ r.1)
            (save_context-mark c r.0 q.0 q.1) a))
