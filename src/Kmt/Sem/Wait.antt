-- ===== src/Kmt/Sem/Wait.antt =====
-- `kmt_sem_wait` takes one from the count or puts the task on the list.
use jyy_os.Prelude.{
  ℕ, ◌+◌, ◌-◌, ◌%◌, ◌^◌, ◌≤◌, ◌<◌, ◌≡◌, ◌≢◌, inl, inr, refl, sym, ◌∙◌, ap, Bool, true, false, leb,
  some, done, update, arith, eq-cases, Bool-cases, leb→le, leb→lt, lt→ltb, update_self, update_ne,
}
use jyy_os.Kmt.Spin.{Cpu, released, push_off}
use jyy_os.Kmt.Spin.Nest.{Nested, free-Section}
use jyy_os.Kmt.Sem.{World, negative, wait_body, wait_in_list, block_task, k_max_task}
use jyy_os.Kmt.Sem.Waiters.{Counts, Waited}

-- The world after `block_task`.
abbrev after_block : World → ℕ → Cpu → World
after_block w t c = record w {
  cpu = c;
  block = update w.block t true;
  status = update w.status t released;
}

block_task_lem :
    (id t : ℕ) (b : Bool) (h : ℕ) (w : World)
    → (w.status t).lock ≡ false
    → Nested b h w.cpu
    → (c : Cpu) × (block_task id t w ≡ done (after_block w t c)) × Nested b h c
unfolding block_task
block_task_lem id t b h w free ok =
    let s = free-Section id b h w.cpu (w.status t) free ok in
    let f = s.frees (push_off w.cpu) s.nested in (f.0, rw (s.takes, f.1) refl, f.2)

joined : World → ℕ → Cpu → World
joined w t c =
    after_block
      (record w {
        sem = record w.sem {
          resource = (w.sem.resource + (2 ^ 32 - 1)) % 2 ^ 32;
          task_list = update w.sem.task_list w.sem.task_cnt t;
          task_cnt = w.sem.task_cnt + 1;
        };
      })
      t c

-- A task that is not blocked is no entry of the list.
not_listed :
    (w : World) (t i : ℕ)
    → Counts w
    → w.block t ≡ false
    → i < w.sem.task_cnt
    → w.sem.task_list i ≢ t
not_listed w t i c free_task lt e = cc (c.blocked i lt, ap w.block e, free_task)

joined_debt :
    (w : World)
    → Counts w
    → w.sem.resource ≢ 2 ^ 31
    → 2 ^ 31 ≤ (w.sem.resource + (2 ^ 32 - 1)) % 2 ^ 32
    → (w.sem.resource + (2 ^ 32 - 1)) % 2 ^ 32 + (w.sem.task_cnt + 1) ≡ 2 ^ 32
joined_debt w c least big = elim (Bool-cases (negative w.sem.resource)) [
  | inl y ↦ omega (arith, c.debt (leb→le _ _ y), leb→le _ _ y, c.int)
  | inr n ↦ omega (arith, c.nobody (leb→lt _ _ n), leb→lt _ _ n)
]

joined-Counts :
    (w : World) (t : ℕ) (c' : Cpu)
    → Counts w
    → w.block t ≡ false
    → w.sem.resource ≢ 2 ^ 31
    → 2 ^ 31 ≤ (w.sem.resource + (2 ^ 32 - 1)) % 2 ^ 32
    → Counts (joined w t c')
unfolding joined
joined-Counts w t c' c free_task least big = record {
  int = omega arith;
  nobody = λ small. absurd (omega arith);
  debt = λ h. joined_debt w c least big;
  blocked = λ i lt. elim (eq-cases w.sem.task_cnt i) [
    | inl y ↦ rw y.1 (update_self w.block t true)
    | inr n ↦ rw n.1 (
        update_ne w.block t (w.sem.task_list i) true
          (λ e. not_listed w t i c free_task (omega (arith, n.0)) (sym e))
        ∙ c.blocked i (omega (arith, n.0)))
  ];
  distinct = λ i j lt1 lt2 same. elim (eq-cases w.sem.task_cnt i) [
    | inl y ↦ elim (eq-cases w.sem.task_cnt j) [
      | inl z ↦ omega (arith, y.0, z.0)
      | inr m ↦
          absurd (not_listed w t j c free_task (omega (arith, m.0)) (sym (rw (y.1, m.1) at same)))
    ]
    | inr n ↦ elim (eq-cases w.sem.task_cnt j) [
      | inl z ↦ absurd (not_listed w t i c free_task (omega (arith, n.0)) (rw (n.1, z.1) at same))
      | inr m ↦ c.distinct i j (omega (arith, n.0)) (omega (arith, m.0)) (rw (n.1, m.1) at same)
    ]
  ];
}

-- A count above the smallest `int` that agrees with its list of fewer than K_MAX_TASK entries, and a
-- task that is not blocked and whose `status` is free: the critical section of `wait` ends; either
-- the count was above 0 and is one less, or it is below 0 and the task is the last of the list and
-- blocked; and the two agree again.
pub wait-Waited :
    (id t : ℕ) (b : Bool) (h : ℕ) (w : World)
    → w.sem.resource ≢ 2 ^ 31
    → w.sem.task_cnt < k_max_task
    → w.block t ≡ false
    → (w.status t).lock ≡ false
    → Nested b h w.cpu
    → Counts w
    → (w' : World) × (wait_body id (some t) w ≡ done w')
      × Waited t w w'
      × Nested b h w'.cpu
      × (w'.sem.lock ≡ w.sem.lock)
unfolding wait_body wait_in_list joined
wait-Waited id t b h w least few free_task free ok c =
    elim (Bool-cases (leb (2 ^ 31) ((w.sem.resource + (2 ^ 32 - 1)) % 2 ^ 32))) [
      | inr n ↦
          let small = leb→lt _ _ n in
          (
            record w { sem = record w.sem { resource = (w.sem.resource + (2 ^ 32 - 1)) % 2 ^ 32 } },
            rw n refl,
            record {
              counts = record {
                int = omega arith;
                nobody = λ h. c.nobody (omega (arith, small, least, c.int));
                debt = λ big. omega (arith, small);
                blocked = c.blocked;
                distinct = c.distinct;
              };
              case = inl (
                omega (arith, small, c.int),
                omega (arith, small, c.int, least),
                c.nobody (omega (arith, small, least, c.int)),
              );
            },
            ok,
            refl,
          )
      | inl y ↦
          let w1 = record w {
            sem = record w.sem {
              resource = (w.sem.resource + (2 ^ 32 - 1)) % 2 ^ 32;
              task_list = update w.sem.task_list w.sem.task_cnt t;
              task_cnt = w.sem.task_cnt + 1;
            };
          } in
          let bl = block_task_lem id t b h w1 free ok in
          (
            joined w t bl.0,
            rw (y, lt→ltb _ _ few, bl.1) refl,
            record {
              counts = joined-Counts w t bl.0 c free_task least (leb→le _ _ y);
              case = inr (
                leb→le _ _ y,
                refl,
                update_self w.sem.task_list w.sem.task_cnt t,
                update_self w.block t true,
              );
            },
            bl.2,
            refl,
          )
    ]
