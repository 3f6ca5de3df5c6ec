-- ===== src/Kmt/Sem/Waiters.antt =====
-- Semaphores count right, and their lists hold the blocked tasks.
use jyy_os.Prelude.{
  ℕ, ◌+◌, ◌-◌, ◌%◌, ◌^◌, ◌≤◌, ◌<◌, ◌≡◌, ◌≢◌, ◌⊎◌, inl, inr, refl, sym, ◌∙◌, ap, true, false, ◌||◌,
  ltb, ◌==◌, done, update, arith, eq-cases, Bool-cases, leb→le, leb→lt, ltb→lt, ltb→le, update_self,
  update_ne,
}
use native.Mathlib.Nat.{mod-lt}
use jyy_os.Kmt.Sem.{World, negative, signal_body}

-- The count of a semaphore and its list agree: with a count of 0 or more nobody waits, with -n the
-- first n entries of the list do; they are different tasks, all blocked.
pub record Counts (w : World) : Type 0 where
  pub int : w.sem.resource < 2 ^ 32
  pub nobody : w.sem.resource < 2 ^ 31 → w.sem.task_cnt ≡ 0
  pub debt : 2 ^ 31 ≤ w.sem.resource → w.sem.resource + w.sem.task_cnt ≡ 2 ^ 32
  pub blocked : (i : ℕ) → i < w.sem.task_cnt → w.block (w.sem.task_list i) ≡ true
  pub distinct :
      (i j : ℕ)
      → i < w.sem.task_cnt
      → j < w.sem.task_cnt
      → w.sem.task_list i ≡ w.sem.task_list j
      → i ≡ j

-- The effect of `wait` on the two: the count goes down, and a task that finds nothing joins the list.
pub record Waited (t : ℕ) (w w' : World) : Type 0 where
  pub counts : Counts w'
  pub case :
      ((0 < w.sem.resource) × (w'.sem.resource + 1 ≡ w.sem.resource) × (w'.sem.task_cnt ≡ 0))
      ⊎ ((2 ^ 31 ≤ w'.sem.resource)
          × (w'.sem.task_cnt ≡ w.sem.task_cnt + 1)
          × (w'.sem.task_list w.sem.task_cnt ≡ t)
          × (w'.block t ≡ true))

-- The effect of `signal`: the count goes up, and if a task waits, one of them is no longer blocked
-- and no longer in the list.
pub record Signalled (w w' : World) : Type 0 where
  pub counts : Counts w'
  pub case :
      ((w.sem.task_cnt ≡ 0) × (w'.sem.resource ≡ w.sem.resource + 1))
      ⊎ ((k : ℕ) × (k < w.sem.task_cnt)
          × (w'.sem.task_cnt + 1 ≡ w.sem.task_cnt)
          × (w'.block (w.sem.task_list k) ≡ false)
          × ((i : ℕ) → i < w'.sem.task_cnt → w'.sem.task_list i ≢ w.sem.task_list k))

-- Entry `i` after the last of `suc n` entries has taken the place of entry `k`.
swap :
    (list : ℕ → ℕ) (k n i : ℕ)
    → i < n
    → k ≤ n
    → (m : ℕ) × (m ≤ n)
      × (m ≢ k)
      × (update list k (list n) i ≡ list m)
      × (((k ≡ i) × (m ≡ n)) ⊎ ((k ≢ i) × (m ≡ i)))
swap list k n i lt h = elim (eq-cases k i) [
  | inl y ↦ (n, omega arith, omega (arith, y.0), rw y.1 refl, inl (y.0, refl))
  | inr ne ↦ (i, omega arith, λ e. ne.0 (omega arith), rw ne.1 refl, inr (ne.0, refl))
]

swap-inj :
    (k n i j a b : ℕ)
    → i < n
    → j < n
    → ((k ≡ i) × (a ≡ n)) ⊎ ((k ≢ i) × (a ≡ i))
    → ((k ≡ j) × (b ≡ n)) ⊎ ((k ≢ j) × (b ≡ j))
    → a ≡ b
    → i ≡ j
swap-inj k n i j a b l1 l2 (inl x) (inl y) e = omega (arith, x.0, y.0)
swap-inj k n i j a b l1 l2 (inl x) (inr y) e = omega (arith, x.1, y.1)
swap-inj k n i j a b l1 l2 (inr x) (inl y) e = omega (arith, x.1, y.1)
swap-inj k n i j a b l1 l2 (inr x) (inr y) e = omega (arith, x.1, y.1)

-- With a waiting task the count is below 0.
in_debt :
    (w : World)
    → Counts w
    → 0 < w.sem.task_cnt
    → (2 ^ 31 ≤ w.sem.resource) × (w.sem.resource + w.sem.task_cnt ≡ 2 ^ 32)
in_debt w c pos = elim (Bool-cases (negative w.sem.resource)) [
  | inl y ↦ (leb→le _ _ y, c.debt (leb→le _ _ y))
  | inr n ↦ absurd (omega (arith, c.nobody (leb→lt _ _ n)))
]

wake :
    (w : World) (k : ℕ) (resource : ℕ)
    → Counts w
    → k < w.sem.task_cnt
    → resource ≡ (w.sem.resource + 1) % 2 ^ 32
    → Signalled w (record w {
      block = update w.block (w.sem.task_list k) false;
      sem = record w.sem {
        resource = resource;
        task_cnt = w.sem.task_cnt - 1;
        task_list = update w.sem.task_list k (w.sem.task_list (w.sem.task_cnt - 1));
      };
    })
wake w k resource c h e =
    let n = w.sem.task_cnt - 1 in
    let all = in_debt w c (omega arith) in
    let moved = λ (i : ℕ) (lt : i < n). swap w.sem.task_list k n i lt (omega arith) in
    let gone : (i : ℕ)
        → i < n
        → update w.sem.task_list k (w.sem.task_list n) i ≢ w.sem.task_list k =
      λ i lt same.
        let m = moved i lt in m.2 (c.distinct m.0 k (omega (arith, m.1)) h (sym m.3 ∙ same)) in
    record {
      counts = record {
        int = omega arith;
        nobody = λ small. omega (arith, all.0, all.1);
        debt = λ big. omega (arith, all.0, all.1);
        blocked = λ i lt.
            let m = moved i lt in
            update_ne w.block (w.sem.task_list k) _ false (λ same. gone i lt (sym same))
            ∙ ap w.block m.3
            ∙ c.blocked m.0 (omega (arith, m.1));
        distinct = λ i j lt1 lt2 same.
            let a = moved i lt1 in
            let b = moved j lt2 in
            swap-inj k n i j a.0 b.0 lt1 lt2 a.4 b.4
              (c.distinct a.0 b.0 (omega (arith, a.1)) (omega (arith, b.1)) (sym a.3 ∙ same ∙ b.3));
      };
      case = inr (k, h, omega arith, update_self w.block (w.sem.task_list k) false, gone);
    }

-- With nobody waiting the count is not below 0.
pub no_debt : (w : World) → Counts w → w.sem.task_cnt ≡ 0 → w.sem.resource < 2 ^ 31
no_debt w c e = elim (Bool-cases (negative w.sem.resource)) [
  | inl y ↦ absurd (omega (arith, c.debt (leb→le _ _ y), c.int))
  | inr n ↦ leb→lt _ _ n
]

-- A count below the largest `int` that agrees with its list: the critical section of `signal` ends,
-- with one waiting task, if there is any, taken from the list and no longer blocked, and the two
-- agree again.
pub signal-Signalled :
    (rand : ℕ) (w : World)
    → w.sem.resource ≢ 2 ^ 31 - 1
    → Counts w
    → (w' : World) × (signal_body rand w ≡ done w')
      × Signalled w w'
      × (w'.cpu ≡ w.cpu)
      × (w'.sem.lock ≡ w.sem.lock)
unfolding signal_body
signal-Signalled rand w room c = elim (Bool-cases (ltb 0 w.sem.task_cnt)) [
  | inl y ↦
      let pos = ltb→lt _ _ y in
      let all = in_debt w c pos in
      let k = rand % w.sem.task_cnt in
      let low : ((((w.sem.resource + 1) % 2 ^ 32) == 0) || negative ((w.sem.resource + 1) % 2 ^ 32))
          ≡ true =
        ground (arith, all.0, all.1, c.int) in
      (
        record w {
          block = update w.block (w.sem.task_list k) false;
          sem = record w.sem {
            resource = (w.sem.resource + 1) % 2 ^ 32;
            task_cnt = w.sem.task_cnt - 1;
            task_list = update w.sem.task_list k (w.sem.task_list (w.sem.task_cnt - 1));
          };
        },
        rw (low, y) refl,
        wake w k _ c (mod-lt rand pos) refl,
        refl,
        refl,
      )
  | inr n ↦
      let none_wait : w.sem.task_cnt ≡ 0 = omega (arith, ltb→le _ _ n) in
      let small : w.sem.resource < 2 ^ 31 = no_debt w c none_wait in
      let up : (w.sem.resource + 1) % 2 ^ 32 ≡ w.sem.resource + 1 = omega (arith, small) in
      let high : ((((w.sem.resource + 1) % 2 ^ 32) == 0)
            || negative ((w.sem.resource + 1) % 2 ^ 32))
          ≡ false =
        rw up (ground (arith, small, room)) in
      (
        record w { sem = record w.sem { resource = (w.sem.resource + 1) % 2 ^ 32 } },
        rw high refl,
        record {
          counts = record {
            int = omega arith;
            nobody = λ h. none_wait;
            debt = λ big. omega (arith, small, room);
            blocked = c.blocked;
            distinct = c.distinct;
          };
          case = inl (none_wait, up);
        },
        refl,
        refl,
      )
]
