-- ===== src/Buddy/Locks.antt =====
-- `find_available_tree` of tbma.c: the first unlocked tree with room, locked; or none, and no lock
-- changed.
use mathlib.Core.Path.{fun_ext, subst}
use jyy_os.Prelude.{
  ℕ, zero, suc, ◌+◌, ◌≤◌, ◌<◌, ◌≡◌, ◌⊎◌, inl, inr, none, some, update, done, arith, ltb, ltb→lt,
  ltb→le, le→ltb, lt→ltb, Bool-cases, ◌∙◌, refl, true, false,
}
use native.Mathlib.Decide.{ℕ_discrete}
use jyy_os.Buddy.{Tree}
use jyy_os.Buddy.System.{Bbma, find_available_from, max_tree}

-- Tree `i`, as `all_trees[i]` holds it.
abbrev pub Holds : Bbma → ℕ → Tree → Type 0
Holds s i tree = s.all_trees i ≡ some tree

abbrev pub lock : Bbma → ℕ → Bbma
lock s i = record s { tree_locks = update s.tree_locks i 1 }

-- `find_available_tree` passes tree `j` by: it is locked, or has no room.
abbrev pub Skipped : ℕ → Bbma → ℕ → Type 0
Skipped size s j = (s.tree_locks j ≡ 0 → (tree : Tree) → Holds s j tree → tree.node 1 < size)

-- What the loop finds among the trees from `lo` up to `hi`.
pub record Found (size lo hi : ℕ) (s : Bbma) (i : ℕ) : Type 0 where
  pub above : lo ≤ i
  pub below : i < hi
  pub unlocked : s.tree_locks i ≡ 0
  pub tree : Tree
  pub holds : Holds s i tree
  pub room : size ≤ tree.node 1

pub record Trees (lo hi : ℕ) (s : Bbma) : Type 0 where
  pub few : hi ≤ max_tree + 1
  pub holds : (j : ℕ) → lo ≤ j → j < hi → (tree : Tree) × Holds s j tree
  pub binary : (j : ℕ) → s.tree_locks j ≤ 1

pub relock : (l : ℕ → ℕ) (i : ℕ) → l i ≡ 0 → update (update l i 1) i 0 ≡ l
relock l i e = fun_ext λ j. ground arith

held : (l : ℕ → ℕ) (i : ℕ) → l i ≡ 1 → update l i 1 ≡ l
held l i e = fun_ext λ j. ground arith

module _ (size n lo : ℕ) (s : Bbma) where
  step_found :
      (tree : Tree)
      → lo ≤ max_tree
      → s.tree_locks lo ≡ 0
      → Holds s lo tree
      → size ≤ tree.node 1
      → find_available_from size lo (suc n) s ≡ done (some lo, lock s lo)
  unfolding find_available_from
  step_found tree few free_lock here room = rw (free_lock, here) (ground arith)

  step_full :
      (tree : Tree)
      → lo ≤ max_tree
      → s.tree_locks lo ≡ 0
      → Holds s lo tree
      → tree.node 1 < size
      → find_available_from size lo (suc n) s ≡ find_available_from size (lo + 1) n s
  unfolding find_available_from
  step_full tree few free_lock here full = rw (
    free_lock,
    here,
    le→ltb max_tree lo few,
    lt→ltb (tree.node 1) size full,
    relock s.tree_locks lo free_lock,
  )

  step_held :
      s.tree_locks lo ≡ 1
      → find_available_from size lo (suc n) s ≡ find_available_from size (lo + 1) n s
  unfolding find_available_from
  step_held is_held = rw (held s.tree_locks lo is_held, is_held)

unfoldable pub Outcomes : (size n lo hi : ℕ) (s : Bbma) → Type 0
Outcomes size n lo hi s =
    ((i : ℕ) × Found size lo hi s i × (find_available_from size lo n s ≡ done (some i, lock s i)))
    ⊎ (((j : ℕ) → lo ≤ j → j < hi → Skipped size s j)
        × (find_available_from size lo n s ≡ done (none, s)))

-- A tree that is passed by leaves the search to the others.
search_on :
    (size n lo hi : ℕ) (s : Bbma)
    → Skipped size s lo
    → find_available_from size lo (suc n) s ≡ find_available_from size (lo + 1) n s
    → Outcomes size n (lo + 1) hi s
    → Outcomes size (suc n) lo hi s
unfolding Outcomes
search_on size n lo hi s skipped step (inl (i, f, e)) = inl (
  i,
  record {
    above = omega (arith, f.above);
    below = f.below;
    unlocked = f.unlocked;
    tree = f.tree;
    holds = f.holds;
    room = f.room;
  },
  step ∙ e,
)
search_on size n lo hi s skipped step (inr (all_skipped, e)) = inr (
  (λ j p q. elim (ℕ_discrete lo j) [
    | yes x ↦ subst (Skipped size s) x skipped
    | no x ↦ all_skipped j (omega arith) q
  ]),
  step ∙ e,
)

module _ (size n lo hi : ℕ) (s : Bbma) (e : lo + suc n ≡ hi) (ts : Trees lo hi s)
    (rest : Outcomes size n (lo + 1) hi s) where
  -- The step at a tree whose lock is free.
  search_here :
      (tree : Tree)
      → Holds s lo tree
      → s.tree_locks lo ≡ 0
      → (ltb (tree.node 1) size ≡ true) ⊎ (ltb (tree.node 1) size ≡ false)
      → Outcomes size (suc n) lo hi s
  unfolding Outcomes
  search_here tree here free_lock (inl full) =
      search_on size n lo hi s
        (λ _ other same.
          let q : tree ≡ other = cc in subst (λ t. t.node 1 < size) q (ltb→lt _ _ full))
        (step_full size n lo s tree (omega (arith, ts.few)) free_lock here (ltb→lt _ _ full)) rest
  search_here tree here free_lock (inr room) = inl (
    lo,
    record {
      above = omega arith;
      below = omega arith;
      unlocked = free_lock;
      tree = tree;
      holds = here;
      room = ltb→le _ _ room;
    },
    step_found size n lo s tree (omega (arith, ts.few)) free_lock here (ltb→le _ _ room),
  )

  search_step : Outcomes size (suc n) lo hi s
  search_step = elim (ℕ_discrete (s.tree_locks lo) 0) [
    | yes free_lock ↦
        let (tree, here) = ts.holds lo (omega arith) (omega arith) in
        search_here tree here free_lock (Bool-cases _)
    | no taken ↦
        search_on size n lo hi s (λ free_lock. absurd (taken free_lock))
          (step_held size n lo s (omega (arith, ts.binary lo))) rest
  ]

Trees-next : {lo hi : ℕ} {s : Bbma} → Trees lo hi s → Trees (lo + 1) hi s
Trees-next ts = record {
  few = ts.few;
  holds = λ j p q. ts.holds j (omega arith) q;
  binary = ts.binary;
}

-- The loop ends with the first unlocked tree that has room, or with none when it has passed by all.
pub find-Outcomes :
    (size n lo hi : ℕ) (s : Bbma) → lo + n ≡ hi → Trees lo hi s → Outcomes size n lo hi s
unfolding Outcomes find_available_from
find-Outcomes size zero lo hi s e ts = inr ((λ j p q. absurd (omega arith)), refl)
find-Outcomes size (suc n) lo hi s e ts =
    search_step size n lo hi s e ts
      (find-Outcomes size n (lo + 1) hi s (omega arith) (Trees-next ts))
