-- ===== src/Buddy/System.antt =====
-- kernel/src/tbma.c: all trees together, with their locks: `find_available_tree`, `bbma_alloc`,
-- `bbma_free`, `bbma_init` and what they call. A lock is the int that `atomic_xchg` swaps; a call
-- runs against the locks that other processors hold at its start, and `spin_lock` on a lock that is
-- held is `stuck`. `all_trees` and `tree_locks` have 33 entries: an index past them is a `panic`.
use jyy_os.Prelude.{
  ℕ, zero, suc, ◌+◌, ◌-◌, ◌/◌, ◌%◌, ◌^◌, Bool, not, if◌then◌else◌, ltb, leb, ◌==◌, Option, none,
  some, update, Outcome, done, panic, stuck, assert, ◌>>=◌, ◌>>◌,
}
use jyy_os.Align.{sub64, is_align_to}
use jyy_os.Buddy.{
  Tree, Area, determine_bbma_size, get_the_free_space_in_tree, free_tree_ptr, bbma_refuse, s_16m,
}

abbrev pub max_tree : ℕ
max_tree = 32

-- The globals of tbma.c.
pub record Bbma : Type 0 where
  pub area : Area
  pub open area use *
  pub tree_num : ℕ
  pub all_trees : ℕ → Option Tree
  pub tree_locks : ℕ → ℕ
  pub cpu_trees : ℕ → ℕ → ℕ

-- `try_lock` and `spin_unlock` of lock.c: an exchange with 1 and with 0.
abbrev pub try_lock : (ℕ → ℕ) → ℕ → Bool × (ℕ → ℕ)
try_lock locks i = (locks i == 0, update locks i 1)

abbrev pub unlock : Bbma → ℕ → Bbma
unlock s i = record s { tree_locks = update s.tree_locks i 0 }

abbrev pub tree_at : Bbma → ℕ → Outcome Tree
tree_at s i =
    if ltb max_tree i then panic else elim (s.all_trees i) [ none ↦ panic | some t ↦ done t ]

-- The loop of `find_available_tree` from tree `i` on, with `n` trees left; `none` is -1.
unfoldable pub find_available_from : ℕ → ℕ → ℕ → Bbma → Outcome (Option ℕ × Bbma)
find_available_from bbma_size i zero s = done (none, s)
find_available_from bbma_size i (suc n) s =
    let (free_lock, locks) = try_lock s.tree_locks i in
    let taken = record s { tree_locks = locks } in
    let on = find_available_from bbma_size (i + 1) n taken in
    let unlocked = find_available_from bbma_size (i + 1) n (unlock taken i) in
    if free_lock
    then (tree_at s i >>= λ tree.
        if ltb (tree.node 1) bbma_size then unlocked else done (some i, taken))
    else on

unfoldable pub find_available_tree : Bbma → ℕ → Outcome (Option ℕ × Bbma)
find_available_tree s bbma_size = find_available_from bbma_size 1 s.tree_num s

-- The part of `find_the_free_space_in_bbma_system` with the tree found and locked.
unfoldable pub take_from : Bbma → ℕ → ℕ → Outcome (Option ℕ × Bbma)
take_from s bbma_size i = do
  assert (leb i s.tree_num)
  tree ← tree_at s i
  assert (leb bbma_size (tree.node 1))
  r ← get_the_free_space_in_tree s.area tree 1 s_16m bbma_size
  done (r.0, unlock (record s { all_trees = update s.all_trees i (some r.1) }) i)

unfoldable pub take_found : ℕ → Option ℕ × Bbma → Outcome (Option ℕ × Bbma)
take_found bbma_size (none, s) = done (none, s)
take_found bbma_size (some i, s) = take_from s bbma_size i

unfoldable pub find_the_free_space_in_bbma_system : Bbma → ℕ → Outcome (Option ℕ × Bbma)
find_the_free_space_in_bbma_system s bbma_size = do
  assert (not (bbma_size == bbma_refuse))
  find_available_tree s bbma_size >>= take_found bbma_size

-- NULL is aligned to everything.
unfoldable pub check_aligned : Option ℕ → ℕ → Outcome (Unit {0})
check_aligned none bbma_size = done tt
check_aligned (some p) bbma_size = do aligned ← is_align_to p bbma_size; assert aligned

unfoldable pub bbma_alloc : Bbma → ℕ → Outcome (Option ℕ × Bbma)
bbma_alloc s size = if determine_bbma_size size == bbma_refuse then done (none, s) else (do
  r ← find_the_free_space_in_bbma_system s (determine_bbma_size size)
  check_aligned r.0 (determine_bbma_size size)
  done r)

unfoldable pub determine_which_tree : Area → ℕ → Outcome ℕ
determine_which_tree area ptr = do
  assert (ltb area.begin_alloc_addr ptr)
  let mem_begin = ptr - ptr % 2 ^ s_16m
  done (sub64 mem_begin area.begin_alloc_addr / 2 ^ s_16m + 1)

unfoldable pub bbma_free : Bbma → Option ℕ → Outcome Bbma
bbma_free s none = done s
bbma_free s (some ptr) = do
  i ← determine_which_tree s.area ptr
  tree ← tree_at s i
  if not (s.tree_locks i == 0) then stuck else (do
    tree' ← free_tree_ptr s.area tree 1 ptr s_16m
    done (
        unlock
          (record s {
            all_trees = update s.all_trees i (some tree');
            tree_locks = update s.tree_locks i 1;
          })
          i))
