-- ===== src/Buddy.antt =====
-- kernel/src/tbma.c and kernel/include/cbma.h: the buddy allocator of whole pages. Each 16 MB area
-- has a binary tree of 8191 bytes, kept in an array from index 1: a node holds the exponent of the
-- largest block that is free below it, 0 where its whole block is handed out, or 1 (below).
-- A pointer is its address, NULL is `none`; `tree[i]` is `tree.node i`. Index 24 - 11 of
-- `calculate_addr_helper` lies outside that array: reading it is a `panic` of the model.
pub mod Blocks
pub mod Spot
pub mod Rep
pub mod Alloc
pub mod Free
pub mod System
pub mod Locks
pub mod State
pub mod Service
pub mod Release
pub mod Apart
pub mod Tests
pub mod Init
use jyy_os.Prelude.{
  ℕ, zero, suc, ◌+◌, ◌-◌, ◌*◌, ◌/◌, ◌%◌, ◌^◌, Bool, true, false, not, ◌&&◌, ◌||◌, if◌then◌else◌,
  ltb, leb, ◌==◌, Option, none, some, List, [], ◌∷◌, get_elem?, update, Outcome, done, panic,
  assert, ◌>>=◌, ◌>>◌,
}
use jyy_os.Align.{wrap64, sub64}

-- `enum BLOCK_SIZE_`, as the exponents that its constants are
abbrev pub s_4k : ℕ
s_4k = 12

abbrev pub s_16m : ℕ
s_16m = 24

abbrev pub bbma_refuse : ℕ
bbma_refuse = 25

abbrev pub full_used : ℕ
full_used = 0

abbrev pub get_departed : ℕ
get_departed = 1

abbrev pub max_node : ℕ
max_node = 8192

unfoldable pub determine_bbma_size : ℕ → ℕ
determine_bbma_size size =
    if leb size (2 ^ 12)
    then 12
    else if leb size (2 ^ 13)
    then 13
    else if leb size (2 ^ 14)
    then 14
    else if leb size (2 ^ 15)
    then 15
    else if leb size (2 ^ 16)
    then 16
    else if leb size (2 ^ 17)
    then 17
    else if leb size (2 ^ 18)
    then 18
    else if leb size (2 ^ 19)
    then 19
    else if leb size (2 ^ 20)
    then 20
    else if leb size (2 ^ 21)
    then 21
    else if leb size (2 ^ 22)
    then 22
    else if leb size (2 ^ 23)
    then 23
    else if leb size (2 ^ 24)
    then 24
    else bbma_refuse

abbrev pub calculate_addr_helper : List ℕ
calculate_addr_helper = 1 ∷ 2 ∷ 4 ∷ 8 ∷ 16 ∷ 32 ∷ 64 ∷ 128 ∷ 256 ∷ 512 ∷ 1024 ∷ 2048 ∷ 4096 ∷ []

-- `Tree`: the address of the node array, and its bytes.
pub record Tree : Type 0 where
  pub addr : ℕ
  pub node : ℕ → ℕ

-- `real_start_addr` and `begin_alloc_addr`, set once by `bbma_init`
pub record Area : Type 0 where
  pub real_start_addr : ℕ
  pub begin_alloc_addr : ℕ

abbrev pub left_child : ℕ → ℕ
left_child index = index * 2

abbrev pub right_child : ℕ → ℕ
right_child index = index * 2 + 1

abbrev pub addr_helper : ℕ → Outcome ℕ
addr_helper i = elim (get_elem? calculate_addr_helper i) [ none ↦ panic | some h ↦ done h ]

-- `tree_gap << S_16M` is an int in the source: at most 31 trees before the one at hand, so it fits.
unfoldable pub convert_index_to_addr : Area → Tree → ℕ → ℕ → Outcome ℕ
convert_index_to_addr area tree index cur_size = do
  assert (leb index max_node)
  assert (not (cur_size == bbma_refuse))
  let tree_gap = sub64 tree.addr area.real_start_addr / max_node
  let real_mem_start = wrap64 (area.begin_alloc_addr + tree_gap * 2 ^ s_16m)
  h ← addr_helper (s_16m - cur_size)
  done (wrap64 (real_mem_start + wrap64 (sub64 index h * 2 ^ cur_size)))

abbrev pub write_node : Tree → ℕ → ℕ → Tree
write_node tree index v = record tree { node = update tree.node index v }

-- `a >= b ? a : b`
abbrev pub larger : ℕ → ℕ → ℕ
larger a b = if leb b a then a else b

-- What `get_the_free_space_in_tree` stores in a node after a block below it was handed out.
abbrev pub after_alloc : Tree → ℕ → ℕ → ℕ
after_alloc tree index req_size =
    if tree.node index == req_size
    then get_departed
    else larger (tree.node (left_child index)) (tree.node (right_child index))

abbrev pub chosen_child : Tree → ℕ → ℕ → ℕ
chosen_child tree index req_size =
    if leb req_size (tree.node (left_child index)) then left_child index else right_child index

-- The part of `get_the_free_space_in_tree` for a block of just the size that is asked for.
unfoldable pub take_whole : Area → Tree → ℕ → ℕ → ℕ → Outcome (Option ℕ × Tree)
take_whole area tree index cur_size req_size =
    if tree.node index == req_size
    then (do
      ptr ← convert_index_to_addr area tree index cur_size
      done (some ptr, write_node tree index full_used))
    else done (none, tree)

-- The part after the recursive call, which has returned the pointer and the tree `r`.
unfoldable pub close_node : ℕ → ℕ → Option ℕ × Tree → Option ℕ × Tree
close_node index req_size (none, tree) = (none, tree)
close_node index req_size (some ptr, tree) =
    (some ptr, write_node tree index (after_alloc tree index req_size))

-- One call of `get_the_free_space_in_tree`; `descend` is the recursive call, with `cur_size - 1`
-- and all but the index given.
unfoldable pub free_space_node :
    Area → Tree → ℕ → ℕ → ℕ → (ℕ → Outcome (Option ℕ × Tree)) → Outcome (Option ℕ × Tree)
unfolding take_whole close_node
free_space_node area tree index cur_size req_size descend = do
  assert (not (req_size == bbma_refuse))
  assert (leb req_size cur_size)
  assert (leb (tree.node index) cur_size)
  assert (leb req_size (tree.node index))
  if ltb (tree.node index) req_size
      then done (none, tree)
      else if cur_size == req_size
      then take_whole area tree index cur_size req_size
      else (descend (chosen_child tree index req_size) >>= λ r. done (close_node index req_size r))

unfoldable pub get_the_free_space_in_tree : Area → Tree → ℕ → ℕ → ℕ → Outcome (Option ℕ × Tree)
unfolding free_space_node
get_the_free_space_in_tree area tree index zero req_size =
    free_space_node area tree index 0 req_size (λ _. panic)
get_the_free_space_in_tree area tree index (suc below) req_size =
    free_space_node area tree index (suc below) req_size
      (λ child. get_the_free_space_in_tree area tree child below req_size)

-- What `free_tree_ptr` stores in a node after a block below it was given back.
abbrev pub after_free : Tree → ℕ → ℕ → ℕ
after_free tree index cur_size =
    if tree.node (left_child index) == cur_size - 1 && tree.node (right_child index) == cur_size - 1
    then cur_size
    else larger (tree.node (left_child index)) (tree.node (right_child index))

-- The end of `free_tree_ptr`, with the tree that the recursive call left.
unfoldable pub merge_node : ℕ → ℕ → Tree → Outcome Tree
merge_node index cur_size tree = do
  let v = after_free tree index cur_size
  assert (not (v == get_departed))
  assert (not (v == full_used))
  done (write_node tree index v)

-- The half in which `free_tree_ptr` goes on: the left one for a pointer to the block itself.
abbrev pub half_of : ℕ → ℕ → ℕ → ℕ → ℕ
half_of index ptr cur_size cur_addr =
    if cur_addr == ptr || ltb ptr (cur_addr + 2 ^ (cur_size - 1))
    then left_child index
    else right_child index

-- One call of `free_tree_ptr`; `descend` is the recursive call, with `ptr` and `cur_size - 1` given.
unfoldable pub free_node : Area → Tree → ℕ → ℕ → ℕ → (ℕ → Outcome Tree) → Outcome Tree
unfolding merge_node
free_node area tree index ptr cur_size descend = do
  assert (leb index max_node)
  assert (leb (tree.node index) cur_size)
  cur_addr ← convert_index_to_addr area tree index cur_size
  assert (leb cur_addr ptr)
  if cur_addr == ptr && tree.node index == full_used
      then done (write_node tree index cur_size)
      else (descend (half_of index ptr cur_size cur_addr) >>= merge_node index cur_size)

-- The memory of other levels than 12 to 24 is outside `calculate_addr_helper`, so no call is made
-- from `cur_size` 0.
unfoldable pub free_tree_ptr : Area → Tree → ℕ → ℕ → ℕ → Outcome Tree
unfolding free_node
free_tree_ptr area tree index ptr zero = free_node area tree index ptr 0 (λ _. panic)
free_tree_ptr area tree index ptr (suc below) =
    free_node area tree index ptr (suc below) (λ child. free_tree_ptr area tree child ptr below)
