-- ===== src/Buddy/Init.antt =====
-- kernel/src/tbma.c: `bbma_init`, with `initialize_tree` and `distribute_tree`.
pub mod Fresh
pub mod Loop
use jyy_os.Prelude.{
  ℕ, zero, suc, ◌+◌, ◌-◌, ◌*◌, ◌/◌, ◌%◌, ◌^◌, if◌then◌else◌, ltb, leb, ◌==◌, Option, some, update,
  Outcome, done, panic, ◌>>=◌, ◌>>◌,
}
use jyy_os.Buddy.{Area, addr_helper, max_node, s_16m}
use jyy_os.Buddy.System.{Bbma, max_tree}

-- The inner loop of `initialize_tree`: `n` entries from index `i` on.
unfoldable pub fill : ℕ → ℕ → ℕ → (ℕ → ℕ) → ℕ → ℕ
fill zero i v t = t
fill (suc n) i v t = fill n (i + 1) v (update t i v)

-- Its outer loop, from level `i` on with `n` levels left; the last one ends at 8192.
unfoldable pub fill_levels : ℕ → ℕ → ℕ → (ℕ → ℕ) → Outcome (ℕ → ℕ)
fill_levels zero i cur_size t = done t
fill_levels (suc n) i cur_size t = do
  cur_stand ← addr_helper i
  next_stand ← (if i == 12 then done 8192 else addr_helper (i + 1))
  fill_levels n (i + 1) (cur_size - 1) (fill (next_stand - cur_stand) cur_stand cur_size t)

unfoldable pub initialize_tree : (ℕ → ℕ) → Outcome (ℕ → ℕ)
initialize_tree t = fill_levels 13 0 s_16m t

-- The loop of `bbma_init`, with fuel; `memory` is what the node arrays hold before.
unfoldable pub init_trees : ℕ → (ℕ → ℕ → ℕ) → ℕ → ℕ → ℕ → ℕ → Bbma → Outcome (ℕ × Bbma)
init_trees zero memory end_addr cur_tree_addr cur_mem_addr tree_cnt s = panic
init_trees (suc fuel) memory end_addr cur_tree_addr cur_mem_addr tree_cnt s =
    if leb (cur_mem_addr + 2 ^ s_16m) end_addr
    then (if ltb max_tree tree_cnt then panic else (do
      nodes ← initialize_tree (memory cur_tree_addr)
      init_trees fuel memory end_addr (cur_tree_addr + max_node) (cur_mem_addr + 2 ^ s_16m)
          (tree_cnt + 1)
          (record s {
            all_trees =
                update s.all_trees tree_cnt (some (record { addr = cur_tree_addr; node = nodes }));
          })))
    else done (tree_cnt, s)

-- The inner loop of `distribute_tree`: `n` trees for one processor, from entry `t` on.
unfoldable pub give_trees : ℕ → ℕ → ℕ → (ℕ → ℕ) → ℕ → ℕ
give_trees zero t cur_tree mine = mine
give_trees (suc n) t cur_tree mine = give_trees n (t + 1) (cur_tree + 1) (update mine t cur_tree)

-- Its outer loop, from processor `i` on with `n` processors left.
unfoldable pub give_cpus : ℕ → ℕ → ℕ → ℕ → ℕ → (ℕ → ℕ → ℕ) → ℕ → ℕ → ℕ
give_cpus zero i normal_num extra_num cur_tree cpu_trees = cpu_trees
give_cpus (suc n) i normal_num extra_num cur_tree cpu_trees =
    let mine = give_trees normal_num 0 cur_tree (cpu_trees i) in
    let next_tree = cur_tree + normal_num in
    give_cpus n (i + 1) normal_num (extra_num - 1)
      (if ltb 0 extra_num then next_tree + 1 else next_tree)
      (update cpu_trees i (if ltb 0 extra_num then update mine normal_num next_tree else mine))

unfoldable pub distribute_tree : ℕ → ℕ → Bbma → Outcome Bbma
distribute_tree cpu_count tree_count s =
    if cpu_count == 0
    then panic
    else done (record s {
      cpu_trees =
          give_cpus cpu_count 0 (tree_count / cpu_count) (tree_count % cpu_count) 1 s.cpu_trees;
    })

unfoldable pub bbma_init : ℕ → (ℕ → ℕ → ℕ) → ℕ → ℕ → Bbma → Outcome Bbma
bbma_init cpu_count memory start end_addr s = do
  let area : Area = record { real_start_addr = start; begin_alloc_addr = start + 2 ^ s_16m }
  r ←
      init_trees (end_addr / 2 ^ s_16m + 1) memory end_addr start (start + 2 ^ s_16m) 1
        (record s { area = area })
  distribute_tree cpu_count r.0 (record r.1 { tree_num = r.0 - 1 })
