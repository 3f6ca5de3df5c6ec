-- ===== src/Buddy/State.antt =====
-- The allocator of tbma.c between two calls: what its trees and locks stand for.
use mathlib.Core.Path.{subst}
use native.Mathlib.Decide.{ℕ_discrete}
use jyy_os.Prelude.{
  ℕ, ◌+◌, ◌-◌, ◌*◌, ◌^◌, ◌≤◌, ◌≡◌, some, update, update_self, update_ne, arith, ◌∙◌, sym, ap,
}
use jyy_os.Buddy.{Tree, determine_bbma_size}
use jyy_os.Buddy.System.{Bbma, max_tree}
use jyy_os.Buddy.Blocks.{Block, AlignedTo}
use jyy_os.Buddy.Spot.{mem_of}
use jyy_os.Buddy.Rep.{Rep}
use jyy_os.Buddy.Locks.{Holds}

-- The first address of the area of tree `i`.
abbrev pub area_of : Bbma → ℕ → ℕ
area_of s i = s.begin_alloc_addr + (i - 1) * 2 ^ 24

pub record TreeAt (s : Bbma) (i : ℕ) (b : Block) : Type 0 where
  pub tree : Tree
  pub holds : Holds s i tree
  pub rep : Rep tree.node 1 12 b
  pub place : mem_of s.area tree ≡ area_of s i

-- The allocator between two calls: tree `i` stands for the block `blocks i`.
pub record Ready (s : Bbma) (blocks : ℕ → Block) : Type 0 where
  pub few : s.tree_num ≤ max_tree
  pub binary : (j : ℕ) → s.tree_locks j ≤ 1
  pub start : AlignedTo s.begin_alloc_addr 24
  pub fits : s.begin_alloc_addr + s.tree_num * 2 ^ 24 ≤ 2 ^ 64
  pub trees : (j : ℕ) → 1 ≤ j → j ≤ s.tree_num → TreeAt s j (blocks j)

-- For a size of 16 MB at most the exponent is between 12 and 24, and its power of two holds the size.
pub determine_bounds :
    (n : ℕ)
    → n ≤ 2 ^ 24
    → (12 ≤ determine_bbma_size n) × (determine_bbma_size n ≤ 24) × (n ≤ 2 ^ determine_bbma_size n)
unfolding determine_bbma_size
determine_bounds n h = ground arith

-- The state after the trees changed at `i`, with the locks as before.
abbrev pub with_tree : Bbma → ℕ → Tree → Bbma
with_tree s i tree = record s { all_trees = update s.all_trees i (some tree) }

pub Ready-with_tree :
    (s : Bbma) (blocks : ℕ → Block) (i : ℕ) (tree : Tree) (b : Block)
    → Ready s blocks
    → Rep tree.node 1 12 b
    → mem_of s.area tree ≡ area_of s i
    → Ready (with_tree s i tree) (update blocks i b)
Ready-with_tree s blocks i tree b r rep place = record {
  few = r.few;
  binary = r.binary;
  start = r.start;
  fits = r.fits;
  trees = λ j lo hi. elim (ℕ_discrete i j) [
    | yes e ↦
        subst (TreeAt (with_tree s i tree) j)
          (sym (ap (λ k. update blocks i b k) (sym e) ∙ update_self blocks i b))
          (subst (λ k. TreeAt (with_tree s i tree) k b) e
            (record {
              tree = tree;
              holds = update_self s.all_trees i (some tree);
              rep = rep;
              place = place;
            }))
    | no ne ↦
        let old = r.trees j lo hi in
        subst (TreeAt (with_tree s i tree) j) (sym (update_ne blocks i j b ne)) (record {
          tree = old.tree;
          holds = update_ne s.all_trees i j (some tree) ne ∙ old.holds;
          rep = old.rep;
          place = old.place;
        })
  ];
}
