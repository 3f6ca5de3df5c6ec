-- ===== src/Buddy/Release.antt =====
-- `bbma_free` of tbma.c, between states whose trees stand for blocks.
use jyy_os.Buddy.State.{area_of, Ready, with_tree, Ready-with_tree}
use jyy_os.Buddy.Service.{Granted, bbma_alloc_lem}
use mathlib.Core.Path.{subst, subst₂, fun_ext}
use mathlib.Core.List.{Memᴰ}
use native.Mathlib.Decide.{ℕ_discrete}
use jyy_os.Prelude.{
  ℕ, ◌+◌, ◌^◌, ◌≤◌, ◌<◌, ◌≡◌, inl, inr, none, some, update, update_self, update_ne, done, arith,
  ◌∙◌, sym, ap, le→ltb, lt→ltb, Option, Outcome,
}
use jyy_os.Buddy.{Tree, determine_bbma_size, free_tree_ptr}
use jyy_os.Buddy.System.{Bbma, max_tree, bbma_alloc, bbma_free, determine_which_tree}
use jyy_os.Buddy.Blocks.{Block, handed_out, GivesBack, GivesBack-inside, give_back, AlignedTo}
use jyy_os.Prelude.{Added}
use jyy_os.Buddy.Spot.{Spot-root, mem_of}
use jyy_os.Buddy.Free.{free-Freed}
use jyy_os.Buddy.Locks.{Holds, relock}

-- A call of `bbma_free` that took a block back: tree `i` stands for `c` now.
pub record Returned (s : Bbma) (blocks : ℕ → Block) (i p e : ℕ) (c : Block) : Type 0 where
  pub tree : Tree
  pub result : bbma_free s (some p) ≡ done (with_tree s i tree)
  pub ready : Ready (with_tree s i tree) (update blocks i c)
  pub added : Added (p, e) (handed_out 12 (area_of s i) c) (handed_out 12 (area_of s i) (blocks i))

-- A block in the area of tree `i` belongs to that tree; `determine_which_tree` fails for the first
-- address of all, which its assertion excludes.
which_tree :
    (s : Bbma) (i p : ℕ)
    → AlignedTo s.begin_alloc_addr 24
    → 1 ≤ i
    → area_of s i ≤ p
    → p < area_of s i + 2 ^ 24
    → area_of s i + 2 ^ 24 ≤ 2 ^ 64
    → s.begin_alloc_addr < p
    → determine_which_tree s.area p ≡ done i
unfolding determine_which_tree
which_tree s i p (y, start) above lo hi fits later =
    rw (lt→ltb s.begin_alloc_addr p later) (ap done (omega arith))

bbma_free_of :
    (s : Bbma) (i p : ℕ) (tree tree' : Tree)
    → i ≤ max_tree
    → s.tree_locks i ≡ 0
    → determine_which_tree s.area p ≡ done i
    → Holds s i tree
    → free_tree_ptr s.area tree 1 p 24 ≡ done tree'
    → bbma_free s (some p) ≡ done (with_tree s i tree')
unfolding bbma_free
bbma_free_of s i p tree tree' few unlocked which holds result =
    rw (which, le→ltb max_tree i few, holds, unlocked, result, relock s.tree_locks i unlocked)

bbma_free_lem :
    (s : Bbma) (blocks : ℕ → Block) (i p e : ℕ) (c : Block)
    → Ready s blocks
    → 1 ≤ i
    → i ≤ s.tree_num
    → s.tree_locks i ≡ 0
    → s.begin_alloc_addr < p
    → GivesBack p e 12 (area_of s i) (blocks i) c
    → Returned s blocks i p e c
bbma_free_lem s blocks i p e c r above below unlocked later gives =
    let at = r.trees i above below in
    let fits : mem_of s.area at.tree + 2 ^ 24 ≤ 2 ^ 64 = omega (arith, at.place, r.fits) in
    let (lo, hi) = GivesBack-inside gives in
    let fd =
      free-Freed s.area at.tree p e fits 12 1 0 Spot-root (omega (arith, at.place)) at.rep gives in
    let tree' : Tree = record at.tree { node = fd.nodes } in
    record {
      tree = tree';
      result =
          bbma_free_of s i p at.tree tree' (omega (arith, r.few)) unlocked
            (which_tree s i p r.start above lo hi (omega (arith, r.fits)) later) at.holds fd.result;
      ready = Ready-with_tree s blocks i tree' c r fd.rep at.place;
      added = fd.added;
    }

-- In a state in which each tree stands for its blocks, while the lock of tree `i` is free, `bbma_free`
-- takes back any block that tree `i` has handed out, other than the one at the very start of the
-- first area: it fails no assertion, just that block leaves the blocks that the tree has handed out,
-- and each tree stands for its blocks again.
pub bbma_free-handed_out :
    (s : Bbma) (blocks : ℕ → Block) (i p e : ℕ)
    → Ready s blocks
    → 1 ≤ i
    → i ≤ s.tree_num
    → s.tree_locks i ≡ 0
    → s.begin_alloc_addr < p
    → Memᴰ (p, e) (handed_out 12 (area_of s i) (blocks i))
    → (c : Block) × Returned s blocks i p e c
bbma_free-handed_out s blocks i p e r above below unlocked later m =
    let (c, gives) = give_back 12 (area_of s i) p e (blocks i) m in
    (c, bbma_free_lem s blocks i p e c r above below unlocked later gives)

update_back :
    (blocks : ℕ → Block) (i : ℕ) (b : Block) → update (update blocks i b) i (blocks i) ≡ blocks
update_back blocks i b = fun_ext λ j. elim (ℕ_discrete i j) [
  | yes e ↦ rw e (update_self (update blocks j b) j (blocks j))
  | no ne ↦ update_ne (update blocks i b) i j (blocks i) ne ∙ update_ne blocks i j b ne
]

free-Granted :
    (s : Bbma) (blocks : ℕ → Block) (req : ℕ) (g : Granted s blocks req)
    → s.begin_alloc_addr < g.ptr
    → (s' : Bbma) × (bbma_free (with_tree s g.i g.tree) (some g.ptr) ≡ done s') × Ready s' blocks
free-Granted s blocks req g later =
    let gives =
      subst (λ b. GivesBack g.ptr (determine_bbma_size req) 12 (area_of s g.i) b (blocks g.i))
        (sym (update_self blocks g.i g.block)) g.undo in
    let back =
      bbma_free_lem (with_tree s g.i g.tree) (update blocks g.i g.block) g.i g.ptr
        (determine_bbma_size req) (blocks g.i) g.ready g.above g.below g.unlocked later gives in
    (
      with_tree (with_tree s g.i g.tree) g.i back.tree,
      back.result,
      subst (Ready _) (update_back blocks g.i g.block) back.ready,
    )

-- In a state in which each tree stands for its blocks, and for a size of 16 MB at most: what
-- `bbma_alloc` returned, if it is not the very start of the first area, `bbma_free` takes back
-- without failing an assertion, and each tree stands again for the blocks that it stood for before.
pub free-alloc :
    (s s' : Bbma) (blocks : ℕ → Block) (req p : ℕ)
    → Ready s blocks
    → req ≤ 2 ^ 24
    → s.begin_alloc_addr < p
    → bbma_alloc s req ≡ done (some p, s')
    → (s'' : Bbma) × (bbma_free s' (some p) ≡ done s'') × Ready s'' blocks
free-alloc s s' blocks req p r small later e = elim (bbma_alloc_lem s blocks req r small) [
  | inl g ↦
      let q : ◌≡◌ {A = Outcome (Option ℕ × Bbma)} (done (some g.ptr, with_tree s g.i g.tree))
          (done (some p, s')) =
        sym g.result ∙ e in
      let qp : g.ptr ≡ p = cc in
      let qs : with_tree s g.i g.tree ≡ s' = cc in
      subst₂ (λ t x. (s'' : Bbma) × (bbma_free t (some x) ≡ done s'') × Ready s'' blocks) qs qp
        (free-Granted s blocks req g (rw qp later))
  | inr no_block ↦
      let q : ◌≡◌ {A = Outcome (Option ℕ × Bbma)} (done (none, s)) (done (some p, s')) =
        sym no_block.result ∙ e in
      absurd (cc)
]
