-- ===== src/Buddy/Service.antt =====
-- `bbma_alloc` of tbma.c, between states whose trees stand for blocks.
use jyy_os.Buddy.State.{area_of, TreeAt, Ready, determine_bounds, with_tree, Ready-with_tree}
use mathlib.Core.Path.{subst, subst₂}
use native.Mathlib.Nat.{mul-mod_left, mod_self}
use jyy_os.Prelude.{
  ℕ, ◌+◌, ◌-◌, ◌*◌, ◌%◌, ◌^◌, ◌≤◌, ◌≡◌, ◌⊎◌, inl, inr, none, some, update, done, arith, ◌∙◌, refl,
  sym, le→leb, le→ltb, ne→==, Option,
}
use jyy_os.Align.{is_align_to}
use jyy_os.Buddy.{Tree, determine_bbma_size, get_the_free_space_in_tree}
use jyy_os.Buddy.System.{
  Bbma, max_tree, bbma_alloc, find_available_tree, take_from, take_found,
  find_the_free_space_in_bbma_system, check_aligned,
}
use jyy_os.Buddy.Blocks.{Block, size, size_lem, handed_out, GivesBack, GivesBack-aligned, AlignedTo}
use jyy_os.Prelude.{Added}
use jyy_os.Buddy.Spot.{Spot-root, mem_of}
use jyy_os.Buddy.Alloc.{Allocated, free_space-Allocated}
use jyy_os.Buddy.Locks.{Holds, Found, Skipped, Trees, Outcomes, find-Outcomes, lock, relock}

-- A call of `bbma_alloc` that returned a block: tree `i`, whose lock was free, has handed it out.
pub record Granted (s : Bbma) (blocks : ℕ → Block) (req : ℕ) : Type 0 where
  pub i : ℕ
  pub ptr : ℕ
  pub tree : Tree
  pub block : Block
  pub above : 1 ≤ i
  pub below : i ≤ s.tree_num
  pub unlocked : s.tree_locks i ≡ 0
  pub result : bbma_alloc s req ≡ done (some ptr, with_tree s i tree)
  pub ready : Ready (with_tree s i tree) (update blocks i block)
  pub added :
      Added
        (ptr, determine_bbma_size req)
        (handed_out 12 (area_of s i) (blocks i))
        (handed_out 12 (area_of s i) block)
  pub aligned : AlignedTo ptr (determine_bbma_size req)
  pub undo : GivesBack ptr (determine_bbma_size req) 12 (area_of s i) block (blocks i)

-- One that returned NULL, with nothing changed: each tree that was not locked had no room at its root.
pub record Refused (s : Bbma) (req : ℕ) : Type 0 where
  pub result : bbma_alloc s req ≡ done (none, s)
  pub no_room : (j : ℕ) → 1 ≤ j → j ≤ s.tree_num → Skipped (determine_bbma_size req) s j

Ready-Trees : {s : Bbma} {blocks : ℕ → Block} → Ready s blocks → Trees 1 (s.tree_num + 1) s
Ready-Trees r = record {
  few = omega (arith, r.few);
  holds = λ j lo hi. let at = r.trees j lo (omega arith) in (at.tree, at.holds);
  binary = r.binary;
}

level_of : (e : ℕ) → 12 ≤ e → size (e - 12) ≡ e
level_of e h = omega (arith, size_lem (e - 12))

-- A multiple of a power of two passes `is_align_to`.
multiple : (x e : ℕ) → (x * 2 ^ e) % 2 ^ e ≡ 0
multiple x e = mul-mod_left x (2 ^ e)

check-aligned : (p e : ℕ) → AlignedTo p e → check_aligned (some p) e ≡ done tt
unfolding check_aligned is_align_to
check-aligned p e (x, q) = rw (q, multiple x e, mod_self (2 ^ e))

take_from_lem :
    (s : Bbma) (e i ptr : ℕ) (tree tree' : Tree)
    → i ≤ s.tree_num
    → i ≤ max_tree
    → s.tree_locks i ≡ 0
    → Holds s i tree
    → e ≤ tree.node 1
    → get_the_free_space_in_tree s.area tree 1 24 e ≡ done (some ptr, tree')
    → take_from (lock s i) e i ≡ done (some ptr, with_tree s i tree')
unfolding take_from
take_from_lem s e i ptr tree tree' below few unlocked holds room result = rw (
  le→leb i s.tree_num below,
  le→ltb max_tree i few,
  holds,
  le→leb e (tree.node 1) room,
  result,
  relock s.tree_locks i unlocked,
)

-- `bbma_alloc` for a size that is not refused, once the search for a tree has ended.
bbma_alloc_found :
    (s : Bbma) (req : ℕ) (r t : Option ℕ × Bbma)
    → req ≤ 2 ^ 24
    → find_available_tree s (determine_bbma_size req) ≡ done r
    → take_found (determine_bbma_size req) r ≡ done t
    → check_aligned t.0 (determine_bbma_size req) ≡ done tt
    → bbma_alloc s req ≡ done t
unfolding bbma_alloc find_the_free_space_in_bbma_system
bbma_alloc_found s req r t h found taken checked =
    let (lo, hi, _) = determine_bounds req h in
    rw (ne→== (determine_bbma_size req) 25 (omega arith), found, taken, checked)

-- What the tree that was found gives, in the terms of the call.
module _ (s : Bbma) (blocks : ℕ → Block) (req i : ℕ) (r : Ready s blocks) (small : req ≤ 2 ^ 24)
    (f : Found (determine_bbma_size req) 1 (s.tree_num + 1) s i)
    (found : find_available_tree s (determine_bbma_size req) ≡ done (some i, lock s i)) where
  abbrev req_size : ℕ
  req_size = determine_bbma_size req

  abbrev at_i : TreeAt s i (blocks i)
  at_i = r.trees i f.above (omega (arith, f.below))

  same_tree : f.tree ≡ at_i.tree
  same_tree = let e : some f.tree ≡ some at_i.tree = sym f.holds ∙ at_i.holds in cc

  fits_i : mem_of s.area at_i.tree + 2 ^ 24 ≤ 2 ^ 64
  fits_i = omega (arith, at_i.place, f.above, f.below, r.fits)

  in_tree :
      Allocated at_i.tree 1 12
        (area_of s i)
        (req_size - 12)
        (blocks i)
        (get_the_free_space_in_tree s.area at_i.tree 1 24 req_size)
  in_tree =
      let (lo, hi, _) = determine_bounds req small in
      let level = level_of req_size lo in
      subst₂
        (λ a e.
          Allocated at_i.tree 1 12 a (req_size - 12) (blocks i)
            (get_the_free_space_in_tree s.area at_i.tree 1 24 e))
        (omega (arith, at_i.place)) level
        (free_space-Allocated s.area at_i.tree fits_i 12 (req_size - 12) 1 0 (blocks i) Spot-root
          (omega arith) at_i.rep (rw (level, ← same_tree) f.room))

  granted : Granted s blocks req
  unfolding take_found
  granted =
      let (lo, hi, _) = determine_bounds req small in
      let al = in_tree in
      let tree' : Tree = record at_i.tree { node = al.nodes } in
      let level = level_of req_size lo in
      let undo : GivesBack al.ptr req_size 12 (area_of s i) al.block (blocks i) =
        subst (λ e. GivesBack al.ptr e 12 (area_of s i) al.block (blocks i)) level al.undo in
      let (y, start) = r.start in
      let aligned : AlignedTo al.ptr req_size =
        GivesBack-aligned undo (y + (i - 1), omega (arith, start)) in
      record {
        i = i;
        ptr = al.ptr;
        tree = tree';
        block = al.block;
        above = f.above;
        below = omega (arith, f.below);
        unlocked = f.unlocked;
        result =
            bbma_alloc_found s req (some i, lock s i) (some al.ptr, with_tree s i tree') small found
              (take_from_lem s req_size i al.ptr at_i.tree tree' (omega (arith, f.below))
                (omega (arith, f.below, r.few)) f.unlocked at_i.holds (rw (← same_tree) f.room)
                al.result)
              (check-aligned al.ptr req_size aligned);
        ready = Ready-with_tree s blocks i tree' al.block r al.rep at_i.place;
        added =
            subst
              (λ e.
                Added (al.ptr, e) (handed_out 12 (area_of s i) (blocks i))
                  (handed_out 12 (area_of s i) al.block))
              level al.added;
        aligned = aligned;
        undo = undo;
      }

-- In a state in which each tree stands for its blocks (`Ready`), whatever locks are held, and for a
-- size of 16 MB at most, `bbma_alloc` fails no assertion. Either it hands out a free block of the
-- exponent that `determine_bbma_size` names, from an unlocked tree, and leaves the other blocks and
-- the locks as they were; or it returns NULL and changes nothing.
pub bbma_alloc_lem :
    (s : Bbma) (blocks : ℕ → Block) (req : ℕ)
    → Ready s blocks
    → req ≤ 2 ^ 24
    → Granted s blocks req ⊎ Refused s req
unfolding Outcomes find_available_tree take_found check_aligned
bbma_alloc_lem s blocks req r small =
    elim (find-Outcomes (determine_bbma_size req) s.tree_num 1 (s.tree_num + 1) s (omega arith)
      (Ready-Trees r)) [
        | inl (i, f, found) ↦ inl (granted s blocks req i r small f found)
        | inr (skipped, found) ↦ inr (record {
          result = bbma_alloc_found s req (none, s) (none, s) small found refl refl;
          no_room = λ j lo hi. skipped j lo (omega arith);
        })
      ]
