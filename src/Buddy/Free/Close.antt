-- ===== src/Buddy/Free/Close.antt =====
-- A node of tbma.c after a block was given back in one of its halves.
use mathlib.Core.Path.{subst₂}
use native.Mathlib.Decide.{ℕ_discrete}
use jyy_os.Prelude.{
  ℕ, zero, suc, ◌+◌, ◌*◌, ◌^◌, ◌≤◌, ◌<◌, ◌≡◌, refl, ◌∙◌, Outcome, done, ◌>>=◌, arith, inl, inr, ◌⊎◌,
  update, update_self, update_ne,
}
use jyy_os.Prelude.Halving.{
  Under, Under-left, Under-right, Under-self, not-Under-left, not-Under-right, Under-apart,
}
use jyy_os.Buddy.{
  Tree, Area, free_tree_ptr, free_node, half_of, merge_node, after_free, larger, write_node,
}
use jyy_os.Buddy.Blocks.{
  Block, free, used, split, size, size_lem, size_pred, pow_pos, handed_out, handed_out-merged,
  merged,
}
use jyy_os.Prelude.{Added, Added-left, Added-right}
use jyy_os.Buddy.Spot.{Spot, Spot-le, mem_of, convert-Spot}
use jyy_os.Buddy.Rep.{
  Rep, Rep-join, Rep-frame, Rep-whole, Unmerged, AllFree-top, AllFree-frame, SameBelow-update,
}

-- A node after its children were changed: the end of `free_tree_ptr` restores the invariant.
module _ (t : Tree) (i k : ℕ) (pos : 0 < i)
    (some_room : (12 ≤ t.node (i * 2)) ⊎ (12 ≤ t.node (i * 2 + 1))) where
  Unmerged-node :
      (l r : Block)
      → Rep t.node (i * 2) k l
      → Rep t.node (i * 2 + 1) k r
      → Unmerged l r
      → after_free t i (suc (size k)) ≡ larger (t.node (i * 2)) (t.node (i * 2 + 1))
  Unmerged-node l r fl fr apart = elim (ℕ_discrete (t.node (i * 2)) (size k)) [
    | yes x ↦ elim (ℕ_discrete (t.node (i * 2 + 1)) (size k)) [
      | yes y ↦ absurd (
          subst₂ Unmerged (Rep-whole t.node k (i * 2) l fl x)
            (Rep-whole t.node k (i * 2 + 1) r fr y) apart)
      | no y ↦ ground arith
    ]
    | no x ↦ ground arith
  ]

  merge_split :
      (l r : Block)
      → Rep t.node (i * 2) k l
      → Rep t.node (i * 2 + 1) k r
      → Unmerged l r
      → Rep (update t.node i (after_free t i (suc (size k)))) i (suc k) (split l r)
  merge_split l r fl fr apart =
      Rep-join t.node i k _ l r pos fl fr apart
        (ground (arith, Unmerged-node l r fl fr apart), inr (Unmerged-node l r fl fr apart))

  merge-Rep :
      (l r : Block)
      → Rep t.node (i * 2) k l
      → Rep t.node (i * 2 + 1) k r
      → Rep (update t.node i (after_free t i (suc (size k)))) i (suc k) (merged l r)
  merge-Rep free free fl fr = (
    ground (arith, AllFree-top t.node k (i * 2) fl, AllFree-top t.node k (i * 2 + 1) fr),
    AllFree-frame t.node _ k (i * 2) (SameBelow-update t.node i (i * 2) _ (not-Under-left i pos))
        fl,
    AllFree-frame t.node _ k (i * 2 + 1)
        (SameBelow-update t.node i (i * 2 + 1) _ (not-Under-right i pos)) fr,
  )
  merge-Rep free used fl fr = merge_split free used fl fr tt
  merge-Rep free (split x y) fl fr = merge_split free (split x y) fl fr tt
  merge-Rep used r fl fr = merge_split used r fl fr tt
  merge-Rep (split x y) r fl fr = merge_split (split x y) r fl fr tt

  -- The merged entry is a size, so the last two assertions hold.
  merged_entry : 12 ≤ after_free t i (suc (size k))
  merged_entry = ground (arith, size_lem k)

  merges : merge_node i (suc (size k)) t ≡ done (write_node t i (after_free t i (suc (size k))))
  unfolding merge_node
  merges = let m = merged_entry in ground arith

-- `run` gave back the block of 2 ^ `e` bytes at `p`: node `i`, of level `n`, stands for `c` now.
pub record Freed (t : Tree) (i n a p e : ℕ) (b c : Block) (run : Outcome Tree) : Type 0 where
  pub nodes : ℕ → ℕ
  pub result : run ≡ done (record t { node = nodes })
  pub rep : Rep nodes i n c
  pub frame : (j : ℕ) → ¬ Under i j → nodes j ≡ t.node j
  pub added : Added (p, e) (handed_out n a c) (handed_out n a b)
  pub kept : 12 ≤ nodes i

pub half_left :
    (i p k cur : ℕ) → cur ≤ p → p < cur + 2 ^ size k → half_of i p (suc (size k)) cur ≡ i * 2
half_left i p k cur lo hi = ground (arith, size_pred k)

pub half_right : (i p k cur : ℕ) → cur + 2 ^ size k ≤ p → half_of i p (suc (size k)) cur ≡ i * 2 + 1
half_right i p k cur lo = ground (arith, size_pred k, pow_pos (size k))

module _ (area : Area) (t : Tree) (p : ℕ) (fits : mem_of area t + 2 ^ 24 ≤ 2 ^ 64) where
  pub node_gives :
      (i n off : ℕ) (descend : ℕ → Outcome Tree)
      → Spot i n off
      → mem_of area t + off ≡ p
      → t.node i ≡ 0
      → free_node area t i p (size n) descend ≡ done (write_node t i (size n))
  unfolding free_node
  node_gives i n off descend spot at e = ground (arith, convert-Spot area t fits spot, Spot-le spot)

  pub node_descends :
      (i n off : ℕ) (descend : ℕ → Outcome Tree)
      → Spot i n off
      → 0 < t.node i
      → t.node i ≤ size n
      → mem_of area t + off ≤ p
      → free_node area t i p (size n) descend
        ≡ (descend (half_of i p (size n) (mem_of area t + off)) >>= merge_node i (size n))
  unfolding free_node
  node_descends i n off descend spot pos le lo =
      ground (arith, convert-Spot area t fits spot, Spot-le spot)

  pub opened :
      (i c : ℕ) → (d : ℕ → Outcome Tree) × (free_tree_ptr area t i p c ≡ free_node area t i p c d)
  unfolding free_tree_ptr
  opened i zero = ((λ _. Outcome.panic), refl)
  opened i (suc c) = ((λ j. free_tree_ptr area t j p c), refl)

-- The parent of a half in which the block was given back.
module _ (t : Tree) (i k a p e : ℕ) {l r : Block} (pos : 0 < i) (fl : Rep t.node (i * 2) k l)
    (fr : Rep t.node (i * 2 + 1) k r) where
  pub close_left :
      {c : Block} {run : Outcome Tree}
      → Freed t (i * 2) k a p e l c run
      → Freed t i (suc k) a p e (split l r) (merged c r) (run >>= merge_node i (suc (size k)))
  close_left {c} {run} fd = record {
    nodes = update fd.nodes i (after_free (record t { node = fd.nodes }) i (suc (size k)));
    result = rw fd.result (merges (record t { node = fd.nodes }) i k pos (inl fd.kept));
    rep =
        merge-Rep (record t { node = fd.nodes }) i k pos (inl fd.kept) c r fd.rep
          (Rep-frame t.node fd.nodes k (i * 2 + 1) r
            (λ j u. fd.frame j (λ v. Under-apart i j pos v u)) fr);
    frame = λ j out.
        update_ne fd.nodes i j _ (λ q. out (rw q (Under-self j)))
        ∙ fd.frame j (λ u. out (Under-left i j u));
    added = rw (handed_out-merged k a c r) (Added-left fd.added _);
    kept =
        rw (update_self fd.nodes i _)
          (merged_entry (record t { node = fd.nodes }) i k pos (inl fd.kept));
  }

  pub close_right :
      {c : Block} {run : Outcome Tree}
      → Freed t (i * 2 + 1) k (a + 2 ^ size k) p e r c run
      → Freed t i (suc k) a p e (split l r) (merged l c) (run >>= merge_node i (suc (size k)))
  close_right {c} {run} fd = record {
    nodes = update fd.nodes i (after_free (record t { node = fd.nodes }) i (suc (size k)));
    result = rw fd.result (merges (record t { node = fd.nodes }) i k pos (inr fd.kept));
    rep =
        merge-Rep (record t { node = fd.nodes }) i k pos (inr fd.kept) l c
          (Rep-frame t.node fd.nodes k (i * 2) l (λ j u. fd.frame j (λ v. Under-apart i j pos u v))
            fl)
          fd.rep;
    frame = λ j out.
        update_ne fd.nodes i j _ (λ q. out (rw q (Under-self j)))
        ∙ fd.frame j (λ u. out (Under-right i j u));
    added = rw (handed_out-merged k a l c) (Added-right fd.added _);
    kept =
        rw (update_self fd.nodes i _)
          (merged_entry (record t { node = fd.nodes }) i k pos (inr fd.kept));
  }
