-- ===== src/Buddy/Free.antt =====
-- `free_tree_ptr` of tbma.c gives back one block that is handed out, and only that.
mod Close
pub use Close.{Freed}
use mathlib.Core.Path.{subst₂}
use native.Mathlib.Decide.{ℕ_discrete}
use jyy_os.Prelude.{
  ℕ, zero, suc, ◌+◌, ◌*◌, ◌^◌, ◌≤◌, ◌<◌, ◌≡◌, refl, sym, ap, ◌∙◌, Outcome, done, ◌>>=◌, arith, inl,
  inr, ◌⊎◌, update, update_self, update_ne,
}
use jyy_os.Prelude.Halving.{
  Under, Under-left, Under-right, Under-self, not-Under-left, not-Under-right, Under-apart,
}
use jyy_os.Buddy.{
  Tree, Area, free_tree_ptr, free_node, half_of, merge_node, after_free, larger, write_node,
}
use jyy_os.Buddy.Blocks.{
  Block, free, used, split, size, size_lem, size_pred, pow_pos, GivesBack, here, left, right,
  GivesBack-inside, handed_out, handed_out-merged, merged,
}
use jyy_os.Prelude.{Added, Added-left, Added-right, Added-one}
use jyy_os.Buddy.Spot.{Spot, Spot-left, Spot-right, Spot-pos, Spot-le, mem_of, convert-Spot}
use jyy_os.Buddy.Rep.{
  Rep, Rep-join, Rep-frame, Rep-le, Rep-whole, Unmerged, AllFree, AllFree-top, AllFree-frame,
  SameBelow-update, FreeBelow,
}
use jyy_os.Buddy.Free.Close.{
  close_left, close_right, half_left, half_right, node_descends, node_gives, opened,
}

AllFree-given : (t : ℕ → ℕ) (n i : ℕ) → 0 < i → FreeBelow t i n → AllFree (update t i (size n)) i n
AllFree-given t zero i pos f = update_self t i (size zero)
AllFree-given t (suc n) i pos f = (
  update_self t i (size (suc n)),
  AllFree-frame t _ n (i * 2) (SameBelow-update t i (i * 2) _ (not-Under-left i pos)) f.0,
  AllFree-frame t _ n (i * 2 + 1) (SameBelow-update t i (i * 2 + 1) _ (not-Under-right i pos)) f.1,
)

module _ (area : Area) (t : Tree) (p e : ℕ) (fits : mem_of area t + 2 ^ 24 ≤ 2 ^ 64) where
  Freed-here :
      (n i off : ℕ)
      → Spot i n off
      → mem_of area t + off ≡ p
      → size n ≡ e
      → Rep t.node i n used
      → Freed t i n p p e used free (free_tree_ptr area t i p (size n))
  Freed-here n i off spot at same f =
      let (d, q) = opened area t p fits i (size n) in
      record {
        nodes = update t.node i (size n);
        result = q ∙ node_gives area t p fits i n off d spot at f.0;
        rep = AllFree-given t.node n i (Spot-pos spot) f.1;
        frame = λ j out. update_ne t.node i j _ (λ x. out (rw x (Under-self j)));
        added = rw same (Added-one (p, e));
        kept = rw (update_self t.node i (size n)) (omega (arith, size_lem n));
      }

  enters_left :
      (i k off : ℕ)
      → Spot i (suc k) off
      → 0 < t.node i
      → t.node i ≤ suc (size k)
      → mem_of area t + off ≤ p
      → p < mem_of area t + off + 2 ^ size k
      → free_tree_ptr area t i p (suc (size k))
        ≡ (free_tree_ptr area t (i * 2) p (size k) >>= merge_node i (suc (size k)))
  unfolding free_tree_ptr
  enters_left i k off spot pos le lo hi =
      node_descends area t p fits i (suc k) off (λ j. free_tree_ptr area t j p (size k)) spot pos le
        lo
      ∙ ap (λ j. free_tree_ptr area t j p (size k) >>= merge_node i (suc (size k)))
          (half_left i p k (mem_of area t + off) lo hi)

  enters_right :
      (i k off : ℕ)
      → Spot i (suc k) off
      → 0 < t.node i
      → t.node i ≤ suc (size k)
      → mem_of area t + off + 2 ^ size k ≤ p
      → free_tree_ptr area t i p (suc (size k))
        ≡ (free_tree_ptr area t (i * 2 + 1) p (size k) >>= merge_node i (suc (size k)))
  unfolding free_tree_ptr
  enters_right i k off spot pos le lo =
      node_descends area t p fits i (suc k) off (λ j. free_tree_ptr area t j p (size k)) spot pos le
        (omega arith)
      ∙ ap (λ j. free_tree_ptr area t j p (size k) >>= merge_node i (suc (size k)))
          (half_right i p k (mem_of area t + off) lo)

  -- Giving back a block that is handed out passes every assertion and ends; the rest of the area
  -- stays as it was.
  pub free-Freed :
      (n i off : ℕ) {a : ℕ} {b c : Block}
      → Spot i n off
      → a ≡ mem_of area t + off
      → Rep t.node i n b
      → GivesBack p e n a b c
      → Freed t i n a p e b c (free_tree_ptr area t i p (size n))
  free-Freed n i off spot at f (here q s) = rw s (Freed-here n i off spot (sym at ∙ s) q f)
  free-Freed (suc k) i off {a} spot at f (left {l = l} {l' = c} {r = r} g) =
      let (lo, hi) = GivesBack-inside g in
      rw
        (enters_left i k off spot f.2.0 (Rep-le t.node (suc k) i (split l r) f) (omega arith)
          (omega arith))
        (close_left t i k a p e {l = l} {r = r} (Spot-pos spot) f.0 f.1
          (free-Freed k (i * 2) off (Spot-left spot) at f.0 g))
  free-Freed (suc k) i off {a} spot at f (right {l = l} {r = r} {r' = c} g) =
      let (lo, hi) = GivesBack-inside g in
      rw (enters_right i k off spot f.2.0 (Rep-le t.node (suc k) i (split l r) f) (omega arith)) (
        close_right t i k a p e {l = l} {r = r} (Spot-pos spot) f.0 f.1
          (free-Freed k (i * 2 + 1) (off + 2 ^ size k) (Spot-right spot) (omega arith) f.1 g))
