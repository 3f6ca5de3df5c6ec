-- ===== src/Buddy/Alloc/Close.antt =====
-- A node of tbma.c after a block was taken from one of its halves.
use jyy_os.Prelude.{
  ℕ, suc, ◌+◌, ◌*◌, ◌^◌, ◌≤◌, ◌<◌, ◌≡◌, ◌≢◌, refl, ◌∙◌, Option, some, [], Outcome, done, ◌>>=◌,
  arith, inr, false, ◌⊎◌, leb, update, update_self, update_ne,
}
use mathlib.Core.Path.{subst}
use jyy_os.Prelude.Halving.{
  Under, Under-left, Under-right, Under-self, not-Under-left, not-Under-right, Under-apart,
}
use jyy_os.Buddy.{Tree, close_node, after_alloc, larger}
use jyy_os.Buddy.Blocks.{Block, free, used, split, size, size_lem, handed_out, merged, GivesBack}
use jyy_os.Prelude.{Added, Added-left, Added-right, Added-ne-nil}
use jyy_os.Buddy.Rep.{Rep, Rep-join, Rep-frame, Rep-le, Unmerged, AllFree-top}

-- `r` is a run that handed out one block of level `m` from the block `b` of node `i`, level `n`,
-- which begins at `a`.
pub record Allocated (t : Tree) (i n a m : ℕ) (b : Block) (r : Outcome (Option ℕ × Tree))
    : Type 0 where
  pub ptr : ℕ
  pub nodes : ℕ → ℕ
  pub block : Block
  pub result : r ≡ done (some ptr, record t { node = nodes })
  pub rep : Rep nodes i n block
  pub frame : (j : ℕ) → ¬ Under i j → nodes j ≡ t.node j
  pub added : Added (ptr, size m) (handed_out n a b) (handed_out n a block)
  pub lost : nodes i ≡ 0 → n ≡ m
  pub undo : GivesBack ptr (size m) n a block b

-- A block of level `suc k` with room, seen as its two halves.
pub record Halves (t : ℕ → ℕ) (i k : ℕ) (b l r : Block) : Type 0 where
  pub left : Rep t (i * 2) k l
  pub right : Rep t (i * 2 + 1) k r
  pub whole : merged l r ≡ b
  pub handed : (a : ℕ) → handed_out (suc k) a b ≡ handed_out (suc k) a (split l r)
  pub top :
      (t i ≡ larger (t (i * 2)) (t (i * 2 + 1)))
      ⊎ ((t i ≡ suc (size k)) × (t (i * 2) ≡ size k) × (t (i * 2 + 1) ≡ size k))

merged_lem : (l r : Block) → Unmerged l r → merged l r ≡ split l r
merged_lem free free h = absurd h
merged_lem free used h = refl
merged_lem free (split x y) h = refl
merged_lem used r h = refl
merged_lem (split x y) r h = refl

pub Halves-of :
    (t : ℕ → ℕ) (i k : ℕ) (b : Block)
    → 1 < t i
    → Rep t i (suc k) b
    → (l : Block) × (r : Block) × Halves t i k b l r
Halves-of t i k free room f = (
  free,
  free,
  record {
    left = f.1;
    right = f.2;
    whole = refl;
    handed = λ a. refl;
    top = inr (f.0, AllFree-top t k _ f.1, AllFree-top t k _ f.2);
  },
)
Halves-of t i k used room f = absurd (omega arith)
Halves-of t i k (split l r) room f = (
  l,
  r,
  record {
    left = f.0;
    right = f.1;
    whole = merged_lem l r f.3;
    handed = λ a. refl;
    top = ground arith;
  },
)

Unmerged-left : (k a : ℕ) (l r : Block) → handed_out k a l ≢ [] → Unmerged l r
Unmerged-left k a free free h = absurd (h refl)
Unmerged-left k a free used h = tt
Unmerged-left k a free (split _ _) h = tt
Unmerged-left k a used r h = tt
Unmerged-left k a (split _ _) r h = tt

Unmerged-right : (k a : ℕ) (l r : Block) → handed_out k a r ≢ [] → Unmerged l r
Unmerged-right k a free free h = absurd (h refl)
Unmerged-right k a free used h = tt
Unmerged-right k a free (split _ _) h = tt
Unmerged-right k a used r h = tt
Unmerged-right k a (split _ _) r h = tt

-- The node above a half from which a block was taken.
abbrev closed : Tree → (ℕ → ℕ) → ℕ → ℕ → ℕ → ℕ
closed t nodes i req = update nodes i (after_alloc (record t { node = nodes }) i req)

module _ (t : Tree) (i k a m : ℕ) {b l r : Block} (pos : 0 < i) (le : m ≤ k)
    (h : Halves t.node i k b l r) (room : size m ≤ t.node i) where
  open h use {left as on_left, right as on_right, whole, handed, top}

  -- The node stays above 0: it loses its last block only if that was one of its halves.
  mark_left :
      (u : ℕ → ℕ)
      → u i ≡ t.node i
      → u (i * 2 + 1) ≡ t.node (i * 2 + 1)
      → (u (i * 2) ≡ 0 → k ≡ m)
      → 0 < after_alloc (record t { node = u }) i (size m)
  mark_left u same other lost =
      ground (arith, Rep-le t.node k (i * 2) l on_left, size_lem k, size_lem m)

  pub close_left :
      {run : Outcome (Option ℕ × Tree)}
      → Allocated t (i * 2) k a m l run
      → Allocated t i (suc k) a m b (run >>= λ res. done (close_node i (size m) res))
  unfolding close_node
  close_left {run} al = record {
    ptr = al.ptr;
    nodes = closed t al.nodes i (size m);
    block = split al.block r;
    result = rw al.result refl;
    rep =
        Rep-join al.nodes i k _ al.block r pos al.rep
          (Rep-frame t.node al.nodes k (i * 2 + 1) r
            (λ j u. al.frame j (λ v. Under-apart i j pos v u)) on_right)
          (Unmerged-left k a al.block r (Added-ne-nil al.added)) (mark, ground arith);
    frame = λ j out.
        update_ne al.nodes i j _ (λ e. out (rw e (Under-self j)))
        ∙ al.frame j (λ u. out (Under-left i j u));
    added = rw (handed a) (Added-left al.added _);
    lost = λ e. absurd (
        omega (
          arith,
          update_self al.nodes i (after_alloc (record t { node = al.nodes }) i (size m)),
          mark,
        ));
    undo = subst (GivesBack al.ptr (size m) (suc k) a _) whole (GivesBack.left al.undo);
  }
    where
      mark : 0 < after_alloc (record t { node = al.nodes }) i (size m)
      mark =
          mark_left al.nodes (al.frame i (not-Under-left i pos))
            (al.frame (i * 2 + 1) (λ v. Under-apart i _ pos v (Under-self _))) al.lost

  mark_right :
      (u : ℕ → ℕ)
      → u i ≡ t.node i
      → u (i * 2) ≡ t.node (i * 2)
      → (u (i * 2 + 1) ≡ 0 → k ≡ m)
      → 0 < after_alloc (record t { node = u }) i (size m)
  mark_right u same other lost =
      ground (arith, Rep-le t.node k (i * 2 + 1) r on_right, size_lem k, size_lem m)

  pub close_right :
      {run : Outcome (Option ℕ × Tree)}
      → Allocated t (i * 2 + 1) k (a + 2 ^ size k) m r run
      → Allocated t i (suc k) a m b (run >>= λ res. done (close_node i (size m) res))
  unfolding close_node
  close_right {run} al = record {
    ptr = al.ptr;
    nodes = closed t al.nodes i (size m);
    block = split l al.block;
    result = rw al.result refl;
    rep =
        Rep-join al.nodes i k _ l al.block pos
          (Rep-frame t.node al.nodes k (i * 2) l (λ j u. al.frame j (λ v. Under-apart i j pos u v))
            on_left)
          al.rep (Unmerged-right k _ l al.block (Added-ne-nil al.added)) (mark, ground arith);
    frame = λ j out.
        update_ne al.nodes i j _ (λ e. out (rw e (Under-self j)))
        ∙ al.frame j (λ u. out (Under-right i j u));
    added = rw (handed a) (Added-right al.added _);
    lost = λ e. absurd (
        omega (
          arith,
          update_self al.nodes i (after_alloc (record t { node = al.nodes }) i (size m)),
          mark,
        ));
    undo = subst (GivesBack al.ptr (size m) (suc k) a _) whole (GivesBack.right al.undo);
  }
    where
      mark : 0 < after_alloc (record t { node = al.nodes }) i (size m)
      mark =
          mark_right al.nodes (al.frame i (not-Under-right i pos))
            (al.frame (i * 2) (λ v. Under-apart i _ pos (Under-self _) v)) al.lost

  pub right_room : leb (size m) (t.node (i * 2)) ≡ false → size m ≤ t.node (i * 2 + 1)
  right_room z = ground (arith, size_lem k, size_lem m)
