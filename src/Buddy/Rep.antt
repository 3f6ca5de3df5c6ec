-- ===== src/Buddy/Rep.antt =====
-- The representation invariant of a tree of tbma.c: which blocks the bytes of its nodes stand for.
use jyy_os.Prelude.{ℕ, zero, suc, ◌+◌, ◌*◌, ◌≤◌, ◌<◌, ◌≡◌, refl, ◌∙◌, ◌⊎◌, arith, update, update_ne}
use jyy_os.Prelude.Halving.{
  Under, Under-left, Under-right, Under-self, not-Under-left, not-Under-right,
}
use jyy_os.Buddy.{get_departed, larger}
use jyy_os.Buddy.Blocks.{Block, free, used, split, size, size_lem}

-- Every node from `i` down holds the size of its own block.
abbrev pub AllFree : (ℕ → ℕ) → ℕ → ℕ → Type 0
AllFree t i zero = t i ≡ size zero
AllFree t i (suc n) = (t i ≡ size (suc n)) × AllFree t (i * 2) n × AllFree t (i * 2 + 1) n

pub AllFree-top : (t : ℕ → ℕ) (n i : ℕ) → AllFree t i n → t i ≡ size n
AllFree-top t zero i f = f
AllFree-top t (suc n) i f = f.0

abbrev pub FreeBelow : (ℕ → ℕ) → ℕ → ℕ → Type 0
FreeBelow t i zero = Unit
FreeBelow t i (suc n) = AllFree t (i * 2) n × AllFree t (i * 2 + 1) n

-- Two free halves of a block are always merged.
abbrev pub Unmerged : Block → Block → Type 0
Unmerged free free = ⊥
Unmerged l r = Unit

-- What a node above two halves holds: the larger entry of its children, or `GET_DEPARTED`. The
-- second stands for a block that has no room, but is also left by an allocation that took one of
-- several blocks of the size asked for.
abbrev pub Mark : ℕ → ℕ → ℕ → Type 0
Mark v a b = (0 < v) × ((v ≡ get_departed) ⊎ (v ≡ larger a b))

abbrev pub Rep : (ℕ → ℕ) → ℕ → ℕ → Block → Type 0
Rep t i n free = AllFree t i n
Rep t i n used = (t i ≡ 0) × FreeBelow t i n
Rep t i zero (split l r) = ⊥
Rep t i (suc n) (split l r) =
    Rep t (i * 2) n l
    × Rep t (i * 2 + 1) n r
    × Mark (t i) (t (i * 2)) (t (i * 2 + 1))
    × Unmerged l r

-- The trees agree from node `i` down.
abbrev pub SameBelow : (ℕ → ℕ) → (ℕ → ℕ) → ℕ → Type 0
SameBelow t u i = (j : ℕ) → Under i j → u j ≡ t j

module _ (t u : ℕ → ℕ) (i : ℕ) (same : SameBelow t u i) where
  SameBelow-left : SameBelow t u (i * 2)
  SameBelow-left j h = same j (Under-left i j h)

  SameBelow-right : SameBelow t u (i * 2 + 1)
  SameBelow-right j h = same j (Under-right i j h)

pub AllFree-frame : (t u : ℕ → ℕ) (n i : ℕ) → SameBelow t u i → AllFree t i n → AllFree u i n
AllFree-frame t u zero i same f = same i (Under-self i) ∙ f
AllFree-frame t u (suc n) i same f = (
  same i (Under-self i) ∙ f.0,
  AllFree-frame t u n (i * 2) (SameBelow-left t u i same) f.1,
  AllFree-frame t u n (i * 2 + 1) (SameBelow-right t u i same) f.2,
)

-- The invariant depends only on the nodes from `i` down.
pub Rep-frame : (t u : ℕ → ℕ) (n i : ℕ) (b : Block) → SameBelow t u i → Rep t i n b → Rep u i n b
Rep-frame t u n i free same f = AllFree-frame t u n i same f
Rep-frame t u zero i used same f = (same i (Under-self i) ∙ f.0, tt)
Rep-frame t u (suc n) i used same f = (
  same i (Under-self i) ∙ f.0,
  (
    AllFree-frame t u n (i * 2) (SameBelow-left t u i same) f.1.0,
    AllFree-frame t u n (i * 2 + 1) (SameBelow-right t u i same) f.1.1,
  ),
)
Rep-frame t u zero i (split l r) same f = f
Rep-frame t u (suc n) i (split l r) same f = (
  Rep-frame t u n (i * 2) l (SameBelow-left t u i same) f.0,
  Rep-frame t u n (i * 2 + 1) r (SameBelow-right t u i same) f.1,
  rw
      (
        same i (Under-self i),
        same (i * 2) (Under-left i _ (Under-self _)),
        same (i * 2 + 1) (Under-right i _ (Under-self _)),
      )
      f.2,
  f.3,
)

-- No entry exceeds the size of its node's block.
pub Rep-le : (t : ℕ → ℕ) (n i : ℕ) (b : Block) → Rep t i n b → t i ≤ size n
Rep-le t zero i free f = omega arith
Rep-le t (suc n) i free f = omega arith
Rep-le t n i used f = omega arith
Rep-le t zero i (split l r) f = absurd f
Rep-le t (suc n) i (split l r) f =
    ground (arith, Rep-le t n (i * 2) l f.0, Rep-le t n (i * 2 + 1) r f.1, size_lem n)

-- Only a block that is handed out has the entry 0.
pub Rep-zero : (t : ℕ → ℕ) (n i : ℕ) (b : Block) → Rep t i n b → t i ≡ 0 → b ≡ used
Rep-zero t zero i free f e = absurd (omega arith)
Rep-zero t (suc n) i free f e = absurd (omega arith)
Rep-zero t n i used f e = refl
Rep-zero t zero i (split l r) f e = absurd f
Rep-zero t (suc n) i (split l r) f e = absurd (omega arith)

-- Only a free block has its own size as its entry.
pub Rep-whole : (t : ℕ → ℕ) (n i : ℕ) (b : Block) → Rep t i n b → t i ≡ size n → b ≡ free
Rep-whole t n i free f e = refl
Rep-whole t n i used f e = absurd (omega (arith, size_lem n))
Rep-whole t zero i (split l r) f e = absurd f
Rep-whole t (suc n) i (split l r) f e =
    absurd (ground (arith, Rep-le t n (i * 2) l f.0, Rep-le t n (i * 2 + 1) r f.1, size_lem n))

pub SameBelow-update : (u : ℕ → ℕ) (i j v : ℕ) → ¬ Under j i → SameBelow u (update u i v) j
SameBelow-update u i j v apart x h = update_ne u i x v (λ e. apart (rw e h))

-- Two halves that stand for blocks, under a node with a proper mark, stand for the split block.
pub Rep-join :
    (u : ℕ → ℕ) (i k v : ℕ) (l r : Block)
    → 0 < i
    → Rep u (i * 2) k l
    → Rep u (i * 2 + 1) k r
    → Unmerged l r
    → Mark v (u (i * 2)) (u (i * 2 + 1))
    → Rep (update u i v) i (suc k) (split l r)
Rep-join u i k v l r pos fl fr apart mark = (
  Rep-frame u _ k (i * 2) l (SameBelow-update u i (i * 2) v (not-Under-left i pos)) fl,
  Rep-frame u _ k (i * 2 + 1) r (SameBelow-update u i (i * 2 + 1) v (not-Under-right i pos)) fr,
  ground arith,
  apart,
)
