-- ===== src/Buddy/Apart.antt =====
-- No two blocks that tbma.c has handed out overlap.
use mathlib.Core.Path.{subst}
use mathlib.Core.List.{Memᴰ}
use native.Mathlib.Decide.{ℕ_discrete, dec_lt}
use jyy_os.Prelude.{
  ℕ, ◌+◌, ◌^◌, ◌≤◌, ◌≡◌, ◌⊎◌, inl, inr, some, none, Option, Outcome, done, arith, ◌∙◌, refl, sym,
  List, [], ◌∷◌, ◌++◌,
}
use jyy_os.Buddy.{determine_bbma_size}
use jyy_os.Buddy.System.{Bbma, bbma_alloc}
use jyy_os.Buddy.Blocks.{Block, handed_out, InOrder, handed_out-InOrder, mem_append, AlignedTo}
use jyy_os.Prelude.{Added}
use jyy_os.Buddy.State.{area_of, Ready, with_tree, determine_bounds}
use jyy_os.Buddy.Service.{Granted, bbma_alloc_lem}

-- The bytes of two blocks, given as address and exponent, are disjoint.
abbrev pub Apart : ℕ × ℕ → ℕ × ℕ → Type 0
Apart (p, e) (q, d) = (p + 2 ^ e ≤ q) ⊎ (q + 2 ^ d ≤ p)

abbrev pub Inside : ℕ → ℕ → ℕ × ℕ → Type 0
Inside lo hi (p, e) = (lo ≤ p) × (p + 2 ^ e ≤ hi)

InOrder-le : (lo hi : ℕ) (bs : List (ℕ × ℕ)) → InOrder lo bs hi → lo ≤ hi
InOrder-le lo hi [] o = o
InOrder-le lo hi ((a, k) ∷ bs) o = omega (arith, o.0, InOrder-le (a + 2 ^ k) hi bs o.1)

pub InOrder-Inside :
    (lo hi : ℕ) (bs : List (ℕ × ℕ)) (x : ℕ × ℕ) → InOrder lo bs hi → Memᴰ x bs → Inside lo hi x
InOrder-Inside lo hi [] x o m = elim m [ ]
InOrder-Inside lo hi ((a, k) ∷ bs) x o (Memᴰ.head e) =
    subst (Inside lo hi) (sym e) (o.0, InOrder-le (a + 2 ^ k) hi bs o.1)
InOrder-Inside lo hi ((a, k) ∷ bs) (p, e) o (Memᴰ.tail m) =
    let (l, h) = InOrder-Inside (a + 2 ^ k) hi bs (p, e) o.1 m in (omega (arith, o.0), h)

InOrder-back :
    (lo hi : ℕ) (front : List (ℕ × ℕ)) (p e : ℕ) (back : List (ℕ × ℕ))
    → InOrder lo (front ++ ((p, e) ∷ back)) hi
    → InOrder lo front p × InOrder (p + 2 ^ e) back hi
InOrder-back lo hi [] p e back o = o
InOrder-back lo hi ((a, k) ∷ front) p e back o =
    let (l, h) = InOrder-back (a + 2 ^ k) hi front p e back o.1 in ((o.0, l), h)

Added-Apart :
    (lo hi p e : ℕ) (before after : List (ℕ × ℕ)) (x : ℕ × ℕ)
    → InOrder lo after hi
    → Added (p, e) before after
    → Memᴰ x before
    → Apart (p, e) x
Added-Apart lo hi p e before after (q, d) o added m =
    let (l, h) =
      InOrder-back lo hi added.front p e added.back (subst (λ l. InOrder lo l hi) added.new o) in
    elim (mem_append added.front added.back (subst (Memᴰ (q, d)) added.old m)) [
      | inl f ↦ inr (InOrder-Inside lo p added.front (q, d) l f).1
      | inr b ↦ inl (InOrder-Inside (p + 2 ^ e) hi added.back (q, d) h b).0
    ]

pub mem_middle {ℓ} : {A : Type ℓ} (x : A) (front back : List A) → Memᴰ x (front ++ (x ∷ back))
mem_middle x [] back = Memᴰ.head refl
mem_middle x (y ∷ front) back = Memᴰ.tail (mem_middle x front back)

pub Granted-Apart :
    (s : Bbma) (blocks : ℕ → Block) (req : ℕ) (g : Granted s blocks req) (j : ℕ) (x : ℕ × ℕ)
    → 1 ≤ j
    → Memᴰ x (handed_out 12 (area_of s j) (blocks j))
    → Apart (g.ptr, determine_bbma_size req) x
Granted-Apart s blocks req g j (q, d) above m = elim (ℕ_discrete g.i j) [
  | yes same ↦
      Added-Apart (area_of s g.i) _ g.ptr _ _ _ (q, d)
        (handed_out-InOrder 12 (area_of s g.i) _ g.block refl) g.added
        (subst (λ k. Memᴰ (q, d) (handed_out 12 (area_of s k) (blocks k))) (sym same) m)
  | no other ↦
      let mine : Memᴰ (g.ptr, determine_bbma_size req) (handed_out 12 (area_of s g.i) g.block) =
        subst (Memᴰ (g.ptr, determine_bbma_size req)) (sym g.added.new)
          (mem_middle _ g.added.front g.added.back) in
      let (l, h) =
        InOrder-Inside (area_of s g.i) (area_of s g.i + 2 ^ 24) _ (g.ptr, determine_bbma_size req)
          (handed_out-InOrder 12 (area_of s g.i) _ g.block refl) mine in
      let (l', h') =
        InOrder-Inside (area_of s j) (area_of s j + 2 ^ 24) _ (q, d)
          (handed_out-InOrder 12 (area_of s j) _ (blocks j) refl) m in
      elim (dec_lt g.i j) [
        | yes before ↦ inl (omega (arith, g.above))
        | no after ↦ inr (omega (arith, g.above))
      ]
]

-- In a state in which each tree stands for its blocks, and for a size of 16 MB at most: when
-- `bbma_alloc` returns a block, it begins at a multiple of 2 ^ `determine_bbma_size` of the size,
-- that many bytes hold the size, and they overlap none of the blocks that any tree had handed out.
pub bbma_alloc-Apart :
    (s s' : Bbma) (blocks : ℕ → Block) (req p : ℕ)
    → Ready s blocks
    → req ≤ 2 ^ 24
    → bbma_alloc s req ≡ done (some p, s')
    → AlignedTo p (determine_bbma_size req)
      × (req ≤ 2 ^ determine_bbma_size req)
      × ((j : ℕ) (x : ℕ × ℕ)
          → 1 ≤ j
          → Memᴰ x (handed_out 12 (area_of s j) (blocks j))
          → Apart (p, determine_bbma_size req) x)
bbma_alloc-Apart s s' blocks req p r small e = elim (bbma_alloc_lem s blocks req r small) [
  | inl g ↦
      let q : ◌≡◌ {A = Outcome (Option ℕ × Bbma)} (done (some g.ptr, with_tree s g.i g.tree))
          (done (some p, s')) =
        sym g.result ∙ e in
      let qp : g.ptr ≡ p = cc in
      (
        subst (λ t. AlignedTo t (determine_bbma_size req)) qp g.aligned,
        (determine_bounds req small).2,
        λ j x above m.
            subst (λ t. Apart (t, determine_bbma_size req) x) qp
              (Granted-Apart s blocks req g j x above m),
      )
  | inr no_block ↦
      let q : ◌≡◌ {A = Outcome (Option ℕ × Bbma)} (done (none, s)) (done (some p, s')) =
        sym no_block.result ∙ e in
      absurd (cc)
]
