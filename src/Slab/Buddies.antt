-- ===== src/Slab/Buddies.antt =====
-- The slab allocator on the buddy allocator of kernel/src/tbma.c.
use mathlib.Core.Path.{subst}
use mathlib.Core.List.{Memᴰ}
use mathlib.Core.List.Memᴰ
use native.Mathlib.Nat.{one-le-pow}
use jyy_os.Prelude.{
  ℕ, ◌%◌, ◌≤◌, ◌<◌, ◌≡◌, ◌⊎◌, inl, inr, refl, sym, List, ◌∷◌, update, update_ne, update_self, arith,
  if◌then◌else◌, ◌==◌, Option, none, some, eq-cases, Outcome, done, ◌>>=◌, Added,
}
use jyy_os.Buddy.{determine_bbma_size}
use jyy_os.Buddy.System.{Bbma, bbma_alloc, bbma_free}
use jyy_os.Buddy.Blocks.{Block, handed_out, handed_out-InOrder, mem_append}
use jyy_os.Buddy.State.{area_of, Ready, with_tree}
use jyy_os.Buddy.Service.{Granted, bbma_alloc_lem}
use jyy_os.Buddy.Apart.{InOrder-Inside, mem_middle, Granted-Apart}
use jyy_os.Slab.Grant.{PageSource}

-- NULL is the address 0.
abbrev pub address : Option ℕ → ℕ
address none = 0
address (some p) = p

unfoldable pub page_alloc : Bbma → ℕ → Outcome (ℕ × Bbma)
page_alloc s size = bbma_alloc s size >>= λ r. done (address r.0, r.1)

unfoldable pub page_free : Bbma → ℕ → Outcome Bbma
page_free s p = bbma_free s (if p == 0 then none else (some p))

-- A block that some tree has handed out begins there.
abbrev pub OwnedBlock : Bbma → (ℕ → Block) → ℕ → Type 0
OwnedBlock s blocks x =
    (j : ℕ) × (e : ℕ) × (1 ≤ j) × Memᴰ (x, e) (handed_out 12 (area_of s j) (blocks j))

-- The block that is added, and those that were there
added-mem :
    {x y : ℕ × ℕ} {before after : List (ℕ × ℕ)}
    → Added x before after
    → Memᴰ y before
    → Memᴰ y after
added-mem {x} {y} d m =
    subst (Memᴰ y) (sym d.new) (elim (mem_append d.front d.back (subst (Memᴰ y) d.old m)) [
      | inl f ↦ Memᴰ.append_left (x ∷ d.back) f
      | inr b ↦ Memᴰ.append_right d.front (Memᴰ.tail b)
    ])

granted :
    (s : Bbma) (blocks : ℕ → Block)
    → Ready s blocks × (0 < s.begin_alloc_addr)
    → Granted s blocks 4096
    → (q : ℕ) × (s' : Bbma) × (blocks' : ℕ → Block) × (page_alloc s 4096 ≡ done (q, s'))
      × (Ready s' blocks' × (0 < s'.begin_alloc_addr))
      × (q % 4096 ≡ 0)
      × (0 < q)
      × (¬ OwnedBlock s blocks q)
      × OwnedBlock s' blocks' q
      × ((x : ℕ) → OwnedBlock s blocks x → OwnedBlock s' blocks' x)
unfolding page_alloc determine_bbma_size
granted s blocks good g = (
  g.ptr,
  with_tree s g.i g.tree,
  update blocks g.i g.block,
  rw (g.result) refl,
  (g.ready, good.1),
  omega (arith, g.aligned.1),
  omega (
    arith,
    (InOrder-Inside (area_of s g.i) _ _ (g.ptr, 12)
        (handed_out-InOrder 12 (area_of s g.i) _ g.block refl) mine).0,
    good.1,
  ),
  (λ (j, e, above, m). elim (Granted-Apart s blocks 4096 g j (g.ptr, e) above m) [
    | inl le ↦ omega (arith, le)
    | inr le ↦ omega (arith, le, one-le-pow e 2 (omega arith))
  ]),
  (
    g.i,
    12,
    g.above,
    subst (λ c. Memᴰ (g.ptr, 12) (handed_out 12 (area_of s g.i) c))
        (sym (update_self blocks g.i g.block)) mine,
  ),
  λ x (j, e, above, m). (
    j,
    e,
    above,
    elim (eq-cases g.i j) [
      | inl y ↦
          subst (λ i. Memᴰ (x, e) (handed_out 12 (area_of s i) (update blocks g.i g.block i))) y.0
            (subst (λ c. Memᴰ (x, e) (handed_out 12 (area_of s g.i) c))
              (sym (update_self blocks g.i g.block))
              (added-mem g.added
                (subst (λ i. Memᴰ (x, e) (handed_out 12 (area_of s i) (blocks i))) (sym y.0) m)))
      | inr y ↦
          subst (λ c. Memᴰ (x, e) (handed_out 12 (area_of s j) c))
            (sym (update_ne blocks g.i j g.block y.0)) m
    ],
  ),
)
  where
    mine : Memᴰ (g.ptr, 12) (handed_out 12 (area_of s g.i) g.block)
    mine = subst (Memᴰ (g.ptr, 12)) (sym g.added.new) (mem_middle _ g.added.front g.added.back)

-- `page_alloc` gives a new page, or NULL and changes nothing.
pub page_alloc_law :
    (s : Bbma) (blocks : ℕ → Block)
    → Ready s blocks × (0 < s.begin_alloc_addr)
    → ((q : ℕ) × (s' : Bbma) × (blocks' : ℕ → Block) × (page_alloc s 4096 ≡ done (q, s'))
        × (Ready s' blocks' × (0 < s'.begin_alloc_addr))
        × (q % 4096 ≡ 0)
        × (0 < q)
        × (¬ OwnedBlock s blocks q)
        × OwnedBlock s' blocks' q
        × ((x : ℕ) → OwnedBlock s blocks x → OwnedBlock s' blocks' x))
      ⊎ (page_alloc s 4096 ≡ done (0, s))
unfolding page_alloc
page_alloc_law s blocks good = elim (bbma_alloc_lem s blocks 4096 good.0 (omega arith)) [
  | inr r ↦ inr (rw (r.result) refl)
  | inl g ↦ inl (granted s blocks good g)
]

-- The buddy allocator, while its trees stand for their blocks and its memory is not at 0, is a source
-- of pages as the slab allocator needs it.
abbrev pub buddies : PageSource Bbma page_alloc
buddies = record {
  Ghost = ℕ → Block;
  Good = λ s blocks. Ready s blocks × (0 < s.begin_alloc_addr);
  Owned = OwnedBlock;
  alloc_law = page_alloc_law;
}
