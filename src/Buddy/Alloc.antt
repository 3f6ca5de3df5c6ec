-- ===== src/Buddy/Alloc.antt =====
-- `get_the_free_space_in_tree` of tbma.c hands out one free block, and only that.
mod Close
pub use Close.{Allocated}
use jyy_os.Prelude.{
  ℕ, zero, suc, ◌+◌, ◌*◌, ◌^◌, ◌≤◌, ◌<◌, ◌≡◌, ◌≢◌, refl, ◌∙◌, Option, some, [], Outcome, done,
  ◌>>=◌, arith, Bool-cases, leb→le, inl, inr, false, zero, ◌⊎◌, leb, update, update_self, update_ne,
}
use mathlib.Core.Path.{subst}
use native.Mathlib.Decide.{ℕ_discrete}
use jyy_os.Prelude.Halving.{
  Under, Under-left, Under-right, Under-self, not-Under-left, not-Under-right, Under-apart,
}
use jyy_os.Buddy.{
  Tree, Area, get_the_free_space_in_tree, free_space_node, take_whole, close_node, chosen_child,
  after_alloc, larger, write_node,
}
use jyy_os.Buddy.Blocks.{
  Block, free, used, split, size, size_lem, handed_out, merged, GivesBack, here,
}
use jyy_os.Prelude.{Added, Added-left, Added-right, Added-ne-nil, Added-one}
use jyy_os.Buddy.Spot.{Spot, Spot-left, Spot-right, Spot-pos, mem_of, convert-Spot}
use jyy_os.Buddy.Rep.{
  Rep, Rep-join, Rep-frame, Rep-le, Unmerged, Rep-whole, AllFree, AllFree-top, AllFree-frame,
  SameBelow-update, FreeBelow,
}
use jyy_os.Buddy.Alloc.Close.{close_left, close_right, Halves-of, right_room}

-- A call whose node has room passes its assertions; for a smaller block it goes on below.
node_descends :
    (area : Area) (t : Tree) (i cur req : ℕ) (descend : ℕ → Outcome (Option ℕ × Tree))
    → req < 25
    → req < cur
    → t.node i ≤ cur
    → req ≤ t.node i
    → free_space_node area t i cur req descend
      ≡ (descend (chosen_child t i req) >>= λ r. done (close_node i req r))
unfolding free_space_node
node_descends area t i cur req descend small below le room = ground arith

-- A node of just the size asked for is taken whole.
node_takes :
    (area : Area) (t : Tree) (i n off : ℕ) (descend : ℕ → Outcome (Option ℕ × Tree))
    → mem_of area t + 2 ^ 24 ≤ 2 ^ 64
    → Spot i n off
    → t.node i ≡ size n
    → free_space_node area t i (size n) (size n) descend
      ≡ done (some (mem_of area t + off), write_node t i 0)
unfolding free_space_node take_whole
node_takes area t i n off descend fits spot e =
    ground (arith, size_lem n, spot.level, convert-Spot area t fits spot)

FreeBelow-taken : (t : ℕ → ℕ) (n i : ℕ) → 0 < i → AllFree t i n → FreeBelow (update t i 0) i n
FreeBelow-taken t zero i pos f = tt
FreeBelow-taken t (suc n) i pos f = (
  AllFree-frame t _ n (i * 2) (SameBelow-update t i (i * 2) 0 (not-Under-left i pos)) f.1,
  AllFree-frame t _ n (i * 2 + 1) (SameBelow-update t i (i * 2 + 1) 0 (not-Under-right i pos)) f.2,
)

-- A free block that is taken whole.
Allocated-whole :
    (t : Tree) (i n a : ℕ) (r : Outcome (Option ℕ × Tree))
    → 0 < i
    → AllFree t.node i n
    → r ≡ done (some a, write_node t i 0)
    → Allocated t i n a n free r
Allocated-whole t i n a r pos f e = record {
  ptr = a;
  nodes = update t.node i 0;
  block = used;
  result = e;
  rep = (update_self t.node i 0, FreeBelow-taken t.node n i pos f);
  frame = λ j out. update_ne t.node i j 0 (λ q. out (rw q (Under-self j)));
  added = Added-one (a, size n);
  lost = λ _. refl;
  undo = here refl refl;
}

-- Each call is one `free_space_node`, whatever it does below.
opened :
    (area : Area) (t : Tree) (i c req : ℕ)
    → (d : ℕ → Outcome (Option ℕ × Tree)) × (get_the_free_space_in_tree area t i c req
        ≡ free_space_node area t i c req d)
unfolding get_the_free_space_in_tree
opened area t i zero req = ((λ _. Outcome.panic), refl)
opened area t i (suc c) req = ((λ j. get_the_free_space_in_tree area t j c req), refl)

module _ (area : Area) (t : Tree) (fits : mem_of area t + 2 ^ 24 ≤ 2 ^ 64) where
  take_here :
      (n i off : ℕ) (b : Block)
      → Spot i n off
      → Rep t.node i n b
      → size n ≤ t.node i
      → Allocated t i n
          (mem_of area t + off)
          n
          b
          (get_the_free_space_in_tree area t i (size n) (size n))
  take_here n i off b spot f room =
      let whole : t.node i ≡ size n = omega (arith, Rep-le t.node n i b f) in
      let is_free : b ≡ free = Rep-whole t.node n i b f whole in
      let (d, e) = opened area t i (size n) (size n) in
      rw is_free (
        Allocated-whole t i n _ _ (Spot-pos spot) (subst (Rep t.node i n) is_free f)
          (e ∙ node_takes area t i n off d fits spot whole))

  module _ (k m : ℕ)
      (go : (j o : ℕ) (b : Block)
        → Spot j k o
        → Rep t.node j k b
        → size m ≤ t.node j
        → Allocated t j k
            (mem_of area t + o)
            m
            b
            (get_the_free_space_in_tree area t j (size k) (size m))) where
    -- A call for a smaller block, given what the recursive call does.
    take_below :
        (i off : ℕ) (b : Block)
        → Spot i (suc k) off
        → m ≤ k
        → Rep t.node i (suc k) b
        → size m ≤ t.node i
        → Allocated t i
            (suc k)
            (mem_of area t + off)
            m
            b
            (get_the_free_space_in_tree area t i (size (suc k)) (size m))
    unfolding get_the_free_space_in_tree
    take_below i off b spot le f room =
        let (l, r, h) = Halves-of t.node i k b (omega (arith, size_lem m)) f in
        let pos = Spot-pos spot in
        let enters =
          node_descends area t i (size (suc k)) (size m)
            (λ j. get_the_free_space_in_tree area t j (size k) (size m))
            (omega (arith, size_lem m, size_lem k, spot.level))
            (omega (arith, size_lem m, size_lem k)) (Rep-le t.node (suc k) i b f) room in
        rw enters (elim (Bool-cases (leb (size m) (t.node (i * 2)))) [
          | inl y ↦ rw y (
              close_left t i k _ m pos le h room
                (go (i * 2) off l (Spot-left spot) h.left (leb→le _ _ y)))
          | inr z ↦
              let next : mem_of area t + off + 2 ^ size k ≡ mem_of area t + (off + 2 ^ size k) =
                omega arith in
              rw z (
                close_right t i k _ m pos le h room (
                  rw next (
                    go (i * 2 + 1) _ r (Spot-right spot) h.right
                      (right_room t i k off m pos le h room z))))
        ])

  -- From any node that has room for a block of level `m` the search ends in one, passes every
  -- assertion, and hands out a block that was free.
  pub free_space-Allocated :
      (n m i off : ℕ) (b : Block)
      → Spot i n off
      → m ≤ n
      → Rep t.node i n b
      → size m ≤ t.node i
      → Allocated t i n
          (mem_of area t + off)
          m
          b
          (get_the_free_space_in_tree area t i (size n) (size m))
  free_space-Allocated zero m i off b spot le f room =
      let e : m ≡ 0 = omega arith in rw e (take_here 0 i off b spot f (rw e at room))
  free_space-Allocated (suc k) m i off b spot le f room = elim (ℕ_discrete m (suc k)) [
    | yes e ↦ rw e (take_here (suc k) i off b spot f (rw e at room))
    | no ne ↦
        take_below k m (λ j o c s g rm. free_space-Allocated k m j o c s (omega arith) g rm) i off b
          spot (omega arith) f room
  ]
