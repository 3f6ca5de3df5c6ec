-- ===== src/Buddy/Blocks.antt =====
-- What a tree of tbma.c stands for: an area cut in halves, some of whose blocks are handed out.
-- The levels count from the pages: a block of level `n` has 2 ^ (12 + n) bytes.
use jyy_os.Prelude.{
  ℕ, zero, suc, ◌+◌, ◌-◌, ◌*◌, ◌^◌, ◌≤◌, ◌<◌, ◌≡◌, refl, List, [], ◌∷◌, ◌++◌, arith, sym, ap, ◌⊎◌,
  inl, inr,
}
use mathlib.Core.List.{Memᴰ}

pub mem_append {ℓ} :
    {A : Type ℓ} {x : A} (xs ys : List A) → Memᴰ x (xs ++ ys) → Memᴰ x xs ⊎ Memᴰ x ys
mem_append [] ys m = inr m
mem_append (y ∷ xs) ys (Memᴰ.head e) = inl (Memᴰ.head e)
mem_append (y ∷ xs) ys (Memᴰ.tail m) = elim (mem_append xs ys m) [
  | inl u ↦ inl (Memᴰ.tail u)
  | inr v ↦ inr v
]

pub data Block : Type 0 where
  free : Block
  used : Block
  split : Block → Block → Block

-- The exponent of the size of a block: `cur_size` in tbma.c.
abbrev pub size : ℕ → ℕ
size zero = 12
size (suc n) = suc (size n)

pub size_lem : (n : ℕ) → size n ≡ n + 12
size_lem zero = refl
size_lem (suc n) = omega (arith, size_lem n)

pub size_pred : (n : ℕ) → suc (size n) - 1 ≡ size n
size_pred n = omega arith

-- The blocks that are handed out, as addresses and exponents, in the order of their addresses.
abbrev pub handed_out : ℕ → ℕ → Block → List (ℕ × ℕ)
handed_out n a free = []
handed_out n a used = (a, size n) ∷ []
handed_out zero a (split l r) = []
handed_out (suc n) a (split l r) = handed_out n a l ++ handed_out n (a + 2 ^ size n) r

-- The blocks of a list lie between `lo` and `hi`, each behind the one before it.
abbrev pub InOrder : ℕ → List (ℕ × ℕ) → ℕ → Type 0
InOrder lo [] hi = lo ≤ hi
InOrder lo ((a, k) ∷ bs) hi = (lo ≤ a) × InOrder (a + 2 ^ k) bs hi

InOrder-append :
    (lo mid hi : ℕ) (bs cs : List (ℕ × ℕ))
    → InOrder lo bs mid
    → InOrder mid cs hi
    → InOrder lo (bs ++ cs) hi
InOrder-append lo mid hi [] [] p q = omega arith
InOrder-append lo mid hi [] ((a, k) ∷ cs) p q = (omega arith, q.1)
InOrder-append lo mid hi ((a, k) ∷ bs) cs p q = (p.0, InOrder-append (a + 2 ^ k) mid hi bs cs p.1 q)

pub pow-suc_two : (k : ℕ) → 2 ^ suc k ≡ 2 * 2 ^ k
pow-suc_two k = grind arith

pub pow_pos : (k : ℕ) → 0 < 2 ^ k
pow_pos zero = omega arith
pow_pos (suc k) = omega (arith, pow-suc_two k, pow_pos k)

-- Blocks that are handed out do not overlap, and lie inside the area.
pub handed_out-InOrder :
    (n a hi : ℕ) (b : Block) → hi ≡ a + 2 ^ size n → InOrder a (handed_out n a b) hi
handed_out-InOrder n a hi free e = omega arith
handed_out-InOrder n a hi used e = (omega arith, omega arith)
handed_out-InOrder zero a hi (split l r) e = omega arith
handed_out-InOrder (suc n) a hi (split l r) e =
    InOrder-append a (a + 2 ^ size n) hi _ _ (handed_out-InOrder n a _ l refl)
      (handed_out-InOrder n (a + 2 ^ size n) hi r (omega (arith, pow-suc_two (size n))))

-- Two halves as one block.
abbrev pub merged : Block → Block → Block
merged free free = free
merged free used = split free used
merged free (split x y) = split free (split x y)
merged used r = split used r
merged (split x y) r = split (split x y) r

pub handed_out-merged :
    (k a : ℕ) (l r : Block) → handed_out (suc k) a (merged l r) ≡ handed_out (suc k) a (split l r)
handed_out-merged k a free free = refl
handed_out-merged k a free used = refl
handed_out-merged k a free (split x y) = refl
handed_out-merged k a used r = refl
handed_out-merged k a (split x y) r = refl

-- The block of 2 ^ `e` bytes at the address `p` is handed out, in the block `b` of level `n` at `a`,
-- and `c` is what `b` becomes when it is given back: two free halves are merged.
pub data GivesBack (p e : ℕ) : (n a : ℕ) → Block → Block → Type 0 where
  here : {n a : ℕ} → size n ≡ e → a ≡ p → GivesBack p e n a used free
  left :
      {k a : ℕ} {l l' r : Block}
      → GivesBack p e k a l l'
      → GivesBack p e (suc k) a (split l r) (merged l' r)
  right :
      {k a : ℕ} {l r r' : Block}
      → GivesBack p e k (a + 2 ^ size k) r r'
      → GivesBack p e (suc k) a (split l r) (merged l r')

-- The block lies inside the one that it is a part of.
pub GivesBack-inside :
    {p e n a : ℕ} {b c : Block} → GivesBack p e n a b c → (a ≤ p) × (p < a + 2 ^ size n)
GivesBack-inside {n = n} (here q s) = omega (arith, pow_pos (size n))
GivesBack-inside (left {k} g) = omega (arith, GivesBack-inside g, pow-suc_two (size k))
GivesBack-inside (right {k} g) = omega (arith, GivesBack-inside g, pow-suc_two (size k))

-- A block at a multiple of its size has all its parts at multiples of theirs.
abbrev pub AlignedTo : ℕ → ℕ → Type 0
AlignedTo a e = (x : ℕ) × (a ≡ x * 2 ^ e)

halved : (a x p q : ℕ) → a ≡ x * q → q ≡ 2 * p → a ≡ 2 * x * p
halved a x p q h e = rw (h, e) (omega arith)

pub GivesBack-aligned :
    {p e n a : ℕ} {b c : Block} → GivesBack p e n a b c → AlignedTo a (size n) → AlignedTo p e
GivesBack-aligned (here q s) (x, h) = (x, rw (← q, ← s) h)
GivesBack-aligned (left {k} {a} g) (x, h) =
    GivesBack-aligned g (2 * x, halved a x _ _ h (pow-suc_two (size k)))
GivesBack-aligned (right {k} {a} g) (x, h) =
    GivesBack-aligned g (2 * x + 1, omega (arith, halved a x _ _ h (pow-suc_two (size k))))

-- Every block that is handed out can be given back.
pub give_back :
    (n a p e : ℕ) (b : Block) → Memᴰ (p, e) (handed_out n a b) → (c : Block) × GivesBack p e n a b c
give_back n a p e free m = elim m [ ]
give_back n a p e used (Memᴰ.head q) = (free, here (sym (ap (λ x. x.1) q)) (sym (ap (λ x. x.0) q)))
give_back n a p e used (Memᴰ.tail m) = elim m [ ]
give_back zero a p e (split l r) m = elim m [ ]
give_back (suc n) a p e (split l r) m = elim (mem_append (handed_out n a l) _ m) [
  | inl x ↦ let (c, g) = give_back n a p e l x in (merged c r, left g)
  | inr y ↦ let (c, g) = give_back n (a + 2 ^ size n) p e r y in (merged l c, right g)
]
