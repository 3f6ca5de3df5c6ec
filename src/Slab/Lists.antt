-- ===== src/Slab/Lists.antt =====
-- The lists of the slab allocator: the free blocks of a page, and the pages of a processor.
use mathlib.Core.Path.{subst}
use jyy_os.Prelude.{
  ℕ, ◌+◌, ◌%◌, ◌^◌, ◌≤◌, ◌<◌, ◌≡◌, ◌≢◌, sym, List, [], ◌∷◌, All, update, update_ne, arith,
}

-- From `head` on the words `next` link the list, none of whose entries is NULL.
abbrev pub Linked : (ℕ → ℕ) → ℕ → List ℕ → Type 0
Linked next head [] = head ≡ 0
Linked next head (x ∷ l) = (head ≡ x) × (0 < x) × Linked next (next x) l

-- A word that is not in the list can be written.
pub Linked-update :
    (next : ℕ → ℕ) (at_place value head : ℕ) (l : List ℕ)
    → All (λ x. at_place ≢ x) l
    → Linked next head l
    → Linked (update next at_place value) head l
Linked-update next at_place value head [] apart h = h
Linked-update next at_place value head (x ∷ l) apart h = (
  h.0,
  h.1,
  subst (λ y. Linked (update next at_place value) y l)
      (sym (update_ne next at_place x value apart.0))
      (Linked-update next at_place value (next x) l apart.1 h.2),
)

-- The same words link the same list.
pub Linked-same :
    (next next' : ℕ → ℕ) (head : ℕ) (l : List ℕ)
    → All (λ x. next' x ≡ next x) l
    → Linked next head l
    → Linked next' head l
Linked-same next next' head [] same h = h
Linked-same next next' head (x ∷ l) same h = (
  h.0,
  h.1,
  subst (λ y. Linked next' y l) (sym same.0) (Linked-same next next' (next x) l same.1 h.2),
)

-- No entry of the list occurs twice.
abbrev pub Different : List ℕ → Type 0
Different [] = Unit
Different (x ∷ l) = All (λ y. x ≢ y) l × Different l

-- A place of a block of 2 ^ k bytes in the page, behind the stick
abbrev pub Slot : ℕ → ℕ → ℕ → Type 0
Slot page k b = (page + 32 ≤ b) × (b + 2 ^ k ≤ page + 4096) × (b % 2 ^ k ≡ 0)

-- Addresses of other pages
pub other_page :
    (page other b : ℕ)
    → page % 4096 ≡ 0
    → other % 4096 ≡ 0
    → page ≢ other
    → page < b
    → b < page + 4096
    → (other < b)
    → (b < other + 4096)
    → page ≡ other
other_page page other b h h' ne lo hi lo' hi' = omega arith
