-- ===== src/Prelude/Ring.antt =====
-- A list in an array that is used as a ring: from place `front` on, going round at `cap`.
use Prim.Native.Nat.{ℕ, suc, ◌+◌, ◌-◌, ◌≤◌, ◌<◌}
use mathlib.Core.Path.{◌≡◌, sym, ◌∙◌, ap, subst}
use mathlib.Core.Logic.{◌≢◌}
use mathlib.Core.List.{List, [], ◌∷◌, ◌++◌}
use native.Mathlib.Omega.{arith}
use jyy_os.Prelude.Tests.{ltb, if◌then◌else◌}
use jyy_os.Prelude.Lists.{length}
use jyy_os.Prelude.Store.{update, update_ne}

-- The place of entry `i` of the list, for `i` up to `cap`.
abbrev pub slot : ℕ → ℕ → ℕ → ℕ
slot cap front i = if ltb (front + i) cap then front + i else front + i - cap

pub slot-lt : (cap front i : ℕ) → front < cap → i ≤ cap → slot cap front i < cap
slot-lt cap front i h le = ground arith

pub slot-ne :
    (cap front i j : ℕ) → front < cap → i < j → j < cap → slot cap front i ≢ slot cap front j
slot-ne cap front i j h lt le = ground arith

-- A place counted from another place
pub slot-slot :
    (cap front k i j : ℕ)
    → front < cap
    → j ≡ k + i
    → j < cap
    → slot cap (slot cap front k) i ≡ slot cap front j
slot-slot cap front k i j h e lt = ground (arith, e)

module _ {ℓ} {A : Type ℓ} where
  -- From entry `i` on, the array holds the list.
  abbrev pub HoldsFrom : (ℕ → A) → ℕ → ℕ → ℕ → List A → Type ℓ
  HoldsFrom buf cap front i [] = Unit
  HoldsFrom buf cap front i (x ∷ q) =
      (buf (slot cap front i) ≡ x) × HoldsFrom buf cap front (suc i) q

  -- A write behind the list is not seen in it.
  pub HoldsFrom-update :
      (buf : ℕ → A) (cap front i j : ℕ) (x : A) (q : List A)
      → front < cap
      → i + length q ≤ j
      → j < cap
      → HoldsFrom buf cap front i q
      → HoldsFrom (update buf (slot cap front j) x) cap front i q
  HoldsFrom-update buf cap front i j x [] h le lt o = tt
  HoldsFrom-update buf cap front i j x (y ∷ q) h le lt o = (
    update_ne buf (slot cap front j) (slot cap front i) x
          (λ e. slot-ne cap front i j h (omega (arith, le)) lt (sym e))
        ∙ o.0,
    HoldsFrom-update buf cap front (suc i) j x q h (omega (arith, le)) lt o.1,
  )

  pub HoldsFrom-append :
      (buf : ℕ → A) (cap front i j : ℕ) (q r : List A)
      → j ≡ i + length q
      → HoldsFrom buf cap front i q
      → HoldsFrom buf cap front j r
      → HoldsFrom buf cap front i (q ++ r)
  HoldsFrom-append buf cap front i j [] r e o p =
      subst (λ k. HoldsFrom buf cap front k r) (omega (arith, e)) p
  HoldsFrom-append buf cap front i j (y ∷ q) r e o p =
      (o.0, HoldsFrom-append buf cap front (suc i) j q r (omega (arith, e)) o.1 p)

  -- The list seen from one place further on.
  pub HoldsFrom-next :
      (buf : ℕ → A) (cap front i : ℕ) (q : List A)
      → front < cap
      → i + length q < cap
      → HoldsFrom buf cap front (suc i) q
      → HoldsFrom buf cap (slot cap front 1) i q
  HoldsFrom-next buf cap front i [] h le o = tt
  HoldsFrom-next buf cap front i (y ∷ q) h le o = (
    ap buf (ground arith) ∙ o.0,
    HoldsFrom-next buf cap front (suc i) q h (omega (arith, le)) o.1,
  )

  pub HoldsFrom-split :
      (buf : ℕ → A) (cap front i : ℕ) (q r : List A)
      → HoldsFrom buf cap front i (q ++ r)
      → HoldsFrom buf cap front i q × HoldsFrom buf cap front (i + length q) r
  HoldsFrom-split buf cap front i [] r o =
      (tt, subst (λ k. HoldsFrom buf cap front k r) (omega arith) o)
  HoldsFrom-split buf cap front i (y ∷ q) r o =
      let s = HoldsFrom-split buf cap front (suc i) q r o.1 in
      ((o.0, s.0), subst (λ k. HoldsFrom buf cap front k r) (omega arith) s.1)

  -- The list seen from further on
  pub HoldsFrom-shift :
      (buf : ℕ → A) (cap front k i j : ℕ) (q : List A)
      → front < cap
      → j ≡ k + i
      → j + length q ≤ cap
      → HoldsFrom buf cap front j q
      → HoldsFrom buf cap (slot cap front k) i q
  HoldsFrom-shift buf cap front k i j [] h e le o = tt
  HoldsFrom-shift buf cap front k i j (y ∷ q) h e le o = (
    ap buf (slot-slot cap front k i j h e (omega (arith, le))) ∙ o.0,
    HoldsFrom-shift buf cap front k (suc i) (suc j) q h (omega (arith, e)) (omega (arith, le)) o.1,
  )

  pub HoldsFrom-last :
      (buf : ℕ → A) (cap front : ℕ) (q : List A) (x : A)
      → HoldsFrom buf cap front 0 (q ++ (x ∷ []))
      → HoldsFrom buf cap front 0 q × (buf (slot cap front (length q)) ≡ x)
  HoldsFrom-last buf cap front q x h =
      let s = HoldsFrom-split buf cap front 0 q (x ∷ []) h in
      (s.0, subst (λ k. buf (slot cap front k) ≡ x) (omega arith) s.1.0)
