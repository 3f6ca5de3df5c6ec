-- ===== src/Irq/Order.antt =====
-- The handlers stay in the order of their numbers.
use jyy_os.Prelude.{
  ℕ, ◌≤◌, ◌<◌, ◌≡◌, inl, inr, refl, ap, leb, Bool-cases, leb→le, leb→lt, List, [], ◌∷◌, ◌++◌, All,
  arith,
}
use jyy_os.Irq.{Irq, os_on_irq}

-- Handlers in the order of their numbers, from `lo` on.
abbrev pub Sorted {ℓ} : {H : Type ℓ} → ℕ → List (Irq H) → Type 0
Sorted lo [] = Unit
Sorted lo (c ∷ rest) = (lo ≤ c.seq) × Sorted c.seq rest

-- The list after a registration: the handler stands behind those of lower numbers and before those
-- of its own number and higher ones, and the order is kept.
pub record Registered {ℓ} {H : Type ℓ} (lo : ℕ) (list : List (Irq H)) (h : Irq H) : Type ℓ where
  pub front : List (Irq H)
  pub back : List (Irq H)
  pub old : list ≡ front ++ back
  pub new : os_on_irq list h ≡ front ++ (h ∷ back)
  pub before : All (λ c. c.seq < h.seq) front
  pub behind : All (λ c. h.seq ≤ c.seq) back
  pub order : Sorted lo (os_on_irq list h)

Sorted-behind {ℓ} :
    {H : Type ℓ} (x lo : ℕ) (list : List (Irq H))
    → x ≤ lo
    → Sorted lo list
    → All (λ c. x ≤ c.seq) list
Sorted-behind x lo [] h o = tt
Sorted-behind x lo (c ∷ rest) h o =
    (omega (arith, o.0), Sorted-behind x c.seq rest (omega (arith, o.0)) o.1)

-- When the handlers are in the order of their numbers, `os_on_irq` puts a handler behind all those
-- of lower numbers and before all others, keeps those as they are, and the order with them.
pub on_irq-Registered {ℓ} :
    {H : Type ℓ} (lo : ℕ) (list : List (Irq H)) (h : Irq H)
    → lo ≤ h.seq
    → Sorted lo list
    → Registered lo list h
unfolding os_on_irq
on_irq-Registered lo [] h le o = record {
  front = [];
  back = [];
  old = refl;
  new = refl;
  before = tt;
  behind = tt;
  order = (le, tt);
}
on_irq-Registered lo (c ∷ rest) h le o = elim (Bool-cases (leb h.seq c.seq)) [
  | inl y ↦ record {
    front = [];
    back = c ∷ rest;
    old = refl;
    new = rw y refl;
    before = tt;
    behind = (leb→le _ _ y, Sorted-behind h.seq c.seq rest (leb→le _ _ y) o.1);
    order = rw y (le, (leb→le _ _ y, o.1));
  }
  | inr n ↦
      let r = on_irq-Registered c.seq rest h (omega (arith, leb→lt _ _ n)) o.1 in
      record {
        front = c ∷ r.front;
        back = r.back;
        old = ap (λ l. c ∷ l) r.old;
        new = rw n (ap (λ l. c ∷ l) r.new);
        before = (leb→lt _ _ n, r.before);
        behind = r.behind;
        order = rw n (o.0, r.order);
      }
]
