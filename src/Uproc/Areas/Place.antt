-- ===== src/Uproc/Areas/Place.antt =====
-- The lists of uproc.c, lines 162 to 220, as `insert_vme_node` changes them and `find_vme_node`
-- reads them.
use jyy_os.Prelude.{
  ℕ, ◌≤◌, ◌<◌, ◌≡◌, ◌⊎◌, inl, inr, refl, Option, none, some, List, [], ◌∷◌, ◌++◌, ap, arith, leb,
  leb→le, leb→lt, le→leb, Bool-cases, Added, All,
}
use jyy_os.Uproc.Areas.{Area, insert_vme_node, find_vme_node, suitable_from}
use jyy_os.Uproc.Areas.Order.{InOrder, Clear}

pub record Inserted (lo : ℕ) (areas : List Area) (node : Area) : Type 0 where
  pub after : List Area
  pub result : insert_vme_node areas node ≡ some after
  pub order : InOrder lo after
  pub added : Added node areas after

pub insert-Inserted :
    (lo : ℕ) (areas : List Area) (node : Area)
    → InOrder lo areas
    → Clear node.vm_start node.vm_end areas
    → lo ≤ node.vm_start
    → node.vm_start < node.vm_end
    → Inserted lo areas node
unfolding insert_vme_node
insert-Inserted lo [] node o cl h ne = record {
  after = node ∷ [];
  result = refl;
  order = (h, ne, tt);
  added = record { front = []; back = []; old = refl; new = refl };
}
insert-Inserted lo (c ∷ rest) node o cl h ne = elim (Bool-cases (leb node.vm_end c.vm_start)) [
  | inl before ↦ record {
    after = node ∷ c ∷ rest;
    result = rw before refl;
    order = (h, ne, (leb→le _ _ before, o.1, o.2));
    added = record { front = []; back = c ∷ rest; old = refl; new = refl };
  }
  | inr reaches ↦ elim cl.0 [
    | inl bad ↦ absurd (omega (arith, bad, leb→lt _ _ reaches))
    | inr behind ↦
        let r = insert-Inserted c.vm_end rest node o.2 cl.1 behind ne in
        record {
          after = c ∷ r.after;
          result = rw (reaches, le→leb _ _ behind, r.result) refl;
          order = (o.0, o.1, r.order);
          added = record {
            front = c ∷ r.added.front;
            back = r.added.back;
            old = ap (λ l. c ∷ l) r.added.old;
            new = ap (λ l. c ∷ l) r.added.new;
          };
        }
  ]
]

-- An address from which the search of `get_suitable_addr` goes on is the one it started with or
-- the end of an area.
pub suitable-le :
    (pgsize length top : ℕ) (areas : List Area) (addr end_addr : ℕ)
    → All (λ c. c.vm_end ≤ top) areas
    → addr ≤ top
    → (suitable_from pgsize length areas addr end_addr).0 ≤ top
unfolding suitable_from
suitable-le pgsize length top [] addr end_addr b h = h
suitable-le pgsize length top (c ∷ rest) addr end_addr b h =
    elim (Bool-cases (leb end_addr c.vm_start)) [
      | inl before ↦ rw before h
      | inr reaches ↦ rw reaches (elim (Bool-cases (leb c.vm_end addr)) [
        | inl passed ↦ rw passed (suitable-le pgsize length top rest addr end_addr b.1 h)
        | inr meets ↦ rw meets (suitable-le pgsize length top rest c.vm_end _ b.1 b.0)
      ])
    ]

-- A list without an area around the bytes from `addr` up to `end_addr`.
abbrev pub Outside : ℕ → ℕ → List Area → Type 0
Outside addr end_addr = All (λ c. (addr < c.vm_start) ⊎ (c.vm_end < end_addr))

Outside-above :
    (addr end_addr lo : ℕ) (areas : List Area)
    → addr < lo
    → InOrder lo areas
    → Outside addr end_addr areas
Outside-above addr end_addr lo [] h o = tt
Outside-above addr end_addr lo (c ∷ rest) h o = (
  inl (omega (arith, o.0)),
  Outside-above addr end_addr c.vm_end rest (omega (arith, o.0, o.1)) o.2,
)

-- What `find_vme_node` gives: an area of the list that holds the bytes, or `none` where no area
-- of the list does.
abbrev pub Found : List Area → ℕ → ℕ → Option Area → Type 0
Found areas addr end_addr (some c) =
    (front : List Area) × (back : List Area) × (areas ≡ front ++ (c ∷ back))
    × (c.vm_start ≤ addr)
    × (end_addr ≤ c.vm_end)
Found areas addr end_addr none = Outside addr end_addr areas

Found-behind :
    (c : Area) (rest : List Area) (addr end_addr : ℕ) (r : Option Area)
    → c.vm_end < end_addr
    → Found rest addr end_addr r
    → Found (c ∷ rest) addr end_addr r
Found-behind c rest addr end_addr (some d) h f = (c ∷ f.0, f.1, ap (λ l. c ∷ l) f.2, f.3, f.4)
Found-behind c rest addr end_addr none h f = (inr h, f)

-- In a list of areas in order, `find_vme_node` for the bytes from `addr` up to `end_addr`, one or
-- more, gives an area of the list that holds them all, or `none` when no area of the list does.
pub find_vme_node_lem :
    (lo : ℕ) (areas : List Area) (addr end_addr : ℕ)
    → InOrder lo areas
    → addr < end_addr
    → Found areas addr end_addr (find_vme_node areas addr end_addr)
unfolding find_vme_node
find_vme_node_lem lo [] addr end_addr o ne = tt
find_vme_node_lem lo (c ∷ rest) addr end_addr o ne = elim (Bool-cases (leb c.vm_start addr)) [
  | inr after ↦ rw after (elim (Bool-cases (leb c.vm_end addr)) [
    | inl bad ↦ absurd (omega (arith, leb→le _ _ bad, leb→lt _ _ after, o.1))
    | inr not_behind ↦ rw not_behind (
      inl (leb→lt _ _ after),
      Outside-above addr end_addr c.vm_end rest (leb→lt _ _ not_behind) o.2,
    )
  ])
  | inl starts ↦ rw starts (elim (Bool-cases (leb end_addr c.vm_end)) [
    | inl ends ↦ rw ends ([], rest, refl, leb→le _ _ starts, leb→le _ _ ends)
    | inr short ↦ rw short (elim (Bool-cases (leb c.vm_end addr)) [
      | inl behind ↦ rw behind (
          Found-behind c rest addr end_addr _ (leb→lt _ _ short)
            (find_vme_node_lem c.vm_end rest addr end_addr o.2 ne))
      | inr around ↦ rw around (
        inr (leb→lt _ _ short),
        Outside-above addr end_addr c.vm_end rest (leb→lt _ _ around) o.2,
      )
    ])
  ])
]
