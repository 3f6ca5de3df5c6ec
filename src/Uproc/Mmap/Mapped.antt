-- ===== src/Uproc/Mmap/Mapped.antt =====
-- What `kmmap` of uproc.c gives when it maps: a fresh area apart from all the others.
use jyy_os.Prelude.{
  ℕ, ◌+◌, ◌-◌, ◌%◌, ◌^◌, ◌≤◌, ◌<◌, ◌≡◌, ◌≢◌, ◌⊎◌, List, [], Outcome, done, panic, Added,
}
use jyy_os.Align.{wrap64}
use jyy_os.Uproc.Areas.{Area, round_up, get_suitable_addr}
use jyy_os.Uproc.Areas.Order.{InOrder, Clear, place_end}
use jyy_os.Uproc.Pages.{Memory}

-- The first place from `first` on that is clear of the areas, of those behind which no sum wraps: it
-- is what `get_suitable_addr` gives, or it ends behind `area_end`.
record Place (pgsize area_end length top : ℕ) (areas : List Area) (first : ℕ) : Type 0 where
  start : ℕ
  above : first ≤ start
  below : start ≤ top
  clear : Clear start (place_end pgsize length start) areas
  least :
      (p : ℕ)
      → first ≤ p
      → p < start
      → p + length + pgsize ≤ 2 ^ 64
      → ¬ (Clear p (place_end pgsize length p) areas)
  result :
      ((get_suitable_addr pgsize area_end areas first length ≡ done start)
        × (areas ≢ [] → place_end pgsize length start ≤ area_end))
      ⊎ ((get_suitable_addr pgsize area_end areas first length ≡ panic)
          × (areas ≢ [])
          × (area_end < place_end pgsize length start))

module _ {ℓ} {AddrSpace : Type ℓ} (map : AddrSpace → ℕ → ℕ → ℕ → AddrSpace)
    (pgsize pmsize area_end : ℕ) where
  -- The node that `new_vme_node` makes at `start`.
  abbrev pub area_at : ℕ → ℕ → ℕ → ℕ → Area
  area_at start length prot flags = record {
    vm_start = start;
    vm_end = round_up (wrap64 (start + length)) pgsize;
    vm_prot = prot % 256;
    vm_flags = flags % 256;
  }

  -- From `first` on, the bytes of a place below `start` are never clear of the areas (of the places
  -- behind which no sum wraps).
  abbrev pub NoneBefore : List Area → ℕ → ℕ → ℕ → Type 0
  NoneBefore areas length first start =
      (p : ℕ)
      → first ≤ p
      → p < start
      → p + length + pgsize ≤ 2 ^ 64
      → ¬ (Clear p (place_end pgsize length p) areas)

  -- The run gives an address at `first` or above and a list that has one more area, which starts
  -- there, is long enough and is apart from the others.
  pub record Mapped (m : Memory AddrSpace) (first length prot flags : ℕ)
      (run : Outcome (ℕ × Memory AddrSpace)) : Type ℓ where
    pub start : ℕ
    pub after : List Area
    pub result : run ≡ done (start, record m { vm_areas = after })
    pub above : first ≤ start
    pub room : length ≤ place_end pgsize length start - start
    pub least : NoneBefore m.vm_areas length first start
    pub inside : m.vm_areas ≢ [] → place_end pgsize length start ≤ area_end
    pub order : InOrder 0 after
    pub added : Added (area_at start length prot flags) m.vm_areas after

  -- The run stops: no place from `first` on that is clear of the areas ends in the address space.
  pub record NoRoom (m : Memory AddrSpace) (first length : ℕ) (run : Outcome (ℕ × Memory AddrSpace))
      : Type ℓ where
    pub result : run ≡ panic
    pub some_area : m.vm_areas ≢ []
    pub none_fits :
        (p : ℕ)
        → first ≤ p
        → p + length + pgsize ≤ 2 ^ 64
        → Clear p (place_end pgsize length p) m.vm_areas
        → area_end < place_end pgsize length p
