-- ===== src/Uproc/Pages/Unmap.antt =====
-- `delete_mapping` of uproc.c takes the pages of its range, and no other, off the list of a task and out
-- of its page table.
use jyy_os.Prelude.{ℕ, ◌+◌, ◌*◌, ◌<◌, ◌≡◌, ◌≢◌, ◌⊎◌, Option, none, Outcome, done}
use jyy_os.Uproc.Pages.{Memory, mmap_none, find_mapped_page, unmap_found}
use jyy_os.Uproc.Pages.Listed.{Uniq}

-- What AM says of `map` with MMAP_NONE, of the entry `entry` that a page table has for the page at an
-- address: the entry of that page is gone, and those of the others are as they were.
pub record Unmaps {ℓ} {AddrSpace : Type ℓ} (map : AddrSpace → ℕ → ℕ → ℕ → AddrSpace)
    (entry : AddrSpace → ℕ → Option ℕ) : Type ℓ where
  pub gone : (t : AddrSpace) (va : ℕ) → entry (map t va 0 mmap_none) va ≡ none
  pub kept : (t : AddrSpace) (va v : ℕ) → v ≢ va → entry (map t va 0 mmap_none) v ≡ entry t v

module _ {ℓ} {AddrSpace : Type ℓ} (map : AddrSpace → ℕ → ℕ → ℕ → AddrSpace) (pgsize pmsize : ℕ)
    (entry : AddrSpace → ℕ → Option ℕ) where
  -- The body of the loop at `va`: the page at `va` is gone, the others are as they were.
  record Step (m : Memory AddrSpace) (va : ℕ) : Type ℓ where
    next : Memory AddrSpace
    result : unmap_found map pgsize pmsize m va (find_mapped_page m.mapped_pages va) ≡ done next
    uniq : Uniq next.mapped_pages
    gone : find_mapped_page next.mapped_pages va ≡ none
    kept :
        (v : ℕ) → v ≢ va → find_mapped_page next.mapped_pages v ≡ find_mapped_page m.mapped_pages v
    entry_gone : find_mapped_page m.mapped_pages va ≢ none → entry next.addr_space va ≡ none
    entry_kept :
        (v : ℕ)
        → (v ≢ va) ⊎ (find_mapped_page m.mapped_pages v ≡ none)
        → entry next.addr_space v ≡ entry m.addr_space v
    areas : next.vm_areas ≡ m.vm_areas

  -- What `delete_mapping` from `cur` up to `end_addr` does.
  pub record Unmapped (m : Memory AddrSpace) (cur end_addr : ℕ) (run : Outcome (Memory AddrSpace))
      : Type ℓ where
    pub after : Memory AddrSpace
    pub result : run ≡ done after
    pub uniq : Uniq after.mapped_pages
    pub gone :
        (k : ℕ)
        → cur + k * pgsize < end_addr
        → find_mapped_page after.mapped_pages (cur + k * pgsize) ≡ none
    pub kept :
        (v : ℕ)
        → ((k : ℕ) → cur + k * pgsize < end_addr → v ≢ cur + k * pgsize)
        → find_mapped_page after.mapped_pages v ≡ find_mapped_page m.mapped_pages v
    pub entry_gone :
        (k : ℕ)
        → cur + k * pgsize < end_addr
        → find_mapped_page m.mapped_pages (cur + k * pgsize) ≢ none
        → entry after.addr_space (cur + k * pgsize) ≡ none
    pub entry_kept :
        (v : ℕ)
        → ((k : ℕ) → cur + k * pgsize < end_addr → v ≢ cur + k * pgsize)
          ⊎ (find_mapped_page m.mapped_pages v ≡ none)
        → entry after.addr_space v ≡ entry m.addr_space v
    pub areas : after.vm_areas ≡ m.vm_areas
