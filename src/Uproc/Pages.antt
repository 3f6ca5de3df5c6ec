-- ===== src/Uproc/Pages.antt =====
-- kernel/src/uproc.c, lines 222 to 334: the pages that a task has mapped, a list from
-- `mapped_page_head` along `next`, and the page table behind them. The page table and the `map` that
-- writes it are AM's, and parameters here.
pub mod Listed
pub mod Unmap
use jyy_os.Prelude.{
  ℕ, zero, suc, ◌+◌, ◌-◌, ◌/◌, ◌%◌, ◌^◌, Bool, true, false, if◌then◌else◌, ltb, ◌==◌, Option, none,
  some, List, [], ◌∷◌, Outcome, done, panic, stuck, ◌>>=◌, update,
}
use jyy_os.Align.{wrap64}
use jyy_os.Uproc.Areas.{Area, round_down}

-- `M_PAGE`, without its link and its address space.
pub record Page : Type 0 where
  pub va : ℕ
  pub pa : ℕ

-- The memory side of a task: its page table, the flags of `vme_lock` and `mp_lock`, its areas and
-- its mapped pages. `cow_table` is the kernel's, one for all tasks, with the flag of `cow_lock`.
pub record Memory {ℓ} (AddrSpace : Type ℓ) : Type ℓ where
  pub addr_space : AddrSpace
  pub vme_lock : Bool
  pub mp_lock : Bool
  pub vm_areas : List Area
  pub mapped_pages : List Page
  pub cow_lock : Bool
  pub cow_table : ℕ → ℕ

unfoldable pub find_mapped_page : List Page → ℕ → Option Page
find_mapped_page [] va = none
find_mapped_page (cur ∷ rest) va =
    let later = find_mapped_page rest va in if cur.va == va then some cur else later

unfoldable pub delete_map_page : List Page → ℕ → Outcome (List Page)
delete_map_page [] va = panic
delete_map_page (cur ∷ rest) va =
    let later = delete_map_page rest va >>= λ pages. done (cur ∷ pages) in
    if cur.va == va then done rest else later

-- `PROT_…` of user.h, and AM's `MMAP_…`
abbrev pub prot_none : ℕ
prot_none = 1

abbrev pub prot_read : ℕ
prot_read = 2

abbrev pub prot_write : ℕ
prot_write = 4

abbrev pub mmap_none : ℕ
mmap_none = 0

abbrev pub mmap_read : ℕ
mmap_read = 1

abbrev pub mmap_write : ℕ
mmap_write = 2

-- `prot & mask` for a mask of one bit, as a test
abbrev pub has_bit : ℕ → ℕ → Bool
has_bit prot mask = prot / mask % 2 == 1

unfoldable pub convert_mmap_prot_to_vm_prot : ℕ → ℕ
convert_mmap_prot_to_vm_prot prot =
    if prot == prot_none
    then mmap_none
    else (if has_bit prot prot_read then mmap_read else 0)
      + (if has_bit prot prot_write then mmap_write else 0)

-- `pgsize` is the page size, `pmsize` the number of entries that `uproc_init` gives `cow_table`.
module _ {ℓ} {AddrSpace : Type ℓ} (map : AddrSpace → ℕ → ℕ → ℕ → AddrSpace)
    (pgsize pmsize : ℕ) where
  -- A critical section of `cow_lock` on one entry of `cow_table`, which holds an `int`.
  unfoldable pub at_cow_table {κ} :
      {B : Type κ} → Memory AddrSpace → ℕ → (ℕ → Outcome B) → Outcome B
  at_cow_table m pa f =
      let index = round_down pa pgsize / pgsize in
      if m.cow_lock then stuck else if ltb index pmsize then f index else panic

  unfoldable pub get_cow_cnt : Memory AddrSpace → ℕ → Outcome ℕ
  get_cow_cnt m pa = at_cow_table m pa λ index. done (m.cow_table index)

  unfoldable pub set_cow_cnt : Memory AddrSpace → ℕ → ℕ → Outcome (Memory AddrSpace)
  set_cow_cnt m pa cnt =
      at_cow_table m pa λ index. done (record m { cow_table = update m.cow_table index cnt })

  unfoldable pub inc_cow_cnt : Memory AddrSpace → ℕ → Outcome (Memory AddrSpace)
  inc_cow_cnt m pa = at_cow_table m pa λ index.
      done (record m { cow_table = update m.cow_table index ((m.cow_table index + 1) % 2 ^ 32) })

  unfoldable pub dec_cow_cnt : Memory AddrSpace → ℕ → Outcome (Memory AddrSpace)
  dec_cow_cnt m pa = at_cow_table m pa λ index. done (record m {
    cow_table = update m.cow_table index ((m.cow_table index + (2 ^ 32 - 1)) % 2 ^ 32);
  })

  -- `new_mapped_page` and `insert_map_page`
  unfoldable pub insert_map_page : Memory AddrSpace → ℕ → ℕ → Memory AddrSpace
  insert_map_page m va pa = record m { mapped_pages = record { va = va; pa = pa } ∷ m.mapped_pages }

  unfoldable pub pgmap : Memory AddrSpace → ℕ → ℕ → ℕ → Bool → Outcome (Memory AddrSpace)
  pgmap m va pa prot cow_cnt = do
    counted ← (if cow_cnt then inc_cow_cnt m pa else done m)
    let n = insert_map_page counted va pa
    done (record n { addr_space = map n.addr_space va pa (convert_mmap_prot_to_vm_prot prot) })

  unfoldable pub pgunmap : Memory AddrSpace → ℕ → Outcome (Memory AddrSpace)
  pgunmap m va = do
    pages ← delete_map_page m.mapped_pages va
    done (record m { mapped_pages = pages; addr_space = map m.addr_space va 0 mmap_none })

  -- The body of the loop of `delete_mapping`: `pgunmap` for a page that was found.
  abbrev pub unmap_found : Memory AddrSpace → ℕ → Option Page → Outcome (Memory AddrSpace)
  unmap_found m cur none = done m
  unmap_found m cur (some pg) = pgunmap m cur

  -- The loop of `delete_mapping` from `cur`, for at most as many pages as the fuel.
  unfoldable pub delete_from : ℕ → Memory AddrSpace → ℕ → ℕ → Outcome (Memory AddrSpace)
  delete_from zero m cur end_addr = stuck
  delete_from (suc fuel) m cur end_addr =
      if ltb cur end_addr
      then ((unmap_found m cur (find_mapped_page m.mapped_pages cur)) >>= λ n.
          delete_from fuel n (wrap64 (cur + pgsize)) end_addr)
      else done m

  unfoldable pub delete_mapping : Memory AddrSpace → ℕ → ℕ → Outcome (Memory AddrSpace)
  delete_mapping m start_addr end_addr =
      delete_from (suc (end_addr - start_addr)) m start_addr end_addr
