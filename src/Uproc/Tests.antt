-- ===== src/Uproc/Tests.antt =====
-- Runs of the memory functions on a task with two areas and two pages.
use jyy_os.Prelude.{ℕ, false, if◌then◌else◌, ◌==◌, Option, none, some, List, [], ◌∷◌, update, arith}
use jyy_os.Uproc.Areas.{Area, find_vme_node}
use jyy_os.Uproc.Areas.Order.{InOrder}
use jyy_os.Uproc.Areas.Place.{Found, find_vme_node_lem}
use jyy_os.Uproc.Pages.{Memory, mmap_none}
use jyy_os.Uproc.Mmap.Mapped.{Mapped}

-- A page table as the place of each page
abbrev Table : Type 0
Table = ℕ → Option ℕ

abbrev map_table : Table → ℕ → ℕ → ℕ → Table
map_table t va pa prot = update t va (if prot == mmap_none then none else some pa)

abbrev entry_of : Table → ℕ → Option ℕ
entry_of t va = t va

abbrev area : ℕ → ℕ → Area
area start end_addr = record { vm_start = start; vm_end = end_addr; vm_prot = 6; vm_flags = 2 }

abbrev two_areas : List Area
two_areas = area 4096 8192 ∷ area 16384 20480 ∷ []

two_areas-InOrder : InOrder 0 two_areas
two_areas-InOrder = (omega arith, omega arith, (omega arith, omega arith, tt))

abbrev memory : Memory Table
memory = record {
  addr_space = update (update (λ v. none) 4096 (some 4096)) 16384 (some 8192);
  vme_lock = false;
  mp_lock = false;
  vm_areas = two_areas;
  mapped_pages = record { va = 16384; pa = 8192 } ∷ record { va = 4096; pa = 4096 } ∷ [];
  cow_lock = false;
  cow_table = λ i. 1;
}

find_vme_node_example : Found two_areas 17000 17001 (find_vme_node two_areas 17000 17001)
find_vme_node_example = find_vme_node_lem 0 two_areas 17000 17001 two_areas-InOrder (omega arith)
