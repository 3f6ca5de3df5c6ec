-- ===== src/Uproc/Areas.antt =====
-- kernel/src/uproc.c, lines 120 to 220: the memory areas of a task, a list in the order of
-- `vm_next`; `vm_prev` and `vm_area_tail` are what that list makes them. An address is a number
-- below 2 ^ 64, and the page size a power of two, so that `& ~(pgsize - 1)` is taken by `%`.
pub mod Order
pub mod Place
use jyy_os.Prelude.{
  ℕ, ◌+◌, ◌-◌, ◌%◌, ◌&&◌, if◌then◌else◌, ltb, leb, ◌==◌, Option, none, some, List, [], ◌∷◌, Outcome,
  done, panic, assert, ◌>>=◌, ◌>>◌,
}
use mathlib.Core.Option
use jyy_os.Align.{wrap64}

-- `VME_AREA`, without its links.
pub record Area : Type 0 where
  pub vm_start : ℕ
  pub vm_end : ℕ
  pub vm_prot : ℕ
  pub vm_flags : ℕ

-- `ROUNDUP` and `ROUNDDOWN` of klib-macros.h
abbrev pub round_down : ℕ → ℕ → ℕ
round_down a sz = a - a % sz

abbrev pub round_up : ℕ → ℕ → ℕ
round_up a sz = round_down (wrap64 (a + sz - 1)) sz

-- The loop of `get_suitable_addr`, with `addr` and `end_addr`.
unfoldable pub suitable_from : ℕ → ℕ → List Area → ℕ → ℕ → ℕ × ℕ
suitable_from pgsize length [] addr end_addr = (addr, end_addr)
suitable_from pgsize length (cur ∷ rest) addr end_addr =
    let passed = suitable_from pgsize length rest addr end_addr in
    let moved =
      suitable_from pgsize length rest cur.vm_end
        (round_up (wrap64 (cur.vm_end + length)) pgsize) in
    if leb end_addr cur.vm_start
    then (addr, end_addr)
    else if leb cur.vm_end addr
    then passed
    else moved

unfoldable pub get_suitable_addr : ℕ → ℕ → List Area → ℕ → ℕ → Outcome ℕ
get_suitable_addr pgsize area_end [] start_addr length = done start_addr
get_suitable_addr pgsize area_end (head ∷ rest) start_addr length = do
  let (addr, end_addr) =
      suitable_from pgsize length (head ∷ rest) start_addr
        (round_up (wrap64 (start_addr + length)) pgsize)
  assert (leb end_addr area_end)
  done addr

unfoldable pub new_vme_node : ℕ → ℕ → List Area → ℕ → ℕ → ℕ → ℕ → Outcome Area
new_vme_node pgsize area_end areas addr length prot flags = do
  right_addr ← get_suitable_addr pgsize area_end areas (round_up addr pgsize) length
  done (record {
    vm_start = right_addr;
    vm_end = round_up (wrap64 (right_addr + length)) pgsize;
    vm_prot = prot % 256;
    vm_flags = flags % 256;
  })

-- `insert_vme_node`; `none` is its `false`.
unfoldable pub insert_vme_node : List Area → Area → Option (List Area)
insert_vme_node [] node = some (node ∷ [])
insert_vme_node (cur ∷ rest) node =
    let behind = Option.map (λ l. cur ∷ l) (insert_vme_node rest node) in
    if leb node.vm_end cur.vm_start
    then some (node ∷ cur ∷ rest)
    else if leb cur.vm_end node.vm_start
    then behind
    else none

unfoldable pub find_vme_node : List Area → ℕ → ℕ → Option Area
find_vme_node [] addr end_addr = none
find_vme_node (cur ∷ rest) addr end_addr =
    let next = find_vme_node rest addr end_addr in
    if leb cur.vm_start addr && leb end_addr cur.vm_end
    then some cur
    else if leb cur.vm_end addr
    then next
    else none
