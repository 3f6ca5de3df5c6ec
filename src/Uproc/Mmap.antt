-- ===== src/Uproc/Mmap.antt =====
-- `kmmap` of kernel/src/uproc.c, lines 347 to 373.
pub mod Mapped
use jyy_os.Prelude.{
  ℕ, ◌+◌, if◌then◌else◌, ltb, ◌==◌, Option, none, some, List, Outcome, done, panic, stuck, assert,
  ◌>>=◌, ◌>>◌,
}
use jyy_os.Align.{wrap64}
use jyy_os.Uproc.Areas.{Area, round_down, round_up, new_vme_node, insert_vme_node, find_vme_node}
use jyy_os.Uproc.Pages.{Memory, prot_none, delete_mapping}

-- `MAP_UNMAP` of user.h
abbrev pub map_unmap : ℕ
map_unmap = 3

-- `pgsize` and `area_end` are `as->pgsize` and `as->area.end`.
module _ {ℓ} {AddrSpace : Type ℓ} (map : AddrSpace → ℕ → ℕ → ℕ → AddrSpace)
    (pgsize pmsize area_end : ℕ) where
  -- The branch of `MAP_UNMAP` after the search; `none` is its `NULL`.
  abbrev pub unmap_in : Memory AddrSpace → ℕ → ℕ → Option Area → Outcome (Memory AddrSpace)
  unmap_in m start_addr end_addr none = done m
  unmap_in m start_addr end_addr (some own_space) =
      if m.mp_lock then stuck else delete_mapping map pgsize pmsize m start_addr end_addr

  abbrev pub inserted :
      Memory AddrSpace → Area → Option (List Area) → Outcome (ℕ × Memory AddrSpace)
  inserted m node none = panic
  inserted m node (some areas) = done (node.vm_start, record m { vm_areas = areas })

  -- `length` is an `int` that is not negative; the assertion refuses the others as it does 0.
  unfoldable pub kmmap : Memory AddrSpace → ℕ → ℕ → ℕ → ℕ → Outcome (ℕ × Memory AddrSpace)
  kmmap m addr length prot flags =
      assert (ltb 0 length)
      >> (if flags == map_unmap
          then (assert (prot == prot_none)
              >> (let start_addr = round_down addr pgsize in
                  let end_addr = round_up (wrap64 (addr + length)) pgsize in
                  if m.vme_lock
                  then stuck
                  else (unmap_in m start_addr end_addr
                        (find_vme_node m.vm_areas start_addr end_addr)
                      >>= λ n. done (0, n))))
          else (new_vme_node pgsize area_end m.vm_areas addr length prot flags >>= λ node.
              if m.vme_lock then stuck else inserted m node (insert_vme_node m.vm_areas node)))
