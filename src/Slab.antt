-- ===== src/Slab.antt =====
-- The slab allocator, kernel/src/slab.c, and kalloc and kfree of kernel/src/pmm.c. A page is a block
-- of 4 KB of the buddy allocator with a SLAB_STICK at its start; `sticks` has the stick of the page
-- at an address, `next_free` the word that a SLAB_FREE_BLOCK has at an address. An address 0 is NULL.
-- The buddy allocator `bbma` is a parameter. `fuel` bounds the pages of a list.
pub mod Classes
pub mod Lists
pub mod Fresh
pub mod State
pub mod Find
pub mod Request
pub mod Spin
pub mod Grant
pub mod Service
pub mod Free
pub mod Buddies
mod Tests
use jyy_os.Prelude.{
  ℕ, zero, suc, ◌+◌, ◌-◌, ◌/◌, ◌%◌, ◌^◌, Bool, not, ◌||◌, ◌&&◌, if◌then◌else◌, ltb, leb, ◌==◌,
  update, Outcome, done, panic, stuck, assert, ◌>>=◌, ◌>>◌,
}
use jyy_os.Align.{align_to, is_align_to}

-- `enum SLAB_SIZE_`: the exponents 5 to 11, and
abbrev pub slab_refuse : ℕ
slab_refuse = 12

abbrev pub slab_num : ℕ
slab_num = 7

abbrev pub slab_request_space : ℕ
slab_request_space = 4096

-- The size of a SLAB_STICK: an int and its padding, two words, an int and its padding.
abbrev pub slab_stick_size : ℕ
slab_stick_size = 32

abbrev pub cpu_find_slab_offset : ℕ
cpu_find_slab_offset = 5

pub record Stick : Type 0 where
  pub slab_lock : ℕ
  pub current_slab_free_block_list : ℕ
  pub next_slab_stick : ℕ
  pub current_slab_free_space : ℕ

-- The memory of the allocator, with the state `P` of the buddy allocator.
pub record Slab (P : Type 0) : Type 0 where
  pub pool : P
  pub sticks : ℕ → Stick
  pub next_free : ℕ → ℕ
  pub cpu_own_area : ℕ → ℕ → ℕ

unfoldable pub determine_slab_size : ℕ → ℕ
determine_slab_size size =
    if leb size 32
    then 5
    else if leb size 64
    then 6
    else if leb size 128
    then 7
    else if leb size 256
    then 8
    else if leb size 512
    then 9
    else if leb size 1024
    then 10
    else if leb size 2048
    then 11
    else slab_refuse

unfoldable pub slab_align_to_4kb : ℕ → ℕ
slab_align_to_4kb ptr = ptr - ptr % 2 ^ 12

module _ {P : Type 0} where
  abbrev pub write_stick : Slab P → ℕ → Stick → Slab P
  write_stick s page stick = record s { sticks = update s.sticks page stick }

  -- The loop of `find_the_avaliable_page_in_slab_and_lock` at `free_space`; a lock that is held is
  -- a spin, and a list that is longer than the fuel has no end.
  unfoldable pub find_page_from : ℕ → ℕ → Slab P → Outcome (ℕ × Slab P)
  find_page_from zero free_space s = stuck
  find_page_from (suc n) free_space s =
      let stick = s.sticks free_space in
      let locked = write_stick s free_space (record stick { slab_lock = 1 }) in
      let unlocked = write_stick locked free_space (record stick { slab_lock = 0 }) in
      let rest = find_page_from n stick.next_slab_stick unlocked in
      if free_space == 0
      then done (0, s)
      else if not (stick.slab_lock == 0)
      then stuck
      else if stick.current_slab_free_space == 0
      then rest
      else done (free_space, locked)

  unfoldable pub find_the_avaliable_page_in_slab_and_lock :
      ℕ → ℕ → ℕ → Slab P → Outcome (ℕ × Slab P)
  find_the_avaliable_page_in_slab_and_lock fuel cpu_num slab_size s =
      find_page_from fuel (s.cpu_own_area cpu_num (slab_size - cpu_find_slab_offset)) s

  -- `find_the_free_space_in_slab` with the page found and locked
  unfoldable pub take_block : ℕ × Slab P → Outcome (ℕ × Slab P)
  take_block (page, s) =
      let stick = s.sticks page in
      let block = stick.current_slab_free_block_list in
      if page == 0
      then done (0, s)
      else (assert (ltb 0 stick.current_slab_free_space)
          >> assert (not (block == 0))
          >> done (
            block,
            write_stick s page (record stick {
              slab_lock = 0;
              current_slab_free_block_list = s.next_free block;
              current_slab_free_space = stick.current_slab_free_space - 1;
            }),
          ))

  unfoldable pub find_the_free_space_in_slab : ℕ → ℕ → ℕ → Slab P → Outcome (ℕ × Slab P)
  find_the_free_space_in_slab fuel cpu_num slab_size s =
      find_the_avaliable_page_in_slab_and_lock fuel cpu_num slab_size s >>= take_block

  -- The loop of `initialize_a_slab_new_page`, with `n` blocks left
  unfoldable pub link_blocks : ℕ → ℕ → ℕ → ℕ → Slab P → Slab P
  link_blocks zero slab_size page addr s = s
  link_blocks (suc n) slab_size page addr s =
      let stick = s.sticks page in
      link_blocks n slab_size page (addr + 2 ^ slab_size) (record s {
        next_free = update s.next_free addr stick.current_slab_free_block_list;
        sticks = update s.sticks page (record stick { current_slab_free_block_list = addr });
      })

  unfoldable pub initialize_a_slab_new_page : ℕ → ℕ → Slab P → Outcome (Slab P)
  initialize_a_slab_new_page slab_size page s = is_align_to page 12 >>= λ aligned.
      assert aligned
      >> assert (leb slab_size 11)
      >> align_to slab_stick_size slab_size
      >>= λ stick_size.
          assert (leb stick_size (2 ^ 11))
          >> (let space = (slab_request_space - stick_size) / 2 ^ slab_size in
              done (
                link_blocks space slab_size page (page + stick_size) (
                  write_stick s page (record (s.sticks page) {
                    current_slab_free_space = space;
                    current_slab_free_block_list = 0;
                  }))))

  -- The words that `slab_free` writes, in a stick whose lock was free.
  unfoldable pub put_block : ℕ → ℕ → Slab P → Slab P
  put_block ptr page s =
      let stick = s.sticks page in
      record s {
        next_free = update s.next_free ptr stick.current_slab_free_block_list;
        sticks = update s.sticks page (record stick {
          slab_lock = 0;
          current_slab_free_block_list = ptr;
          current_slab_free_space = (stick.current_slab_free_space + 1) % 2 ^ 32;
        });
      }

  unfoldable pub slab_free : ℕ → Slab P → Outcome (Slab P)
  slab_free ptr s =
      let page = slab_align_to_4kb ptr in
      assert (not (ptr % slab_request_space == 0))
      >> assert (page % slab_request_space == 0)
      >> assert (ltb page ptr)
      >> assert (ltb (ptr - page) (2 ^ 12))
      >> (if not ((s.sticks page).slab_lock == 0) then stuck else done (put_block ptr page s))

module _ {P : Type 0} (bbma_alloc : P → ℕ → Outcome (ℕ × P)) (fuel : ℕ) where
  -- `request_a_slab_from_bbma` with the page that it got
  unfoldable pub add_page : ℕ → ℕ → ℕ → Slab P → Outcome (ℕ × Slab P)
  add_page cpu_num slab_size page s =
      let i = slab_size - cpu_find_slab_offset in
      let linked =
        write_stick s page
          (record (s.sticks page) { next_slab_stick = s.cpu_own_area cpu_num i }) in
      let own = record linked {
        cpu_own_area = update s.cpu_own_area cpu_num (update (s.cpu_own_area cpu_num) i page);
      } in
      initialize_a_slab_new_page slab_size page own
      >>= find_the_free_space_in_slab fuel cpu_num slab_size

  unfoldable pub request_a_slab_from_bbma : ℕ → ℕ → Slab P → Outcome (ℕ × Slab P)
  request_a_slab_from_bbma cpu_num slab_size s = bbma_alloc s.pool slab_request_space >>= λ r.
      assert (r.0 % slab_request_space == 0)
      >> (let s1 = record s { pool = r.1 } in
          if r.0 == 0 then done (0, s1) else add_page cpu_num slab_size r.0 s1)

  -- `slab_alloc` after the size is known to be for a slab
  unfoldable pub alloc_small : ℕ → ℕ → Slab P → Outcome (ℕ × Slab P)
  alloc_small cpu_num slab_size s = find_the_free_space_in_slab fuel cpu_num slab_size s >>= λ r.
      is_align_to r.0 slab_size >>= λ a.
      assert ((r.0 == 0) || a)
      >> ((if r.0 == 0 then request_a_slab_from_bbma cpu_num slab_size r.1 else done r) >>= λ t.
          is_align_to t.0 slab_size >>= λ b. assert b >> done t)

  unfoldable pub slab_alloc : ℕ → ℕ → Slab P → Outcome (ℕ × Slab P)
  slab_alloc cpu_num size s =
      if size == 0
      then done (0, s)
      else if determine_slab_size size == slab_refuse
      then (bbma_alloc s.pool size >>= λ r. done (r.0, record s { pool = r.1 }))
      else alloc_small cpu_num (determine_slab_size size) s

  -- The loops of `initialize_a_cpu_slab_area` from `i` on and of `slab_init` from `cpu` on; what
  -- `request_a_slab_from_bbma` returns is not kept.
  unfoldable pub init_sizes : ℕ → ℕ → ℕ → Slab P → Outcome (Slab P)
  init_sizes zero i cpu s = done s
  init_sizes (suc n) i cpu s = request_a_slab_from_bbma cpu (i + cpu_find_slab_offset) s >>= λ r.
      init_sizes n (i + 1) cpu r.1

  unfoldable pub initialize_a_cpu_slab_area : ℕ → Slab P → Outcome (Slab P)
  initialize_a_cpu_slab_area cpu_num s = init_sizes slab_num 0 cpu_num s

  unfoldable pub slab_init : ℕ → ℕ → Slab P → Outcome (Slab P)
  slab_init zero cpu s = done s
  slab_init (suc n) cpu s = initialize_a_cpu_slab_area cpu s >>= slab_init n (cpu + 1)

-- `kalloc` of pmm.c on the processor `cpu_current`.
unfoldable pub kalloc :
    {P : Type 0} → (P → ℕ → Outcome (ℕ × P)) → ℕ → ℕ → ℕ → Slab P → Outcome (ℕ × Slab P)
kalloc bbma_alloc fuel cpu_current size s = slab_alloc bbma_alloc fuel cpu_current size s

-- `kfree` of pmm.c; a pointer at the start of a page goes to the buddy allocator.
unfoldable pub kfree : {P : Type 0} → (P → ℕ → Outcome P) → ℕ → Slab P → Outcome (Slab P)
kfree bbma_free ptr s = is_align_to ptr 12 >>= λ aligned.
    if aligned
    then (bbma_free s.pool ptr >>= λ pool. done (record s { pool = pool }))
    else slab_free ptr s
