-- ===== src/Slab/Tests.antt =====
-- Runs of the slab allocator on a buddy allocator with one tree.
use jyy_os.Prelude.{
  ℕ, ◌+◌, ◌^◌, ◌≤◌, ◌≡◌, ◌⊎◌, refl, List, [], All, Option, none, some, done, arith,
}
use jyy_os.Align.{align_to, is_align_to}
use jyy_os.Buddy.{get_the_free_space_in_tree, determine_bbma_size, convert_index_to_addr}
use jyy_os.Buddy.Blocks.{free}
use jyy_os.Buddy.System.{
  Bbma, bbma_alloc, find_the_free_space_in_bbma_system, take_found, find_available_tree,
  find_available_from, take_from, check_aligned,
}
use jyy_os.Buddy.Tests.{one_tree, whole, whole-Rep, one_tree-Ready}
use jyy_os.Slab.{
  Slab, slab_alloc, kalloc, kfree, alloc_small, request_a_slab_from_bbma, add_page,
  initialize_a_slab_new_page, link_blocks, find_the_free_space_in_slab,
  find_the_avaliable_page_in_slab_and_lock, find_page_from, take_block, determine_slab_size,
}
use jyy_os.Slab.Classes.{Class}
use jyy_os.Slab.Fresh.{Blocks}
use jyy_os.Slab.State.{Chain, Ok}
use jyy_os.Slab.Grant.{Backed, Served}
use jyy_os.Slab.Service.{Spins, slab_alloc-Served}
use jyy_os.Slab.Free.{kfree-kalloc}
use jyy_os.Slab.Buddies.{page_alloc, page_free, buddies}

-- No page was asked for yet.
abbrev no_slabs : Slab Bbma
no_slabs = record {
  pool = one_tree whole;
  sticks = λ q. record {
    slab_lock = 0;
    current_slab_free_block_list = 0;
    next_slab_stick = 0;
    current_slab_free_space = 0;
  };
  next_free = λ x. 0;
  cpu_own_area = λ cpu i. 0;
}

abbrev no_kinds : ℕ → Option ℕ
no_kinds p = none

no_slabs-Ok : Ok 0 no_slabs no_kinds
no_slabs-Ok = record {
  unlocked = λ q k e. refl;
  pages = λ p k e. absurd (cc);
  chains = λ cpu k cl. record { chain = []; linked = refl; kinds = tt; short = omega arith };
}

no_slabs-Backed : Backed page_alloc buddies no_slabs no_kinds (λ j. free)
unfolding Backed
no_slabs-Backed = ((one_tree-Ready whole free whole-Rep, omega arith), λ p k e. absurd (cc))

slab_alloc-Served_example :
    (k : ℕ) × Class k
    × (100 ≤ 2 ^ k)
    × (Served page_alloc buddies 1 no_slabs no_kinds k (slab_alloc page_alloc 2 3 100 no_slabs)
        ⊎ ((slab_alloc page_alloc 2 3 100 no_slabs ≡ done (0, no_slabs))
            × ((c : Chain 1 no_slabs no_kinds 3 k) × All
                  (λ p. (no_slabs.sticks p).current_slab_free_space ≡ 0)
                  c.chain))
        ⊎ Spins page_alloc buddies no_slabs (slab_alloc page_alloc 2 3 100 no_slabs))
slab_alloc-Served_example =
    slab_alloc-Served page_alloc buddies 0 3 100 no_slabs no_kinds (λ j. free) no_slabs-Ok
      no_slabs-Backed (omega arith) (omega arith)

-- A first block of 1024 bytes, at the end of the first page.
first_block : (s : Slab Bbma) × (kalloc page_alloc 2 3 1000 no_slabs ≡ done (2 ^ 25 + 3072, s))
unfolding kalloc slab_alloc alloc_small request_a_slab_from_bbma add_page initialize_a_slab_new_page
    link_blocks find_the_free_space_in_slab find_the_avaliable_page_in_slab_and_lock find_page_from
    take_block determine_slab_size page_alloc bbma_alloc find_the_free_space_in_bbma_system
    take_found find_available_tree find_available_from take_from get_the_free_space_in_tree
    determine_bbma_size whole convert_index_to_addr check_aligned is_align_to align_to
first_block = (_, refl)

kfree-kalloc_example :
    (s'' : Slab Bbma) × (kind' : ℕ → Option ℕ) × (kfree page_free (2 ^ 25 + 3072) first_block.0
      ≡ done s'')
    × Ok 1 s'' kind'
    × ((q j : ℕ) (l : List ℕ) → no_kinds q ≡ some j → Blocks no_slabs q j l → Blocks s'' q j l)
kfree-kalloc_example =
    kfree-kalloc page_alloc buddies page_free 0 3 1000 (2 ^ 25 + 3072) no_slabs first_block.0
      no_kinds (λ j. free) no_slabs-Ok no_slabs-Backed (omega arith) (omega arith) first_block.1
      (λ e. omega (arith, e))
