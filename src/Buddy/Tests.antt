-- ===== src/Buddy/Tests.antt =====
-- The theorems on tbma.c at inputs: two processors and memory for two trees.
mod Checks
use jyy_os.Prelude.{
  ℕ, ◌+◌, ◌*◌, ◌^◌, ◌≡◌, ◌⊎◌, none, done, arith, refl, some, Bool, true, false, inr, zero, suc,
  ◌==◌, ◌&&◌, update, if◌then◌else◌, ltb, ◌≤◌,
}
use mathlib.Core.Path.{subst}
use jyy_os.Align.{is_align_to}
use jyy_os.Buddy.Rep.{AllFree, Rep, FreeBelow, Unmerged}
use jyy_os.Buddy.{
  Area, determine_bbma_size, get_the_free_space_in_tree, convert_index_to_addr, larger,
}
use jyy_os.Buddy.Blocks.{Block, free, used, split, size, handed_out, AlignedTo}
use jyy_os.Buddy.System.{
  Bbma, bbma_alloc, bbma_free, find_the_free_space_in_bbma_system, take_found, find_available_tree,
  find_available_from, take_from, check_aligned,
}
use jyy_os.Buddy.State.{Ready, TreeAt, area_of}
use jyy_os.Buddy.Service.{Granted, Refused, bbma_alloc_lem}
use mathlib.Core.List.{Memᴰ}
use jyy_os.Buddy.Apart.{Apart, bbma_alloc-Apart}
use jyy_os.Buddy.Release.{free-alloc, bbma_free-handed_out, Returned}
use jyy_os.Buddy.Init.{bbma_init}
use jyy_os.Buddy.Init.Loop.{bbma_init_lem}
use jyy_os.Buddy.Tests.Checks.{all_free?, all_free?_sound, rep?, rep?_sound}

abbrev nowhere : Area
nowhere = record { real_start_addr = 0; begin_alloc_addr = 0 }

abbrev before_init : Bbma
before_init = record {
  area = nowhere;
  tree_num = 0;
  all_trees = λ _. none;
  tree_locks = λ _. 0;
  cpu_trees = λ _ _. 0;
}

bbma_init_example :
    (s' : Bbma) × (bbma_init 2 (λ _ _. 7) (2 ^ 24) (4 * 2 ^ 24 + 100) before_init ≡ done s')
    × Ready s' (λ _. free)
    × (s'.tree_num ≡ 2)
bbma_init_example =
    bbma_init_lem 2 (λ _ _. 7) (2 ^ 24) (4 * 2 ^ 24 + 100) before_init (omega arith)
      (1, omega arith) (omega arith) (omega arith) (omega arith) (λ j. refl)

determine_sizes :
    (determine_bbma_size 1 ≡ 12)
    × (determine_bbma_size 4097 ≡ 13)
    × (determine_bbma_size (2 ^ 24 + 1) ≡ 25)
unfolding determine_bbma_size
determine_sizes = (refl, refl, refl)

-- The nodes of a tree that is wholly free, by level.
unfoldable pub whole : ℕ → ℕ
whole j =
    if ltb j 2
    then 24
    else if ltb j 4
    then 23
    else if ltb j 8
    then 22
    else if ltb j 16
    then 21
    else if ltb j 32
    then 20
    else if ltb j 64
    then 19
    else if ltb j 128
    then 18
    else if ltb j 256
    then 17
    else if ltb j 512
    then 16
    else if ltb j 1024
    then 15
    else if ltb j 2048
    then 14
    else if ltb j 4096
    then 13
    else 12

whole-free : all_free? whole 1 12 ≡ true
unfolding all_free? whole
whole-free = refl

-- The same tree with its first page handed out.
page_used : ℕ → ℕ
unfolding whole
page_used j =
    if j == 1
    then 23
    else if j == 2
    then 22
    else if j == 4
    then 21
    else if j == 8
    then 20
    else if j == 16
    then 19
    else if j == 32
    then 18
    else if j == 64
    then 17
    else if j == 128
    then 16
    else if j == 256
    then 15
    else if j == 512
    then 14
    else if j == 1024
    then 13
    else if j == 2048
    then 12
    else if j == 4096
    then 0
    else whole j

-- Its block: the leftmost page is used.
abbrev leftmost : ℕ → Block
leftmost zero = used
leftmost (suc n) = split (leftmost n) free

page_used-Rep : Rep page_used 1 12 (leftmost 12)
unfolding page_used rep? whole
page_used-Rep = rep?_sound page_used 1 12 (leftmost 12) refl

pub whole-Rep : Rep whole 1 12 free
unfolding whole rep?
whole-Rep = rep?_sound whole 1 12 free refl

-- One tree, with its area from 2 ^ 25 on.
abbrev pub one_tree : (ℕ → ℕ) → Bbma
one_tree t = record {
  area = record { real_start_addr = 2 ^ 24; begin_alloc_addr = 2 ^ 25 };
  tree_num = 1;
  all_trees = update (λ _. none) 1 (some (record { addr = 2 ^ 24; node = t }));
  tree_locks = λ _. 0;
  cpu_trees = λ _ _. 0;
}

pub one_tree-Ready : (t : ℕ → ℕ) (b : Block) → Rep t 1 12 b → Ready (one_tree t) (λ _. b)
one_tree-Ready t b rep = record {
  few = omega arith;
  binary = λ j. omega arith;
  start = (2, refl);
  fits = omega arith;
  trees = λ j lo hi.
      let e : 1 ≡ j = omega arith in
      subst (λ k. TreeAt (one_tree t) k b) e
        (record {
          tree = record { addr = 2 ^ 24; node = t };
          holds = refl;
          rep = rep;
          place = refl;
        });
}

bbma_alloc_example : Granted (one_tree whole) (λ _. free) 5000 ⊎ Refused (one_tree whole) 5000
bbma_alloc_example =
    bbma_alloc_lem (one_tree whole) (λ _. free) 5000 (one_tree-Ready whole free whole-Rep)
      (omega arith)

-- The call that returns the second page, which is the first that is free.
second_page : (s : Bbma) × (bbma_alloc (one_tree page_used) 100 ≡ done (some (2 ^ 25 + 4096), s))
unfolding bbma_alloc find_the_free_space_in_bbma_system take_found find_available_tree
    find_available_from take_from get_the_free_space_in_tree determine_bbma_size page_used
    convert_index_to_addr check_aligned is_align_to
second_page = (_, refl)

bbma_alloc-Apart_example :
    AlignedTo (2 ^ 25 + 4096) (determine_bbma_size 100)
    × (100 ≤ 2 ^ determine_bbma_size 100)
    × ((j : ℕ) (x : ℕ × ℕ)
        → 1 ≤ j
        → Memᴰ x (handed_out 12 (area_of (one_tree page_used) j) (leftmost 12))
        → Apart (2 ^ 25 + 4096, determine_bbma_size 100) x)
bbma_alloc-Apart_example =
    bbma_alloc-Apart (one_tree page_used) second_page.0 (λ _. leftmost 12) 100 (2 ^ 25 + 4096)
      (one_tree-Ready page_used (leftmost 12) page_used-Rep) (omega arith) second_page.1

free-alloc_example :
    (s'' : Bbma) × (bbma_free second_page.0 (some (2 ^ 25 + 4096)) ≡ done s'')
    × Ready s'' (λ _. leftmost 12)
free-alloc_example =
    free-alloc (one_tree page_used) second_page.0 (λ _. leftmost 12) 100 (2 ^ 25 + 4096)
      (one_tree-Ready page_used (leftmost 12) page_used-Rep) (omega arith) (omega arith)
      second_page.1

-- A tree with its second page handed out, and the first one given back.
second_used : ℕ → ℕ
unfolding page_used
second_used j = if j == 4097 then 0 else if j == 4096 then 12 else page_used j

abbrev second_of : ℕ → Block
second_of zero = used
second_of (suc zero) = split free used
second_of (suc (suc n)) = split (second_of (suc n)) free

second_used-Rep : Rep second_used 1 12 (second_of 12)
unfolding second_used rep?
second_used-Rep = rep?_sound second_used 1 12 (second_of 12) refl

bbma_free-handed_out_example :
    (c : Block) × Returned (one_tree second_used) (λ _. second_of 12) 1 (2 ^ 25 + 4096) 12 c
bbma_free-handed_out_example =
    bbma_free-handed_out (one_tree second_used) (λ _. second_of 12) 1 (2 ^ 25 + 4096) 12
      (one_tree-Ready second_used (second_of 12) second_used-Rep) (omega arith) (omega arith) refl
      (omega arith) (Memᴰ.head refl)
