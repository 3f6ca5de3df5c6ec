-- ===== src/Buddy/Init/Loop.antt =====
-- The loop of `bbma_init` of tbma.c ends, and leaves an allocator that is ready for calls.
use jyy_os.Prelude.{
  ℕ, zero, suc, ◌+◌, ◌-◌, ◌*◌, ◌/◌, ◌%◌, ◌^◌, ◌≤◌, ◌<◌, ◌≡◌, refl, some, ◌∙◌, Option, ◌⊎◌, inl, inr,
  le→leb, lt→leb, le→ltb, ne→==, update, update_self, update_ne, Outcome, done, arith,
}
use native.Mathlib.Decide.{ℕ_discrete, dec_le}
use mathlib.Core.Path.{subst, subst₂}
use jyy_os.Buddy.{Tree}
use jyy_os.Buddy.Blocks.{free, AlignedTo}
use jyy_os.Buddy.Rep.{AllFree}
use jyy_os.Buddy.System.{Bbma, max_tree}
use jyy_os.Buddy.State.{Ready, TreeAt}
use jyy_os.Buddy.Init.{initialize_tree, init_trees, distribute_tree, give_cpus, bbma_init}
use jyy_os.Buddy.Init.Fresh.{initialize_tree_lem}

-- The state with other trees.
abbrev with_trees : Bbma → (ℕ → Option Tree) → Bbma
with_trees s a = record s { all_trees = a }

module _ (memory : ℕ → ℕ → ℕ) (end_addr : ℕ) (s : Bbma) (range : end_addr < 2 ^ 64)
    (place : s.begin_alloc_addr ≡ s.real_start_addr + 2 ^ 24)
    (few : end_addr < s.begin_alloc_addr + 33 * 2 ^ 24) where
  abbrev Fresh : ℕ → (ℕ → Option Tree) → Type 0
  Fresh cnt a = (j : ℕ) → 1 ≤ j → j < cnt → TreeAt (with_trees s a) j free

  -- The state in which the loop ends, begun at tree `cnt`.
  record Ended (cnt : ℕ) (run : Outcome (ℕ × Bbma)) : Type 0 where
    cnt' : ℕ
    trees : ℕ → Option Tree
    result : run ≡ done (cnt', with_trees s trees)
    above : cnt ≤ cnt'
    bound : cnt' ≤ 33
    inside : (cnt' ≡ cnt) ⊎ (s.begin_alloc_addr + (cnt' - 1) * 2 ^ 24 ≤ end_addr)
    last : end_addr < s.begin_alloc_addr + cnt' * 2 ^ 24
    fresh : Fresh cnt' trees

  abbrev loop : ℕ → ℕ → (ℕ → Option Tree) → Outcome (ℕ × Bbma)
  loop fuel cnt a =
      init_trees fuel memory end_addr (s.real_start_addr + (cnt - 1) * 8192)
        (s.begin_alloc_addr + (cnt - 1) * 2 ^ 24) cnt (with_trees s a)

  new_tree : ℕ → (ℕ → ℕ) → Tree
  new_tree cnt t = record { addr = s.real_start_addr + (cnt - 1) * 8192; node = t }

  Fresh-next :
      (cnt : ℕ) (a : ℕ → Option Tree) (t : ℕ → ℕ)
      → 1 ≤ cnt
      → s.begin_alloc_addr + (cnt - 1) * 2 ^ 24 + 2 ^ 24 ≤ end_addr
      → AllFree t 1 12
      → Fresh cnt a
      → Fresh (cnt + 1) (update a cnt (some (new_tree cnt t)))
  unfolding new_tree
  Fresh-next cnt a t pos inside f before j lo hi = elim (ℕ_discrete cnt j) [
    | yes e ↦
        subst (λ k. TreeAt (with_trees s (update a cnt (some (new_tree cnt t)))) k free) e
          (record {
            tree = new_tree cnt t;
            holds = update_self a cnt _;
            rep = f;
            place = omega arith;
          })
    | no ne ↦
        let old = before j lo (omega arith) in
        record {
          tree = old.tree;
          holds = update_ne a cnt j _ ne ∙ old.holds;
          rep = old.rep;
          place = old.place;
        }
  ]

  loop_stops :
      (fuel cnt : ℕ) (a : ℕ → Option Tree)
      → end_addr < s.begin_alloc_addr + (cnt - 1) * 2 ^ 24 + 2 ^ 24
      → loop (suc fuel) cnt a ≡ done (cnt, with_trees s a)
  unfolding init_trees
  loop_stops fuel cnt a h = rw (lt→leb _ end_addr h)

  loop_goes :
      (fuel cnt : ℕ) (a : ℕ → Option Tree) (t : ℕ → ℕ)
      → 1 ≤ cnt
      → cnt ≤ 32
      → s.begin_alloc_addr + (cnt - 1) * 2 ^ 24 + 2 ^ 24 ≤ end_addr
      → initialize_tree (memory (s.real_start_addr + (cnt - 1) * 8192)) ≡ done t
      → loop (suc fuel) cnt a ≡ loop fuel (cnt + 1) (update a cnt (some (new_tree cnt t)))
  unfolding init_trees new_tree
  loop_goes fuel cnt a t pos small h e =
      let ea : s.real_start_addr + (cnt - 1) * 8192 + 8192
          ≡ s.real_start_addr + (cnt + 1 - 1) * 8192 =
        omega arith in
      let em : s.begin_alloc_addr + (cnt - 1) * 2 ^ 24 + 2 ^ 24
          ≡ s.begin_alloc_addr + (cnt + 1 - 1) * 2 ^ 24 =
        omega arith in
      rw (le→leb _ end_addr h, le→ltb max_tree cnt small, e, ea, em)

  later :
      (cnt c : ℕ)
      → (c ≡ cnt + 1) ⊎ (s.begin_alloc_addr + (c - 1) * 2 ^ 24 ≤ end_addr)
      → s.begin_alloc_addr + (cnt - 1) * 2 ^ 24 + 2 ^ 24 ≤ end_addr
      → s.begin_alloc_addr + (c - 1) * 2 ^ 24 ≤ end_addr
  later cnt c (inl e) h = omega arith
  later cnt c (inr q) h = q

  loop-Ended :
      (fuel cnt : ℕ) (a : ℕ → Option Tree)
      → 1 ≤ cnt
      → cnt ≤ 33
      → 0 < fuel
      → end_addr < s.begin_alloc_addr + (cnt - 1) * 2 ^ 24 + fuel * 2 ^ 24
      → Fresh cnt a
      → Ended cnt (loop fuel cnt a)
  loop-Ended zero cnt a pos small enough room before = absurd (omega arith)
  loop-Ended (suc fuel) cnt a pos small enough room before =
      elim (dec_le (s.begin_alloc_addr + (cnt - 1) * 2 ^ 24 + 2 ^ 24) end_addr) [
        | yes more ↦
            let (t, e, f) = initialize_tree_lem (memory (s.real_start_addr + (cnt - 1) * 8192)) in
            let rest =
              loop-Ended fuel (cnt + 1) (update a cnt (some (new_tree cnt t))) (omega arith)
                (omega arith) (omega arith) (omega arith) (Fresh-next cnt a t pos more f before) in
            record {
              cnt' = rest.cnt';
              trees = rest.trees;
              result = loop_goes fuel cnt a t pos (omega arith) more e ∙ rest.result;
              above = omega (arith, rest.above);
              bound = rest.bound;
              inside = inr (later cnt rest.cnt' rest.inside more);
              last = rest.last;
              fresh = rest.fresh;
            }
        | no stop ↦ record {
          cnt' = cnt;
          trees = a;
          result = loop_stops fuel cnt a (omega arith);
          above = omega arith;
          bound = small;
          inside = inl refl;
          last = omega arith;
          fresh = before;
        }
      ]

abbrev with_area : Bbma → ℕ → Bbma
with_area s start = record s {
  area = record { real_start_addr = start; begin_alloc_addr = start + 2 ^ 24 };
}

-- What `distribute_tree` stores for `tree_count` trees.
abbrev shares : ℕ → ℕ → Bbma → ℕ → ℕ → ℕ
shares cpu_count tree_count s =
    give_cpus cpu_count 0 (tree_count / cpu_count) (tree_count % cpu_count) 1 s.cpu_trees

init_of :
    (cpu_count : ℕ) (memory : ℕ → ℕ → ℕ) (start end_addr cnt : ℕ) (s s2 : Bbma)
    → 0 < cpu_count
    → init_trees
        (end_addr / 2 ^ 24 + 1)
        memory
        end_addr
        start
        (start + 2 ^ 24)
        1
        (with_area s start)
      ≡ done (cnt, s2)
    → bbma_init cpu_count memory start end_addr s
      ≡ done (record s2 { tree_num = cnt - 1; cpu_trees = shares cpu_count cnt s2 })
unfolding bbma_init distribute_tree
init_of cpu_count memory start end_addr cnt s s2 cpus e = rw (e, ne→== cpu_count 0 (omega arith))

-- With one processor or more, all tree locks free, and a heap below 2 ^ 64 that begins at a multiple
-- of 16 MB, is 16 MB or longer and shorter than 34 times 16 MB, `bbma_init` ends and fails no
-- assertion; every tree stands for one free block, and there are as many trees as whole areas of
-- 16 MB fit behind the first.
pub bbma_init_lem :
    (cpu_count : ℕ) (memory : ℕ → ℕ → ℕ) (start end_addr : ℕ) (s : Bbma)
    → 0 < cpu_count
    → AlignedTo start 24
    → start + 2 ^ 24 ≤ end_addr
    → end_addr < 2 ^ 64
    → end_addr < start + 34 * 2 ^ 24
    → ((j : ℕ) → s.tree_locks j ≡ 0)
    → (s' : Bbma) × (bbma_init cpu_count memory start end_addr s ≡ done s')
      × Ready s' (λ _. free)
      × (s'.tree_num ≡ (end_addr - (start + 2 ^ 24)) / 2 ^ 24)
bbma_init_lem cpu_count memory start end_addr s cpus aligned room range few unlocked =
    let s1 = with_area s start in
    let ended : Ended memory end_addr s1 range refl (omega arith) 1
        (loop memory end_addr s1 range refl (omega arith) (end_addr / 2 ^ 24 + 1) 1 s.all_trees) =
      loop-Ended memory end_addr s1 range refl (omega arith) (end_addr / 2 ^ 24 + 1) 1 s.all_trees
        (omega arith) (omega arith) (omega arith) (omega arith) (λ j lo hi. absurd (omega arith)) in
    let (x, start_at) = aligned in
    (
      record s1 {
        all_trees = ended.trees;
        tree_num = ended.cnt' - 1;
        cpu_trees = shares cpu_count ended.cnt' s;
      },
      init_of cpu_count memory start end_addr ended.cnt' s (with_trees s1 ended.trees) cpus (
          subst₂
            (λ u v.
              init_trees (end_addr / 2 ^ 24 + 1) memory end_addr u v 1 s1
              ≡ done (ended.cnt', with_trees s1 ended.trees))
            (omega arith) (omega arith) ended.result),
      record {
        few = omega (arith, ended.bound);
        binary = λ j. omega (arith, unlocked j);
        start = (x + 1, omega arith);
        fits = omega (arith, ended.inside, ended.last, ended.above);
        trees = λ j lo hi.
            let at = ended.fresh j lo (omega (arith, ended.above)) in
            record { tree = at.tree; holds = at.holds; rep = at.rep; place = at.place };
      },
      omega (arith, ended.inside, ended.last, ended.above),
    )
