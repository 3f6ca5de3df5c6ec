-- ===== src/Slab/Spin.antt =====
-- A new page of the buddy allocator whose first int, the lock word of its stick, is not 0.
use jyy_os.Prelude.{
  ℕ, suc, ◌-◌, ◌%◌, ◌<◌, ◌≡◌, ◌≢◌, ◌∙◌, refl, ap, update, update_self, ne→==, Outcome, stuck, arith,
}
use jyy_os.Slab.{
  Stick, Slab, add_page, find_the_free_space_in_slab, find_the_avaliable_page_in_slab_and_lock,
  find_page_from,
}
use jyy_os.Slab.Classes.{Class}
use jyy_os.Slab.Fresh.{initialize-Blocks}
use jyy_os.Slab.Request.{linked_page}

module _ {P : Type 0} where
  -- `request_a_slab_from_bbma` with such a page spins on its lock.
  pub add_page-stuck :
      (bbma_alloc : P → ℕ → Outcome (ℕ × P)) (n cpu k page : ℕ) (s : Slab P)
      → Class k
      → page % 4096 ≡ 0
      → 0 < page
      → (s.sticks page).slab_lock ≢ 0
      → add_page bbma_alloc (suc n) cpu k page s ≡ stuck
  unfolding add_page find_the_free_space_in_slab find_the_avaliable_page_in_slab_and_lock
      find_page_from
  add_page-stuck bbma_alloc n cpu k page s class start positive locked_word =
      let s1 = linked_page s cpu k page in
      let i = initialize-Blocks page k s1 class start in
      let lock : (i.0.sticks page).slab_lock ≡ (s.sticks page).slab_lock =
        i.6
        ∙ ap (λ (t : Stick). t.slab_lock)
            (update_self s.sticks page
              (record (s.sticks page) { next_slab_stick = s.cpu_own_area cpu (k - 5) })) in
      let head : i.0.cpu_own_area cpu (k - 5) ≡ page =
        ap (λ (f : ℕ → ℕ → ℕ). f cpu (k - 5)) i.9
        ∙ ap (λ (f : ℕ → ℕ). f (k - 5))
            (update_self s.cpu_own_area cpu (update (s.cpu_own_area cpu) (k - 5) page))
        ∙ update_self (s.cpu_own_area cpu) (k - 5) page in
      rw
        (
          i.2,
          head,
          ne→== page 0 (λ z. omega (arith, z, positive)),
          lock,
          ne→== (s.sticks page).slab_lock 0 locked_word,
        )
        refl
