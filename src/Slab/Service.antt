-- ===== src/Slab/Service.antt =====
-- `slab_alloc` between two states of the allocator.
use mathlib.Core.Path.{subst}
use jyy_os.Prelude.{
  ℕ, suc, ◌^◌, ◌≤◌, ◌<◌, ◌≡◌, ◌≢◌, ◌⊎◌, inl, inr, ◌∙◌, refl, sym, All, arith, Option, ne→==,
  Outcome, done, stuck, eq-cases,
}
use jyy_os.Slab.{
  Slab, slab_refuse, determine_slab_size, request_a_slab_from_bbma, alloc_small, slab_alloc,
}
use jyy_os.Slab.Classes.{Class, determine_slab_size-Class}
use jyy_os.Slab.State.{Chain, Ok}
use jyy_os.Slab.Find.{find-Taken}
use jyy_os.Slab.Spin.{add_page-stuck}
use jyy_os.Slab.Grant.{
  PageSource, Backed, Served, Found, Ok-more, no_kind, new_page-Served, slot-aligned, null_aligned,
}

not_refused : (size : ℕ) → size ≤ 2048 → determine_slab_size size ≢ slab_refuse
unfolding determine_slab_size
not_refused size small e = ground (arith, small, e)

module _ {P : Type 0} (alloc : P → ℕ → Outcome (ℕ × P)) (source : PageSource P alloc) where
  open source use {Ghost, alloc_law}

  -- The call spins on a page that the allocator of pages has just handed out, and whose lock word is
  -- not 0.
  pub record Spins (s : Slab P) (r : Outcome (ℕ × Slab P)) : Type 0 where
    pub page : ℕ
    pub pool : P
    pub granted : alloc s.pool 4096 ≡ done (page, pool)
    pub locked : (s.sticks page).slab_lock ≢ 0
    pub result : r ≡ stuck

  -- A page from the allocator of pages gives the block, or that allocator has none and nothing changes,
  -- or the page that it gives seems to be locked.
  request-Served :
      (n cpu k : ℕ) (s : Slab P) (kind : ℕ → Option ℕ) (g : Ghost)
      → Ok n s kind
      → Backed alloc source s kind g
      → Class k
      → Served alloc source (suc n) s kind k (request_a_slab_from_bbma alloc (suc (suc n)) cpu k s)
        ⊎ (request_a_slab_from_bbma alloc (suc (suc n)) cpu k s ≡ done (0, s))
        ⊎ Spins s (request_a_slab_from_bbma alloc (suc (suc n)) cpu k s)
  unfolding Backed request_a_slab_from_bbma
  request-Served n cpu k s kind g ok backed cl = elim (alloc_law s.pool g backed.0) [
    | inr e ↦ inr (inl (rw e refl))
    | inl (q, p', g', e, good, start, positive, fresh, owned, mono) ↦
        let there = ne→== q 0 (λ z. omega (arith, z, positive)) in
        elim (eq-cases (s.sticks q).slab_lock 0) [
          | inl y ↦ inl (
              rw (e, start, there)
                (new_page-Served alloc source n cpu k q s p' kind g' ok cl
                  (no_kind alloc source s kind g q backed fresh) start positive y.0 good owned
                  (λ p j f. mono p (backed.1 p j f))))
          | inr y ↦ inr (
              inr (record {
                page = q;
                pool = p';
                granted = e;
                locked = y.0;
                result =
                    rw (e, start, there)
                      (add_page-stuck alloc (suc n) cpu k q (record s { pool = p' }) cl start
                        positive y.0);
              }))
        ]
  ]

  alloc_small-Served :
      (n cpu k : ℕ) (s : Slab P) (kind : ℕ → Option ℕ) (g : Ghost)
      → Ok n s kind
      → Backed alloc source s kind g
      → Class k
      → Served alloc source (suc n) s kind k (alloc_small alloc (suc (suc n)) cpu k s)
        ⊎ ((alloc_small alloc (suc (suc n)) cpu k s ≡ done (0, s))
            × ((c : Chain (suc n) s kind cpu k) × All
                  (λ p. (s.sticks p).current_slab_free_space ≡ 0)
                  c.chain))
        ⊎ Spins s (alloc_small alloc (suc (suc n)) cpu k s)
  unfolding alloc_small
  alloc_small-Served n cpu k s kind g ok backed cl =
      elim (find-Taken (suc n) cpu k s kind (Ok-more alloc source n s kind ok) cl) [
        | inl t ↦
            let v =
              Found alloc source (suc n) s kind k g _ (Ok-more alloc source n s kind ok) backed t in
            inl (
              subst (Served alloc source (suc n) s kind k)
                (v.result
                  ∙ sym (
                      rw
                        (
                          v.result,
                          slot-aligned alloc source v.page k v.block cl v.slot,
                          ne→== v.block 0 (λ z. omega (arith, z, v.slot.0)),
                          slot-aligned alloc source v.page k v.block cl v.slot,
                        )
                        refl))
                v)
        | inr (e, c) ↦ elim (request-Served n cpu k s kind g ok backed cl) [
          | inl v ↦ inl (
              subst (Served alloc source (suc n) s kind k)
                (v.result
                  ∙ sym (
                      rw
                        (
                          e,
                          null_aligned alloc source k cl,
                          v.result,
                          slot-aligned alloc source v.page k v.block cl v.slot,
                        )
                        refl))
                v)
          | inr (inl f) ↦ inr (
              inl
                (rw (e, null_aligned alloc source k cl, f, null_aligned alloc source k cl) refl, c))
          | inr (inr z) ↦ inr (
              inr (record {
                page = z.page;
                pool = z.pool;
                granted = z.granted;
                locked = z.locked;
                result = rw (e, null_aligned alloc source k cl, z.result) refl;
              }))
        ]
      ]

  -- Let the lists of pages of the slab allocator be sound and at most `n` pages long, none of these
  -- pages be locked, and its pages be owned from the allocator of pages. Then `slab_alloc` for 1 to
  -- 2048 bytes fails no assertion. Either it returns a block of 2 ^ k bytes that holds the size, at a
  -- multiple of 2 ^ k inside a page and behind its stick, which was free there or is on a page that
  -- is new, and is not free after; the free blocks of the other pages are as before, and the state is
  -- sound again. Or it returns NULL and changes nothing, where no page of the processor for that size
  -- has a free block. Or it spins, where the allocator of pages has handed out a page whose first int
  -- is not 0.
  pub slab_alloc-Served :
      (n cpu size : ℕ) (s : Slab P) (kind : ℕ → Option ℕ) (g : Ghost)
      → Ok n s kind
      → Backed alloc source s kind g
      → 0 < size
      → size ≤ 2048
      → (k : ℕ) × Class k
        × (size ≤ 2 ^ k)
        × (Served alloc source (suc n) s kind k (slab_alloc alloc (suc (suc n)) cpu size s)
            ⊎ ((slab_alloc alloc (suc (suc n)) cpu size s ≡ done (0, s))
                × ((c : Chain (suc n) s kind cpu k) × All
                      (λ p. (s.sticks p).current_slab_free_space ≡ 0)
                      c.chain))
            ⊎ Spins s (slab_alloc alloc (suc (suc n)) cpu size s))
  unfolding slab_alloc
  slab_alloc-Served n cpu size s kind g ok backed some_bytes small =
      let known = not_refused size small in
      let (cl, holds) = determine_slab_size-Class size known in
      (
        determine_slab_size size,
        cl,
        holds,
        rw
            (
              ne→== size 0 (λ z. omega (arith, z, some_bytes)),
              ne→== (determine_slab_size size) 12 known,
            )
            (alloc_small-Served n cpu (determine_slab_size size) s kind g ok backed cl),
      )
