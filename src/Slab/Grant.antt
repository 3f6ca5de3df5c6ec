-- ===== src/Slab/Grant.antt =====
-- The allocator of pages as the slab allocator sees it, and what a call of the latter grants.
use mathlib.Core.Path.{subst}
use jyy_os.Prelude.{
  ℕ, suc, ◌%◌, ◌<◌, ◌≡◌, ◌≢◌, ◌⊎◌, inl, inr, ◌∙◌, refl, sym, ap, List, ◌∷◌, All, length, update,
  update_ne, arith, true, Option, none, some, eq-cases, ◌==◌, Outcome, done,
}
use jyy_os.Align.{is_align_to}
use jyy_os.Slab.{Slab, add_page}
use jyy_os.Slab.Classes.{Class, numbers}
use jyy_os.Slab.Lists.{Slot}
use jyy_os.Slab.Fresh.{Blocks}
use jyy_os.Slab.State.{PageOk-same, Blocks-same, Ok, apart_words}
use jyy_os.Slab.Find.{Taken}
use jyy_os.Slab.Request.{other_kind, add_page-Taken}

-- What the slab allocator asks of the allocator of pages: `Good` states `P` with the blocks `Blocks`
-- that are handed out, of which `Owned` is one; a new page is aligned and not NULL, was not owned
-- before, is owned after, and takes no block away.
pub record PageSource (P : Type 0) (alloc : P → ℕ → Outcome (ℕ × P)) : Type 1 where
  pub Ghost : Type 0
  pub Good : P → Ghost → Type 0
  pub Owned : P → Ghost → ℕ → Type 0
  pub alloc_law :
      (p : P) (g : Ghost)
      → Good p g
      → ((q : ℕ) × (p' : P) × (g' : Ghost) × (alloc p 4096 ≡ done (q, p'))
          × Good p' g'
          × (q % 4096 ≡ 0)
          × (0 < q)
          × (¬ Owned p g q)
          × Owned p' g' q
          × ((x : ℕ) → Owned p g x → Owned p' g' x))
        ⊎ (alloc p 4096 ≡ done (0, p))

module _ {P : Type 0} (alloc : P → ℕ → Outcome (ℕ × P)) (source : PageSource P alloc) where
  open source use {Ghost, Good, Owned, alloc_law}

  -- All pages of the slab allocator are owned by it.
  unfoldable pub Backed : Slab P → (ℕ → Option ℕ) → Ghost → Type 0
  Backed s kind g = Good s.pool g × ((p k : ℕ) → kind p ≡ some k → Owned s.pool g p)

  -- A block of 2 ^ k bytes was taken from `page`, which has it no longer among its free blocks. The
  -- page had it free, or is new. The free blocks of other pages are as before.
  pub record Served (n : ℕ) (s : Slab P) (kind : ℕ → Option ℕ) (k : ℕ) (r : Outcome (ℕ × Slab P))
      : Type 0 where
    pub page : ℕ
    pub block : ℕ
    pub left : List ℕ
    pub after : Slab P
    pub kind' : ℕ → Option ℕ
    pub ghost : Ghost
    pub result : r ≡ done (block, after)
    pub ok : Ok n after kind'
    pub backed : Backed after kind' ghost
    pub of_kind : kind' page ≡ some k
    pub slot : Slot page k block
    pub now : Blocks after page k left
    pub few : length left < 127
    pub taken : All (λ x. block ≢ x) left
    pub before : ((kind page ≡ some k) × Blocks s page k (block ∷ left)) ⊎ (kind page ≡ none)
    pub others :
        (q j : ℕ) (l : List ℕ)
        → kind q ≡ some j
        → page ≢ q
        → Blocks s q j l
        → (kind' q ≡ some j) × Blocks after q j l

  pub Ok-more : (n : ℕ) (s : Slab P) (kind : ℕ → Option ℕ) → Ok n s kind → Ok (suc n) s kind
  Ok-more n s kind ok = record {
    unlocked = ok.unlocked;
    pages = ok.pages;
    chains = λ c k cl.
        let old = ok.chains c k cl in
        record {
          chain = old.chain;
          linked = old.linked;
          kinds = old.kinds;
          short = omega (arith, old.short);
        };
  }

  -- A pointer from a slot passes the assertions of `slab_alloc`.
  pub slot-aligned : (page k b : ℕ) → Class k → Slot page k b → is_align_to b k ≡ done true
  slot-aligned page k b cl h = (numbers k cl).aligned b ∙ ap (λ x. done (x == 0)) h.2

  pub null_aligned : (k : ℕ) → Class k → is_align_to 0 k ≡ done true
  null_aligned k cl =
      (numbers k cl).aligned 0 ∙ ap (λ x. done (x == 0)) ((numbers k cl).divides 0 refl)

  pub Found :
      (n : ℕ) (s : Slab P) (kind : ℕ → Option ℕ) (k : ℕ) (g : Ghost) (r : Outcome (ℕ × Slab P))
      → Ok n s kind
      → Backed s kind g
      → Taken n s kind k r
      → Served n s kind k r
  unfolding Backed
  Found n s kind k g r ok backed t = record {
    page = t.page;
    block = t.block;
    left = t.left;
    after = t.after;
    kind' = kind;
    ghost = g;
    result = t.result;
    ok = t.ok;
    backed = (
      subst (λ p. Good p g) (sym t.pool) backed.0,
      λ p j e. subst (λ x. Owned x g p) (sym t.pool) (backed.1 p j e),
    );
    of_kind = t.of_kind;
    slot = t.was.slots.0;
    now = t.now;
    few = t.few;
    taken = t.was.different.0;
    before = inl (t.of_kind, t.was);
    others = λ q j l e ne b.
        let mine = ok.pages t.page k t.of_kind in
        let its = ok.pages q j e in
        (
          e,
          Blocks-same s t.after q j l its.class (t.changed.sticks q ne)
              (apart_words s t.after t.page q t.changed.words mine.start its.start ne) b,
        );
  }

  -- The state of the allocator of pages does not matter to the lists.
  Ok-pool :
      (n : ℕ) (s : Slab P) (kind : ℕ → Option ℕ) (p : P)
      → Ok n s kind
      → Ok n (record s { pool = p }) kind
  Ok-pool n s kind p ok = record {
    unlocked = ok.unlocked;
    pages =
        λ q k e. PageOk-same s (record s { pool = p }) q k refl (λ x lo hi. refl) (ok.pages q k e);
    chains = λ c k cl.
        let old = ok.chains c k cl in
        record { chain = old.chain; linked = old.linked; kinds = old.kinds; short = old.short };
  }

  -- A page that is not owned has no kind.
  pub no_kind :
      (s : Slab P) (kind : ℕ → Option ℕ) (g : Ghost) (q : ℕ)
      → Backed s kind g
      → ¬ Owned s.pool g q
      → kind q ≡ none
  unfolding Backed
  no_kind s kind g q backed fresh = go (kind q) refl
    where
      go : (o : Option ℕ) → kind q ≡ o → o ≡ none
      go none e = refl
      go (some k) e = absurd (fresh (backed.1 q k e))

  pub new_page-Served :
      (n cpu k q : ℕ) (s : Slab P) (p' : P) (kind : ℕ → Option ℕ) (g' : Ghost)
      → Ok n s kind
      → Class k
      → kind q ≡ none
      → q % 4096 ≡ 0
      → 0 < q
      → (s.sticks q).slab_lock ≡ 0
      → Good p' g'
      → Owned p' g' q
      → ((p j : ℕ) → kind p ≡ some j → Owned p' g' p)
      → Served (suc n) s kind k (add_page alloc (suc (suc n)) cpu k q (record s { pool = p' }))
  unfolding Backed
  new_page-Served n cpu k q s p' kind g' ok cl none_yet start positive unlocked good owned kept =
      let s1 : Slab P = record s { pool = p' } in
      let a =
        add_page-Taken alloc n cpu k q s1 kind (Ok-pool n s kind p' ok) cl none_yet start positive
          unlocked in
      let s2 = a.0 in
      let grown = a.1 in
      let t = a.2 in
      let pool : t.after.pool ≡ p' = t.pool ∙ grown.pool in
      record {
        page = t.page;
        block = t.block;
        left = t.left;
        after = t.after;
        kind' = update kind q (some k);
        ghost = g';
        result = t.result;
        ok = t.ok;
        backed = (
          subst (λ p. Good p g') (sym pool) good,
          λ p j e.
              subst (λ x. Owned x g' p) (sym pool)
                (elim (eq-cases q p) [
                  | inl y ↦ subst (λ x. Owned p' g' x) y.0 owned
                  | inr y ↦ kept p j (sym (update_ne kind q p (some k) y.0) ∙ e)
                ]),
        );
        of_kind = t.of_kind;
        slot = t.was.slots.0;
        now = t.now;
        few = t.few;
        taken = t.was.different.0;
        before = elim (eq-cases q t.page) [
          | inl y ↦ inr (ap kind (sym y.0) ∙ none_yet)
          | inr y ↦
              let e = sym (update_ne kind q t.page (some k) y.0) ∙ t.of_kind in
              let its = ok.pages t.page k e in
              inl (
                e,
                Blocks-same s2 s t.page k (t.block ∷ t.left) cl (sym (grown.sticks t.page y.0))
                    (λ x lo hi.
                      sym (apart_words s s2 q t.page grown.words start its.start y.0 x lo hi))
                    t.was,
              )
        ];
        others = λ r j l e ne b.
            let away = other_kind kind q r j none_yet e in
            let e' = update_ne kind q r (some k) away ∙ e in
            let mine = grown.ok.pages t.page k t.of_kind in
            let its = ok.pages r j e in
            let b2 =
              Blocks-same s s2 r j l its.class (grown.sticks r away)
                (apart_words s s2 q r grown.words start its.start away) b in
            (
              e',
              Blocks-same s2 t.after r j l its.class (t.changed.sticks r ne)
                  (apart_words s2 t.after t.page r t.changed.words mine.start its.start ne) b2,
            );
      }
