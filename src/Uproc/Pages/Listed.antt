-- ===== src/Uproc/Pages/Listed.antt =====
-- The list of mapped pages when `delete_map_page` of uproc.c takes one off.
use jyy_os.Prelude.{
  ℕ, ◌≡◌, ◌≢◌, inl, inr, refl, sym, ◌∙◌, ne→==, eq-cases, none, some, List, [], ◌∷◌, done, All,
}
use mathlib.Core.Path.{subst}
use jyy_os.Uproc.Pages.{Page, find_mapped_page, delete_map_page}

-- No page of the list is mapped at `va`.
abbrev pub NotMapped : ℕ → List Page → Type 0
NotMapped va = All (λ q. q.va ≢ va)

-- A virtual address is mapped at most once.
abbrev pub Uniq : List Page → Type 0
Uniq [] = Unit
Uniq (p ∷ rest) = NotMapped p.va rest × Uniq rest

find_none : (va : ℕ) (pages : List Page) → NotMapped va pages → find_mapped_page pages va ≡ none
unfolding find_mapped_page
find_none va [] h = refl
find_none va (p ∷ rest) h = rw (ne→== p.va va h.0, find_none va rest h.1) refl

-- What taking the page at `va` off a list does.
pub record Deleted (pages : List Page) (va : ℕ) : Type 0 where
  pub after : List Page
  pub result : delete_map_page pages va ≡ done after
  pub uniq : Uniq after
  pub part : (v : ℕ) → NotMapped v pages → NotMapped v after
  pub gone : find_mapped_page after va ≡ none
  pub kept : (v : ℕ) → v ≢ va → find_mapped_page after v ≡ find_mapped_page pages v

pub delete-Deleted :
    (pages : List Page) (va : ℕ) (pg : Page)
    → Uniq pages
    → find_mapped_page pages va ≡ some pg
    → Deleted pages va
unfolding find_mapped_page delete_map_page
delete-Deleted [] va pg u f = absurd (cc)
delete-Deleted (p ∷ rest) va pg u f = elim (eq-cases p.va va) [
  | inl y ↦ record {
    after = rest;
    result = rw y.1 refl;
    uniq = u.1;
    part = λ v h. h.1;
    gone = find_none va rest (subst (λ a. NotMapped a rest) y.0 u.0);
    kept = λ v ne. rw (ne→== p.va v (λ e. ne (sym e ∙ y.0))) refl;
  }
  | inr n ↦
      let d = delete-Deleted rest va pg u.1 (rw n.1 at f) in
      record {
        after = p ∷ d.after;
        result = rw (n.1, d.result) refl;
        uniq = (d.part p.va u.0, d.uniq);
        part = λ v h. (h.0, d.part v h.1);
        gone = rw (n.1, d.gone) refl;
        kept = λ v ne. rw (d.kept v ne) refl;
      }
]
