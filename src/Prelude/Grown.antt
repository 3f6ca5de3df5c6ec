-- ===== src/Prelude/Grown.antt =====
-- A list with one more element than another.
use mathlib.Core.Path.{◌≡◌, refl, sym, ◌∙◌}
use mathlib.Core.Logic.{◌≢◌}
use mathlib.Core.List.{List, [], ◌∷◌, ◌++◌, append_assoc}

-- `after` has `x` in one place of the list, and is `before` elsewhere.
pub record Added {ℓ} {A : Type ℓ} (x : A) (before after : List A) : Type ℓ where
  pub front : List A
  pub back : List A
  pub old : before ≡ front ++ back
  pub new : after ≡ front ++ (x ∷ back)

module _ {ℓ} {A : Type ℓ} {x : A} {before after : List A} (d : Added x before after) where
  open d use {front, back, old, new}

  pub Added-left : (more : List A) → Added x (before ++ more) (after ++ more)
  Added-left more = record {
    front = front;
    back = back ++ more;
    old = rw (old, append_assoc);
    new = rw (new, append_assoc);
  }

  pub Added-right : (more : List A) → Added x (more ++ before) (more ++ after)
  Added-right more = record {
    front = more ++ front;
    back = back;
    old = rw (old, append_assoc);
    new = rw (new, append_assoc);
  }

  pub Added-ne-nil : after ≢ []
  Added-ne-nil e = go front (sym new ∙ e)
    where
      go : (f : List A) → f ++ (x ∷ back) ≢ []
      go [] h = cc
      go (y ∷ f) h = cc

pub Added-one {ℓ} : {A : Type ℓ} (x : A) → Added x [] (x ∷ [])
Added-one x = record { front = []; back = []; old = refl; new = refl }
