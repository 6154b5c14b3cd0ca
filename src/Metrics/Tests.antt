-- ===== src/Metrics/Tests.antt =====
-- A registry that refuses a name it has, which satisfies the laws of one.
use openwatch.Base.{◌≡◌, refl, Bool, false, ◌||◌, List, [], ◌∷◌, All, if◌then◌else◌}
use openwatch.Base.Text.{Text, codes, text_eq}
use openwatch.Base.Errors.{message, ok, err}
use openwatch.Metrics.Collectors.{Registry, IsRegistry}

abbrev is_held : Text → List Text → Bool
is_held name [] = false
is_held name (n ∷ ns) = text_eq n name || is_held name ns

abbrev by_name : Registry (List Text)
by_name = record {
  new_registry = [];
  register =
      λ reg c. if is_held c.name reg then err (message (codes "duplicate")) else ok (c.name ∷ reg);
}

is_held-new :
    (name : Text) (reg : List Text)
    → All (λ n. text_eq n name ≡ false) reg
    → is_held name reg ≡ false
is_held-new name [] h = refl
is_held-new name (n ∷ ns) h = rw (h.0, is_held-new name ns h.1) refl

by_name-IsRegistry : IsRegistry by_name
by_name-IsRegistry = record {
  names = λ reg. reg;
  starts = refl;
  takes = λ reg c h. (c.name ∷ reg, rw (is_held-new c.name reg h) refl, refl);
}
