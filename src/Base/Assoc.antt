-- ===== src/Base/Assoc.antt =====
-- A Go map with string keys, as an association list. A `range` over it visits the pairs in the
-- list's order, which stands for whatever order the run happens to have.
pub mod Laws
use mathlib.Core.Path.{◌≡◌, refl}
use mathlib.Core.Logic.{◌≢◌, ◌↔◌}
use mathlib.Core.Bool.{Bool, true, false}
use mathlib.Core.Option.{Option, none, some, IsSome}
use mathlib.Core.List.{List, [], ◌∷◌, map}
use native.Mathlib.Omega.{arith}
use openwatch.Base.Tests.{if◌then◌else◌}
use openwatch.Base.Lists.{All, IsOrdered}
use openwatch.Base.Text.{Text, text_eq}

abbrev pub Assoc {ℓ} : Type ℓ → Type ℓ
Assoc V = List (Text × V)

module _ {ℓ} {V : Type ℓ} where
  -- `v, ok := m[k]`
  unfoldable pub lookup : Text → Assoc V → Option V
  lookup k [] = none
  lookup k ((j, v) ∷ m) = if text_eq j k then some v else lookup k m

  -- `m[k] = v`
  unfoldable pub insert : Text → V → Assoc V → Assoc V
  insert k v [] = (k, v) ∷ []
  insert k v ((j, w) ∷ m) = if text_eq j k then (j, v) ∷ m else (j, w) ∷ insert k v m

  -- `_, ok := m[k]`
  unfoldable pub has_key : Text → Assoc V → Bool
  unfolding lookup
  has_key k m = elim (lookup k m) [ none ↦ false | some _ ↦ true ]

  abbrev pub keys : Assoc V → List Text
  keys [] = []
  keys ((k, _) ∷ m) = k ∷ keys m

  -- No key is listed twice.
  abbrev pub HasDistinctKeys : Assoc V → Type 0
  HasDistinctKeys m = IsOrdered (λ a b. a ≢ b) (keys m)
