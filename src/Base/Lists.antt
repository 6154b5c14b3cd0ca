-- ===== src/Base/Lists.antt =====
-- Lists measured and cut by native numbers, under the library's names, and predicates on them.
use Prim.Native.Nat.{ℕ, zero, suc, ◌+◌}
use mathlib.Core.Path.{◌≡◌, refl}
use mathlib.Core.Logic.{◌⊎◌}
use mathlib.Core.List.{List, [], ◌∷◌, ◌++◌}
use native.Mathlib.Omega.{arith}

module _ {ℓ} {A : Type ℓ} where
  abbrev pub length : List A → ℕ
  length [] = 0
  length (x ∷ xs) = suc (length xs)

  abbrev pub take : ℕ → List A → List A
  take zero xs = []
  take (suc n) [] = []
  take (suc n) (x ∷ xs) = x ∷ take n xs

  abbrev pub drop : ℕ → List A → List A
  drop zero xs = xs
  drop (suc n) [] = []
  drop (suc n) (x ∷ xs) = drop n xs

  pub length-append : (xs ys : List A) → length (xs ++ ys) ≡ length xs + length ys
  length-append [] ys = omega arith
  length-append (x ∷ xs) ys = omega (arith, length-append xs ys)

module _ {ℓ} {A : Type ℓ} where
  pub take-length-append : (xs ys : List A) → take (length xs) (xs ++ ys) ≡ xs
  take-length-append [] ys = refl
  take-length-append (x ∷ xs) ys = rw (take-length-append xs ys)

  pub drop-length-append : (xs ys : List A) → drop (length xs) (xs ++ ys) ≡ ys
  drop-length-append [] ys = refl
  drop-length-append (x ∷ xs) ys = drop-length-append xs ys

  pub drop-suc-length-append :
      (xs : List A) (y : A) (ys : List A) → drop (suc (length xs)) (xs ++ y ∷ ys) ≡ ys
  drop-suc-length-append [] y ys = refl
  drop-suc-length-append (x ∷ xs) y ys = drop-suc-length-append xs y ys

module _ {ℓ κ} {A : Type ℓ} (P : A → Type κ) where
  abbrev pub All : List A → Type κ
  All [] = Unit
  All (x ∷ xs) = P x × All xs

  pub All-append : (xs ys : List A) → All xs → All ys → All (xs ++ ys)
  All-append [] ys h k = k
  All-append (x ∷ xs) ys (p, h) k = (p, All-append xs ys h k)

  pub All-last : (xs : List A) (y : A) → All (xs ++ y ∷ []) → P y
  All-last [] y h = h.0
  All-last (x ∷ xs) y h = All-last xs y h.1

  pub All-init : (xs : List A) (y : A) → All (xs ++ y ∷ []) → All xs
  All-init [] y h = tt
  All-init (x ∷ xs) y h = (h.0, All-init xs y h.1)

module _ {ℓ} {A : Type ℓ} (P : A → Type 0) where
  -- Some element of the list satisfies `P`.
  abbrev pub Any : List A → Type 0
  Any [] = ⊥
  Any (x ∷ xs) = P x ⊎ Any xs

module _ {ℓ κ μ} {A : Type ℓ} (P : A → Type κ) (Q : A → Type μ) where
  pub All-impl : ((a : A) → P a → Q a) → (xs : List A) → All P xs → All Q xs
  All-impl f [] h = tt
  All-impl f (x ∷ xs) h = (f x h.0, All-impl f xs h.1)

-- Every element is related to every later one.
module _ {ℓ κ} {A : Type ℓ} (R : A → A → Type κ) where
  abbrev pub IsOrdered : List A → Type κ
  IsOrdered [] = Unit
  IsOrdered (x ∷ xs) = All (R x) xs × IsOrdered xs
