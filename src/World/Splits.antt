-- ===== src/World/Splits.antt =====
-- A run that makes only some calls, or does something else that is known of it.
use openwatch.Base.{◌≡◌, refl, ◌⊎◌, inl, inr, Bool, true, false, All, if◌then◌else◌}
use openwatch.Base.Errors.{Error, Result, ok, err}
use openwatch.World.{Call, Env, World, Outcome, done, panic, stuck, M, continue, ◌>>=◌, if_ok}
use openwatch.World.Makes.{Makes, trace-Makes}

-- The run's calls are all ones that `Q` allows, or `X` holds of it.
abbrev pub Splits {ℓ} :
    {B : Type ℓ} → (Call → Type 0) → (Outcome B × World → Type 0) → Outcome B × World → Type 0
Splits Q X p = All Q p.1.trace ⊎ X p

module _ {κ} {B : Type κ} (Q : Call → Type 0) (X : Outcome B × World → Type 0) (env : Env) where
  pub Splits-Makes : (m : M B) (w : World) → Makes Q m → All Q w.trace → Splits Q X (m env w)
  Splits-Makes m w hm h = inl (trace-Makes m hm env w h)

  Splits-continue {ℓ} :
      {A : Type ℓ} (r : Outcome A) (f : A → M B) (w : World)
      → All Q w.trace
      → ((a : A) (w' : World)
          → ◌≡◌ {A = Outcome A × World} (r, w) (done a, w')
          → All Q w'.trace
          → Splits Q X (f a env w'))
      → Splits Q X (continue r f env w)
  Splits-continue (done a) f w h hf = hf a w refl h
  Splits-continue panic f w h hf = inl h
  Splits-continue stuck f w h hf = inl h

  pub Splits-bind {ℓ} :
      {A : Type ℓ} (m : M A) (f : A → M B) (w : World)
      → Makes Q m
      → All Q w.trace
      → ((a : A) (w' : World)
          → ◌≡◌ {A = Outcome A × World} (m env w) (done a, w')
          → All Q w'.trace
          → Splits Q X (f a env w'))
      → Splits Q X ((m >>= f) env w)
  unfolding ◌>>=◌
  Splits-bind m f w hm h hf =
      Splits-continue (m env w).0 f (m env w).1 (trace-Makes m hm env w h) hf

  pub Splits-if :
      (b : Bool) (m n : M B) (w : World)
      → (b ≡ true → Splits Q X (m env w))
      → (b ≡ false → Splits Q X (n env w))
      → Splits Q X ((if b then m else n) env w)
  Splits-if true m n w hm hn = hm refl
  Splits-if false m n w hm hn = hn refl

  pub Splits-if_ok {ℓ} :
      {A : Type ℓ} (r : Result A) (failed : Error → M B) (go : A → M B) (w : World)
      → ((e : Error) → Splits Q X (failed e env w))
      → ((a : A) → r ≡ ok a → Splits Q X (go a env w))
      → Splits Q X (if_ok r failed go env w)
  unfolding if_ok
  Splits-if_ok (ok a) failed go w hf hg = hg a refl
  Splits-if_ok (err e) failed go w hf hg = hf e

pub Splits-map {κ} :
    {B : Type κ} (Q : Call → Type 0) (X Y : Outcome B × World → Type 0) {p : Outcome B × World}
    → (X p → Y p)
    → Splits Q X p
    → Splits Q Y p
Splits-map Q X Y f (inl h) = inl h
Splits-map Q X Y f (inr x) = inr (f x)
