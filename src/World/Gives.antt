-- ===== src/World/Gives.antt =====
-- What a run returns, and the calls it has made by then, where it returns.
use openwatch.Base.{◌≡◌, refl, Bool, true, false, Option, none, some, List, ◌∷◌, if◌then◌else◌}
use openwatch.Base.Errors.{Error, Result, ok, err}
use openwatch.World.{
  Call, Env, World, Outcome, done, panic, stuck, M, pure, ask, continue, ◌>>=◌, if_ok, if_some,
}

-- The run returns, and its result and the record of calls are related by `R`.
unfoldable pub Gives {ℓ} : {A : Type ℓ} → (A → List Call → Type 0) → Outcome A × World → Type 0
Gives R (done a, w) = R a w.trace
Gives R (panic, w) = ⊥
Gives R (stuck, w) = ⊥

module _ {ℓ} {A : Type ℓ} (R : A → List Call → Type 0) where
  pub Gives-pure : (a : A) (env : Env) (w : World) → R a w.trace → Gives R (pure a env w)
  unfolding pure Gives
  Gives-pure a env w h = h

  pub Gives-ask :
      (c : Call) (f : Env → List Call → A) (env : Env) (w : World)
      → R (f env w.trace) (c ∷ w.trace)
      → Gives R (ask c f env w)
  unfolding ask Gives
  Gives-ask c f env w h = h

  pub Gives-if :
      (b : Bool) (m n : M A) (env : Env) (w : World)
      → (b ≡ true → Gives R (m env w))
      → (b ≡ false → Gives R (n env w))
      → Gives R ((if b then m else n) env w)
  Gives-if true m n env w hm hn = hm refl
  Gives-if false m n env w hm hn = hn refl

  pub Gives-if_outcome :
      (b : Bool) (p q : Outcome A × World) → Gives R p → Gives R q → Gives R (if b then p else q)
  Gives-if_outcome true p q hp hq = hp
  Gives-if_outcome false p q hp hq = hq

pub Gives-weaken {ℓ} :
    {A : Type ℓ} (R S : A → List Call → Type 0) (p : Outcome A × World)
    → ((a : A) (tr : List Call) → R a tr → S a tr)
    → Gives R p
    → Gives S p
unfolding Gives
Gives-weaken R S (done a, w) f h = f a w.trace h
Gives-weaken R S (panic, w) f h = h
Gives-weaken R S (stuck, w) f h = h

module _ {ℓ κ} {A : Type ℓ} {B : Type κ} (R : A → List Call → Type 0)
    (S : B → List Call → Type 0) where
  Gives-continue :
      (r : Outcome A) (f : A → M B) (env : Env) (w : World)
      → Gives R (r, w)
      → ((a : A) (w : World) → R a w.trace → Gives S (f a env w))
      → Gives S (continue r f env w)
  unfolding Gives
  Gives-continue (done a) f env w h hf = hf a w h
  Gives-continue panic f env w h hf = elim h [ ]
  Gives-continue stuck f env w h hf = elim h [ ]

  pub Gives-bind :
      (m : M A) (f : A → M B) (env : Env) (w : World)
      → Gives R (m env w)
      → ((a : A) (w : World) → R a w.trace → Gives S (f a env w))
      → Gives S ((m >>= f) env w)
  unfolding ◌>>=◌
  Gives-bind m f env w h hf = Gives-continue (m env w).0 f env (m env w).1 h hf

module _ {ℓ κ} {A : Type ℓ} {B : Type κ} (S : B → List Call → Type 0) where
  pub Gives-if_ok :
      (r : Result A) (failed : Error → M B) (go : A → M B) (env : Env) (w : World)
      → ((e : Error) → r ≡ err e → Gives S (failed e env w))
      → ((a : A) → r ≡ ok a → Gives S (go a env w))
      → Gives S (if_ok r failed go env w)
  unfolding if_ok
  Gives-if_ok (ok a) failed go env w hf hg = hg a refl
  Gives-if_ok (err e) failed go env w hf hg = hf e refl

  pub Gives-if_some :
      (o : Option A) (absent : M B) (go : A → M B) (env : Env) (w : World)
      → (o ≡ none → Gives S (absent env w))
      → ((a : A) → o ≡ some a → Gives S (go a env w))
      → Gives S (if_some o absent go env w)
  unfolding if_some
  Gives-if_some none absent go env w hn hs = hn refl
  Gives-if_some (some a) absent go env w hn hs = hs a refl
