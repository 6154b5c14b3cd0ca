-- ===== src/Updater/Health/Cases.antt =====
-- internal/updater/rollback.go: case splits for what a step of the health wait returns.
use openwatch.Base.{not, ◌∷◌, ◌≡◌, refl, Bool, true, false, Option, if◌then◌else◌}
use openwatch.Base.Errors.{Error, Result, ok, err}
use openwatch.Updater.Health.{Verdict, settled, waiting, on_verdict}
use openwatch.Docker.{InspectResponse}
use openwatch.Docker.Containers.{inspect_container, inspect_base, lacks_base}
use openwatch.Base.Text.{Text}
use openwatch.World.{Call, panic, continue, ◌>>=◌, ask, fault, pure, Env, World, Outcome, M, if_ok}

-- Cases on the tests of a program, for a property of what it returns.
module _ {A : Type 0} (R : Outcome A × World → Type 0) (env : Env) (w : World) where
  pub on_test :
      (b : Bool) (m n : M A)
      → (b ≡ true → R (m env w))
      → (b ≡ false → R (n env w))
      → R ((if b then m else n) env w)
  on_test true m n hm hn = hm refl
  on_test false m n hm hn = hn refl

  pub on_result :
      {B : Type 0}
      → (r : Result B) (failed : Error → M A) (go : B → M A) → ((e : Error) → R (failed e env w))
      → ((b : B) → r ≡ ok b → R (go b env w))
      → R (if_ok r failed go env w)
  unfolding if_ok
  on_result (ok b) failed go hf hg = hg b refl
  on_result (err e) failed go hf hg = hf e

  pub on_settled :
      (v : Verdict) (go : Option Error → M A) (wait : M A)
      → ((r : Option Error) → v ≡ settled r → R (go r env w))
      → R (wait env w)
      → R (on_verdict v go wait env w)
  on_settled (settled r) go wait hg hw = hg r refl
  on_settled waiting go wait hg hw = hw

false_of : (b : Bool) → not b ≡ true → b ≡ false
false_of true h = cc h
false_of false h = refl

-- An inspection whose base is read.
module _ {A : Type 0} (R : Outcome A × World → Type 0) (env : Env) (w : World) where
  abbrev looked : Text → World
  looked id = record w { trace = Call.container_inspect id ∷ w.trace }

  pub on_base :
      (id : Text) (f : Result InspectResponse → M A)
      → ((inspect : InspectResponse)
          → env.container_inspect w.trace id ≡ ok inspect
          → inspect.has_base ≡ false
          → R (panic, looked id))
      → R (f (env.container_inspect w.trace id) env (looked id))
      → R ((inspect_base id >>= f) env w)
  unfolding inspect_base inspect_container ◌>>=◌ ask fault pure
  on_base id f bare based =
      on_test (λ p. R (continue p.0 f env p.1)) env (looked id)
        (lacks_base (env.container_inspect w.trace id)) _ _
        (lacking (env.container_inspect w.trace id) bare) (λ _. based)
    where
      lacking :
          (answer : Result InspectResponse)
          → ((inspect : InspectResponse)
              → answer ≡ ok inspect
              → inspect.has_base ≡ false
              → R (panic, looked id))
          → lacks_base answer ≡ true
          → R (panic, looked id)
      lacking (err e) bare h = cc h
      lacking (ok inspect) bare h = bare inspect refl (false_of inspect.has_base h)
