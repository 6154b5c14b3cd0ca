-- ===== src/World/Sound.antt =====
-- Runs that do not panic, whatever is answered, where inspections are answered with a base.
use openwatch.Docker.{InspectResponse}
use openwatch.Base.{◌≡◌, ◌≢◌, Bool, true, false, Option, none, some, List, if◌then◌else◌}
use openwatch.Base.Errors.{Error, Result, ok, err}
use openwatch.Metrics.{Metrics}
use openwatch.State.{Time}
use openwatch.State.Writes.{Write}
use openwatch.World.{
  Call, Env, World, Event, Outcome, done, panic, stuck, M, pure, exhausted, ask, continue, ◌>>=◌,
  if_ok, if_some, update_store, update_metrics, send, read_clock,
}
use openwatch.World.Gives.{Gives}
use openwatch.Base.Text.{Text}

unfoldable pub IsSound {ℓ} : {A : Type ℓ} → Outcome A → Type 0
IsSound (done a) = Unit {0}
IsSound panic = ⊥
IsSound stuck = Unit {0}

pub IsSound-ne {ℓ} : {A : Type ℓ} (r : Outcome A) → IsSound r → r ≢ panic
unfolding IsSound
IsSound-ne (done a) h = λ e. cc e
IsSound-ne panic h = elim h [ ]
IsSound-ne stuck h = λ e. cc e

-- Inspections are answered with a base.
abbrev pub HasBases : Env → Type 0
HasBases env =
    (tr : List Call) (id : Text) (inspect : InspectResponse)
    → env.container_inspect tr id ≡ ok inspect
    → inspect.has_base ≡ true

pub record Sound {ℓ} {A : Type ℓ} (m : M A) : Type 0 where
  pub at : (env : Env) → HasBases env → (w : World) → IsSound (m env w).0

module _ {ℓ} {A : Type ℓ} where
  pub Sound-pure : (a : A) → Sound (pure a)
  unfolding pure IsSound
  Sound-pure a = record { at = λ env b w. tt }

  pub Sound-exhausted : Sound (exhausted {A = A})
  unfolding exhausted IsSound
  Sound-exhausted = record { at = λ env b w. tt }

  pub Sound-ask : (c : Call) (f : Env → List Call → A) → Sound (ask c f)
  unfolding ask IsSound
  Sound-ask c f = record { at = λ env b w. tt }

  pub Sound-env : (f : Env → A) → Sound (λ env w. pure (f env) env w)
  unfolding pure IsSound
  Sound-env f = record { at = λ env b w. tt }

  pub Sound-if : (b : Bool) (m n : M A) → Sound m → Sound n → Sound (if b then m else n)
  Sound-if true m n hm hn = hm
  Sound-if false m n hm hn = hn

  pub Gives-IsSound : (R : A → List Call → Type 0) (p : Outcome A × World) → Gives R p → IsSound p.0
  unfolding Gives IsSound
  Gives-IsSound R (done a, w) h = tt
  Gives-IsSound R (panic, w) h = h
  Gives-IsSound R (stuck, w) h = tt

module _ {ℓ κ} {A : Type ℓ} {B : Type κ} where
  Sound-continue :
      (r : Outcome A) (f : A → M B) (env : Env) (b : HasBases env) (w : World)
      → IsSound r
      → ((a : A) → Sound (f a))
      → IsSound (continue r f env w).0
  unfolding IsSound
  Sound-continue (done a) f env b w h hf = (hf a).at env b w
  Sound-continue panic f env b w h hf = h
  Sound-continue stuck f env b w h hf = tt

  pub Sound-bind : (m : M A) (f : A → M B) → Sound m → ((a : A) → Sound (f a)) → Sound (m >>= f)
  unfolding ◌>>=◌
  Sound-bind m f hm hf = record {
    at = λ env b w. Sound-continue (m env w).0 f env b (m env w).1 (hm.at env b w) hf;
  }

  Sound-given :
      (P : A → Type 0) (r : Outcome A) (f : A → M B) (env : Env) (b : HasBases env) (w : World)
      → Gives (λ a tr. P a) (r, w)
      → ((a : A) → P a → Sound (f a))
      → IsSound (continue r f env w).0
  unfolding IsSound Gives
  Sound-given P (done a) f env b w h hf = (hf a h).at env b w
  Sound-given P panic f env b w h hf = h
  Sound-given P stuck f env b w h hf = tt

  -- What is known of the first result.
  pub Sound-after :
      (P : A → Type 0) (m : M A) (f : A → M B)
      → ((env : Env) (w : World) → Gives (λ a tr. P a) (m env w))
      → ((a : A) → P a → Sound (f a))
      → Sound (m >>= f)
  unfolding ◌>>=◌
  Sound-after P m f hm hf = record {
    at = λ env b w. Sound-given P (m env w).0 f env b (m env w).1 (hm env w) hf;
  }

  pub Sound-if_ok :
      (r : Result A) (failed : Error → M B) (go : A → M B)
      → ((e : Error) → Sound (failed e))
      → ((a : A) → Sound (go a))
      → Sound (if_ok r failed go)
  unfolding if_ok
  Sound-if_ok (ok a) failed go hf hg = hg a
  Sound-if_ok (err e) failed go hf hg = hf e

  pub Sound-if_some :
      (o : Option A) (absent : M B) (go : A → M B)
      → Sound absent
      → ((a : A) → Sound (go a))
      → Sound (if_some o absent go)
  unfolding if_some
  Sound-if_some none absent go hf hg = hf
  Sound-if_some (some a) absent go hf hg = hg a

pub Sound-update_store : (f : Time → Write) → Sound (update_store f)
unfolding update_store IsSound
Sound-update_store f = record { at = λ env b w. tt }

pub Sound-update_metrics : (f : Option Metrics → Option Metrics) → Sound (update_metrics f)
unfolding update_metrics IsSound
Sound-update_metrics f = record { at = λ env b w. tt }

pub Sound-send : (e : Event) (n d : Text) → Sound (send e n d)
unfolding send
Sound-send e n d = Sound-ask _ _

pub Sound-read_clock : Sound read_clock
unfolding read_clock
Sound-read_clock = Sound-ask _ _

pub ruleset sound_rules = (
  Sound-pure, Sound-exhausted, Sound-ask, Sound-env, Sound-if, Sound-bind, Sound-if_ok,
  Sound-if_some, Sound-update_store, Sound-update_metrics, Sound-send, Sound-read_clock,
)
