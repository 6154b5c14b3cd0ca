-- ===== src/Updater/Watcher/Calm.antt =====
-- internal/updater: what the watcher's notes on a container make of the state store, for any
-- predicate `I` that they keep, and `J k` for a world in which the container `k` may be open.
pub mod Marks
pub mod Laws
pub mod Ticks
use openwatch.Base.{◌≢◌, Bool, true, false, Option, none, some, if◌then◌else◌}
use openwatch.Base.Text.{Text}
use openwatch.Base.Assoc.{Assoc}
use openwatch.Base.Errors.{Error, Result, ok, err}
use openwatch.State.{ContainerStatus, updating}
use openwatch.State.Writes.{checked, began, ended, pruned}
use openwatch.Updater.Health.Laws.{SteadyClock}
use openwatch.Updater.Watcher.OnStore.{OnStore}
use openwatch.World.{
  Env, World, Outcome, done, panic, stuck, M, continue, stamped, unstamped, ◌>>=◌, if_ok, if_some,
}
use openwatch.World.Keeps.{Keeps, Leaves}

-- What the notes do: the start of an update leaves its container open, any other note closes it,
-- and `Prune` opens nothing. Neither predicate is about the calls made or the metrics.
pub record Marking (I : World → Type 0) (J : Text → World → Type 0) : Type 0 where
  pub about : OnStore I
  pub about_open : (k : Text) → OnStore (J k)
  pub weaken : (k : Text) (w : World) → I w → J k w
  pub checks :
      (k i : Text) (st : ContainerStatus) (env : Env) (w : World)
      → st ≢ updating
      → J k w
      → I (stamped (λ now. checked k i st now) w.store env w)
  pub begins :
      (k i : Text) (env : Env) (w : World)
      → J k w
      → J k (stamped (λ now. began k i now) w.store env w)
  pub ends :
      (k i : Text) (env : Env) (w : World)
      → J k w
      → I (stamped (λ now. ended k i now) w.store env w)
  pub prunes : (keep : Assoc (Unit {0})) (w : World) → I w → I (unstamped (pruned keep) w.store w)

module _ (I : World → Type 0) where
  -- The run returns with a store that satisfies `I`, or panics.
  unfoldable pub Leads {ℓ} : {A : Type ℓ} → Outcome A × World → Type 0
  Leads (done a, w) = I w
  Leads (panic, w) = Unit {0}
  Leads (stuck, w) = ⊥

  pub Leads-Leaves {ℓ} : {A : Type ℓ} → (p : Outcome A × World) → Leaves ⊥ I p → Leads p
  unfolding Leads Leaves
  Leads-Leaves (done a, w) h = h
  Leads-Leaves (panic, w) h = tt
  Leads-Leaves (stuck, w) h = h.0

-- Begun where only `k` may be open, under a steady clock.
pub record Closes {ℓ} {A : Type ℓ} (I : World → Type 0) (J : Text → World → Type 0) (k : Text)
    (m : M A) : Type 0 where
  pub at : (env : Env) → SteadyClock env → (w : World) → J k w → Leads I (m env w)

module _ {ℓ κ} {A : Type ℓ} {B : Type κ} (I : World → Type 0) where
  Leads-left :
      (r : Outcome A) (f : A → M B) (env : Env) (w : World)
      → SteadyClock env
      → ((a : A) → Keeps SteadyClock ⊥ I (f a))
      → Leads I (r, w)
      → Leads I (continue r f env w)
  unfolding Leads Leaves
  Leads-left (done a) f env w e hf h = Leads-Leaves I (f a env w) ((hf a).at env e w h)
  Leads-left panic f env w e hf h = tt
  Leads-left stuck f env w e hf h = h

module _ {ℓ κ} {A : Type ℓ} {B : Type κ} {I : World → Type 0} {J : Text → World → Type 0}
    {k : Text} where
  Leads-right :
      (r : Outcome A) (f : A → M B) (env : Env) (w : World)
      → SteadyClock env
      → ((a : A) → Closes I J k (f a))
      → Leaves ⊥ (J k) (r, w)
      → Leads I (continue r f env w)
  unfolding Leaves Leads
  Leads-right (done a) f env w e hf h = (hf a).at env e w h
  Leads-right panic f env w e hf h = tt
  Leads-right stuck f env w e hf h = h.0

  pub Closes-right :
      (m : M A) (f : A → M B)
      → Keeps SteadyClock ⊥ (J k) m
      → ((a : A) → Closes I J k (f a))
      → Closes I J k (m >>= f)
  unfolding ◌>>=◌
  Closes-right m f hm hf = record {
    at = λ env e w h. Leads-right (m env w).0 f env (m env w).1 e hf (hm.at env e w h);
  }

  pub Closes-left :
      (m : M A) (f : A → M B)
      → Closes I J k m
      → ((a : A) → Keeps SteadyClock ⊥ I (f a))
      → Closes I J k (m >>= f)
  unfolding ◌>>=◌
  Closes-left m f hm hf = record {
    at = λ env e w h. Leads-left I (m env w).0 f env (m env w).1 e hf (hm.at env e w h);
  }

  pub Closes-if_ok :
      (r : Result A) (failed : Error → M B) (go : A → M B)
      → ((e : Error) → Closes I J k (failed e))
      → ((a : A) → Closes I J k (go a))
      → Closes I J k (if_ok r failed go)
  unfolding if_ok
  Closes-if_ok (ok a) failed go hf hg = hg a
  Closes-if_ok (err e) failed go hf hg = hf e

  pub Closes-if_some :
      (o : Option A) (absent : M B) (go : A → M B)
      → Closes I J k absent
      → ((a : A) → Closes I J k (go a))
      → Closes I J k (if_some o absent go)
  unfolding if_some
  Closes-if_some none absent go hf hg = hf
  Closes-if_some (some a) absent go hf hg = hg a

pub Closes-if {ℓ} :
    {A : Type ℓ} {I : World → Type 0} {J : Text → World → Type 0} {k : Text} (b : Bool) (m n : M A)
    → Closes I J k m
    → Closes I J k n
    → Closes I J k (if b then m else n)
Closes-if true m n hm hn = hm
Closes-if false m n hm hn = hn

pub ruleset closes_rules = (Closes-right, Closes-left, Closes-if_ok, Closes-if_some, Closes-if)
