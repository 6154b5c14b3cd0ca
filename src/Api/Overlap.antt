-- ===== src/Api/Overlap.antt =====
-- internal/updater/watcher.go, internal/updater/state.go: ticks and checks in goroutines of their
-- own, whose calls of the store the lock puts in one sequence.
use openwatch.Base.{◌≡◌, ◌≢◌, ℕ, suc, ◌*◌, ◌<◌, refl, Option, some, List, [], ◌∷◌, All}
use openwatch.Config.{Config}
use openwatch.Metrics.{Metrics}
use openwatch.State.{StateStore}
use openwatch.State.Writes.{Write, apply}
use openwatch.State.Interleave.{Interleave, IsClosed, Interleave-IsClosed, is_open}
use openwatch.Updater.Health.{budget, health_poll_interval}
use openwatch.Updater.Health.Laws.{SteadyClock}
use openwatch.Updater.Watcher.Calm.{Leads}
use openwatch.Updater.Watcher.Closed.{
  Closed, Closed-Marking, Closed-IsClosed, apply-IsQuiet, Logged, Logged-Marking,
}
use openwatch.Updater.Watcher.Quiet.{IsQuiet}
use openwatch.World.{Call, Env, World, Outcome, done, panic, stuck}
use openwatch.Api.Watcher.{Job}
use openwatch.Api.Jobs.{run_job, Calms-run_job}

-- A goroutine: what it runs, what the world answers it, and what it finds when it starts. None of
-- its steps reads the store, so that its calls of the store are the same whatever it finds there.
pub record Run : Type 0 where
  pub job : Job
  pub env : Env
  pub trace : List Call
  pub store : StateStore
  pub metrics : Option Metrics

abbrev pub found : Run → World
found r = record { trace = r.trace; store = some r.store; writes = []; metrics = r.metrics }

unfoldable pub finish : ℕ → Config → Run → Outcome (Unit {0}) × World
finish fuel cfg r = run_job fuel cfg r.job r.env (found r)

-- The calls of goroutines none of which panics, in an order that keeps each one's own.
pub data Overlap (fuel : ℕ) (cfg : Config) : List Run → List Write → Type 0 where
  no_runs : Overlap fuel cfg [] []
  beside :
      (r : Run) {rs : List Run} {ys zs : List Write}
      → (finish fuel cfg r).0 ≢ panic
      → Interleave (finish fuel cfg r).1.writes ys zs
      → Overlap fuel cfg rs ys
      → Overlap fuel cfg (r ∷ rs) zs

-- A log that starts empty, in a world with a store.
found-Closed : (r : Run) → let w = found r in Closed w.store w.writes
unfolding Closed IsClosed is_open
found-Closed r = λ n. refl

found-Logged : (r : Run) → Logged r.store (found r)
unfolding apply
found-Logged r = refl

Leads-final :
    (I : World → Type 0) (p : Outcome (Unit {0}) × World) → p.0 ≢ panic → Leads I p → I p.1
unfolding Leads
Leads-final I (done a, w) ne h = h
Leads-final I (panic, w) ne h = elim (ne refl) [ ]
Leads-final I (stuck, w) ne h = elim h [ ]

module _ (f : ℕ) (cfg : Config)
    (enough : ◌<◌ (budget cfg.healthcheck_timeout) (f * health_poll_interval)) where
  finish-IsClosed :
      (r : Run)
      → SteadyClock r.env
      → (finish (suc f) cfg r).0 ≢ panic
      → IsClosed (finish (suc f) cfg r).1.writes
  unfolding finish
  finish-IsClosed r e d = Closed-IsClosed _ _ (
      Leads-final _ _ d
        ((Calms-run_job Closed-Marking f cfg enough r.job).at r.env e (found r) (found-Closed r)))

  -- What a goroutine makes of the store when no other runs is what its calls make of it.
  finish-apply :
      (r : Run)
      → SteadyClock r.env
      → (finish (suc f) cfg r).0 ≢ panic
      → (finish (suc f) cfg r).1.store ≡ some (apply (finish (suc f) cfg r).1.writes r.store)
  unfolding finish
  finish-apply r e d = Leads-final _ _ d (
      (Calms-run_job (Logged-Marking r.store) f cfg enough r.job).at r.env e (found r)
        (found-Logged r))

  Overlap-IsClosed :
      {rs : List Run} {ws : List Write}
      → All (λ r. SteadyClock r.env) rs
      → Overlap (suc f) cfg rs ws
      → IsClosed ws
  Overlap-IsClosed e no_runs = unfold IsClosed is_open in λ n. refl
  Overlap-IsClosed e (beside r d t o) =
      Interleave-IsClosed t (finish-IsClosed r e.0 d) (Overlap-IsClosed e.1 o)

-- However the calls of the store are interleaved that any goroutines make, each a tick or a check
-- of one container, none of which panics, a store with no container at updating has none once they
-- have all returned, where each goroutine's clock is turned back by no call and moved on by every
-- pause that is not cancelled, and the model has more rounds than the nanoseconds of the health
-- timeout have pauses.
pub Overlap-IsQuiet :
    (f : ℕ) (cfg : Config) (rs : List Run) (ws : List Write) (s : StateStore)
    → ◌<◌ (budget cfg.healthcheck_timeout) (f * health_poll_interval)
    → All (λ r. SteadyClock r.env) rs
    → Overlap (suc f) cfg rs ws
    → IsQuiet (some s)
    → IsQuiet (some (apply ws s))
Overlap-IsQuiet f cfg rs ws s enough e o q =
    apply-IsQuiet ws s (Overlap-IsClosed f cfg enough e o) q
