-- ===== src/Updater/Health/Settles.antt =====
-- internal/updater/rollback.go: what the nil error of the health wait means.
use openwatch.Base.{
  ℕ, zero, suc, ◌≡◌, refl, Bool, true, false, not, ◌&&◌, Option, none, some, List, [], ◌∷◌, ltb,
  if◌then◌else◌,
}
use openwatch.Base.Text.{Text}
use openwatch.Base.Numbers.{ℤ}
use openwatch.Base.Errors.{Error, ok}
use openwatch.Docker.{ContainerRun, Health, HealthStatus, healthy, unhealthy, InspectResponse}
use openwatch.Docker.Containers.{inspect_container}
use openwatch.State.{Time}
use openwatch.Updater.Health.{
  Verdict, settled, verdict, health_verdict, pause, poll, timeout_of, wait_for_healthy,
  has_healthcheck,
}
use openwatch.World.{
  exhausted, Call, Env, World, Outcome, done, panic, stuck, M, pure, ask, ◌>>=◌, read_clock, clock,
}
use openwatch.Updater.Health.Cases.{on_base, on_test, on_result, on_settled}

-- The state's run is healthy.
pub IsHealthyRun : Option Health → Type 0
IsHealthyRun none = ⊥
IsHealthyRun (some h) = h.status ≡ healthy

pub IsHealthy : Option ContainerRun → Type 0
IsHealthy none = ⊥
IsHealthy (some s) = IsHealthyRun s.health

health_verdict-IsHealthyRun :
    (id : Text) (h : Option Health) → health_verdict id h ≡ settled none → IsHealthyRun h
unfolding IsHealthyRun
health_verdict-IsHealthyRun id none e = cc
health_verdict-IsHealthyRun id (some h) e = on_status h.status h.failing_streak e
  where
    on_status :
        (s : HealthStatus) (n : ℤ)
        → health_verdict id (some (record { status = s; failing_streak = n })) ≡ settled none
        → s ≡ healthy
    on_status healthy n e = refl
    on_status unhealthy n e = cc
    on_status (HealthStatus.other t) n e = cc

verdict-IsHealthy :
    (id : Text) (s : Option ContainerRun) → verdict id s ≡ settled none → IsHealthy s
unfolding verdict IsHealthy
verdict-IsHealthy id none e = cc
verdict-IsHealthy id (some s) e =
    health_verdict-IsHealthyRun id s.health (running (not s.running && not s.restarting) _ _ e)
  where
    running :
        (b : Bool) (x : Error) (v : Verdict)
        → (if b then settled (some x) else v) ≡ settled none
        → v ≡ settled none
    running true x v e = cc
    running false x v e = e

-- What a wait without an error leaves: its last call is an inspection that found the container healthy.
pub SawHealthy : Env → Text → List Call → Type 0
SawHealthy env id [] = ⊥
SawHealthy env id (c ∷ tr) =
    (c ≡ Call.container_inspect id)
    × ((inspect : InspectResponse) × (env.container_inspect tr id ≡ ok inspect)
        × IsHealthy inspect.state)

pub Settles : Env → Text → Outcome (Option Error) × World → Type 0
Settles env id (done none, w) = SawHealthy env id w.trace
Settles env id (done (some e), w) = Unit {0}
Settles env id (panic, w) = Unit {0}
Settles env id (stuck, w) = Unit {0}

pause-Settles :
    (env : Env) (id : Text) (timeout : ℤ) (deadline : Time) (w : World) (again : M (Option Error))
    → ((w' : World) → Settles env id (again env w'))
    → Settles env id (pause id timeout deadline again env w)
unfolding pause read_clock ask ◌>>=◌ pure Settles
pause-Settles env id timeout deadline w again h =
    on_test (Settles env id) env _ (ltb deadline (env.now w.trace)) _ _ (λ _. tt)
      (λ early.
        on_test (Settles env id) env _ (env.cancelled (clock ∷ w.trace)) _ _ (λ _. tt) (λ _. h _))

poll-Settles :
    (fuel : ℕ) (env : Env) (id : Text) (timeout : ℤ) (deadline : Time) (w : World)
    → Settles env id (poll fuel id timeout deadline env w)
unfolding poll ◌>>=◌ pure exhausted Settles SawHealthy
poll-Settles zero env id timeout deadline w = tt
poll-Settles (suc fuel) env id timeout deadline w =
    on_base (Settles env id) env w id _ (λ inspect p k. tt)
      (on_result (Settles env id) env _ (env.container_inspect w.trace id) _ _ (λ e. tt)
        (λ inspect answered.
          on_settled (Settles env id) env _ (verdict id inspect.state) _ _
            (λ r said. found r inspect answered said)
            (pause-Settles env id timeout deadline _ _
              (λ w'. poll-Settles fuel env id timeout deadline w'))))
  where
    found :
        (r : Option Error) (inspect : InspectResponse)
        → env.container_inspect w.trace id ≡ ok inspect
        → verdict id inspect.state ≡ settled r
        → Settles env id (done r, record w { trace = Call.container_inspect id ∷ w.trace })
    found none inspect answered said =
        (refl, (inspect, answered, verdict-IsHealthy id inspect.state said))
    found (some e) inspect answered said = tt

-- A health wait that returns without an error has ended with an inspection of the container that
-- was answered with the health status healthy.
pub wait_for_healthy-Settles :
    (fuel : ℕ) (env : Env) (id : Text) (timeout : ℤ) (w : World)
    → Settles env id (wait_for_healthy fuel id timeout env w)
unfolding wait_for_healthy inspect_container read_clock ask ◌>>=◌ pure Settles
wait_for_healthy-Settles fuel env id timeout w =
    on_result (Settles env id) env _ (env.container_inspect w.trace id) _ _ (λ e. tt)
      (λ inspect _.
        on_test (Settles env id) env _ (not (has_healthcheck inspect.config)) _ _ (λ _. tt)
          (λ _. poll-Settles fuel env id (timeout_of timeout) _ _))
