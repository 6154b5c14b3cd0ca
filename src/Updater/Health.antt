-- ===== src/Updater/Health.antt =====
-- internal/updater/rollback.go: `waitForHealthy`. A result `none` is Go's nil error.
pub mod Cases
pub mod Laws
pub mod Settles
use openwatch.Base.{
  ℕ, zero, suc, ◌+◌, ◌*◌, Bool, true, false, not, ◌&&◌, Option, none, some, List, [], ◌∷◌, ◌++◌,
  ltb, if◌then◌else◌,
}
use openwatch.Base.Text.{Text, codes, text_eq}
use openwatch.Base.Numbers.{ℤ, pos, negsuc, non_positive, show_int}
use openwatch.Base.Words.{second, seconds_duration, nanos, add_duration}
use openwatch.Base.Errors.{Error, message, wrap, external, other, no_healthcheck, Result, ok, err}
use openwatch.Config.{default_healthcheck_timeout}
use openwatch.Docker.{
  ContainerConfig, ContainerRun, Health, HealthConfig, healthy, unhealthy, InspectResponse,
}
use openwatch.Docker.Containers.{inspect_container, inspect_base}
use openwatch.State.{Time}
use openwatch.World.{Call, M, pure, exhausted, ask, ◌>>=◌, ◌>>◌, if_ok, if_some, read_clock}

-- In nanoseconds.
abbrev pub health_poll_interval : ℕ
health_poll_interval = 2 * second

-- A test that is empty, or the one word NONE, is no health check.
abbrev pub is_check : List Text → Bool
is_check [] = false
is_check (t ∷ []) = not (text_eq t (codes "NONE"))
is_check (t ∷ u ∷ ts) = true

abbrev pub is_checked : Option HealthConfig → Bool
is_checked none = false
is_checked (some h) = is_check h.test

unfoldable pub has_healthcheck : Option ContainerConfig → Bool
has_healthcheck none = false
has_healthcheck (some config) = is_checked config.healthcheck

-- What one look at the container says.
pub data Verdict : Type 0 where
  settled : Option Error → Verdict
  waiting : Verdict

abbrev pub health_verdict : Text → Option Health → Verdict
health_verdict id none = waiting
health_verdict id (some h) = elim h.status [
  | healthy ↦ settled none
  | unhealthy ↦ settled (
      some (
        message (
          codes "container "
          ++ (id
              ++ (codes " reported unhealthy (failing streak="
                  ++ (show_int h.failing_streak ++ codes ")"))))))
  | _ ↦ waiting
]

unfoldable pub verdict : Text → Option ContainerRun → Verdict
verdict id none = waiting
verdict id (some s) =
    if not s.running && not s.restarting
    then settled (
        some (
          message (
            codes "container "
            ++ (id
                ++ (codes " exited before becoming healthy (status="
                    ++ (s.status
                        ++ (codes ", exit_code=" ++ (show_int s.exit_code ++ codes ")"))))))))
    else health_verdict id s.health

abbrev pub timed_out : Text → ℤ → Error
timed_out id timeout = message (
    codes "container "
    ++ (id ++ (codes " did not become healthy within " ++ (show_int timeout ++ codes " seconds"))))

-- `ctx.Err()`
abbrev pub context_error : Error
context_error = external other (codes "context canceled")

abbrev pub on_verdict {ℓ} : {A : Type ℓ} → Verdict → (Option Error → M A) → M A → M A
on_verdict (settled result) go wait = go result
on_verdict waiting go wait = wait

-- The rest of a round that has settled nothing: the deadline, then the pause.
unfoldable pub pause : Text → ℤ → Time → M (Option Error) → M (Option Error)
pause id timeout deadline again = do
  now ← read_clock
  if ltb deadline now then pure (some (timed_out id timeout)) else (do
    cancelled ← ask (Call.sleep health_poll_interval) (λ env tr. env.cancelled tr)
    if cancelled then pure (some context_error) else again)

unfoldable pub poll : ℕ → Text → ℤ → Time → M (Option Error)
poll zero id timeout deadline = exhausted
poll (suc fuel) id timeout deadline = do
  answer ← inspect_base id
  if_ok answer (λ e. pure (some (wrap (codes "inspect container " ++ id) e)))
      λ inspect.
        on_verdict (verdict id inspect.state) (λ result. pure result)
          (pause id timeout deadline (poll fuel id timeout deadline))

abbrev pub timeout_of : ℤ → ℤ
timeout_of n = if non_positive n then default_healthcheck_timeout else n

-- The nanoseconds up to the deadline.
abbrev pub budget : ℤ → ℕ
budget timeout_sec = nanos (seconds_duration (timeout_of timeout_sec))

unfoldable pub wait_for_healthy : ℕ → Text → ℤ → M (Option Error)
wait_for_healthy fuel id timeout_sec = do
  initial ← inspect_container id
  if_ok initial
      (λ e. pure (some (wrap (codes "inspect container " ++ (id ++ codes " for healthcheck")) e)))
      λ inspect. if not (has_healthcheck inspect.config) then pure (some no_healthcheck) else (do
        now ← read_clock
        let timeout = timeout_of timeout_sec
        poll fuel id timeout (add_duration now (seconds_duration timeout)))
