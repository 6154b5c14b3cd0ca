-- ===== src/Updater/Health/Laws.antt =====
-- internal/updater/rollback.go: the health wait comes to an end.
use openwatch.Base.{
  ℕ, zero, suc, ◌+◌, ◌*◌, ◌≤◌, ◌<◌, ◌≡◌, false, not, Option, List, ◌∷◌, ltb, arith,
}
use openwatch.Base.Text.{Text}
use openwatch.Base.Numbers.{ℤ}
use openwatch.Base.Words.{seconds_duration, add_duration, add_duration-le}
use openwatch.Base.Errors.{Error, ok}
use openwatch.Docker.Containers.{inspect_container}
use openwatch.State.{Time}
use openwatch.Updater.Health.{
  health_poll_interval, verdict, pause, poll, timeout_of, budget, wait_for_healthy, has_healthcheck,
}
use openwatch.Docker.{InspectResponse}
use openwatch.World.Sound.{HasBases}
use openwatch.World.{
  Call, Env, World, Outcome, done, panic, stuck, M, pure, ask, ◌>>=◌, read_clock, clock,
}
use openwatch.Updater.Health.Cases.{on_base, on_test, on_result, on_settled}

-- A clock that no call turns back, and that a pause which was not cancelled moves on.
pub record SteadyClock (env : Env) : Type 0 where
  pub monotone : (c : Call) (tr : List Call) → ◌≤◌ (env.now tr) (env.now (c ∷ tr))
  pub advances :
      (d : ℕ) (tr : List Call)
      → env.cancelled tr ≡ false
      → ◌≤◌ (env.now tr + d) (env.now (Call.sleep d ∷ tr))

-- A run that does not run out of fuel, and panics only where `P`.
unfoldable pub Returns : {A : Type 0} → Type 0 → Outcome A → Type 0
Returns P (done a) = Unit {0}
Returns P panic = P
Returns P stuck = ⊥

ltb_false : (a b : ℕ) → ltb a b ≡ false → ◌≤◌ b a
ltb_false a b = ground arith

ReturnsAt : {A : Type 0} → Type 0 → Outcome A × World → Type 0
ReturnsAt P r = Returns P r.0

module _ (env : Env) (steady : SteadyClock env) (id : Text) (timeout : ℤ) (deadline : Time)
    (P : Type 0)
    (bare : (tr : List Call) (inspect : InspectResponse)
      → env.container_inspect tr id ≡ ok inspect
      → inspect.has_base ≡ false
      → P) where
  pause-Returns :
      (w : World) (again : M (Option Error))
      → (ltb deadline (env.now w.trace) ≡ false
          → env.cancelled (clock ∷ w.trace) ≡ false
          → Returns P
              (again env
                (record w { trace = Call.sleep health_poll_interval ∷ clock ∷ w.trace })).0)
      → Returns P (pause id timeout deadline again env w).0
  unfolding pause read_clock ask ◌>>=◌ pure Returns ReturnsAt
  pause-Returns w again rest =
      on_test (ReturnsAt P) env _ (ltb deadline (env.now w.trace)) _ _ (λ _. tt)
        (λ early.
          on_test (ReturnsAt P) env _ (env.cancelled (clock ∷ w.trace)) _ _ (λ _. tt) (rest early))

  -- The world after a round that has settled nothing.
  after_round : World → World
  after_round w = record w {
    trace = Call.sleep health_poll_interval ∷ clock ∷ Call.container_inspect id ∷ w.trace;
  }

  -- Such a round began before the deadline, and took at least the pause.
  round-Returns :
      (f : ℕ) (w : World)
      → (◌≤◌ (env.now w.trace) deadline
          → ◌≤◌ (env.now w.trace + health_poll_interval) (env.now (after_round w).trace)
          → Returns P (poll f id timeout deadline env (after_round w)).0)
      → Returns P (poll (suc f) id timeout deadline env w).0
  unfolding poll ◌>>=◌ pure Returns ReturnsAt after_round
  round-Returns f w next =
      on_base (ReturnsAt P) env w id _ (λ inspect p k. bare w.trace inspect p k)
        (on_result (ReturnsAt P) env _ (env.container_inspect w.trace id) _ _ (λ e. tt)
          (λ inspect _.
            on_settled (ReturnsAt P) env _ (verdict id inspect.state) _ _ (λ r _. tt)
              (pause-Returns _ _ (λ early awake.
                next
                  (before (steady.monotone (Call.container_inspect id) w.trace)
                    (ltb_false deadline _ early))
                  (longer _ _ _ _ _ (steady.monotone (Call.container_inspect id) w.trace)
                    (steady.monotone clock _) (steady.advances health_poll_interval _ awake))))))
    where
      before : {a b c : ℕ} → ◌≤◌ a b → ◌≤◌ b c → ◌≤◌ a c
      before h k = omega arith

      longer : (a b c d p : ℕ) → ◌≤◌ a b → ◌≤◌ b c → ◌≤◌ (c + p) d → ◌≤◌ (a + p) d
      longer a b c d p h k l = omega arith

  -- The time that is left is covered by the rounds that are left.
  poll-Returns :
      (f : ℕ) (w : World)
      → ◌<◌ deadline (env.now w.trace + f * health_poll_interval)
      → Returns P (poll (suc f) id timeout deadline env w).0
  poll-Returns zero w h = round-Returns zero w (λ early _. elim (late early h) [ ])
    where
      late : {n : ℕ} → ◌≤◌ n deadline → ◌<◌ deadline (n + 0 * health_poll_interval) → ⊥
      late a b = omega arith
  poll-Returns (suc f) w h =
      round-Returns (suc f) w (λ _ longer. poll-Returns f _ (left _ _ longer h))
    where
      left :
          (n m : ℕ)
          → ◌≤◌ (n + health_poll_interval) m
          → ◌<◌ deadline (n + suc f * health_poll_interval)
          → ◌<◌ deadline (m + f * health_poll_interval)
      left n m a b = omega arith

-- The wait, with what is known where an inspection has no base.
pub wait_for_healthy-Returns_or :
    (P : Type 0) (env : Env) (f : ℕ) (id : Text) (timeout : ℤ) (w : World)
    → ((tr : List Call) (inspect : InspectResponse)
        → env.container_inspect tr id ≡ ok inspect
        → inspect.has_base ≡ false
        → P)
    → SteadyClock env
    → ◌<◌ (budget timeout) (f * health_poll_interval)
    → Returns P (wait_for_healthy (suc f) id timeout env w).0
unfolding wait_for_healthy inspect_container read_clock ask ◌>>=◌ pure Returns ReturnsAt
wait_for_healthy-Returns_or P env f id timeout w bare steady h =
    on_result (ReturnsAt P) env _ (env.container_inspect w.trace id) _ _ (λ e. tt)
      (λ inspect _.
        on_test (ReturnsAt P) env _ (not (has_healthcheck inspect.config)) _ _ (λ _. tt)
          (λ _.
            poll-Returns env steady id (timeout_of timeout) _ P bare f _
              (enough (steady.monotone clock _) h)))
  where
    enough :
        {n0 n1 : ℕ}
        → ◌≤◌ n0 n1
        → ◌<◌ (budget timeout) (f * health_poll_interval)
        → ◌<◌
            (add_duration n0 (seconds_duration (timeout_of timeout)))
            (n1 + f * health_poll_interval)
    enough {n0} a b = omega (arith, add_duration-le n0 (seconds_duration (timeout_of timeout)))

-- Where inspections are answered with a base, with a clock that no call turns back and that every
-- pause which is not cancelled moves on by its length, and with more rounds than the nanoseconds
-- of the timeout, as the program's 64-bit arithmetic computes them, have pauses, the health wait
-- returns: it neither runs out of fuel nor panics.
pub wait_for_healthy-Returns :
    (env : Env) (f : ℕ) (id : Text) (timeout : ℤ) (w : World)
    → HasBases env
    → SteadyClock env
    → ◌<◌ (budget timeout) (f * health_poll_interval)
    → Returns ⊥ (wait_for_healthy (suc f) id timeout env w).0
wait_for_healthy-Returns env f id timeout w b =
    wait_for_healthy-Returns_or ⊥ env f id timeout w (λ tr inspect p k. cc (b tr id inspect p, k))
