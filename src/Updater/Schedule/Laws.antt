-- ===== src/Updater/Schedule/Laws.antt =====
-- internal/updater/watcher.go: how `Run` ends.
use openwatch.Base.{
  ℕ, suc, ◌*◌, ◌<◌, ◌≡◌, ◌≢◌, ◌⊎◌, refl, Option, none, some, List, [], ◌∷◌, ◌++◌, Bool-cases, inl,
  inr, if◌then◌else◌,
}
use openwatch.Base.Text.{Text, codes, trim_space, is_empty}
use openwatch.Base.Errors.{Error, wrap, Result, ok, err}
use openwatch.Base.Numbers.{ℤ}
use openwatch.Config.{Config}
use openwatch.Updater.Health.{budget, health_poll_interval}
use openwatch.Updater.Health.Laws.{SteadyClock}
use openwatch.Updater.Schedule.{
  Occasion, due, stop, Run, running, returned, Scheduler, run_ticks, run_interval, run_cron, quoted,
  run, interval_of,
}
use openwatch.Updater.Watcher.{tick}
use openwatch.Updater.Watcher.Calm.{Leads}
use openwatch.Updater.Watcher.Calm.Ticks.{Calms-tick}
use openwatch.Updater.Watcher.Quiet.{IsQuiet, Quiet-Marking, Quieted}
use openwatch.World.{Env, World, Outcome, done, panic, stuck, M, pure, continue, ◌>>=◌, ◌>>◌, if_ok}

-- The context ends at last.
unfoldable pub HasStop : List Occasion → Type 0
HasStop [] = ⊥
HasStop (stop ∷ os) = Unit {0}
HasStop (due ∷ os) = HasStop os

-- Returned without an error and with a quiet store, or panicked.
unfoldable pub Stopped : Outcome Run × World → Type 0
Stopped (done running, w) = ⊥
Stopped (done (returned none), w) = IsQuiet w.store
Stopped (done (returned (some e)), w) = ⊥
Stopped (panic, w) = Unit {0}
Stopped (stuck, w) = ⊥

after_tick :
    (m : M Run) (env : Env) (r : Outcome (Unit {0})) (w : World)
    → ((w : World) → IsQuiet w.store → Stopped (m env w))
    → Quieted (r, w)
    → Stopped (continue r (λ _. m) env w)
unfolding Stopped Leads
after_tick m env (done a) w h q = h w q
after_tick m env panic w h q = tt
after_tick m env stuck w h q = q

module _ (f : ℕ) (cfg : Config) (env : Env) (e : SteadyClock env)
    (enough : ◌<◌ (budget cfg.healthcheck_timeout) (f * health_poll_interval)) where
  run_ticks-Stopped :
      (os : List Occasion) (w : World)
      → HasStop os
      → IsQuiet w.store
      → Stopped (run_ticks (suc f) cfg os env w)
  unfolding run_ticks HasStop Stopped pure ◌>>=◌ ◌>>◌
  run_ticks-Stopped [] w s q = s
  run_ticks-Stopped (stop ∷ os) w s q = q
  run_ticks-Stopped (due ∷ os) w s q =
      after_tick (run_ticks (suc f) cfg os) env _ _ (λ w q. run_ticks-Stopped os w s q)
        ((Calms-tick Quiet-Marking f cfg enough).at env e w q)

unfoldable pub refused_by : Text → Result (Unit {0}) → Result (Unit {0}) → Option Error
refused_by schedule (err e) added =
    some (wrap (codes "invalid OPENWATCH_SCHEDULE " ++ quoted schedule) e)
refused_by schedule (ok u) (err e) = some (wrap (codes "register cron job") e)
refused_by schedule (ok u) (ok v) = none

-- What `Run` refuses the schedule with.
unfoldable pub refusal : Scheduler → Config → Option Error
refusal sch cfg =
    let schedule = trim_space cfg.schedule in
    if is_empty schedule
    then none
    else refused_by schedule (sch.parse schedule) (sch.add_func schedule)

module _ (sch : Scheduler) (fuel : ℕ) (cfg : Config) (P : Option Error → M Run → Type 0)
    (refused : (e : Error) → P (some e) (pure (returned (some e))))
    (by_ticker : P none (run_ticks fuel cfg (sch.ticker (interval_of cfg.interval))))
    (by_cron : (schedule : Text) → P none (run_ticks fuel cfg (sch.cron schedule))) where
  scheduled :
      (schedule : Text) (parsed added : Result (Unit {0}))
      → P (refused_by schedule parsed added) (
          if_ok parsed
            (λ e.
              pure
                (returned (some (wrap (codes "invalid OPENWATCH_SCHEDULE " ++ quoted schedule) e))))
            (λ _.
              if_ok added
                (λ e. pure (returned (some (wrap (codes "register cron job") e))))
                λ _. run_ticks fuel cfg (sch.cron schedule)))
  unfolding refused_by if_ok
  scheduled schedule (err e) added = refused _
  scheduled schedule (ok u) (err e) = refused _
  scheduled schedule (ok u) (ok v) = by_cron schedule

  run-by : P (refusal sch cfg) (run sch fuel cfg)
  unfolding run run_cron run_interval refusal
  run-by = elim (Bool-cases (is_empty (trim_space cfg.schedule))) [
    | inl blank ↦ rw blank by_ticker
    | inr given ↦ rw given (
        scheduled (trim_space cfg.schedule) (sch.parse (trim_space cfg.schedule))
          (sch.add_func (trim_space cfg.schedule)))
  ]

-- Where the clock is turned back by no call and moved on by every pause that is not cancelled,
-- where the model has more rounds than the nanoseconds of the health timeout have pauses, and
-- where the context ends after any ticker and any cron schedule, a run whose schedule is not
-- refused, begun with no container at updating, returns without an error and with no container at
-- updating, or panics.
pub run-Stopped :
    (sch : Scheduler) (f : ℕ) (cfg : Config) (env : Env) (w : World)
    → SteadyClock env
    → ◌<◌ (budget cfg.healthcheck_timeout) (f * health_poll_interval)
    → ((period : ℤ) → HasStop (sch.ticker period))
    → ((schedule : Text) → HasStop (sch.cron schedule))
    → IsQuiet w.store
    → refusal sch cfg ≡ none
    → Stopped (run sch (suc f) cfg env w)
run-Stopped sch f cfg env w e enough ticks crons q =
    run-by sch (suc f) cfg (λ r m. r ≡ none → Stopped (m env w)) (λ e r. absurd (some≢none r))
      (λ r. run_ticks-Stopped f cfg env e enough _ w (ticks (interval_of cfg.interval)) q)
      (λ schedule r. run_ticks-Stopped f cfg env e enough _ w (crons schedule) q)
  where
    some≢none : {e : Error} → some e ≢ none
    some≢none h = cc

-- The error of a run that returns one.
unfoldable pub error_of : Outcome Run → Option Error
error_of (done (returned r)) = r
error_of (done running) = none
error_of panic = none
error_of stuck = none

errorless_after :
    (m : M Run) (env : Env) (r : Outcome (Unit {0})) (w : World)
    → ((w : World) → error_of (m env w).0 ≡ none)
    → error_of (continue r (λ _. m) env w).0 ≡ none
unfolding error_of
errorless_after m env (done a) w h = h w
errorless_after m env panic w h = refl
errorless_after m env stuck w h = refl

run_ticks_errorless :
    (fuel : ℕ) (cfg : Config) (env : Env) (os : List Occasion) (w : World)
    → error_of (run_ticks fuel cfg os env w).0 ≡ none
unfolding run_ticks pure ◌>>=◌ ◌>>◌ error_of
run_ticks_errorless fuel cfg env [] w = refl
run_ticks_errorless fuel cfg env (stop ∷ os) w = refl
run_ticks_errorless fuel cfg env (due ∷ os) w =
    errorless_after (run_ticks fuel cfg os) env (tick fuel cfg env w).0 _
      (λ w. run_ticks_errorless fuel cfg env os w)

-- A run returns an error exactly when its schedule, trimmed, is not empty and the parser or
-- AddFunc refuses it, with that error wrapped; the run has then left the world as it was.
pub run_refused :
    (sch : Scheduler) (fuel : ℕ) (cfg : Config) (env : Env) (w : World)
    → (error_of (run sch fuel cfg env w).0 ≡ refusal sch cfg)
      × ((refusal sch cfg ≡ none) ⊎ ((run sch fuel cfg env w).1 ≡ w))
unfolding error_of pure
run_refused sch fuel cfg env w =
    run-by sch fuel cfg (λ r m. (error_of (m env w).0 ≡ r) × ((r ≡ none) ⊎ ((m env w).1 ≡ w)))
      (λ e. (refl, inr refl)) (run_ticks_errorless fuel cfg env _ w, inl refl)
      (λ schedule. (run_ticks_errorless fuel cfg env _ w, inl refl))
