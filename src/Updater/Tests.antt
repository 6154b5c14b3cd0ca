-- ===== src/Updater/Tests.antt =====
-- The theorems on the watcher and its schedule at concrete inputs.
use openwatch.Base.{
  ap, ◌↔◌, ◌⊎◌, ◌≢◌, ◌^◌, ℕ, zero, suc, ◌+◌, ◌*◌, ◌≤◌, ◌<◌, ◌≡◌, refl, Bool, true, false, Option,
  none, some, List, [], ◌∷◌, ◌++◌, All, arith, if◌then◌else◌, ltb,
}
use openwatch.Base.Text.{Text, codes}
use openwatch.Base.Assoc.{lookup}
use openwatch.Base.Numbers.{pos}
use openwatch.Base.Words.{seconds_duration, second, max_seconds, nanos}
use openwatch.Base.Errors.{Result, message, ok, err}
use openwatch.Config.{Config}
use openwatch.Docker.Labels.{label_enable, label_value_true, label_value_false}
use openwatch.Updater.Policy.{Policy, resolve_policy, SkipReason}
use openwatch.Updater.Policy.Laws.{Carries, skip_iff}
use openwatch.Updater.Health.{wait_for_healthy}
use openwatch.Updater.Health.Laws.{Returns, wait_for_healthy-Returns}
use openwatch.Updater.Health.Settles.{Settles, wait_for_healthy-Settles}
use openwatch.Updater.Watcher.{process_container}
use openwatch.Updater.Watcher.Reads.{
  IsHarmless, IsIdle, process_container-notify_only, process_container-skip,
}
use openwatch.Updater.Watcher.Decides.{Updates}
use openwatch.Updater.Watcher.Decides.Laws.{process_container-Decides}
use openwatch.Updater.Watcher.Counts.{updates_of}
use openwatch.Updater.Watcher.Counts.Ticks.{Outcomes, listed, tick-Outcomes}
use openwatch.World.Sound.{HasBases}
use openwatch.Docker.{InspectResponse}
use openwatch.World.{panic}
use openwatch.Updater.Watcher.Sound.Laws.{process_container-IsSound}
use openwatch.Updater.Watcher.Bounds.{IsWithin}
use openwatch.Updater.Watcher.Bounds.Laws.{process_container-IsWithin}
use openwatch.Updater.Watcher.{tick}
use openwatch.Updater.Watcher.Quiet.{Quieted}
use openwatch.Updater.Watcher.Quiet.Ticks.{tick-Quieted}
use openwatch.Updater.Schedule.{due, stop, Scheduler, run, interval_of}
use openwatch.Updater.Schedule.Interval.{interval_of_exact}
use openwatch.Updater.Schedule.Laws.{HasStop, Stopped, refusal, error_of, run-Stopped, run_refused}
use openwatch.Registry.Auth.{normalize_registry_host, load_auth}
use openwatch.Registry.Auth.Asks.{IsAllowed, is_explicit, load_auth-IsAllowed}
use openwatch.Docker.Containers.{list_containers, recreate}
use openwatch.Docker.Replacement.{Recreated}
use openwatch.Docker.Replacement.Laws.{recreate-Recreated}
use openwatch.World.Gives.{Gives}
use openwatch.Updater.Watcher.Listed.{Shows, tick-Shows}
use openwatch.Updater.Fixture.{
  answers, start, defaults, web, watched, unmanaged, answers-SteadyClock, new-IsQuiet,
}

process_container-IsWithin_example :
    All
      (IsWithin (resolve_policy defaults (web [])) (web []))
      (process_container 20 defaults (web []) answers start).1.trace
process_container-IsWithin_example =
    process_container-IsWithin 20 defaults (web []) answers start tt

process_container-notify_only_example :
    All IsHarmless (process_container 20 defaults watched answers start).1.trace
unfolding resolve_policy openwatch.Updater.Policy.label_is lookup openwatch.Base.Text.equal_fold
    openwatch.Base.Text.to_lower openwatch.Base.Text.lower openwatch.Base.Text.text_eq
process_container-notify_only_example =
    process_container-notify_only 20 defaults watched answers start refl tt

process_container-skip_example :
    All IsIdle (process_container 20 defaults unmanaged answers start).1.trace
unfolding resolve_policy openwatch.Updater.Policy.label_is openwatch.Updater.Policy.resolve_enable
    lookup openwatch.Base.Text.equal_fold openwatch.Base.Text.to_lower openwatch.Base.Text.lower
    openwatch.Base.Text.text_eq
process_container-skip_example = process_container-skip 20 defaults unmanaged answers start refl tt

process_container-Decides_example :
    All IsHarmless (process_container 20 defaults (web []) answers start).1.trace
    ⊎ Updates 20 defaults
        (web [])
        answers
        start
        (process_container 20 defaults (web []) answers start)
process_container-Decides_example = process_container-Decides 20 defaults (web []) answers start tt

answers-HasBases : HasBases answers
answers-HasBases tr id inspect p = cc (ap has_base (p))
  where
    has_base : Result InspectResponse → Bool
    has_base (ok i) = i.has_base
    has_base (err e) = true

recreate-Recreated_example :
    Gives
      (Recreated answers (web []) (codes "web:2") (pos 10) [])
      (recreate (web []) (codes "web:2") (pos 10) answers start)
recreate-Recreated_example =
    recreate-Recreated (web []) (codes "web:2") (pos 10) answers start answers-HasBases refl

tick-Outcomes_example :
    Outcomes
      (listed (list_containers defaults.include_stopped answers start).0)
      []
      (updates_of (tick 17 defaults answers start).1.metrics)
tick-Outcomes_example = tick-Outcomes 17 defaults answers start

process_container-IsSound_example : (process_container 20 defaults (web []) answers start).0 ≢ panic
process_container-IsSound_example =
    process_container-IsSound 20 defaults (web []) answers start answers-HasBases refl

wait_for_healthy-Returns_example :
    Returns ⊥ (wait_for_healthy 17 (codes "c2") (pos 30) answers start).0
unfolding seconds_duration
wait_for_healthy-Returns_example =
    wait_for_healthy-Returns answers 16 (codes "c2") (pos 30) start answers-HasBases
      answers-SteadyClock (omega arith)

wait_for_healthy-Settles_example :
    Settles answers (codes "c2") (wait_for_healthy 17 (codes "c2") (pos 30) answers start)
wait_for_healthy-Settles_example = wait_for_healthy-Settles 17 answers (codes "c2") (pos 30) start

skip_iff_example : ((resolve_policy defaults unmanaged).skip ≡ true) ↔ (
    Carries unmanaged label_enable label_value_false
    ⊎ ((defaults.label_enable ≡ true) × (¬ Carries unmanaged label_enable label_value_true)))
skip_iff_example = skip_iff defaults unmanaged

tick-Quieted_example : Quieted (tick 17 defaults answers start)
unfolding seconds_duration
tick-Quieted_example =
    tick-Quieted 16 defaults answers start answers-SteadyClock (omega arith) new-IsQuiet

abbrev hourly : Scheduler
hourly = record {
  ticker = λ period. due ∷ stop ∷ [];
  cron = λ expression. due ∷ due ∷ stop ∷ [];
  parse = λ expression. ok tt;
  add_func = λ expression. ok tt;
}

run-Stopped_example : Stopped (run hourly 17 defaults answers start)
unfolding seconds_duration HasStop refusal openwatch.Base.Text.trim_space
    openwatch.Base.Text.trim_func openwatch.Base.Text.trim_left
run-Stopped_example =
    run-Stopped hourly 16 defaults answers start answers-SteadyClock (omega arith) (λ period. tt)
      (λ schedule. tt) new-IsQuiet refl

abbrev refusing : Scheduler
refusing = record hourly { parse = λ expression. err (message (codes "expected 5 fields")) }

abbrev scheduled : Config
scheduled = record defaults { schedule = codes "hourly" }

run_refused_example :
    (error_of (run refusing 17 scheduled answers start).0 ≡ refusal refusing scheduled)
    × ((refusal refusing scheduled ≡ none) ⊎ ((run refusing 17 scheduled answers start).1 ≡ start))
run_refused_example = run_refused refusing 17 scheduled answers start

interval_of_exact_example :
    ((0 < nanos (interval_of (pos 60))) × (nanos (interval_of (pos 60)) < 2 ^ 63))
    × (interval_of (pos 60) ≡ pos (60 * second) ↔ 60 ≤ max_seconds)
interval_of_exact_example = interval_of_exact 60 (omega arith)

load_auth-IsAllowed_example :
    All
      (IsAllowed (is_explicit [] []) (normalize_registry_host (codes "docker.io")))
      (load_auth [] (codes "docker.io") [] [] answers start).1.trace
load_auth-IsAllowed_example = load_auth-IsAllowed [] (codes "docker.io") [] [] answers start tt

tick-Shows_example :
    Shows
      (list_containers defaults.include_stopped answers start).0
      (tick 17 defaults answers start)
tick-Shows_example = tick-Shows 17 defaults answers start
