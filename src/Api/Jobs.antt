-- ===== src/Api/Jobs.antt =====
-- internal/updater/watcher.go: the goroutines that requests start, run one after another.
use openwatch.Base.{ℕ, suc, ◌*◌, ◌<◌, List, [], ◌∷◌}
use openwatch.Base.Text.{Text}
use openwatch.Config.{Config}
use openwatch.Updater.Health.{budget, health_poll_interval}
use openwatch.Updater.Health.Laws.{SteadyClock}
use openwatch.Updater.Watcher.{tick, run_trigger}
use openwatch.Updater.Watcher.Calm.{Marking}
use openwatch.Updater.Watcher.Calm.Ticks.{
  Calms, Calms-Keeps, Calms-bind, Calms-tick, Calms-run_trigger,
}
use openwatch.Updater.Watcher.Quiet.{IsQuiet, Quiet-Marking, Quieted}
use openwatch.World.{Env, World, M, pure, ◌>>◌}
use openwatch.World.Keeps.{Keeps-pure}
use openwatch.Api.Watcher.{Job, tick_all, check}

-- The body of a goroutine.
unfoldable pub run_job : ℕ → Config → Job → M (Unit {0})
run_job fuel cfg tick_all = tick fuel cfg
run_job fuel cfg (check name) = run_trigger fuel cfg name

unfoldable pub run_jobs : ℕ → Config → List Job → M (Unit {0})
run_jobs fuel cfg [] = pure tt
run_jobs fuel cfg (j ∷ js) = do run_job fuel cfg j; run_jobs fuel cfg js

module _ {I : World → Type 0} {J : Text → World → Type 0} (law : Marking I J) (f : ℕ) (cfg : Config)
    (enough : ◌<◌ (budget cfg.healthcheck_timeout) (f * health_poll_interval)) where
  pub Calms-run_job : (j : Job) → Calms I (run_job (suc f) cfg j)
  unfolding run_job
  Calms-run_job tick_all = Calms-tick law f cfg enough
  Calms-run_job (check name) = Calms-run_trigger law f cfg enough name

  Calms-run_jobs : (js : List Job) → Calms I (run_jobs (suc f) cfg js)
  unfolding run_jobs ◌>>◌
  Calms-run_jobs [] = Calms-Keeps _ (Keeps-pure tt)
  Calms-run_jobs (j ∷ js) = Calms-bind _ _ (Calms-run_job j) (λ _. Calms-run_jobs js)

-- Where the clock is turned back by no call and moved on by every pause that is not cancelled, and
-- where the model has more rounds than the nanoseconds of the health timeout have pauses, any jobs
-- that requests have started, run one after another from a store with no container at updating, do
-- not run out of fuel, and where they do not panic they end with no container at updating,
-- whatever the world answers.
pub run_jobs-Quieted :
    (f : ℕ) (cfg : Config) (js : List Job) (env : Env) (w : World)
    → SteadyClock env
    → ◌<◌ (budget cfg.healthcheck_timeout) (f * health_poll_interval)
    → IsQuiet w.store
    → Quieted (run_jobs (suc f) cfg js env w)
run_jobs-Quieted f cfg js env w e enough q =
    (Calms-run_jobs Quiet-Marking f cfg enough js).at env e w q
