-- ===== src/Updater/Watcher/Quiet/Ticks.antt =====
-- internal/updater/watcher.go: a tick, by the notes that it makes of its containers.
use openwatch.Base.{ℕ, suc, ◌*◌, ◌<◌}
use openwatch.Config.{Config}
use openwatch.Updater.Health.{budget, health_poll_interval}
use openwatch.Updater.Health.Laws.{SteadyClock}
use openwatch.Updater.Watcher.{tick}
use openwatch.Updater.Watcher.Calm.Ticks.{Calms-tick}
use openwatch.Updater.Watcher.Quiet.{IsQuiet, Quiet-Marking, Quieted}
use openwatch.World.{Env, World}

-- Under a clock that no call turns back and that every pause which is not cancelled moves on by
-- its length, with more rounds than the nanoseconds of the health timeout, as the program's 64-bit
-- arithmetic computes them, have pauses, a tick begun with no container at updating does not run
-- out of fuel, and where it does not panic it returns with no container at updating, whatever the
-- world answers.
pub tick-Quieted :
    (f : ℕ) (cfg : Config) (env : Env) (w : World)
    → SteadyClock env
    → ◌<◌ (budget cfg.healthcheck_timeout) (f * health_poll_interval)
    → IsQuiet w.store
    → Quieted (tick (suc f) cfg env w)
tick-Quieted f cfg env w e enough q = (Calms-tick Quiet-Marking f cfg enough).at env e w q
