-- ===== src/Metrics.antt =====
-- internal/metrics/metrics.go: the observations of a run, latest first. A counter is the number of
-- its observations; the Prometheus registry that shows them is not modelled. A nil receiver is
-- `none`.
pub mod Collectors
mod Tests
use openwatch.Base.{ℕ, Option, none, some, List, ◌∷◌}
use openwatch.Base.Text.{Text}

pub data UpdateStatus : Type 0 where
  success failed skipped notify_only : UpdateStatus

pub data RollbackStatus : Type 0 where
  success failed : RollbackStatus

pub record Metrics : Type 0 where
  pub updates : List (Text × UpdateStatus)
  pub rollbacks : List (Text × RollbackStatus)
  pub containers_monitored : ℕ
  pub durations : List (Text × ℕ)

unfoldable pub record_update : Text → UpdateStatus → Option Metrics → Option Metrics
record_update container status none = none
record_update container status (some m) =
    some (record m { updates = (container, status) ∷ m.updates })

unfoldable pub record_rollback : Text → RollbackStatus → Option Metrics → Option Metrics
record_rollback container status none = none
record_rollback container status (some m) =
    some (record m { rollbacks = (container, status) ∷ m.rollbacks })

unfoldable pub set_containers_monitored : ℕ → Option Metrics → Option Metrics
set_containers_monitored n none = none
set_containers_monitored n (some m) = some (record m { containers_monitored = n })

unfoldable pub observe_update_duration : Text → ℕ → Option Metrics → Option Metrics
observe_update_duration container elapsed none = none
observe_update_duration container elapsed (some m) =
    some (record m { durations = (container, elapsed) ∷ m.durations })
