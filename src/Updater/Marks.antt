-- ===== src/Updater/Marks.antt =====
-- The watcher's calls of its state store and its metrics, either of which may be nil.
use openwatch.Base.Text.{Text}
use openwatch.Docker.{Container}
use openwatch.Metrics.{UpdateStatus, RollbackStatus, record_update, record_rollback}
use openwatch.State.{ContainerStatus, unknown}
use openwatch.State.Writes.{checked, began, ended}
use openwatch.World.{M, ◌>>◌, update_store, update_metrics}

unfoldable pub note_checked : Container → ContainerStatus → M (Unit {0})
note_checked c status = update_store (λ now. checked c.name c.image status now)

unfoldable pub note_updating : Container → M (Unit {0})
note_updating c = update_store (λ now. began c.name c.image now)

unfoldable pub note_updated : Container → M (Unit {0})
note_updated c = update_store (λ now. ended c.name c.image now)

unfoldable pub count_update : Text → UpdateStatus → M (Unit {0})
count_update name status = update_metrics (record_update name status)

unfoldable pub count_rollback : Text → RollbackStatus → M (Unit {0})
count_rollback name status = update_metrics (record_rollback name status)

-- `RecordUpdate(c.Name, StatusFailed)` and `MarkChecked(c.Name, c.Image, StatusUnknown)`
unfoldable pub note_failed : Container → M (Unit {0})
note_failed c = do count_update c.name UpdateStatus.failed; note_checked c unknown
