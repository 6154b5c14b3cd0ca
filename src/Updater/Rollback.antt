-- ===== src/Updater/Rollback.antt =====
-- internal/updater/rollback.go: what follows a failed health check.
use openwatch.Base.{not, Option, none, some, [], ◌++◌, if◌then◌else◌}
use openwatch.Base.Text.{Text, codes, is_empty}
use openwatch.Base.Numbers.{ℤ}
use openwatch.Base.Errors.{Error, message, wrap, error_text}
use openwatch.Docker.{Container}
use openwatch.Docker.Containers.{recreate}
use openwatch.Metrics.{UpdateStatus, RollbackStatus}
use openwatch.State.{unknown, up_to_date}
use openwatch.Updater.Identifiers.{short_image_id}
use openwatch.Updater.Marks.{note_checked, count_update, count_rollback}
use openwatch.Updater.Policy.{Policy}
use openwatch.World.{
  M, pure, ◌>>=◌, ◌>>◌, if_some, send, rollback_trigger, rollback_success, rollback_failed,
}

-- The container to recreate: the old settings, under the new container's ID, with no image ID.
abbrev pub rollback_target : Container → Text → Container
rollback_target previous new_id = record previous { id = new_id; image_id = [] }

abbrev pub rollback_error : Container → Error → Error
rollback_error previous e =
    wrap (codes "recreate container " ++ (previous.name ++ codes " with previous image")) e

unfoldable pub perform_rollback : Container → Text → Text → ℤ → M (Option Error)
perform_rollback previous previous_image_id new_id timeout =
    if is_empty previous_image_id
    then pure (some (message (codes "rollback requested but previous image ID is empty")))
    else (do
      (_, failure) ← recreate (rollback_target previous new_id) previous_image_id timeout
      if_some failure (pure none) λ e. pure (some (rollback_error previous e)))

unfoldable pub rollback_failure : Container → Text → M (Unit {0})
rollback_failure prev details = do
  count_rollback prev.name RollbackStatus.failed
  note_checked prev unknown
  send rollback_failed prev.name details

unfoldable pub attempt_rollback : Policy → Container → Text → Text → M (Unit {0})
attempt_rollback policy prev new_id previous_image_id = do
  send rollback_trigger prev.name
      (codes "Healthcheck failed after update, reverting to " ++ short_image_id previous_image_id)
  failure ← perform_rollback prev previous_image_id new_id policy.stop_timeout_sec
  if_some failure
      (do
        count_rollback prev.name RollbackStatus.success
        note_checked prev up_to_date
        send rollback_success prev.name (codes "Reverted successfully"))
      (λ e. rollback_failure prev (error_text e))

unfoldable pub handle_health_failure : Policy → Container → Text → Text → M (Unit {0})
handle_health_failure policy prev new_id previous_image_id = do
  count_update prev.name UpdateStatus.failed
  if not policy.rollback
      then note_checked prev unknown
      else if is_empty previous_image_id
      then rollback_failure prev (codes "no previous image id captured, cannot roll back")
      else attempt_rollback policy prev new_id previous_image_id
