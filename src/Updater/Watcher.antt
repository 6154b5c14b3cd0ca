-- ===== src/Updater/Watcher.antt =====
-- internal/updater/watcher.go: one pass over the containers. Log lines are left out.
pub mod Reads
pub mod Bounds
pub mod OnStore
pub mod Calm
pub mod Quiet
pub mod Closed
pub mod Decides
pub mod Counts
pub mod Sound
pub mod Listed
use openwatch.Base.{
  ℕ, ◌-◌, Bool, true, false, not, ◌&&◌, Option, none, some, List, [], ◌∷◌, ◌++◌, if◌then◌else◌,
  length,
}
use openwatch.Base.Text.{Text, codes, text_eq, is_empty}
use openwatch.Base.Assoc.{Assoc, insert}
use openwatch.Base.Errors.{Error, Result, ok, err, error_text, is_no_healthcheck}
use openwatch.Config.{Config}
use openwatch.Docker.{Container}
use openwatch.Docker.Containers.{list_containers, is_self, recreate}
use openwatch.Docker.Image.{pull_image, local_image_identifiers, remove_image}
use openwatch.Metrics.{UpdateStatus, set_containers_monitored, observe_update_duration}
use openwatch.Registry.Resolver.{Reference, parse}
use openwatch.Registry.Auth.{load_auth}
use openwatch.Registry.Digest.{head_manifest_digest, fetch_remote_identifiers}
use openwatch.State.{Time, StateStore, unknown, up_to_date, has}
use openwatch.State.Writes.{pruned}
use openwatch.Updater.Health.{wait_for_healthy}
use openwatch.Updater.Identifiers.{identifiers_intersect, short_image_id}
use openwatch.Updater.Marks.{note_checked, note_updating, note_updated, note_failed, count_update}
use openwatch.Updater.Policy.{Policy, resolve_policy}
use openwatch.Updater.Rollback.{handle_health_failure}
use openwatch.World.{
  AuthConfig, Env, World, Outcome, done, M, pure, fault, ◌>>=◌, ◌>>◌, if_ok, if_some, read_clock,
  send, modify_store, update_metrics, update_started, update_success, update_failed,
  update_available,
}

-- `ids[0]`
unfoldable pub first_id : List Text → M Text
first_id [] = fault
first_id (id ∷ ids) = pure id

-- `headErr == nil && headDigest != ""`, and the digest is a local identifier.
abbrev pub head_matches : List Text → Result Text → Bool
head_matches local_ids (err e) = false
head_matches local_ids (ok digest) =
    not (is_empty digest) && identifiers_intersect local_ids (digest ∷ [])

-- The em dash in UTF-8.
abbrev pub dash : Text
dash = 0xE2 ∷ 0x80 ∷ 0x94 ∷ []

abbrev pub first_or_empty : Result (List Text) → Text
first_or_empty (err e) = []
first_or_empty (ok []) = []
first_or_empty (ok (id ∷ ids)) = id

-- After a good health check, or none: the observations, the notification and the cleanup.
unfoldable pub finish_update : Policy → Container → Time → M (Unit {0})
finish_update policy c started = do
  now ← read_clock
  update_metrics (observe_update_duration c.name (now - started))
  count_update c.name UpdateStatus.success
  note_updated c
  new_ids ← local_image_identifiers c.image
  send update_success c.name (
      codes "Updated from "
      ++ (short_image_id c.image_id ++ (codes " to " ++ short_image_id (first_or_empty new_ids))))
  if policy.cleanup && not (is_empty c.image_id)
      then (do remove_image c.image_id; pure tt)
      else pure tt

-- The switch over the health check's error.
unfoldable pub conclude : Policy → Container → Text → Time → Option Error → M (Unit {0})
conclude policy c new_id started health = if_some health (finish_update policy c started) λ e.
    if is_no_healthcheck e
    then finish_update policy c started
    else handle_health_failure policy c new_id c.image_id

unfoldable pub update_failure : Container → Error → M (Unit {0})
update_failure c e = do note_failed c; send update_failed c.name (error_text e)

unfoldable pub replace_container : ℕ → Config → Policy → Container → Time → M (Unit {0})
replace_container fuel cfg policy c started = do
  (new_id, failure) ← recreate c c.image policy.stop_timeout_sec
  if_some failure
      (do
        health ← wait_for_healthy fuel new_id cfg.healthcheck_timeout
        conclude policy c new_id started health)
      (λ e. update_failure c e)

-- From `MarkUpdating` on.
unfoldable pub apply_update : ℕ → Config → Policy → Container → Option AuthConfig → M (Unit {0})
apply_update fuel cfg policy c auth = do
  note_updating c
  send update_started c.name (codes "New digest detected for " ++ c.image)
  started ← read_clock
  pulled ← pull_image c.image auth
  if_ok pulled (λ e. update_failure c e) λ _. replace_container fuel cfg policy c started

unfoldable pub announce : Container → M (Unit {0})
announce c = do
  count_update c.name UpdateStatus.notify_only
  note_checked c up_to_date
  send update_available c.name (
      codes "New image available for "
      ++ (c.image ++ (codes " " ++ (dash ++ codes " update not applied (notify_only)"))))

-- The remote identifiers against the local ones.
unfoldable pub compare_identifiers :
    ℕ → Config → Policy → Container → Option AuthConfig → List Text → List Text → M (Unit {0})
compare_identifiers fuel cfg policy c auth local_ids remote_ids =
    if identifiers_intersect local_ids remote_ids
    then (do first_id local_ids; note_checked c up_to_date)
    else (do
      first_id local_ids
      first_id remote_ids
      if policy.notify_only then announce c else apply_update fuel cfg policy c auth)

-- The HEAD request, and the GET requests where it does not settle the matter.
unfoldable pub check_remote :
    ℕ → Config → Policy → Container → Reference → Option AuthConfig → List Text → M (Unit {0})
check_remote fuel cfg policy c ref auth local_ids = do
  head ← head_manifest_digest ref auth
  if head_matches local_ids head then note_checked c up_to_date else (do
    remote ← fetch_remote_identifiers ref auth
    if_ok remote (λ e. note_failed c)
        λ remote_ids. compare_identifiers fuel cfg policy c auth local_ids remote_ids)

-- `auth = nil` after an error.
abbrev pub auth_or_anonymous : Result (Option AuthConfig) → Option AuthConfig
auth_or_anonymous (err e) = none
auth_or_anonymous (ok auth) = auth

unfoldable pub check_container : ℕ → Config → Policy → Container → Reference → M (Unit {0})
check_container fuel cfg policy c ref = do
  loaded ← load_auth cfg.docker_config ref.registry cfg.registry_user cfg.registry_password
  local_ids ← local_image_identifiers c.image_id
  if_ok local_ids (λ e. note_failed c)
      λ ids. check_remote fuel cfg policy c ref (auth_or_anonymous loaded) ids

unfoldable pub process_policy : ℕ → Config → Policy → Container → M (Unit {0})
process_policy fuel cfg policy c =
    if policy.skip
    then (do count_update c.name UpdateStatus.skipped; note_checked c unknown)
    else if_ok (parse c.image) (λ e. note_failed c) λ ref. check_container fuel cfg policy c ref

unfoldable pub process_container : ℕ → Config → Container → M (Unit {0})
process_container fuel cfg c = do
  self ← is_self c
  if self then pure tt else process_policy fuel cfg (resolve_policy cfg c) c

-- The loop of `tick`: `seen`.
unfoldable pub process_all : ℕ → Config → Assoc (Unit {0}) → List Container → M (Assoc (Unit {0}))
process_all fuel cfg seen [] = pure seen
process_all fuel cfg seen (c ∷ cs) = do
  process_container fuel cfg c
  process_all fuel cfg (insert c.name tt seen) cs

unfoldable pub tick : ℕ → Config → M (Unit {0})
tick fuel cfg = do
  listed ← list_containers cfg.include_stopped
  if_ok listed (λ e. pure tt)
      λ containers. do
        update_metrics (set_containers_monitored (length containers))
        seen ← process_all fuel cfg [] containers
        modify_store (pruned seen)

-- The loop of `TriggerByName`: the first container of that name.
unfoldable pub process_named : ℕ → Config → Text → List Container → M (Unit {0})
process_named fuel cfg name [] = pure tt
process_named fuel cfg name (c ∷ cs) =
    if text_eq c.name name then process_container fuel cfg c else process_named fuel cfg name cs

-- The goroutine of `TriggerByName`.
unfoldable pub run_trigger : ℕ → Config → Text → M (Unit {0})
run_trigger fuel cfg name = do
  listed ← list_containers cfg.include_stopped
  if_ok listed (λ e. pure tt) λ containers. process_named fuel cfg name containers

abbrev pub tracks : Text → Option StateStore → Bool
tracks name none = false
tracks name (some s) = has name s

-- The answer of `TriggerByName`; where it is true, `run_trigger` runs besides.
unfoldable pub trigger_by_name : Text → M Bool
trigger_by_name name env w = pure (tracks name w.store) env w
