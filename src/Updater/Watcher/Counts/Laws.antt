-- ===== src/Updater/Watcher/Counts/Laws.antt =====
-- internal/updater/watcher.go: the outcomes that the processing of a container counts.
use openwatch.Base.{ℕ, Option, List, [], ◌∷◌}
use openwatch.Base.Text.{Text}
use openwatch.Base.Errors.{Error}
use openwatch.Config.{Config}
use openwatch.Docker.{Container}
use openwatch.Docker.Reads.{Keeps-is_self, Keeps-local_image_identifiers}
use openwatch.Registry.Reads.{
  Keeps-load_auth, Keeps-head_manifest_digest, Keeps-fetch_remote_identifiers,
}
use openwatch.Registry.Resolver.{Reference}
use openwatch.State.{ContainerStatus, Time}
use openwatch.Metrics.{UpdateStatus}
use openwatch.Updater.Marks.{note_checked, note_updating, note_updated, note_failed}
use openwatch.Updater.Policy.{Policy, resolve_policy}
use openwatch.Updater.Rollback.{rollback_failure, attempt_rollback, handle_health_failure}
use openwatch.Updater.Watcher.{
  first_id, finish_update, conclude, update_failure, replace_container, apply_update, announce,
  compare_identifiers, check_remote, check_container, process_policy, process_container,
}
use openwatch.Updater.Watcher.OnStore.{
  looks_any, Keeps-send, Keeps-read_clock, Keeps-pull_image, Keeps-remove_image, Keeps-recreate,
  Keeps-perform_rollback, Keeps-wait,
}
use openwatch.Updater.Watcher.Counts.{
  Counted, Counted-OffTrace, IsOnce, updates_of, CountsOnce, Uncounted, Keeps-update_store,
  Keeps-observe, Keeps-count_rollback, CountsOnce-count_update, CountsOnce-Uncounted,
  CountsOnce-after, CountsOnce-before, CountsOnce-if_ok, CountsOnce-if_some, CountsOnce-if,
}
use openwatch.World.{Env, World, AuthConfig}
use openwatch.World.Keeps.{Keeps, keeps_rules, Keeps-pure, Keeps-fault}

module _ {E : Env → Type 0} {S : Type 0} (us : List (Text × UpdateStatus)) where
  Keeps-note_checked :
      (c : Container) (s : ContainerStatus) → Keeps E S (Counted us) (note_checked c s)
  unfolding note_checked
  Keeps-note_checked c s = Keeps-update_store us _

  Keeps-note_updating : (c : Container) → Keeps E S (Counted us) (note_updating c)
  unfolding note_updating
  Keeps-note_updating c = Keeps-update_store us _

  Keeps-note_updated : (c : Container) → Keeps E S (Counted us) (note_updated c)
  unfolding note_updated
  Keeps-note_updated c = Keeps-update_store us _

  Keeps-first_id : (ids : List Text) → Keeps E S (Counted us) (first_id ids)
  unfolding first_id
  Keeps-first_id [] = Keeps-fault
  Keeps-first_id (id ∷ ids) = Keeps-pure id

ruleset uncounted_rules = (
  keeps_rules, Counted-OffTrace, Keeps-send, Keeps-read_clock, Keeps-pull_image, Keeps-remove_image,
  Keeps-recreate, Keeps-perform_rollback, Keeps-wait, Keeps-local_image_identifiers, looks_any,
  Keeps-note_checked, Keeps-note_updating, Keeps-note_updated, Keeps-first_id, Keeps-observe,
  Keeps-count_rollback,
)

ruleset once_rules = (
  CountsOnce-count_update, CountsOnce-Uncounted, CountsOnce-after, CountsOnce-before,
  CountsOnce-if_ok, CountsOnce-if_some, CountsOnce-if,
)

module _ (c : Container) where
  CountsOnce-note_failed : CountsOnce c.name (note_failed c)
  unfolding note_failed
  CountsOnce-note_failed = search (once_rules, uncounted_rules) depth 12

  CountsOnce-announce : CountsOnce c.name (announce c)
  unfolding announce
  CountsOnce-announce = search (once_rules, uncounted_rules) depth 12

  CountsOnce-update_failure : (e : Error) → CountsOnce c.name (update_failure c e)
  unfolding update_failure
  CountsOnce-update_failure e =
      search (once_rules, uncounted_rules, CountsOnce-note_failed) depth 12

  CountsOnce-finish_update :
      (p : Policy) (started : Time) → CountsOnce c.name (finish_update p c started)
  unfolding finish_update
  CountsOnce-finish_update p started = search (once_rules, uncounted_rules) depth 24

  Keeps-rollback_failure : (details : Text) → Uncounted (rollback_failure c details)
  unfolding rollback_failure
  Keeps-rollback_failure details = λ us. search (uncounted_rules) depth 16

  Keeps-attempt_rollback :
      (p : Policy) (id image : Text) → Uncounted (attempt_rollback p c id image)
  unfolding attempt_rollback
  Keeps-attempt_rollback p id image =
      λ us. search (uncounted_rules, Keeps-rollback_failure) depth 16

  CountsOnce-handle_health_failure :
      (p : Policy) (id image : Text) → CountsOnce c.name (handle_health_failure p c id image)
  unfolding handle_health_failure
  CountsOnce-handle_health_failure p id image =
      search (once_rules, uncounted_rules, Keeps-rollback_failure, Keeps-attempt_rollback) depth 16

  CountsOnce-conclude :
      (p : Policy) (id : Text) (started : Time) (health : Option Error)
      → CountsOnce c.name (conclude p c id started health)
  unfolding conclude
  CountsOnce-conclude p id started health =
      search (once_rules, CountsOnce-finish_update, CountsOnce-handle_health_failure) depth 12

  module _ (fuel : ℕ) (cfg : Config) (p : Policy) where
    CountsOnce-replace_container :
        (started : Time) → CountsOnce c.name (replace_container fuel cfg p c started)
    unfolding replace_container
    CountsOnce-replace_container started =
        search (once_rules, uncounted_rules, CountsOnce-update_failure, CountsOnce-conclude) depth
          16

    CountsOnce-apply_update :
        (auth : Option AuthConfig) → CountsOnce c.name (apply_update fuel cfg p c auth)
    unfolding apply_update
    CountsOnce-apply_update auth =
        search
          (once_rules, uncounted_rules, CountsOnce-update_failure, CountsOnce-replace_container)
          depth 16

    CountsOnce-compare_identifiers :
        (auth : Option AuthConfig) (local_ids remote_ids : List Text)
        → CountsOnce c.name (compare_identifiers fuel cfg p c auth local_ids remote_ids)
    unfolding compare_identifiers
    CountsOnce-compare_identifiers auth local_ids remote_ids =
        search (once_rules, uncounted_rules, CountsOnce-announce, CountsOnce-apply_update) depth 16

    CountsOnce-check_remote :
        (ref : Reference) (auth : Option AuthConfig) (local_ids : List Text)
        → CountsOnce c.name (check_remote fuel cfg p c ref auth local_ids)
    unfolding check_remote
    CountsOnce-check_remote ref auth local_ids =
        search
          (
            once_rules, uncounted_rules, Keeps-head_manifest_digest, Keeps-fetch_remote_identifiers,
            CountsOnce-note_failed, CountsOnce-compare_identifiers,
          )
          depth 16

    CountsOnce-check_container :
        (ref : Reference) → CountsOnce c.name (check_container fuel cfg p c ref)
    unfolding check_container
    CountsOnce-check_container ref =
        search
          (
            once_rules, uncounted_rules, Keeps-load_auth, CountsOnce-note_failed,
            CountsOnce-check_remote,
          )
          depth 16

    CountsOnce-process_policy : CountsOnce c.name (process_policy fuel cfg p c)
    unfolding process_policy
    CountsOnce-process_policy =
        search (once_rules, uncounted_rules, CountsOnce-note_failed, CountsOnce-check_container)
          depth 16

-- c
pub process_container-IsOnce :
    (fuel : ℕ) (cfg : Config) (c : Container) (env : Env) (w : World)
    → IsOnce c.name (updates_of w.metrics) (process_container fuel cfg c env w).1
unfolding process_container
process_container-IsOnce fuel cfg c env w =
    let h : CountsOnce c.name (process_container fuel cfg c) =
      CountsOnce-after _ _ (λ us. Keeps-is_self (looks_any (Counted-OffTrace us)) c)
        (λ self.
          CountsOnce-if self _ _ (CountsOnce-Uncounted c.name _ (λ us. Keeps-pure tt))
            (CountsOnce-process_policy c fuel cfg (resolve_policy cfg c))) in
    h.at env w
