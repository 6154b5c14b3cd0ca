-- ===== src/Updater/Watcher/Calm/Laws.antt =====
-- internal/updater: the processing of a container, by the notes it makes.
use openwatch.Base.{Option, List, [], ◌∷◌}
use openwatch.Base.Text.{Text}
use openwatch.Base.Errors.{Error}
use openwatch.Docker.{Container}
use openwatch.State.{Time}
use openwatch.Updater.Health.Laws.{SteadyClock}
use openwatch.Updater.Marks.{count_update}
use openwatch.Updater.Watcher.OnStore.{OnStore, OffTrace, OnStore-OffTrace, Keeps-update_metrics}
use openwatch.World.Keeps.{Keeps, Leaves, keeps_rules}
use openwatch.Updater.Watcher.Calm.{Marking, Closes, closes_rules}
use openwatch.Base.{ℕ, suc, ◌*◌, ◌<◌}
use openwatch.Config.{Config}
use openwatch.Docker.Reads.{Keeps-is_self, Keeps-list_containers, Keeps-local_image_identifiers}
use openwatch.Registry.Reads.{
  Keeps-load_auth, Keeps-head_manifest_digest, Keeps-fetch_remote_identifiers,
}
use openwatch.Registry.Resolver.{Reference}
use openwatch.Updater.Health.{budget, health_poll_interval, wait_for_healthy}
use openwatch.Updater.Marks.{count_rollback}
use openwatch.Updater.Policy.{Policy}
use openwatch.Updater.Rollback.{rollback_failure, attempt_rollback, handle_health_failure}
use openwatch.Updater.Watcher.{
  first_id, finish_update, conclude, update_failure, replace_container, apply_update, announce,
  compare_identifiers, check_remote, check_container, process_policy,
}
use openwatch.Updater.Watcher.OnStore.{
  Admits-any, looks_any, Keeps-send, Keeps-read_clock, Keeps-pull_image, Keeps-remove_image,
  Keeps-recreate, Keeps-perform_rollback, Keeps-wait_for_healthy,
}
use openwatch.Updater.Watcher.Calm.Marks.{
  Closes-note_unknown, Closes-note_current, Closes-note_updated, Closes-note_failed,
  Keeps-note_updating, Closes-note_checked,
}
use openwatch.World.{World, AuthConfig}
use openwatch.World.Keeps.{Keeps-pure, Keeps-bind}

-- What keeps a predicate on the store.
pub ruleset store_rules = (
  keeps_rules, Keeps-send, Keeps-read_clock, Keeps-update_metrics, Keeps-pull_image,
  Keeps-remove_image, Keeps-recreate, Keeps-perform_rollback, Keeps-local_image_identifiers,
  looks_any,
)

pub ruleset note_rules =
    (Closes-note_unknown, Closes-note_current, Closes-note_updated, Closes-note_failed)

module _ {I : World → Type 0} {J : Text → World → Type 0} (law : Marking I J) (c : Container) where
  on_closed : OnStore I
  on_closed = law.about

  on_open : OnStore (J c.name)
  on_open = law.about_open c.name

  off_closed : OffTrace I
  off_closed = OnStore-OffTrace on_closed

  off_open : OffTrace (J c.name)
  off_open = OnStore-OffTrace on_open

  Closes-finish_update :
      (p : Policy) (started : Time) → Closes I J c.name (finish_update p c started)
  unfolding finish_update count_update
  Closes-finish_update p started =
      search (closes_rules, store_rules, on_closed, on_open, off_closed, off_open, note_rules) depth
        24

  Closes-rollback_failure : (details : Text) → Closes I J c.name (rollback_failure c details)
  unfolding rollback_failure count_rollback
  Closes-rollback_failure details =
      search (closes_rules, store_rules, on_closed, on_open, off_closed, off_open, note_rules) depth
        24

  Closes-attempt_rollback :
      (p : Policy) (id image : Text) → Closes I J c.name (attempt_rollback p c id image)
  unfolding attempt_rollback count_rollback
  Closes-attempt_rollback p id image =
      search
        (
          closes_rules, store_rules, on_closed, on_open, off_closed, off_open, note_rules,
          Closes-rollback_failure,
        )
        depth 24

  Closes-handle_health_failure :
      (p : Policy) (id image : Text) → Closes I J c.name (handle_health_failure p c id image)
  unfolding handle_health_failure count_update
  Closes-handle_health_failure p id image =
      search
        (
          closes_rules, store_rules, on_closed, on_open, off_closed, off_open, note_rules,
          Closes-rollback_failure, Closes-attempt_rollback,
        )
        depth 24

  Closes-conclude :
      (p : Policy) (id : Text) (started : Time) (health : Option Error)
      → Closes I J c.name (conclude p c id started health)
  unfolding conclude
  Closes-conclude p id started health =
      search (closes_rules, Closes-finish_update, Closes-handle_health_failure) depth 24

  Closes-update_failure : (e : Error) → Closes I J c.name (update_failure c e)
  unfolding update_failure
  Closes-update_failure e =
      search (closes_rules, store_rules, on_closed, on_open, off_closed, off_open, note_rules) depth
        24

  Closes-announce : Closes I J c.name (announce c)
  unfolding announce count_update
  Closes-announce =
      search (closes_rules, store_rules, on_closed, on_open, off_closed, off_open, note_rules) depth
        24

  module _ (f : ℕ) (cfg : Config) (p : Policy)
      (enough : ◌<◌ (budget cfg.healthcheck_timeout) (f * health_poll_interval)) where
    Keeps-wait :
        (id : Text)
        → Keeps SteadyClock ⊥ (J c.name) (wait_for_healthy (suc f) id cfg.healthcheck_timeout)
    Keeps-wait id = Keeps-wait_for_healthy off_open f id cfg.healthcheck_timeout enough

    Closes-replace_container :
        (started : Time) → Closes I J c.name (replace_container (suc f) cfg p c started)
    unfolding replace_container
    Closes-replace_container started =
        search
          (
            closes_rules, store_rules, on_closed, on_open, off_closed, off_open, Keeps-wait,
            Closes-conclude, Closes-update_failure,
          )
          depth 24

    Closes-apply_update :
        (auth : Option AuthConfig) → Closes I J c.name (apply_update (suc f) cfg p c auth)
    unfolding apply_update
    Closes-apply_update auth =
        let opens = Keeps-note_updating law c in
        search
          (
            closes_rules, store_rules, on_closed, on_open, off_closed, off_open, opens,
            Closes-replace_container, Closes-update_failure,
          )
          depth 24

    Keeps-first_id : (ids : List Text) → Keeps SteadyClock ⊥ (J c.name) (first_id ids)
    unfolding first_id
    Keeps-first_id [] = search (keeps_rules) depth 4
    Keeps-first_id (id ∷ ids) = search (keeps_rules) depth 4

    Closes-compare_identifiers :
        (auth : Option AuthConfig) (local_ids remote_ids : List Text)
        → Closes I J c.name (compare_identifiers (suc f) cfg p c auth local_ids remote_ids)
    unfolding compare_identifiers
    Closes-compare_identifiers auth local_ids remote_ids =
        search (closes_rules, note_rules, Keeps-first_id, Closes-announce, Closes-apply_update)
          depth 24

    Closes-check_remote :
        (ref : Reference) (auth : Option AuthConfig) (local_ids : List Text)
        → Closes I J c.name (check_remote (suc f) cfg p c ref auth local_ids)
    unfolding check_remote
    Closes-check_remote ref auth local_ids =
        search
          (
            closes_rules, store_rules, on_closed, on_open, off_closed, off_open, note_rules,
            Keeps-head_manifest_digest, Keeps-fetch_remote_identifiers, Closes-compare_identifiers,
          )
          depth 24

    Closes-check_container :
        (ref : Reference) → Closes I J c.name (check_container (suc f) cfg p c ref)
    unfolding check_container
    Closes-check_container ref =
        search
          (
            closes_rules, store_rules, on_closed, on_open, off_closed, off_open, note_rules,
            Keeps-load_auth, Closes-check_remote,
          )
          depth 24

    pub Closes-process_policy : Closes I J c.name (process_policy (suc f) cfg p c)
    unfolding process_policy count_update
    Closes-process_policy =
        search
          (
            closes_rules, store_rules, on_closed, on_open, off_closed, off_open, note_rules,
            Closes-check_container,
          )
          depth 24
