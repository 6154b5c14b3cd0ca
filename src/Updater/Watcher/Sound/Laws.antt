-- ===== src/Updater/Watcher/Sound/Laws.antt =====
-- internal/updater/watcher.go: the steps of a container's processing, by whether they can panic;
-- `localIDs[0]`, `remoteIDs[0]` and an inspection without a base could.
use openwatch.Base.{◌≡◌, true, ℕ, ◌≢◌, Option, List, [], ◌∷◌}
use openwatch.Base.Text.{Text}
use openwatch.Base.Errors.{Error, Result, ok, err}
use openwatch.Config.{Config}
use openwatch.Docker.{Container}
use openwatch.Docker.Image.{local_image_identifiers}
use openwatch.Registry.Digest.{head_manifest_digest}
use openwatch.Registry.Digest.Bounds.{lookups-le}
use openwatch.Registry.Resolver.{Reference}
use openwatch.State.{ContainerStatus, Time, up_to_date}
use openwatch.Updater.Marks.{
  note_checked, note_updating, note_updated, note_failed, count_update, count_rollback,
}
use openwatch.Updater.Policy.{Policy, resolve_policy}
use openwatch.Updater.Rollback.{rollback_failure, attempt_rollback, handle_health_failure}
use openwatch.Updater.Watcher.{
  first_id, finish_update, conclude, update_failure, replace_container, apply_update, announce,
  compare_identifiers, check_remote, check_container, auth_or_anonymous, process_policy,
  process_container,
}
use openwatch.Updater.Watcher.Sound.{
  Sound-is_self, Sound-pull_image, Sound-remove_image, Sound-recreate, Sound-perform_rollback,
  Sound-wait_for_healthy, Sound-load_auth,
}
use openwatch.World.{AuthConfig, Env, World, panic, if_ok}
use openwatch.World.Sound.{
  HasBases, IsSound-ne, Sound, Sound-pure, Sound-bind, Sound-after, Sound-if, Gives-IsSound,
  sound_rules,
}
use openwatch.Updater.Watcher.Sound.Filled.{
  IsFilled, Filled, local_image_identifiers-IsFilled, fetch_remote_identifiers-IsFilled,
}

Sound-head_manifest_digest :
    (ref : Reference) (auth : Option AuthConfig) → Sound (head_manifest_digest ref auth)
Sound-head_manifest_digest ref auth = record {
  at = λ env b w.
      Gives-IsSound _ (head_manifest_digest ref auth env w) (lookups-le ref auth env w).0;
}

Sound-first_id : (ids : List Text) → IsFilled (ok ids) → Sound (first_id ids)
unfolding first_id IsFilled
Sound-first_id [] h = elim h [ ]
Sound-first_id (id ∷ ids) h = Sound-pure id

module _ (c : Container) (based : c.inspect.has_base ≡ true) where
  Sound-note_checked : (s : ContainerStatus) → Sound (note_checked c s)
  unfolding note_checked
  Sound-note_checked s = search (sound_rules) depth 8

  Sound-note_failed : Sound (note_failed c)
  unfolding note_failed count_update
  Sound-note_failed = search (sound_rules, Sound-note_checked) depth 8

  Sound-announce : Sound (announce c)
  unfolding announce count_update
  Sound-announce = search (sound_rules, Sound-note_checked) depth 12

  Sound-update_failure : (e : Error) → Sound (update_failure c e)
  unfolding update_failure
  Sound-update_failure e = search (sound_rules, Sound-note_failed) depth 12

  Sound-local_ids : (ref : Text) → Sound (local_image_identifiers ref)
  Sound-local_ids ref = record {
    at = λ env b w.
        Gives-IsSound Filled (local_image_identifiers ref env w)
          (local_image_identifiers-IsFilled ref env w);
  }

  Sound-finish_update : (p : Policy) (started : Time) → Sound (finish_update p c started)
  unfolding finish_update count_update note_updated
  Sound-finish_update p started = search (sound_rules, Sound-local_ids, Sound-remove_image) depth 24

  Sound-rollback_failure : (details : Text) → Sound (rollback_failure c details)
  unfolding rollback_failure count_rollback
  Sound-rollback_failure details = search (sound_rules, Sound-note_checked) depth 16

  Sound-attempt_rollback : (p : Policy) (id image : Text) → Sound (attempt_rollback p c id image)
  unfolding attempt_rollback count_rollback
  Sound-attempt_rollback p id image =
      search
        (sound_rules, based, Sound-perform_rollback, Sound-note_checked, Sound-rollback_failure)
        depth 16

  Sound-handle_health_failure :
      (p : Policy) (id image : Text) → Sound (handle_health_failure p c id image)
  unfolding handle_health_failure count_update
  Sound-handle_health_failure p id image =
      search (sound_rules, Sound-note_checked, Sound-rollback_failure, Sound-attempt_rollback) depth
        16

  Sound-conclude :
      (p : Policy) (id : Text) (started : Time) (health : Option Error)
      → Sound (conclude p c id started health)
  unfolding conclude
  Sound-conclude p id started health =
      search (sound_rules, Sound-finish_update, Sound-handle_health_failure) depth 12

  module _ (fuel : ℕ) (cfg : Config) (p : Policy) where
    Sound-replace_container : (started : Time) → Sound (replace_container fuel cfg p c started)
    unfolding replace_container
    Sound-replace_container started =
        search
          (
            sound_rules, based, Sound-recreate, Sound-wait_for_healthy, Sound-update_failure,
            Sound-conclude,
          )
          depth 16

    Sound-apply_update : (auth : Option AuthConfig) → Sound (apply_update fuel cfg p c auth)
    unfolding apply_update note_updating
    Sound-apply_update auth =
        search (sound_rules, Sound-pull_image, Sound-update_failure, Sound-replace_container) depth
          16

    Sound-compare_identifiers :
        (auth : Option AuthConfig) (local_ids remote_ids : List Text)
        → IsFilled (ok local_ids)
        → IsFilled (ok remote_ids)
        → Sound (compare_identifiers fuel cfg p c auth local_ids remote_ids)
    unfolding compare_identifiers
    Sound-compare_identifiers auth local_ids remote_ids hl hr =
        search (sound_rules, Sound-first_id, Sound-note_checked, Sound-announce, Sound-apply_update)
          depth 16

    Sound-compared :
        (auth : Option AuthConfig) (local_ids : List Text) (remote : Result (List Text))
        → IsFilled (ok local_ids)
        → IsFilled remote
        → Sound
            (if_ok remote (λ e. note_failed c) (compare_identifiers fuel cfg p c auth local_ids))
    unfolding if_ok
    Sound-compared auth local_ids (err e) hl hr = Sound-note_failed
    Sound-compared auth local_ids (ok ids) hl hr =
        Sound-compare_identifiers auth local_ids ids hl hr

    Sound-check_remote :
        (ref : Reference) (auth : Option AuthConfig) (local_ids : List Text)
        → IsFilled (ok local_ids)
        → Sound (check_remote fuel cfg p c ref auth local_ids)
    unfolding check_remote
    Sound-check_remote ref auth local_ids h =
        Sound-bind _ _ (Sound-head_manifest_digest ref auth) (λ head.
          Sound-if _ _ _ (Sound-note_checked up_to_date) (
            Sound-after IsFilled _ _ (fetch_remote_identifiers-IsFilled ref auth)
              (λ remote k. Sound-compared auth local_ids remote h k)))

    Sound-checked :
        (ref : Reference) (auth : Option AuthConfig) (local : Result (List Text))
        → IsFilled local
        → Sound (if_ok local (λ e. note_failed c) (check_remote fuel cfg p c ref auth))
    unfolding if_ok
    Sound-checked ref auth (err e) h = Sound-note_failed
    Sound-checked ref auth (ok ids) h = Sound-check_remote ref auth ids h

    Sound-check_container : (ref : Reference) → Sound (check_container fuel cfg p c ref)
    unfolding check_container
    Sound-check_container ref =
        Sound-bind _ _
          (Sound-load_auth cfg.docker_config ref.registry cfg.registry_user cfg.registry_password)
          (λ loaded.
            Sound-after IsFilled _ _ (local_image_identifiers-IsFilled c.image_id)
              (λ local h. Sound-checked ref (auth_or_anonymous loaded) local h))

    Sound-process_policy : Sound (process_policy fuel cfg p c)
    unfolding process_policy count_update
    Sound-process_policy =
        search (sound_rules, Sound-note_checked, Sound-note_failed, Sound-check_container) depth 16

-- Processing a container whose inspection has a base does not panic, whatever the world answers,
-- where inspections are answered with a base: in particular the first local and the first remote
-- identifier are read only where there is one.
pub process_container-IsSound :
    (fuel : ℕ) (cfg : Config) (c : Container) (env : Env) (w : World)
    → HasBases env
    → c.inspect.has_base ≡ true
    → (process_container fuel cfg c env w).0 ≢ panic
unfolding process_container
process_container-IsSound fuel cfg c env w b based = IsSound-ne _ (h.at env b w)
  where
    h : Sound (process_container fuel cfg c)
    h = Sound-bind _ _ (Sound-is_self c) (λ self.
        Sound-if self _ _ (Sound-pure tt)
          (Sound-process_policy c based fuel cfg (resolve_policy cfg c)))
