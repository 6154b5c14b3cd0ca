-- ===== src/Updater/Watcher/Bounds/Laws.antt =====
-- internal/updater: processing a container stays within its policy.
use openwatch.Base.{
  ℕ, ◌≡◌, refl, true, false, Option, [], inl, inr, All, if◌then◌else◌, not-true, not-false,
  and_true, not, ◌&&◌,
}
use openwatch.Base.Text.{Text, is_empty}
use openwatch.Base.Errors.{Error}
use openwatch.Config.{Config}
use openwatch.Docker.{Container}
use openwatch.Docker.Image.{remove_image}
use openwatch.Docker.Reads.{Keeps-local_image_identifiers}
use openwatch.State.{Time, unknown}
use openwatch.Updater.Marks.{note_updating, note_updated, count_update, count_rollback}
use openwatch.Updater.Policy.{Policy, resolve_policy}
use openwatch.Updater.Rollback.{
  rollback_target, perform_rollback, rollback_failure, attempt_rollback, handle_health_failure,
}
use openwatch.Updater.Watcher.{
  finish_update, conclude, update_failure, replace_container, apply_update, announce,
  process_container,
}
use openwatch.Updater.Watcher.Reads.{
  Makes-note_checked, Makes-note_failed, Makes-process_policy, Makes-process_container,
}
use openwatch.World.{send, AuthConfig, Env, World, Event, pure, ◌>>=◌}
use openwatch.World.Reads.{looks}
use openwatch.World.Keeps.{Keeps-pure, Keeps-bind, Keeps-if, Keeps-test}
use openwatch.World.Makes.{Makes-update_metrics, Makes, Makes-ask, makes_rules, trace-Makes}
use openwatch.Updater.Watcher.Bounds.{is_rollback, IsImageOf, IsWithin}
use openwatch.Updater.Watcher.Bounds.Calls.{
  IsWithin-reads, on_clock, Makes-pull_image, Makes-recreate, Makes-wait_for_healthy,
}

module _ (p : Policy) (c : Container) where
  Makes-send :
      (e : Event) (details : Text)
      → (is_rollback e ≡ true → p.rollback ≡ true)
      → Makes (IsWithin p c) (send e c.name details)
  unfolding send IsWithin
  Makes-send e details h = Makes-ask _ _ (refl, h)

  Makes-news :
      (e : Event) (details : Text)
      → is_rollback e ≡ false
      → Makes (IsWithin p c) (send e c.name details)
  Makes-news e details h = Makes-send e details (λ h'. cc)

  Makes-rollback_failure :
      (details : Text) → p.rollback ≡ true → Makes (IsWithin p c) (rollback_failure c details)
  unfolding rollback_failure count_rollback
  Makes-rollback_failure details h =
      search (makes_rules, Makes-note_checked, (on_clock p c), Makes-send) depth 12

  Makes-perform_rollback :
      (new_id : Text)
      → p.rollback ≡ true
      → Makes (IsWithin p c) (perform_rollback c c.image_id new_id p.stop_timeout_sec)
  unfolding perform_rollback rollback_target IsImageOf
  Makes-perform_rollback new_id h = Keeps-if (is_empty c.image_id) _ _ (Keeps-pure _) (
      Keeps-bind _ _
        (Makes-recreate p c (record c { id = new_id; image_id = [] }) c.image_id refl
          (inr (h, refl)))
        (λ r. search (makes_rules) depth 8))

  Makes-attempt_rollback :
      (new_id : Text)
      → p.rollback ≡ true
      → Makes (IsWithin p c) (attempt_rollback p c new_id c.image_id)
  unfolding attempt_rollback count_rollback
  Makes-attempt_rollback new_id h =
      search
        (
          makes_rules,
          Makes-note_checked,
          (on_clock p c),
          Makes-send,
          Makes-perform_rollback,
          Makes-rollback_failure,
        )
        depth 12

  Makes-handle_health_failure :
      (new_id : Text) → Makes (IsWithin p c) (handle_health_failure p c new_id c.image_id)
  unfolding handle_health_failure count_update
  Makes-handle_health_failure new_id = Keeps-bind _ _ (Makes-update_metrics _) (λ _.
      Keeps-test (not p.rollback) _ _ (λ _. Makes-note_checked c unknown (on_clock p c))
        (λ e.
          Keeps-if (is_empty c.image_id) _ _ (Makes-rollback_failure _ (not-false p.rollback e))
            (Makes-attempt_rollback new_id (not-false p.rollback e))))

  Makes-remove_image :
      p.cleanup ≡ true
      → is_empty c.image_id ≡ false
      → Makes (IsWithin p c) (remove_image c.image_id)
  unfolding remove_image IsWithin
  Makes-remove_image h k =
      Keeps-bind _ _ (Makes-ask _ _ (h, refl, k)) (λ removed. search (makes_rules) depth 8)

  Makes-clean_up : Makes (IsWithin p c) (
      if p.cleanup && not (is_empty c.image_id)
      then remove_image c.image_id >>= (λ _. pure (tt {0}))
      else pure (tt {0}))
  Makes-clean_up =
      Keeps-test (p.cleanup && not (is_empty c.image_id)) _ _
        (λ e.
          let (cleanup, named) = and_true p.cleanup _ e in
          Keeps-bind _ _ (Makes-remove_image cleanup (not-true _ named)) (λ _. Keeps-pure tt))
        (λ e. Keeps-pure tt)

  Makes-finish_update : (started : Time) → Makes (IsWithin p c) (finish_update p c started)
  unfolding finish_update count_update note_updated
  Makes-finish_update started =
      search
        (
          makes_rules,
          (on_clock p c),
          Makes-news,
          Keeps-local_image_identifiers (looks (IsWithin-reads p c)),
          Makes-clean_up,
        )
        depth 16

  Makes-conclude :
      (new_id : Text) (started : Time) (health : Option Error)
      → Makes (IsWithin p c) (conclude p c new_id started health)
  unfolding conclude
  Makes-conclude new_id started health =
      search (makes_rules, Makes-finish_update, Makes-handle_health_failure) depth 12

  Makes-update_failure : (e : Error) → Makes (IsWithin p c) (update_failure c e)
  unfolding update_failure
  Makes-update_failure e =
      search (makes_rules, (on_clock p c), Makes-note_failed, Makes-news) depth 12

  Makes-replace_container :
      (fuel : ℕ) (cfg : Config) (started : Time)
      → Makes (IsWithin p c) (replace_container fuel cfg p c started)
  unfolding replace_container IsImageOf
  Makes-replace_container fuel cfg started =
      Keeps-bind _ _ (Makes-recreate p c c c.image refl (inl refl)) (λ r.
        search (makes_rules, Makes-wait_for_healthy p c, Makes-conclude, Makes-update_failure) depth
          12)

  Makes-apply_update :
      (fuel : ℕ) (cfg : Config) (auth : Option AuthConfig)
      → Makes (IsWithin p c) (apply_update fuel cfg p c auth)
  unfolding apply_update note_updating
  Makes-apply_update fuel cfg auth =
      search
        (
          makes_rules,
          (on_clock p c),
          Makes-news,
          Makes-pull_image p c,
          Makes-replace_container,
          Makes-update_failure,
        )
        depth 16

  Makes-announce : Makes (IsWithin p c) (announce c)
  unfolding announce count_update
  Makes-announce = search (makes_rules, (on_clock p c), Makes-note_checked, Makes-news) depth 12

-- Whatever the world answers, processing a container adds to a record of calls that are all within
-- the container's policy only such calls: an image is removed only with cleanup on, and then the
-- container's old image; only its image is pulled; stops use the policy's timeout; removals are
-- neither forced nor do they take volumes; what is created bears the container's name, its image
-- or for a rollback its old one, and no namespace of another container; connected endpoints carry
-- no state of the daemon; notifications are about the container, and those of a rollback need the
-- policy's rollback; pauses have the poll interval.
pub process_container-IsWithin :
    (fuel : ℕ) (cfg : Config) (c : Container) (env : Env) (w : World)
    → All (IsWithin (resolve_policy cfg c) c) w.trace
    → All (IsWithin (resolve_policy cfg c) c) (process_container fuel cfg c env w).1.trace
process_container-IsWithin fuel cfg c env w h =
    let p = resolve_policy cfg c in
    trace-Makes _
      (Makes-process_container (IsWithin-reads p c) (on_clock p c) fuel cfg c (
        Makes-process_policy (IsWithin-reads p c) (on_clock p c) fuel cfg p c
          (λ _. Makes-announce p c) (λ _ auth. Makes-apply_update p c fuel cfg auth)))
      env w h
