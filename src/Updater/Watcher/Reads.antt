-- ===== src/Updater/Watcher/Reads.antt =====
-- internal/updater/watcher.go: what a container that is only watched, or not managed, costs.
use openwatch.Base.{ℕ, ◌≡◌, true, false, Option, List, [], ◌∷◌, All, if◌then◌else◌}
use openwatch.Base.Text.{Text}
use openwatch.Config.{Config}
use openwatch.Docker.{Container}
use openwatch.Docker.Containers.{is_self}
use openwatch.Docker.Reads.{Keeps-is_self, Keeps-local_image_identifiers}
use openwatch.Registry.Resolver.{Reference}
use openwatch.Registry.Reads.{
  Keeps-load_auth, Keeps-head_manifest_digest, Keeps-fetch_remote_identifiers,
}
use openwatch.State.{ContainerStatus}
use openwatch.Updater.Marks.{note_checked, note_failed, count_update}
use openwatch.Updater.Policy.{Policy, resolve_policy}
use openwatch.Updater.Watcher.{
  first_id, announce, apply_update, compare_identifiers, check_remote, check_container,
  process_policy, process_container,
}
use openwatch.World.{Call, AuthConfig, Env, World, clock, notify, update_available}
use openwatch.World.Keeps.{Keeps-pure, Keeps-bind, Keeps-if, Keeps-test}
use openwatch.World.Makes.{Makes, makes_rules, trace-Makes}
use openwatch.World.Reads.{AllowsReads, looks}

-- Looking, reading the clock, and telling of an available update.
unfoldable pub IsHarmless : Call → Type 0
IsHarmless (Call.container_list b) = Unit {0}
IsHarmless (Call.container_inspect id) = Unit {0}
IsHarmless (Call.image_inspect id) = Unit {0}
IsHarmless (Call.http_request r) = Unit {0}
IsHarmless (notify e name details) = e ≡ update_available
IsHarmless clock = Unit {0}
IsHarmless Call.hostname = Unit {0}
IsHarmless Call.home_dir = Unit {0}
IsHarmless (Call.read_file p) = Unit {0}
IsHarmless (Call.run_helper h s) = Unit {0}
IsHarmless Call.aws_config = Unit {0}
IsHarmless Call.ecr_token = Unit {0}
IsHarmless _ = ⊥

pub IsHarmless-reads : AllowsReads IsHarmless
unfolding IsHarmless
IsHarmless-reads = record {
  http = λ r. tt;
  home_dir = tt;
  read_file = λ p. tt;
  run_helper = λ h s. tt;
  aws_config = tt;
  ecr_token = tt;
  hostname = tt;
  list = λ b. tt;
  inspect = λ id. tt;
  image = λ id. tt;
}

module _ {Q : Call → Type 0} where
  pub Makes-note_checked :
      (c : Container) (s : ContainerStatus) → Q clock → Makes Q (note_checked c s)
  unfolding note_checked
  Makes-note_checked c s h = search (makes_rules) depth 8

  pub Makes-note_failed : (c : Container) → Q clock → Makes Q (note_failed c)
  unfolding note_failed count_update
  Makes-note_failed c h = search (makes_rules, Makes-note_checked) depth 8

pub Makes-first_id : {Q : Call → Type 0} → (ids : List Text) → Makes Q (first_id ids)
unfolding first_id
Makes-first_id [] = search (makes_rules) depth 4
Makes-first_id (id ∷ ids) = search (makes_rules) depth 4

-- Processing makes the calls of looking, and those of the branch that the policy selects.
module _ {Q : Call → Type 0} (reads : AllowsReads Q) (on_clock : Q clock) where
  module _ (fuel : ℕ) (cfg : Config) (policy : Policy) (c : Container)
      (announced : policy.notify_only ≡ true → Makes Q (announce c))
      (applied : policy.notify_only ≡ false
        → (auth : Option AuthConfig) → Makes Q (apply_update fuel cfg policy c auth)) where
    Makes-chosen :
        (auth : Option AuthConfig)
        → Makes Q (if policy.notify_only then announce c else apply_update fuel cfg policy c auth)
    Makes-chosen auth = Keeps-test policy.notify_only _ _ announced (λ e. applied e auth)

    Makes-compare_identifiers :
        (auth : Option AuthConfig) (local_ids remote_ids : List Text)
        → Makes Q (compare_identifiers fuel cfg policy c auth local_ids remote_ids)
    unfolding compare_identifiers
    Makes-compare_identifiers auth local_ids remote_ids =
        search (makes_rules, Makes-first_id, Makes-note_checked, Makes-chosen) depth 12

    Makes-check_remote :
        (ref : Reference) (auth : Option AuthConfig) (local_ids : List Text)
        → Makes Q (check_remote fuel cfg policy c ref auth local_ids)
    unfolding check_remote
    Makes-check_remote ref auth local_ids =
        search
          (
            makes_rules,
            Makes-note_checked,
            Makes-note_failed,
            Makes-compare_identifiers,
            Keeps-head_manifest_digest (looks reads),
            Keeps-fetch_remote_identifiers (looks reads),
          )
          depth 12

    Makes-check_container : (ref : Reference) → Makes Q (check_container fuel cfg policy c ref)
    unfolding check_container
    Makes-check_container ref =
        search
          (
            makes_rules,
            Makes-note_failed,
            Makes-check_remote,
            Keeps-load_auth (looks reads),
            Keeps-local_image_identifiers (looks reads),
          )
          depth 12

    pub Makes-process_policy : Makes Q (process_policy fuel cfg policy c)
    unfolding process_policy count_update
    Makes-process_policy =
        search (makes_rules, Makes-note_checked, Makes-note_failed, Makes-check_container) depth 12

  pub Makes-process_container :
      (fuel : ℕ) (cfg : Config) (c : Container)
      → Makes Q (process_policy fuel cfg (resolve_policy cfg c) c)
      → Makes Q (process_container fuel cfg c)
  unfolding process_container
  Makes-process_container fuel cfg c h =
      Keeps-bind _ _ (Keeps-is_self (looks reads) c) (λ self. Keeps-if self _ _ (Keeps-pure tt) h)

pub IsHarmless-announce : (c : Container) → Makes IsHarmless (announce c)
unfolding announce count_update IsHarmless
IsHarmless-announce c = search (makes_rules, Makes-note_checked) depth 12

-- Processing a container whose policy says notify_only adds, to a record of calls that has no
-- others, no calls but looking (list, inspect, registry requests, credentials, files, the host
-- name), the clock, and notifications of an available update, whatever the world answers.
pub process_container-notify_only :
    (fuel : ℕ) (cfg : Config) (c : Container) (env : Env) (w : World)
    → (resolve_policy cfg c).notify_only ≡ true
    → All IsHarmless w.trace
    → All IsHarmless (process_container fuel cfg c env w).1.trace
unfolding IsHarmless
process_container-notify_only fuel cfg c env w e h =
    trace-Makes _
      (Makes-process_container IsHarmless-reads tt fuel cfg c (
        Makes-process_policy IsHarmless-reads tt fuel cfg _ c (λ _. IsHarmless-announce c)
          (λ e' auth. cc)))
      env w h

-- What a container that is not managed costs: the host's name and the clock.
pub IsIdle : Call → Type 0
IsIdle clock = Unit {0}
IsIdle Call.hostname = Unit {0}
IsIdle _ = ⊥

IsIdle-is_self : (c : Container) → Makes IsIdle (is_self c)
unfolding is_self IsIdle
IsIdle-is_self c = search (makes_rules) depth 12

-- Processing a container whose policy skips it adds, to a record of calls that has no others, no
-- calls but the host name and the clock.
pub process_container-skip :
    (fuel : ℕ) (cfg : Config) (c : Container) (env : Env) (w : World)
    → (resolve_policy cfg c).skip ≡ true
    → All IsIdle w.trace
    → All IsIdle (process_container fuel cfg c env w).1.trace
unfolding process_container process_policy count_update IsIdle
process_container-skip fuel cfg c env w e h =
    trace-Makes _
      (Keeps-bind _ _ (IsIdle-is_self c) (λ self. Keeps-if self _ _ (Keeps-pure tt) (
        Keeps-test (resolve_policy cfg c).skip _ _
          (λ e'. search (makes_rules, Makes-note_checked) depth 12) (λ e'. cc))))
      env w h
