-- ===== src/Updater/Watcher/Sound.antt =====
-- internal/updater, internal/docker, internal/registry: what a container's processing calls on, by
-- whether it can panic.
pub mod Filled
pub mod Laws
use openwatch.Base.{
  ◌≡◌, ℕ, zero, suc, none, Option, List, [], ◌∷◌, if◌then◌else◌, Bool, true, false,
}
use openwatch.Base.Text.{Text, codes, is_empty, has_suffix}
use openwatch.Base.Numbers.{ℤ}
use openwatch.Base.Errors.{Error, Result, ok, err}
use openwatch.Docker.{Container}
use openwatch.Docker.Containers.{inspect_container, inspect_base, is_self, recreate}
use openwatch.Docker.Image.{inspect_image, pull_with, encode, pull_image, remove_image}
use openwatch.Docker.Replacement.Laws.{recreate-Recreated, inspect_base-Gives}
use openwatch.Registry.{DockerConfig, DockerConfigAuth}
use openwatch.Registry.Auth
use openwatch.State.{Time}
use openwatch.Updater.Health.{
  pause, poll, wait_for_healthy, on_verdict, verdict, Verdict, settled, waiting,
}
use openwatch.Updater.Rollback.{perform_rollback, rollback_target}
use openwatch.World.{AuthConfig, Env, World, Outcome, M}
use openwatch.World.Sound.{
  Sound-if, IsSound, Sound, Sound-pure, Sound-ask, Sound-bind, Sound-if_ok, Sound-if_some,
  Sound-exhausted, Gives-IsSound, sound_rules,
}

pub Sound-is_self : (c : Container) → Sound (is_self c)
unfolding is_self
Sound-is_self c = search (sound_rules) depth 12

pub Sound-pull_image : (ref : Text) (auth : Option AuthConfig) → Sound (pull_image ref auth)
unfolding pull_image pull_with encode
Sound-pull_image ref auth = search (sound_rules) depth 24

pub Sound-remove_image : (id : Text) → Sound (remove_image id)
unfolding remove_image
Sound-remove_image id = search (sound_rules) depth 12

pub Sound-recreate :
    (c : Container) (image : Text) (t : ℤ) → c.inspect.has_base ≡ true → Sound (recreate c image t)
Sound-recreate c image t h = record {
  at = λ env b w.
      Gives-IsSound _ (recreate c image t env w) (recreate-Recreated c image t env w b h);
}

pub Sound-perform_rollback :
    (c : Container) (image id : Text) (t : ℤ)
    → c.inspect.has_base ≡ true
    → Sound (perform_rollback c image id t)
unfolding perform_rollback
Sound-perform_rollback c image id t h = Sound-if _ _ _ (Sound-pure _) (
    Sound-bind _ _ (Sound-recreate (rollback_target c id) image t h)
      (λ r. Sound-if_some r.1 _ _ (Sound-pure none) (λ e. Sound-pure _)))

Sound-on_verdict :
    {A : Type 0} (v : Verdict) (go : Option Error → M A) (wait : M A)
    → ((r : Option Error) → Sound (go r))
    → Sound wait
    → Sound (on_verdict v go wait)
Sound-on_verdict (settled r) go wait hg hw = hg r
Sound-on_verdict waiting go wait hg hw = hw

Sound-pause :
    (id : Text) (t : ℤ) (deadline : Time) (again : M (Option Error))
    → Sound again
    → Sound (pause id t deadline again)
unfolding pause
Sound-pause id t deadline again h = search (sound_rules) depth 12

Sound-inspect_base : (id : Text) → Sound (inspect_base id)
Sound-inspect_base id = record {
  at = λ env b w. Gives-IsSound _ (inspect_base id env w) (inspect_base-Gives id env w b);
}

Sound-poll : (fuel : ℕ) (id : Text) (t : ℤ) (deadline : Time) → Sound (poll fuel id t deadline)
unfolding poll inspect_container
Sound-poll zero id t deadline = Sound-exhausted
Sound-poll (suc fuel) id t deadline = Sound-bind _ _ (Sound-inspect_base id) (λ answer.
    Sound-if_ok answer _ _ (λ e. Sound-pure _)
      (λ inspect.
        Sound-on_verdict (verdict id inspect.state) _ _ (λ r. Sound-pure r)
          (Sound-pause id t deadline _ (Sound-poll fuel id t deadline))))

pub Sound-wait_for_healthy : (fuel : ℕ) (id : Text) (t : ℤ) → Sound (wait_for_healthy fuel id t)
unfolding wait_for_healthy inspect_container
Sound-wait_for_healthy fuel id t = search (sound_rules, Sound-poll) depth 12

Sound-exec_credential_helper :
    (helper server_url : Text) → Sound (Auth.exec_credential_helper helper server_url)
unfolding Auth.exec_credential_helper Auth.decode_credential_output
Sound-exec_credential_helper helper server_url = search (sound_rules) depth 12

Sound-ask_store : (store : Text) (hosts : List Text) → Sound (Auth.ask_store store hosts)
unfolding Auth.ask_store
Sound-ask_store store [] = Sound-pure none
Sound-ask_store store (host ∷ hosts) =
    Sound-bind _ _ (Sound-exec_credential_helper store host)
      (λ answer. Sound-if_some _ _ _ (Sound-ask_store store hosts) (λ auth. Sound-pure _))

Sound-load_ecr_auth : (host : Text) → Sound (Auth.load_ecr_auth host)
unfolding Auth.load_ecr_auth Auth.decode_basic_auth
Sound-load_ecr_auth host = search (sound_rules) depth 12

Sound-entry_credentials : (entry : DockerConfigAuth) → Sound (Auth.entry_credentials entry)
unfolding Auth.entry_credentials Auth.decode_basic_auth
Sound-entry_credentials entry = search (sound_rules) depth 12

Sound-plain_auth : (cfg : DockerConfig) (host : Text) → Sound (Auth.plain_auth cfg host)
unfolding Auth.plain_auth Auth.find_auth
Sound-plain_auth cfg host = search (sound_rules, Sound-entry_credentials) depth 12

Sound-store_auth : (cfg : DockerConfig) (host : Text) → Sound (Auth.store_auth cfg host)
unfolding Auth.store_auth
Sound-store_auth cfg host = search (sound_rules, Sound-ask_store, Sound-plain_auth) depth 12

Sound-config_auth : (cfg : DockerConfig) (host : Text) → Sound (Auth.config_auth cfg host)
unfolding Auth.config_auth
Sound-config_auth cfg host =
    search (sound_rules, Sound-exec_credential_helper, Sound-store_auth) depth 12

IsSound-if :
    {A : Type 0} (b : Bool) (p q : Outcome A × World)
    → IsSound p.0
    → IsSound q.0
    → IsSound (if b then p else q).0
IsSound-if true p q hp hq = hp
IsSound-if false p q hp hq = hq

Sound-resolve_docker_config_path :
    (override : Text) → Sound (Auth.resolve_docker_config_path override)
unfolding Auth.resolve_docker_config_path
Sound-resolve_docker_config_path override = record {
  at = λ env b w.
      IsSound-if (is_empty override) _ _
        ((Sound-bind _ _ (Sound-ask _ _)
            (λ home. Sound-if_ok home _ _ (λ x. Sound-pure _) (λ dir. Sound-pure _))).at
          env b w)
        (IsSound-if (has_suffix (codes "config.json") override) _ _ ((Sound-pure _).at env b w)
          ((Sound-pure _).at env b w));
}

Sound-load_docker_config_auth :
    (config_path host : Text) → Sound (Auth.load_docker_config_auth config_path host)
unfolding Auth.load_docker_config_auth Auth.decode_config
Sound-load_docker_config_auth config_path host =
    search (sound_rules, Sound-resolve_docker_config_path, Sound-config_auth) depth 16

pub Sound-load_auth :
    (config_path registry_host env_user env_password : Text)
    → Sound (Auth.load_auth config_path registry_host env_user env_password)
unfolding Auth.load_auth
Sound-load_auth config_path registry_host env_user env_password =
    search (sound_rules, Sound-load_ecr_auth, Sound-load_docker_config_auth) depth 16
