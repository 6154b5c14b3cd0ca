-- ===== src/Updater/Watcher/Bounds/Calls.antt =====
-- internal/docker, internal/updater/rollback.go: pulling, replacing and waiting stay within the policy.
use openwatch.Base.{ℕ, zero, suc, ◌≡◌, Option, [], ◌∷◌, All}
use openwatch.Base.Text.{Text}
use openwatch.Base.Assoc.{Assoc}
use openwatch.Base.Numbers.{ℤ}
use openwatch.Base.Errors.{Error}
use openwatch.Docker.{ContainerConfig, HostConfig, EndpointSettings, Container}
use openwatch.Docker.Containers.{
  image_config, remove_container, stop_and_remove, connect_and_start, replace, recreate,
}
use openwatch.Docker.Image.{pull_with, encode, pull_image}
use openwatch.Docker.Reads.{Keeps-inspect_container, Keeps-inspect_base, Keeps-inspect_image}
use openwatch.State.{Time}
use openwatch.Updater.Health.{
  pause, poll, wait_for_healthy, on_verdict, verdict, Verdict, settled, waiting,
}
use openwatch.Updater.Policy.{Policy}
use openwatch.World.{AuthConfig, M, clock}
use openwatch.World.Keeps.{
  Keeps-env, Keeps-pure, Keeps-bind, Keeps-if_ok, Keeps-if, Keeps-fault, Keeps-if_some,
}
use openwatch.World.Makes.{Makes, Makes-ask, makes_rules}
use openwatch.World.Reads.{AllowsReads, looks}
use openwatch.Updater.Watcher.Bounds.{
  IsDetached, IsImageOf, IsWithin, IsClean, new_host_config-IsDetached, clean_networks-IsClean,
  extra_networks-IsClean, new_config_of-image,
}

module _ (p : Policy) (c : Container) where
  pub IsWithin-reads : AllowsReads (IsWithin p c)
  unfolding IsWithin
  IsWithin-reads = record {
    http = λ r. tt;
    home_dir = tt;
    read_file = λ p. tt;
    run_helper = λ h s. tt;
    aws_config = tt;
    ecr_token = tt;
    hostname = tt;
    list = λ b. tt;
    inspect = λ id. tt;
    image = λ id. tt;
  }

  pub on_clock : IsWithin p c clock
  unfolding IsWithin
  on_clock = tt

  pub Makes-pull_with : (encoded : Text) → Makes (IsWithin p c) (pull_with c.image encoded)
  unfolding pull_with IsWithin
  Makes-pull_with encoded = search (makes_rules) depth 12

  pub Makes-encode : (auth : AuthConfig) → Makes (IsWithin p c) (encode auth)
  unfolding encode
  Makes-encode auth = Keeps-env (λ env. env.encode_auth auth)

  pub Makes-pull_image : (auth : Option AuthConfig) → Makes (IsWithin p c) (pull_image c.image auth)
  unfolding pull_image
  Makes-pull_image auth =
      Keeps-if_some auth _ _ (Makes-pull_with [])
        (λ a. search (makes_rules, Makes-encode, Makes-pull_with) depth 12)

  pub Makes-remove_container : (id : Text) → Makes (IsWithin p c) (remove_container id)
  unfolding remove_container IsWithin
  Makes-remove_container id = search (makes_rules) depth 12

  pub Makes-stop_and_remove :
      (id : Text) → Makes (IsWithin p c) (stop_and_remove id p.stop_timeout_sec)
  unfolding stop_and_remove IsWithin
  Makes-stop_and_remove id =
      search (makes_rules, Makes-remove_container, Keeps-inspect_base (looks IsWithin-reads)) depth
        12

  pub Makes-connect_and_start :
      (name id : Text) (networks : Assoc EndpointSettings)
      → All IsClean networks
      → Makes (IsWithin p c) (connect_and_start name id networks)
  unfolding connect_and_start IsWithin IsClean
  Makes-connect_and_start name id [] h = search (makes_rules) depth 12
  Makes-connect_and_start name id ((net, ep) ∷ networks) (clean, h) =
      Keeps-bind _ _ (Makes-ask _ _ clean) (λ connected.
        Keeps-if_ok connected _ _ (λ e. Keeps-pure _)
          (λ _. Makes-connect_and_start name id networks h))

  pub Makes-replace :
      (c' : Container) (config : ContainerConfig) (host : HostConfig)
      (networks : Assoc EndpointSettings)
      → c'.name ≡ c.name
      → IsImageOf p c config.image
      → IsDetached host
      → All IsClean networks
      → Makes (IsWithin p c) (replace c' config host networks p.stop_timeout_sec)
  unfolding replace IsWithin
  Makes-replace c' config host networks hc hi hh hn =
      Keeps-bind _ _ (Makes-stop_and_remove c'.id) (λ removed.
        Keeps-if_ok removed _ _ (λ e. Keeps-pure _)
          (λ _. Keeps-bind _ _ (Makes-ask _ _ (hc, hi, hh)) (λ created.
            Keeps-if_ok created _ _ (λ e. Keeps-pure _)
              (λ id. Makes-connect_and_start c'.name id _ (extra_networks-IsClean networks hn)))))

  pub Makes-recreate :
      (c' : Container) (image : Text)
      → c'.name ≡ c.name
      → IsImageOf p c image
      → Makes (IsWithin p c) (recreate c' image p.stop_timeout_sec)
  unfolding recreate
  Makes-recreate c' image hc hi = Keeps-if_some c'.inspect.config _ _ (Keeps-pure _) (λ config.
      Keeps-if _ _ _ Keeps-fault (
        Keeps-if_some c'.inspect.host_config _ _ (Keeps-pure _) (λ host.
          Keeps-bind _ _ (Keeps-inspect_image (looks IsWithin-reads) c'.image_id) (λ old.
            Keeps-bind _ _ (Keeps-inspect_image (looks IsWithin-reads) image) (λ new.
              Makes-replace c' _ _ _ hc
                (rw (new_config_of-image config image (image_config old) (image_config new)) hi)
                (new_host_config-IsDetached host) (clean_networks-IsClean _))))))

  pub Makes-pause :
      (id : Text) (timeout : ℤ) (deadline : Time) (again : M (Option Error))
      → Makes (IsWithin p c) again
      → Makes (IsWithin p c) (pause id timeout deadline again)
  unfolding pause IsWithin
  Makes-pause id timeout deadline again h = search (makes_rules) depth 12

  pub Makes-on_verdict :
      {A : Type 0}
      → (v : Verdict) (go : Option Error → M A) (wait : M A)
      → ((r : Option Error) → Makes (IsWithin p c) (go r))
      → Makes (IsWithin p c) wait
      → Makes (IsWithin p c) (on_verdict v go wait)
  Makes-on_verdict (settled r) go wait hg hw = hg r
  Makes-on_verdict waiting go wait hg hw = hw

  pub Makes-poll :
      (fuel : ℕ) (id : Text) (timeout : ℤ) (deadline : Time)
      → Makes (IsWithin p c) (poll fuel id timeout deadline)
  unfolding poll
  Makes-poll zero id timeout deadline = search (makes_rules) depth 4
  Makes-poll (suc fuel) id timeout deadline =
      Keeps-bind _ _ (Keeps-inspect_base (looks IsWithin-reads) id) (λ answer.
        Keeps-if_ok answer _ _ (λ e. Keeps-pure _)
          (λ inspect.
            Makes-on_verdict (verdict id inspect.state) _ _ (λ r. Keeps-pure r)
              (Makes-pause id timeout deadline _ (Makes-poll fuel id timeout deadline))))

  pub Makes-wait_for_healthy :
      (fuel : ℕ) (id : Text) (timeout : ℤ) → Makes (IsWithin p c) (wait_for_healthy fuel id timeout)
  unfolding wait_for_healthy
  Makes-wait_for_healthy fuel id timeout =
      search (makes_rules, Keeps-inspect_container (looks IsWithin-reads), on_clock, Makes-poll)
        depth 12
