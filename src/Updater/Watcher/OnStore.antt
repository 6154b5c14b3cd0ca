-- ===== src/Updater/Watcher/OnStore.antt =====
-- internal/docker, internal/updater/rollback.go: what replaces and watches a container leaves the
-- state store alone.
use openwatch.Base.{ℕ, zero, suc, ◌*◌, ◌<◌, Option, List, [], ◌∷◌}
use openwatch.Base.Text.{Text}
use openwatch.Base.Assoc.{Assoc}
use openwatch.Base.Numbers.{ℤ}
use openwatch.Base.Errors.{Error}
use openwatch.Docker.{ContainerConfig, HostConfig, EndpointSettings, Container}
use openwatch.Docker.Containers.{
  remove_container, stop_and_remove, connect_and_start, replace, recreate,
}
use openwatch.Docker.Image.{pull_with, encode, pull_image, remove_image}
use openwatch.Docker.Reads.{Keeps-inspect_container, Keeps-inspect_base, Keeps-inspect_image}
use openwatch.Metrics.{Metrics}
use openwatch.State.{Time}
use openwatch.Updater.Health.{
  pause, poll, wait_for_healthy, on_verdict, verdict, Verdict, settled, waiting, budget,
  health_poll_interval,
}
use openwatch.Updater.Health.Laws.{SteadyClock, Returns, wait_for_healthy-Returns_or}
use openwatch.Updater.Rollback.{perform_rollback}
use openwatch.World.{
  Call, AuthConfig, Env, World, Event, Outcome, done, panic, stuck, M, exhausted, update_metrics,
  read_clock, send,
}
use openwatch.World.Keeps.{
  Leaves, Keeps, Admits, Keeps-pure, Keeps-env, Keeps-ask, Keeps-bind, Keeps-if_ok, Keeps-if_some,
  keeps_rules,
}
use openwatch.World.Reads.{Looks}

-- `I` is not about the calls made.
pub record OffTrace (I : World → Type 0) : Type 0 where
  pub at : (tr : List Call) (w : World) → I w → I (record w { trace = tr })

-- `I` is about the store alone.
pub record OnStore (I : World → Type 0) : Type 0 where
  pub at :
      (tr : List Call) (m : Option Metrics) (w : World)
      → I w
      → I (record w { trace = tr; metrics = m })

pub OnStore-OffTrace : {I : World → Type 0} → OnStore I → OffTrace I
OnStore-OffTrace o = record { at = λ tr w h. o.at tr w.metrics w h }

module _ {I : World → Type 0} (o : OffTrace I) where
  pub Admits-any : (c : Call) → Admits I c
  Admits-any c = record { at = λ w h. o.at (c ∷ w.trace) w h }

  pub looks_any : Looks I
  looks_any = record {
    http = λ r. Admits-any _;
    home_dir = Admits-any _;
    read_file = λ p. Admits-any _;
    run_helper = λ h s. Admits-any _;
    aws_config = Admits-any _;
    ecr_token = Admits-any _;
    hostname = Admits-any _;
    list = λ b. Admits-any _;
    inspect = λ id. Admits-any _;
    image = λ id. Admits-any _;
  }

pub Keeps-update_metrics :
    {E : Env → Type 0} {S : Type 0} {I : World → Type 0}
    → OnStore I
    → (f : Option Metrics → Option Metrics) → Keeps E S I (update_metrics f)
unfolding update_metrics Leaves
Keeps-update_metrics o f = record { at = λ env e w h. o.at w.trace _ w h }

module _ {E : Env → Type 0} {S : Type 0} {I : World → Type 0} (o : OffTrace I) where
  pub Keeps-send : (e : Event) (n d : Text) → Keeps E S I (send e n d)
  unfolding send
  Keeps-send e n d = Keeps-ask _ _ (Admits-any o _)

  pub Keeps-read_clock : Keeps E S I read_clock
  unfolding read_clock
  Keeps-read_clock = Keeps-ask _ _ (Admits-any o _)

  Keeps-pull_with : (ref encoded : Text) → Keeps E S I (pull_with ref encoded)
  unfolding pull_with
  Keeps-pull_with ref encoded = search (keeps_rules, Admits-any o) depth 12

  Keeps-encode : (auth : AuthConfig) → Keeps E S I (encode auth)
  unfolding encode
  Keeps-encode auth = Keeps-env (λ env. env.encode_auth auth)

  pub Keeps-pull_image : (ref : Text) (auth : Option AuthConfig) → Keeps E S I (pull_image ref auth)
  unfolding pull_image
  Keeps-pull_image ref auth =
      Keeps-if_some auth _ _ (Keeps-pull_with ref [])
        (λ a. search (keeps_rules, Keeps-encode, Keeps-pull_with) depth 12)

  pub Keeps-remove_image : (id : Text) → Keeps E S I (remove_image id)
  unfolding remove_image
  Keeps-remove_image id = search (keeps_rules, Admits-any o) depth 12

  Keeps-remove_container : (id : Text) → Keeps E S I (remove_container id)
  unfolding remove_container
  Keeps-remove_container id = search (keeps_rules, Admits-any o) depth 12

  Keeps-stop_and_remove : (id : Text) (t : ℤ) → Keeps E S I (stop_and_remove id t)
  unfolding stop_and_remove
  Keeps-stop_and_remove id t =
      search (keeps_rules, Admits-any o, Keeps-remove_container, Keeps-inspect_base, looks_any o)
        depth 12

  Keeps-connect_and_start :
      (name id : Text) (networks : Assoc EndpointSettings)
      → Keeps E S I (connect_and_start name id networks)
  unfolding connect_and_start
  Keeps-connect_and_start name id [] = search (keeps_rules, Admits-any o) depth 12
  Keeps-connect_and_start name id ((net, ep) ∷ networks) =
      Keeps-bind _ _ (Keeps-ask _ _ (Admits-any o _)) (λ connected.
        Keeps-if_ok connected _ _ (λ e. Keeps-pure _)
          (λ _. Keeps-connect_and_start name id networks))

  Keeps-replace :
      (c : Container) (config : ContainerConfig) (host : HostConfig)
      (networks : Assoc EndpointSettings) (t : ℤ)
      → Keeps E S I (replace c config host networks t)
  unfolding replace
  Keeps-replace c config host networks t =
      search (keeps_rules, Admits-any o, Keeps-stop_and_remove, Keeps-connect_and_start) depth 12

  pub Keeps-recreate : (c : Container) (image : Text) (t : ℤ) → Keeps E S I (recreate c image t)
  unfolding recreate
  Keeps-recreate c image t =
      search (keeps_rules, Keeps-inspect_image, looks_any o, Keeps-replace) depth 16

  pub Keeps-perform_rollback :
      (c : Container) (image id : Text) (t : ℤ) → Keeps E S I (perform_rollback c image id t)
  unfolding perform_rollback
  Keeps-perform_rollback c image id t = search (keeps_rules, Keeps-recreate) depth 12

-- A wait that returns has not run out of fuel.
returned :
    (I : World → Type 0) (p : Outcome (Option Error) × World)
    → Returns (Unit {0}) p.0
    → Leaves (Unit {0}) I p
    → Leaves ⊥ I p
unfolding Leaves Returns
returned I (done a, w) r h = h
returned I (panic, w) r h = h
returned I (stuck, w) r h = (r, h.1)

module _ {I : World → Type 0} (o : OffTrace I) where
  Keeps-pause :
      {E : Env → Type 0} {S : Type 0} (id : Text) (t : ℤ) (deadline : Time)
      (again : M (Option Error))
      → Keeps E S I again
      → Keeps E S I (pause id t deadline again)
  unfolding pause
  Keeps-pause id t deadline again h =
      search (keeps_rules, Keeps-read_clock, Admits-any o, o) depth 12

  Keeps-on_verdict :
      {E : Env → Type 0} {S : Type 0} {A : Type 0} (v : Verdict) (go : Option Error → M A)
      (wait : M A)
      → ((r : Option Error) → Keeps E S I (go r))
      → Keeps E S I wait
      → Keeps E S I (on_verdict v go wait)
  Keeps-on_verdict (settled r) go wait hg hw = hg r
  Keeps-on_verdict waiting go wait hg hw = hw

  Keeps-poll :
      (fuel : ℕ) (id : Text) (t : ℤ) (deadline : Time)
      → Keeps (λ env. Unit {0}) (Unit {0}) I (poll fuel id t deadline)
  unfolding poll exhausted Leaves
  Keeps-poll zero id t deadline = record { at = λ env e w h. (tt, h) }
  Keeps-poll (suc fuel) id t deadline =
      Keeps-bind _ _ (Keeps-inspect_base (looks_any o) id) (λ answer.
        Keeps-if_ok answer _ _ (λ e. Keeps-pure _)
          (λ inspect.
            Keeps-on_verdict (verdict id inspect.state) _ _ (λ r. Keeps-pure r)
              (Keeps-pause id t deadline _ (Keeps-poll fuel id t deadline))))

  pub Keeps-wait :
      (fuel : ℕ) (id : Text) (t : ℤ)
      → Keeps (λ env. Unit {0}) (Unit {0}) I (wait_for_healthy fuel id t)
  unfolding wait_for_healthy
  Keeps-wait fuel id t =
      search (keeps_rules, Keeps-inspect_container, looks_any, Keeps-read_clock, Keeps-poll, o)
        depth 12

  -- With enough fuel, in an environment with a steady clock.
  pub Keeps-wait_for_healthy :
      (f : ℕ) (id : Text) (t : ℤ)
      → ◌<◌ (budget t) (f * health_poll_interval)
      → Keeps SteadyClock ⊥ I (wait_for_healthy (suc f) id t)
  Keeps-wait_for_healthy f id t h = record {
    at = λ env steady w i.
        returned I _
          (wait_for_healthy-Returns_or (Unit {0}) env f id t w (λ tr inspect p k. tt) steady h)
          ((Keeps-wait (suc f) id t).at env tt w i);
  }
