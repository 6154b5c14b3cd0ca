-- ===== src/Docker/Replacement.antt =====
-- internal/docker/container.go: what becomes of a container that is replaced, by what the daemon
-- answers.
pub mod Laws
use openwatch.Base.{◌≡◌, ◌⊎◌, Bool, true, false, Option, none, some, List, [], ◌∷◌}
use openwatch.Base.Text.{Text, codes}
use openwatch.Base.Assoc.{Assoc}
use openwatch.Base.Numbers.{ℤ}
use openwatch.Base.Errors.{Error, Result, ok, err}
use openwatch.Docker.{ContainerConfig, HostConfig, EndpointSettings, Container}
use openwatch.Docker.Containers.{
  still_running, first_network, extra_networks, new_config_of, image_config, new_host_config,
  clean_networks,
}
use openwatch.World.{Call, Env}

-- The daemon is asked to remove the container, without force and without its volumes.
pub data Erased (env : Env) (id : Text) (tr : List Call)
    : Result (Unit {0}) → List Call → Type 0 where
  erased :
      env.container_remove tr id ≡ ok tt
      → Erased env id tr (ok tt) (Call.container_remove id false false ∷ tr)
  unerased :
      (e e' : Error)
      → env.container_remove tr id ≡ err e
      → Erased env id tr (err e') (Call.container_remove id false false ∷ tr)

module _ (env : Env) (id : Text) (timeout : ℤ) (tr : List Call) where
  -- The record once the container has been told to stop and looked at.
  abbrev pub told : List Call
  told = Call.container_inspect id ∷ Call.container_stop id timeout ∷ tr

  abbrev pub runs_on : Bool
  runs_on = still_running (env.container_inspect (Call.container_stop id timeout ∷ tr) id)

  -- A container that runs on is killed; one that neither stopped nor runs is left; any other is
  -- removed, if the daemon does.
  pub data Removed : Result (Unit {0}) → List Call → Type 0 where
    unstopped :
        (e e' : Error)
        → runs_on ≡ false
        → env.container_stop tr id timeout ≡ err e
        → Removed (err e') told
    unkilled :
        (e e' : Error)
        → runs_on ≡ true
        → env.container_kill told id ≡ err e
        → Removed (err e') (Call.container_kill id (codes "KILL") ∷ told)
    stopped :
        (r : Result (Unit {0})) (tr' : List Call)
        → runs_on ≡ false
        → env.container_stop tr id timeout ≡ ok tt
        → Erased env id told r tr'
        → Removed r tr'
    killed :
        (r : Result (Unit {0})) (tr' : List Call)
        → runs_on ≡ true
        → env.container_kill told id ≡ ok tt
        → Erased env id (Call.container_kill id (codes "KILL") ∷ told) r tr'
        → Removed r tr'

-- The new container is connected to the networks in their order, then started; the first refusal
-- ends it.
pub data Attached (env : Env) (id : Text)
    : List Call → Assoc EndpointSettings → Option Error → List Call → Type 0 where
  started :
      (tr : List Call)
      → env.container_start tr id ≡ ok tt
      → Attached env id tr [] none (Call.container_start id ∷ tr)
  unstarted :
      (tr : List Call) (e e' : Error)
      → env.container_start tr id ≡ err e
      → Attached env id tr [] (some e') (Call.container_start id ∷ tr)
  connected :
      (tr : List Call) (net : Text) (ep : EndpointSettings) (networks : Assoc EndpointSettings)
      (r : Option Error) (tr' : List Call)
      → env.network_connect tr net id ≡ ok tt
      → Attached env id (Call.network_connect net id ep ∷ tr) networks r tr'
      → Attached env id tr ((net, ep) ∷ networks) r tr'
  unconnected :
      (tr : List Call) (net : Text) (ep : EndpointSettings) (networks : Assoc EndpointSettings)
      (e e' : Error)
      → env.network_connect tr net id ≡ err e
      → Attached env id tr ((net, ep) ∷ networks) (some e') (Call.network_connect net id ep ∷ tr)

module _ (env : Env) (c : Container) (config : ContainerConfig) (host : HostConfig)
    (networks : Assoc EndpointSettings) (timeout : ℤ) where
  abbrev pub creation : Call
  creation = Call.container_create config host (first_network networks) c.name

  -- Either the old container is still there and no other is created; or it is gone, and the new one
  -- could not be created; or the new one is there, and connected and started as far as it goes.
  pub data Replaced (tr : List Call) : Text × Option Error → List Call → Type 0 where
    kept :
        (e e' : Error) (tr' : List Call)
        → Removed env c.id timeout tr (err e) tr'
        → Replaced tr ([], some e') tr'
    lost :
        (e e' : Error) (tr₁ : List Call)
        → Removed env c.id timeout tr (ok tt) tr₁
        → env.container_create tr₁ c.name ≡ err e
        → Replaced tr ([], some e') (creation ∷ tr₁)
    made :
        (id : Text) (tr₁ : List Call) (r : Option Error) (tr' : List Call)
        → Removed env c.id timeout tr (ok tt) tr₁
        → env.container_create tr₁ c.name ≡ ok id
        → Attached env id (creation ∷ tr₁) (extra_networks networks) r tr'
        → Replaced tr (id, r) tr'

-- Nothing is done for a container whose inspection was incomplete; any other is replaced, once both
-- images have been looked at, by one with its configuration on the new image.
pub data Recreated (env : Env) (c : Container) (image : Text) (timeout : ℤ) (tr : List Call)
    : Text × Option Error → List Call → Type 0 where
  incomplete :
      (e : Error)
      → (c.inspect.config ≡ none) ⊎ (c.inspect.host_config ≡ none)
      → Recreated env c image timeout tr ([], some e) tr
  replaced :
      (config : ContainerConfig) (host : HostConfig) (r : Text × Option Error) (tr' : List Call)
      → c.inspect.config ≡ some config
      → c.inspect.host_config ≡ some host
      → Replaced env c
          (new_config_of config image
            (image_config (env.image_inspect tr c.image_id))
            (image_config (env.image_inspect (Call.image_inspect c.image_id ∷ tr) image)))
          (new_host_config host)
          (clean_networks c.inspect.networks)
          timeout
          (Call.image_inspect image ∷ Call.image_inspect c.image_id ∷ tr)
          r
          tr'
      → Recreated env c image timeout tr r tr'
