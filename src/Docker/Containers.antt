-- ===== src/Docker/Containers.antt =====
-- internal/docker/container.go: listing, stopping and recreating containers.
use openwatch.Base.{not, Bool, true, false, Option, none, some, List, [], ◌∷◌, ◌++◌, if◌then◌else◌}
use openwatch.Base.Text.{Text, codes, has_prefix, trim_prefix, equal_fold}
use openwatch.Base.Assoc.{Assoc, lookup}
use openwatch.Base.Numbers.{ℤ}
use openwatch.Base.Errors.{Error, message, wrap, Result, ok, err}
use openwatch.Docker.{
  ContainerConfig, HostConfig, EndpointSettings, ContainerRun, InspectResponse, ImageInspect,
  Container,
}
use openwatch.Docker.Labels.{label_self, label_value_true}
use openwatch.Docker.Reconcile.{reconcile_env, reconcile_slice, reconcile_scalar}
use openwatch.Docker.Image.{inspect_image}
use openwatch.World.{Call, M, pure, fault, ask, ◌>>=◌, if_ok, if_some}

unfoldable pub inspect_container : Text → M (Result InspectResponse)
inspect_container id = ask (Call.container_inspect id) (λ env tr. env.container_inspect tr id)

abbrev pub lacks_base : Result InspectResponse → Bool
lacks_base (err e) = false
lacks_base (ok inspect) = not inspect.has_base

-- With the first field of the base that is read of an answer: a nil base is dereferenced.
unfoldable pub inspect_base : Text → M (Result InspectResponse)
inspect_base id = do answer ← inspect_container id; if lacks_base answer then fault else pure answer

abbrev pub summary : InspectResponse → ContainerConfig → Container
summary inspect config = record {
  id = inspect.id;
  name = trim_prefix (codes "/") inspect.name;
  image = config.image;
  image_id = inspect.image;
  labels = config.labels;
  inspect = inspect;
}

-- The loop over the summaries' IDs; a nil `inspect.Config` is dereferenced.
unfoldable pub inspect_all : List Text → List Container → M (List Container)
inspect_all [] out = pure out
inspect_all (id ∷ ids) out = do
  answer ← inspect_base id
  if_ok answer (λ e. inspect_all ids out)
      λ inspect.
        if_some inspect.config fault λ config. inspect_all ids (out ++ summary inspect config ∷ [])

unfoldable pub list_containers : Bool → M (Result (List Container))
list_containers include_stopped = do
  summaries ←
      ask (Call.container_list include_stopped) (λ env tr. env.container_list tr include_stopped)
  if_ok summaries (λ e. pure (err (wrap (codes "list containers") e)))
      λ ids. do out ← inspect_all ids []; pure (ok out)

abbrev pub names_host : Text → Result Text → Bool
names_host id (err e) = false
names_host id (ok []) = false
names_host id (ok (c ∷ hostname)) = has_prefix (c ∷ hostname) id

-- The opt-out label.
abbrev pub is_labelled_self : Option Text → Bool
is_labelled_self none = false
is_labelled_self (some v) = equal_fold v label_value_true

unfoldable pub is_self : Container → M Bool
is_self c = if equal_fold c.name (codes "openwatch") then pure true else do
  hostname ← ask Call.hostname (λ env tr. env.hostname tr)
  if names_host c.id hostname
      then pure true
      else pure (is_labelled_self (lookup label_self c.labels))

-- `inspectErr == nil && inspect.State != nil && inspect.State.Running`
abbrev pub run_is_running : Option ContainerRun → Bool
run_is_running none = false
run_is_running (some s) = s.running

abbrev pub still_running : Result InspectResponse → Bool
still_running (err e) = false
still_running (ok inspect) = run_is_running inspect.state

unfoldable pub remove_container : Text → M (Result (Unit {0}))
remove_container id = do
  removed ← ask (Call.container_remove id false false) (λ env tr. env.container_remove tr id)
  if_ok removed (λ e. pure (err (wrap (codes "remove container " ++ id) e))) (λ _. pure (ok tt))

unfoldable pub stop_and_remove : Text → ℤ → M (Result (Unit {0}))
stop_and_remove id timeout = do
  stopped ← ask (Call.container_stop id timeout) (λ env tr. env.container_stop tr id timeout)
  inspect ← inspect_base id
  if still_running inspect
      then (do
        killed ← ask (Call.container_kill id (codes "KILL")) (λ env tr. env.container_kill tr id)
        if_ok killed
            (λ e. pure (
              err (wrap (codes "kill container " ++ id ++ codes " after graceful stop timeout") e)))
            (λ _. remove_container id))
      else if_ok stopped (λ e. pure (err (wrap (codes "stop container " ++ id) e)))
          (λ _. remove_container id)

-- The configuration of the new container, when both images could be inspected.
unfoldable pub reconcile_config :
    ContainerConfig → Text → ContainerConfig → ContainerConfig → ContainerConfig
reconcile_config config image old new = record config {
  image = image;
  env = reconcile_env config.env old.env new.env;
  cmd = reconcile_slice config.cmd old.cmd new.cmd;
  entrypoint = reconcile_slice config.entrypoint old.entrypoint new.entrypoint;
  working_dir = reconcile_scalar config.working_dir old.working_dir new.working_dir;
  user = reconcile_scalar config.user old.user new.user;
}

abbrev pub image_config : Result ImageInspect → Option ContainerConfig
image_config (err e) = none
image_config (ok img) = img.config

abbrev pub new_config_of :
    ContainerConfig → Text → Option ContainerConfig → Option ContainerConfig → ContainerConfig
new_config_of config image (some old) (some new) = reconcile_config config image old new
new_config_of config image none new = record config { image = image }
new_config_of config image (some old) none = record config { image = image }

-- A namespace mode that names another container is dropped.
unfoldable pub clear_mode : Text → Text
clear_mode mode = if has_prefix (codes "container:") mode then [] else mode

unfoldable pub new_host_config : HostConfig → HostConfig
new_host_config h = record h {
  network_mode = clear_mode h.network_mode;
  ipc_mode = clear_mode h.ipc_mode;
  pid_mode = clear_mode h.pid_mode;
  uts_mode = clear_mode h.uts_mode;
  userns_mode = clear_mode h.userns_mode;
}

-- What the user configured of an endpoint.
abbrev pub cleaned : EndpointSettings → EndpointSettings
cleaned ep = record ep { runtime = [] }

-- The endpoints that are not nil, cleaned, in the order of the map's traversal.
unfoldable pub clean_networks : Assoc (Option EndpointSettings) → Assoc EndpointSettings
clean_networks [] = []
clean_networks ((name, none) ∷ networks) = clean_networks networks
clean_networks ((name, some ep) ∷ networks) = (name, cleaned ep) ∷ clean_networks networks

-- `firstNetworkName`, `firstNetworkSettings` and `extraNetworks`.
abbrev pub first_network : Assoc EndpointSettings → Option (Text × EndpointSettings)
first_network [] = none
first_network (n ∷ networks) = some n

abbrev pub extra_networks : Assoc EndpointSettings → Assoc EndpointSettings
extra_networks [] = []
extra_networks (n ∷ networks) = networks

-- The loop over the extra networks, then the start: the container's ID, and the error if any.
unfoldable pub connect_and_start : Text → Text → Assoc EndpointSettings → M (Text × Option Error)
connect_and_start name id [] = do
  started ← ask (Call.container_start id) (λ env tr. env.container_start tr id)
  if_ok started (λ e. pure (id, some (wrap (codes "start container " ++ name) e)))
      (λ _. pure (id, none))
connect_and_start name id ((net, ep) ∷ networks) = do
  connected ← ask (Call.network_connect net id ep) (λ env tr. env.network_connect tr net id)
  if_ok connected
      (λ e.
        pure
          (id, some (wrap (codes "connect container " ++ name ++ codes " to network " ++ net) e)))
      (λ _. connect_and_start name id networks)

-- From `StopAndRemove` on.
unfoldable pub replace :
    Container → ContainerConfig → HostConfig → Assoc EndpointSettings → ℤ → M (Text × Option Error)
replace c config host networks timeout = do
  removed ← stop_and_remove c.id timeout
  if_ok removed (λ e. pure ([], some e))
      λ _. do
        created ←
            ask (Call.container_create config host (first_network networks) c.name)
              (λ env tr. env.container_create tr c.name)
        if_ok created (λ e. pure ([], some (wrap (codes "create container " ++ c.name) e)))
            λ id. connect_and_start c.name id (extra_networks networks)

abbrev pub incomplete : Text → M (Text × Option Error)
incomplete id =
    pure ([], some (message (codes "container " ++ id ++ codes " has incomplete inspect data")))

unfoldable pub recreate : Container → Text → ℤ → M (Text × Option Error)
recreate c image timeout = if_some c.inspect.config (incomplete c.id) λ config.
    if not c.inspect.has_base
    then fault
    else if_some c.inspect.host_config (incomplete c.id) λ host. do
      old ← inspect_image c.image_id
      new ← inspect_image image
      replace c (new_config_of config image (image_config old) (image_config new))
          (new_host_config host) (clean_networks c.inspect.networks) timeout
