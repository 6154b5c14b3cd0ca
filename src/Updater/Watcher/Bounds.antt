-- ===== src/Updater/Watcher/Bounds.antt =====
-- internal/updater, internal/docker: what the calls made for one container may be.
pub mod Calls
pub mod Laws
use openwatch.Base.{
  ◌≡◌, refl, Bool, true, false, Option, none, some, List, [], ◌∷◌, ◌⊎◌, inl, inr, All, Bool-cases,
}
use openwatch.Base.Text.{Text, codes, has_prefix, is_empty}
use openwatch.Base.Assoc.{Assoc}
use openwatch.Docker.{ContainerConfig, HostConfig, EndpointSettings, Container}
use openwatch.Docker.Containers.{
  clear_mode, new_host_config, clean_networks, extra_networks, new_config_of, reconcile_config,
}
use openwatch.Updater.Health.{health_poll_interval}
use openwatch.Updater.Policy.{Policy}
use openwatch.World.{Call, Event, notify, rollback_trigger, rollback_success, rollback_failed}

abbrev pub is_rollback : Event → Bool
is_rollback rollback_trigger = true
is_rollback rollback_success = true
is_rollback rollback_failed = true
is_rollback _ = false

-- No namespace of the host configuration names another container.
pub IsDetached : HostConfig → Type 0
IsDetached h =
    (has_prefix (codes "container:") h.network_mode ≡ false)
    × (has_prefix (codes "container:") h.ipc_mode ≡ false)
    × (has_prefix (codes "container:") h.pid_mode ≡ false)
    × (has_prefix (codes "container:") h.uts_mode ≡ false)
    × (has_prefix (codes "container:") h.userns_mode ≡ false)

-- The image of the container, or the one it had, for a rollback.
pub IsImageOf : Policy → Container → Text → Type 0
IsImageOf p c image = (image ≡ c.image) ⊎ ((p.rollback ≡ true) × (image ≡ c.image_id))

pub IsWithin : Policy → Container → Call → Type 0
IsWithin p c (Call.image_remove id) = (p.cleanup ≡ true) × (id ≡ c.image_id) × (is_empty id ≡ false)
IsWithin p c (Call.image_pull ref encoded) = ref ≡ c.image
IsWithin p c (Call.container_stop id timeout) = timeout ≡ p.stop_timeout_sec
IsWithin p c (Call.container_kill id signal) = signal ≡ codes "KILL"
IsWithin p c (Call.container_remove id force volumes) = (force ≡ false) × (volumes ≡ false)
IsWithin p c (Call.container_create config host net name) =
    (name ≡ c.name) × IsImageOf p c config.image × IsDetached host
IsWithin p c (Call.network_connect net id ep) = ep.runtime ≡ []
IsWithin p c (notify e name details) = (name ≡ c.name) × (is_rollback e ≡ true → p.rollback ≡ true)
IsWithin p c (Call.sleep d) = d ≡ health_poll_interval
IsWithin p c _ = Unit {0}

pub no_prefix : has_prefix (codes "container:") [] ≡ false
unfolding has_prefix
no_prefix = refl

pub clear_mode_lem : (mode : Text) → has_prefix (codes "container:") (clear_mode mode) ≡ false
unfolding clear_mode
clear_mode_lem mode = elim (Bool-cases (has_prefix (codes "container:") mode)) [
  | inl e ↦ rw (e, no_prefix)
  | inr e ↦ rw e e
]

pub new_host_config-IsDetached : (h : HostConfig) → IsDetached (new_host_config h)
unfolding IsDetached new_host_config
new_host_config-IsDetached h = (
  clear_mode_lem h.network_mode,
  clear_mode_lem h.ipc_mode,
  clear_mode_lem h.pid_mode,
  clear_mode_lem h.uts_mode,
  clear_mode_lem h.userns_mode,
)

pub IsClean : Text × EndpointSettings → Type 0
IsClean n = n.1.runtime ≡ []

pub clean_networks-IsClean :
    (networks : Assoc (Option EndpointSettings)) → All IsClean (clean_networks networks)
unfolding clean_networks IsClean
clean_networks-IsClean [] = tt
clean_networks-IsClean ((name, none) ∷ networks) = clean_networks-IsClean networks
clean_networks-IsClean ((name, some ep) ∷ networks) = (refl, clean_networks-IsClean networks)

pub extra_networks-IsClean :
    (networks : Assoc EndpointSettings)
    → All IsClean networks
    → All IsClean (extra_networks networks)
extra_networks-IsClean [] h = tt
extra_networks-IsClean (n ∷ networks) h = h.1

pub new_config_of-image :
    (config : ContainerConfig) (image : Text) (old new : Option ContainerConfig)
    → (new_config_of config image old new).image ≡ image
unfolding reconcile_config
new_config_of-image config image none new = refl
new_config_of-image config image (some old) none = refl
new_config_of-image config image (some old) (some new) = refl
