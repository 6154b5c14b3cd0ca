-- ===== src/Docker.antt =====
-- The Docker data that the program reads, with the fields that it uses; `rest` stands for the
-- fields that are only carried over. A pointer that may be nil is an `Option`.
pub mod Client
pub mod Labels
pub mod Reconcile
pub mod Image
pub mod Containers
pub mod Replacement
pub mod Reads
use openwatch.Base.{Bool, Option, List}
use openwatch.Base.Text.{Text}
use openwatch.Base.Assoc.{Assoc}
use openwatch.Base.Numbers.{ℤ}

pub record HealthConfig : Type 0 where
  pub test : List Text

-- container.Config
pub record ContainerConfig : Type 0 where
  pub image : Text
  pub env : List Text
  pub cmd : List Text
  pub entrypoint : List Text
  pub working_dir : Text
  pub user : Text
  pub labels : Assoc Text
  pub healthcheck : Option HealthConfig
  pub rest : Text

-- container.HostConfig
pub record HostConfig : Type 0 where
  pub network_mode : Text
  pub ipc_mode : Text
  pub pid_mode : Text
  pub uts_mode : Text
  pub userns_mode : Text
  pub rest : Text

-- network.EndpointSettings; `runtime` stands for the fields that the daemon assigns.
pub record EndpointSettings : Type 0 where
  pub aliases : List Text
  pub links : List Text
  pub network_id : Text
  pub ipam_config : Text
  pub driver_opts : Assoc Text
  pub runtime : Text

pub data HealthStatus : Type 0 where
  healthy unhealthy : HealthStatus
  other : Text → HealthStatus

pub record Health : Type 0 where
  pub status : HealthStatus
  pub failing_streak : ℤ

pub record ContainerRun : Type 0 where
  pub running : Bool
  pub restarting : Bool
  pub status : Text
  pub exit_code : ℤ
  pub health : Option Health

-- container.InspectResponse. `has_base`: the embedded pointer to the base is not nil; the ID, the name,
-- the image, the host configuration and the state are the base's, and are read only where there is one.
pub record InspectResponse : Type 0 where
  pub has_base : Bool
  pub id : Text
  pub name : Text
  pub image : Text
  pub config : Option ContainerConfig
  pub host_config : Option HostConfig
  pub state : Option ContainerRun
  -- `NetworkSettings.Networks`; no settings are read as no networks.
  pub networks : Assoc (Option EndpointSettings)

-- image.InspectResponse
pub record ImageInspect : Type 0 where
  pub id : Text
  pub repo_digests : List Text
  pub config : Option ContainerConfig

-- internal/docker/container.go: Container
pub record Container : Type 0 where
  pub id : Text
  pub name : Text
  pub image : Text
  pub image_id : Text
  pub labels : Assoc Text
  pub inspect : InspectResponse
