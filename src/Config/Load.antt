-- ===== src/Config/Load.antt =====
-- internal/config/config.go: `Load`. Viper is a parameter. The struct tags of the configuration are
-- the names that its `Unmarshal` looks a field up by.
use openwatch.Base.{Bool, false, not, List, [], ◌∷◌, if◌then◌else◌}
use openwatch.Base.Text.{Text, codes}
use openwatch.Base.Numbers.{ℤ}
use openwatch.Base.Errors.{Error, Result, ok, err}
use openwatch.Config.{Config, default_interval, default_healthcheck_timeout, default_stop_timeout}

pub data Value : Type 0 where
  int : ℤ → Value
  bool : Bool → Value
  string : Text → Value

pub record Viper (V : Type 0) : Type 0 where
  pub new : V
  pub set_default : Text → Value → V → V
  pub set_env_prefix : Text → V → V
  pub set_env_key_replacer : Text → Text → V → V
  pub automatic_env : V → V
  pub bind_env : Text → Text → V → V
  pub set_config_name : Text → V → V
  pub set_config_type : Text → V → V
  pub add_config_path : Text → V → V
  pub read_in_config : V → Result V
  -- `errors.As(err, &notFound)`
  pub is_not_found : Error → Bool
  pub unmarshal : V → Result Config

abbrev pub default_log_level : Text
default_log_level = codes "info"

abbrev pub default_log_format : Text
default_log_format = codes "text"

abbrev pub config_search_paths : List Text
config_search_paths = codes "/etc/openwatch" ∷ []

abbrev pub config_file_name : Text
config_file_name = codes "openwatch"

-- The calls of `SetDefault`.
abbrev pub defaults : List (Text × Value)
defaults =
    (codes "interval", int default_interval)
    ∷ (codes "schedule", string [])
    ∷ (codes "cleanup", bool false)
    ∷ (codes "include_stopped", bool false)
    ∷ (codes "label_enable", bool false)
    ∷ (codes "rollback_on_failure", bool false)
    ∷ (codes "healthcheck_timeout", int default_healthcheck_timeout)
    ∷ (codes "stop_timeout", int default_stop_timeout)
    ∷ (codes "notify_url", string [])
    ∷ (codes "log_level", string default_log_level)
    ∷ (codes "log_format", string default_log_format)
    ∷ (codes "http_api", bool false)
    ∷ (codes "docker_config", string [])
    ∷ (codes "registry_user", string [])
    ∷ (codes "registry_password", string [])
    ∷ []

-- The calls of `BindEnv`.
abbrev pub bindings : List (Text × Text)
bindings =
    (codes "interval", codes "OPENWATCH_INTERVAL")
    ∷ (codes "schedule", codes "OPENWATCH_SCHEDULE")
    ∷ (codes "cleanup", codes "OPENWATCH_CLEANUP")
    ∷ (codes "include_stopped", codes "OPENWATCH_INCLUDE_STOPPED")
    ∷ (codes "label_enable", codes "OPENWATCH_LABEL_ENABLE")
    ∷ (codes "rollback_on_failure", codes "OPENWATCH_ROLLBACK_ON_FAILURE")
    ∷ (codes "healthcheck_timeout", codes "OPENWATCH_HEALTHCHECK_TIMEOUT")
    ∷ (codes "stop_timeout", codes "OPENWATCH_STOP_TIMEOUT")
    ∷ (codes "notify_url", codes "OPENWATCH_NOTIFY_URL")
    ∷ (codes "log_level", codes "OPENWATCH_LOG_LEVEL")
    ∷ (codes "log_format", codes "OPENWATCH_LOG_FORMAT")
    ∷ (codes "http_api", codes "OPENWATCH_HTTP_API")
    ∷ (codes "registry_user", codes "OPENWATCH_REGISTRY_USER")
    ∷ (codes "registry_password", codes "OPENWATCH_REGISTRY_PASSWORD")
    ∷ (codes "docker_config", codes "DOCKER_CONFIG")
    ∷ []

module _ {V : Type 0} (lib : Viper V) where
  unfoldable pub set_defaults : List (Text × Value) → V → V
  set_defaults [] v = v
  set_defaults ((key, d) ∷ rows) v = set_defaults rows (lib.set_default key d v)

  unfoldable pub bind_envs : List (Text × Text) → V → V
  bind_envs [] v = v
  bind_envs ((key, name) ∷ rows) v = bind_envs rows (lib.bind_env key name v)

  unfoldable pub add_config_paths : List Text → V → V
  add_config_paths [] v = v
  add_config_paths (p ∷ ps) v = add_config_paths ps (lib.add_config_path p v)

  -- Up to the reading of the file.
  unfoldable pub prepared : V
  prepared =
      let v = set_defaults defaults lib.new in
      let v = lib.set_env_prefix (codes "OPENWATCH") v in
      let v = lib.automatic_env (lib.set_env_key_replacer (codes ".") (codes "_") v) in
      let v = bind_envs bindings v in
      let v = lib.set_config_type (codes "yaml") (lib.set_config_name config_file_name v) in
      add_config_paths config_search_paths v

  -- Where the file is missing the settings stay as they were.
  unfoldable pub load : Result Config
  load = after_file (lib.read_in_config prepared)
    where
      after_file : Result V → Result Config
      after_file (ok v) = lib.unmarshal v
      after_file (err e) = if not (lib.is_not_found e) then err e else lib.unmarshal prepared
