-- ===== src/Config.antt =====
-- internal/config/config.go: the settings and their defaults. The program below takes any value of
-- the record; Config/Load is where `Load` makes one.
pub mod Load
pub mod Documented
pub mod Precedence
mod Tests
use openwatch.Base.{Bool}
use openwatch.Base.Text.{Text}
use openwatch.Base.Numbers.{ℤ, pos}

abbrev pub default_interval : ℤ
default_interval = pos 86400

abbrev pub default_healthcheck_timeout : ℤ
default_healthcheck_timeout = pos 30

abbrev pub default_stop_timeout : ℤ
default_stop_timeout = pos 10

pub record Config : Type 0 where
  pub interval : ℤ
  pub schedule : Text
  pub cleanup : Bool
  pub include_stopped : Bool
  pub label_enable : Bool
  pub rollback_on_failure : Bool
  pub healthcheck_timeout : ℤ
  pub stop_timeout : ℤ
  pub notify_url : Text
  pub log_level : Text
  pub log_format : Text
  pub http_api : Bool
  pub docker_config : Text
  pub registry_user : Text
  pub registry_password : Text
