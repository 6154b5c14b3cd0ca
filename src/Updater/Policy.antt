-- ===== src/Updater/Policy.antt =====
-- internal/updater/policy.go: the settings of one container, from the configuration and its
-- labels.
pub mod Laws
use openwatch.Base.{Bool, true, false, Option, none, some, ◌&&◌, if◌then◌else◌}
use openwatch.Base.Text.{Text, codes, equal_fold, trim_space}
use openwatch.Base.Assoc.{lookup}
use openwatch.Base.Numbers.{ℤ, non_positive, non_negative, parse_bool, atoi}
use openwatch.Config.{Config, default_stop_timeout}
use openwatch.Docker.{Container}
use openwatch.Docker.Labels.{
  label_enable, label_notify_only, label_rollback, label_cleanup, label_stop_timeout,
  label_value_true, label_value_false,
}

-- `SkipReason`; `kept` is "".
pub data SkipReason : Type 0 where
  kept enable_false not_enabled : SkipReason

pub record Policy : Type 0 where
  pub skip : Bool
  pub skip_reason : SkipReason
  pub notify_only : Bool
  pub rollback : Bool
  pub cleanup : Bool
  pub stop_timeout_sec : ℤ

-- `ok && strings.EqualFold(v, value)`
unfoldable pub label_is : Text → Option Text → Bool
label_is value none = false
label_is value (some v) = equal_fold v value

-- The switch over `openwatch.enable` and the global opt-in.
unfoldable pub resolve_enable : Bool → Bool → Bool → Bool × SkipReason
resolve_enable enable_false_set enable_true_set label_enable_global =
    if enable_false_set
    then (true, enable_false)
    else if enable_true_set
    then (false, kept)
    else if label_enable_global
    then (true, not_enabled)
    else (false, kept)

abbrev pub bool_or : Bool → Option Bool → Bool
bool_or global none = global
bool_or global (some b) = b

-- A Boolean label in place of the global setting, if it is there and can be read.
unfoldable pub bool_label : Bool → Option Text → Bool
bool_label global none = global
bool_label global (some v) = bool_or global (parse_bool (trim_space v))

abbrev pub timeout_or : ℤ → Option ℤ → ℤ
timeout_or global none = global
timeout_or global (some n) = if non_negative n then n else global

unfoldable pub timeout_label : ℤ → Option Text → ℤ
timeout_label global none = global
timeout_label global (some v) = timeout_or global (atoi (trim_space v))

unfoldable pub resolve_policy : Config → Container → Policy
resolve_policy cfg c =
    let enable = lookup label_enable c.labels in
    let (skip, reason) =
      resolve_enable (label_is label_value_false enable) (label_is label_value_true enable)
        cfg.label_enable in
    record {
      skip = skip;
      skip_reason = reason;
      notify_only = label_is label_value_true (lookup label_notify_only c.labels);
      rollback = bool_label cfg.rollback_on_failure (lookup label_rollback c.labels);
      cleanup = bool_label cfg.cleanup (lookup label_cleanup c.labels);
      stop_timeout_sec =
          timeout_label
            (if non_positive cfg.stop_timeout then default_stop_timeout else cfg.stop_timeout)
            (lookup label_stop_timeout c.labels);
    }
