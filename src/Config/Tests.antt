-- ===== src/Config/Tests.antt =====
-- The precedence of the settings, for a small viper that holds what it is told.
use openwatch.Base.{
  ℕ, ◌++◌, ◌≡◌, refl, Bool, true, false, Option, none, some, List, [], ◌∷◌, map, if◌then◌else◌,
}
use openwatch.Base.Text.{Text, codes, text_eq}
use openwatch.Base.Assoc.{insert}
use openwatch.Base.Numbers.{ℤ, pos}
use openwatch.Base.Errors.{message, Result, ok, err}
use openwatch.Config.{Config}
use openwatch.Config.Load.{Value, int, bool, string, Viper, prepared, load}
use openwatch.Config.Documented.{View, effective, field_names, blank, IsViper}
use openwatch.Config.Precedence.{expected, load_precedence}

abbrev environ : Text → Option Text
environ name = if text_eq name (codes "OPENWATCH_LOG_LEVEL") then some (codes "debug") else none

abbrev int_of : Option Value → ℤ
int_of (some (int n)) = n
int_of _ = pos 0

abbrev bool_of : Option Value → Bool
bool_of (some (bool b)) = b
bool_of _ = false

abbrev text_of : Option Value → Text
text_of (some (string s)) = s
text_of _ = []

abbrev decode : List (Option Value) → Result Config
decode (a0 ∷ a1 ∷ a2 ∷ a3 ∷ a4 ∷ a5 ∷ a6 ∷ a7 ∷ a8 ∷ a9 ∷ a10 ∷ a11 ∷ a12 ∷ a13 ∷ a14 ∷ []) =
    ok (record {
      interval = int_of a0;
      schedule = text_of a1;
      cleanup = bool_of a2;
      include_stopped = bool_of a3;
      label_enable = bool_of a4;
      rollback_on_failure = bool_of a5;
      healthcheck_timeout = int_of a6;
      stop_timeout = int_of a7;
      notify_url = text_of a8;
      log_level = text_of a9;
      log_format = text_of a10;
      http_api = bool_of a11;
      docker_config = text_of a12;
      registry_user = text_of a13;
      registry_password = text_of a14;
    })
decode _ = err (message (codes "fields"))

-- Of a replacer with longer texts it keeps nothing.
abbrev single : Text → Text → Option (ℕ × ℕ)
single (a ∷ []) (b ∷ []) = some (a, b)
single _ _ = none

-- Its file sets the schedule.
abbrev held : Viper View
held = record {
  new = blank;
  set_default = λ key d v. record v { defaults = insert key d v.defaults };
  set_env_prefix = λ p v. record v { prefix = p };
  set_env_key_replacer = λ old new v. record v { replaced = single old new };
  automatic_env = λ v. record v { is_automatic = true };
  bind_env = λ key name v. record v { bound = v.bound ++ ((key, name) ∷ []) };
  set_config_name = λ n v. v;
  set_config_type = λ t v. v;
  add_config_path = λ p v. v;
  read_in_config = λ v. ok (record v { file = (codes "schedule", string (codes "@daily")) ∷ [] });
  is_not_found = λ e. false;
  unmarshal = λ v. decode (map (effective environ v) field_names);
}

held-IsViper : IsViper held environ decode
held-IsViper = record {
  view = λ v. v;
  new = refl;
  set_default = λ key d v. refl;
  bind_env = λ key name v. refl;
  set_env_prefix = λ p v. refl;
  automatic_env = λ v. refl;
  set_env_key_replacer = λ old new v. refl;
  set_config_name = λ n v. refl;
  set_config_type = λ t v. refl;
  add_config_path = λ p v. refl;
  read_in_config = λ v r h. kept v r h;
  unmarshal = λ v. refl;
}
  where
    kept : (v r : View) → held.read_in_config v ≡ ok r → r ≡ record v { file = r.file }
    kept v r h = cc

load_precedence_example :
    load held ≡ expected held environ decode held-IsViper (held.read_in_config (prepared held))
load_precedence_example = load_precedence held environ decode held-IsViper
