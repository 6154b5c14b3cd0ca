-- ===== src/Config/Documented.antt =====
-- internal/config/config.go: what viper's documentation says of the calls in `Load`, and the settings
-- with their variables and defaults.
use openwatch.Base.{
  ◌==◌, ℕ, map, leb, ◌&&◌, ◌-◌, ◌≡◌, Bool, true, false, Option, none, some, List, [], ◌∷◌, ◌++◌,
  if◌then◌else◌,
}
use openwatch.Base.Text.{Text, codes, text_eq}
use openwatch.Base.Assoc.{Assoc, lookup, insert}
use openwatch.Base.Numbers.{pos}
use openwatch.Base.Errors.{Result, ok}
use openwatch.Config.{Config}
use openwatch.Config.Load.{Value, int, bool, string, Viper}

-- What viper knows: the defaults, the keys with the variables bound to them, the file, the prefix of the
-- variables that it looks for by itself, and the byte that its replacer puts another for in the name
-- of every variable that is looked up.
pub record View : Type 0 where
  pub defaults : Assoc Value
  pub bound : List (Text × Text)
  pub file : Assoc Value
  pub prefix : Text
  pub replaced : Option (ℕ × ℕ)
  pub is_automatic : Bool

abbrev pub or_else : Option Value → Option Value → Option Value
or_else none b = b
or_else (some v) b = some v

abbrev pub from_env : Option Text → Option Value
from_env none = none
from_env (some s) = some (string s)

unfoldable pub upper_byte : ℕ → ℕ
upper_byte c = if leb b'a' c && leb c b'z' then c - 32 else c

abbrev pub replace_byte : Option (ℕ × ℕ) → ℕ → ℕ
replace_byte none c = c
replace_byte (some (old, new)) c = if c == old then new else c

-- The value of a variable, whose name the replacer has gone over.
abbrev pub get_env : (Text → Option Text) → Option (ℕ × ℕ) → Text → Option Value
get_env environ r name = from_env (environ (map (replace_byte r) name))

-- The first of the variables that is set.
abbrev pub first_env : (Text → Option Text) → Option (ℕ × ℕ) → List Text → Option Value
first_env environ r [] = none
first_env environ r (name ∷ names) = or_else (get_env environ r name) (first_env environ r names)

-- The variables bound to a key.
abbrev pub names_of : Text → List (Text × Text) → List Text
names_of key [] = []
names_of key ((k, name) ∷ rows) =
    let rest = names_of key rows in if text_eq k key then name ∷ rest else rest

-- The variable that viper looks for by itself.
abbrev pub variable : Text → Text → Text
unfolding upper_byte
variable prefix key = prefix ++ (b'_' ∷ map upper_byte key)

-- `Get`: a variable, then the file, then the default.
abbrev pub effective : (Text → Option Text) → View → Text → Option Value
effective environ v key =
    or_else (if v.is_automatic then get_env environ v.replaced (variable v.prefix key) else none) (
      or_else (first_env environ v.replaced (names_of key v.bound))
        (or_else (lookup key v.file) (lookup key v.defaults)))

-- The tags of the struct.
abbrev pub field_names : List Text
field_names =
    codes "interval"
    ∷ codes "schedule"
    ∷ codes "cleanup"
    ∷ codes "include_stopped"
    ∷ codes "label_enable"
    ∷ codes "rollback_on_failure"
    ∷ codes "healthcheck_timeout"
    ∷ codes "stop_timeout"
    ∷ codes "notify_url"
    ∷ codes "log_level"
    ∷ codes "log_format"
    ∷ codes "http_api"
    ∷ codes "docker_config"
    ∷ codes "registry_user"
    ∷ codes "registry_password"
    ∷ []

abbrev pub blank : View
blank = record {
  defaults = [];
  bound = [];
  file = [];
  prefix = [];
  replaced = none;
  is_automatic = false;
}

-- Viper as its documentation has it: `BindEnv` adds a variable to those of the key, and the replacer
-- goes over the names of variables; it is told of here for one byte in place of another. `environ` gives the variables that are set and not empty, and
-- `decode` makes the struct of its fields' settings.
pub record IsViper {V : Type 0} (lib : Viper V) (environ : Text → Option Text)
    (decode : List (Option Value) → Result Config) : Type 0 where
  pub view : V → View
  pub new : view lib.new ≡ blank
  pub set_default :
      (key : Text) (d : Value) (v : V)
      → view (lib.set_default key d v)
        ≡ record (view v) { defaults = insert key d (view v).defaults }
  pub bind_env :
      (key name : Text) (v : V)
      → view (lib.bind_env key name v)
        ≡ record (view v) { bound = (view v).bound ++ ((key, name) ∷ []) }
  pub set_env_prefix :
      (p : Text) (v : V) → view (lib.set_env_prefix p v) ≡ record (view v) { prefix = p }
  pub automatic_env : (v : V) → view (lib.automatic_env v) ≡ record (view v) { is_automatic = true }
  pub set_env_key_replacer :
      (old new : ℕ) (v : V)
      → view (lib.set_env_key_replacer (old ∷ []) (new ∷ []) v)
        ≡ record (view v) { replaced = some (old, new) }
  pub set_config_name : (n : Text) (v : V) → view (lib.set_config_name n v) ≡ view v
  pub set_config_type : (t : Text) (v : V) → view (lib.set_config_type t v) ≡ view v
  pub add_config_path : (p : Text) (v : V) → view (lib.add_config_path p v) ≡ view v
  pub read_in_config :
      (v r : V) → lib.read_in_config v ≡ ok r → view r ≡ record (view v) { file = (view r).file }
  pub unmarshal : (v : V) → lib.unmarshal v ≡ decode (map (effective environ (view v)) field_names)

-- Each setting with its variables and its default.
abbrev pub settings : List (Text × (List Text × Value))
settings =
    (codes "interval", (codes "OPENWATCH_INTERVAL" ∷ [], int (pos 86400)))
    ∷ (codes "schedule", (codes "OPENWATCH_SCHEDULE" ∷ [], string []))
    ∷ (codes "cleanup", (codes "OPENWATCH_CLEANUP" ∷ [], bool false))
    ∷ (codes "include_stopped", (codes "OPENWATCH_INCLUDE_STOPPED" ∷ [], bool false))
    ∷ (codes "label_enable", (codes "OPENWATCH_LABEL_ENABLE" ∷ [], bool false))
    ∷ (codes "rollback_on_failure", (codes "OPENWATCH_ROLLBACK_ON_FAILURE" ∷ [], bool false))
    ∷ (codes "healthcheck_timeout", (codes "OPENWATCH_HEALTHCHECK_TIMEOUT" ∷ [], int (pos 30)))
    ∷ (codes "stop_timeout", (codes "OPENWATCH_STOP_TIMEOUT" ∷ [], int (pos 10)))
    ∷ (codes "notify_url", (codes "OPENWATCH_NOTIFY_URL" ∷ [], string []))
    ∷ (codes "log_level", (codes "OPENWATCH_LOG_LEVEL" ∷ [], string (codes "info")))
    ∷ (codes "log_format", (codes "OPENWATCH_LOG_FORMAT" ∷ [], string (codes "text")))
    ∷ (codes "http_api", (codes "OPENWATCH_HTTP_API" ∷ [], bool false))
    ∷ (
      codes "docker_config",
      (codes "OPENWATCH_DOCKER_CONFIG" ∷ codes "DOCKER_CONFIG" ∷ [], string []),
    )
    ∷ (codes "registry_user", (codes "OPENWATCH_REGISTRY_USER" ∷ [], string []))
    ∷ (codes "registry_password", (codes "OPENWATCH_REGISTRY_PASSWORD" ∷ [], string []))
    ∷ []

abbrev pub first_set : (Text → Option Text) → List Text → Option Value
first_set environ [] = none
first_set environ (name ∷ names) = or_else (from_env (environ name)) (first_set environ names)

abbrev pub by_precedence :
    (Text → Option Text) → Assoc Value → Text × (List Text × Value) → Option Value
by_precedence environ file (key, (names, d)) =
    or_else (first_set environ names) (or_else (lookup key file) (some d))
