-- ===== src/Config/Precedence.antt =====
-- internal/config/config.go: where a setting comes from.
use mathlib.Core.List.{append-nil, append_assoc}
use openwatch.Base.{
  ◌++◌, sym, map, All, Bool-cases, inl, inr, ◌≡◌, refl, ◌∙◌, ap, true, Option, none, some, List, [],
  ◌∷◌, if◌then◌else◌,
}
use Prim.Native.String.{String}
use openwatch.Base.Text.{Text, codes, text_eq}
use openwatch.Base.Assoc.{Assoc, lookup, insert}
use openwatch.Base.Errors.{Result, ok, err}
use openwatch.Config.{Config}
use openwatch.Config.Load.{
  Value, Viper, defaults, bindings, set_defaults, bind_envs, add_config_paths, prepared, load,
}
use openwatch.Config.Documented.{
  View, or_else, from_env, upper_byte, effective, field_names, IsViper, settings, by_precedence,
}

abbrev inserted {ℓ} : {A : Type ℓ} → List (Text × A) → Assoc A → Assoc A
inserted [] m = m
inserted ((k, a) ∷ rows) m = inserted rows (insert k a m)

abbrev configured : Assoc Value → View
configured file = record {
  defaults = defaults;
  bound = bindings;
  file = file;
  prefix = codes "OPENWATCH";
  replaced = some (b'.', b'_');
  is_automatic = true;
}

-- A variable that is bound is also found without that.
one :
    (a f : Option Value) (d : Value)
    → or_else a (or_else (or_else a none) (or_else f (some d)))
      ≡ or_else (or_else a none) (or_else f (some d))
one none f d = refl
one (some v) f d = refl

two :
    (a b f : Option Value) (d : Value)
    → or_else a (or_else (or_else b none) (or_else f (some d)))
      ≡ or_else (or_else a (or_else b none)) (or_else f (some d))
two none none f d = refl
two none (some v) f d = refl
two (some v) b f d = refl

module _ (environ : Text → Option Text) (file : Assoc Value) where
  Agrees : Text × (List Text × Value) → Type 0
  Agrees row = effective environ (configured file) row.0 ≡ by_precedence environ file row

  map-agree :
      (rows : List (Text × (List Text × Value)))
      → All Agrees rows
      → map (effective environ (configured file)) (map (λ row. row.0) rows)
        ≡ map (by_precedence environ file) rows
  unfolding Agrees
  map-agree [] h = refl
  map-agree (row ∷ rows) h = rw (h.0, map-agree rows h.1) refl

  settings-agree : All Agrees settings
  unfolding Agrees lookup text_eq upper_byte
  settings-agree = (
    one (value "OPENWATCH_INTERVAL") (filed "interval") _,
    (
      one (value "OPENWATCH_SCHEDULE") (filed "schedule") _,
      (
        one (value "OPENWATCH_CLEANUP") (filed "cleanup") _,
        (
          one (value "OPENWATCH_INCLUDE_STOPPED") (filed "include_stopped") _,
          (
            one (value "OPENWATCH_LABEL_ENABLE") (filed "label_enable") _,
            (
              one (value "OPENWATCH_ROLLBACK_ON_FAILURE") (filed "rollback_on_failure") _,
              (
                one (value "OPENWATCH_HEALTHCHECK_TIMEOUT") (filed "healthcheck_timeout") _,
                (
                  one (value "OPENWATCH_STOP_TIMEOUT") (filed "stop_timeout") _,
                  (
                    one (value "OPENWATCH_NOTIFY_URL") (filed "notify_url") _,
                    (
                      one (value "OPENWATCH_LOG_LEVEL") (filed "log_level") _,
                      (
                        one (value "OPENWATCH_LOG_FORMAT") (filed "log_format") _,
                        (
                          one (value "OPENWATCH_HTTP_API") (filed "http_api") _,
                          (
                            two (value "OPENWATCH_DOCKER_CONFIG") (value "DOCKER_CONFIG")
                                (filed "docker_config") _,
                            (
                              one (value "OPENWATCH_REGISTRY_USER") (filed "registry_user") _,
                              (
                                one (value "OPENWATCH_REGISTRY_PASSWORD")
                                    (filed "registry_password") _,
                                tt,
                              ),
                            ),
                          ),
                        ),
                      ),
                    ),
                  ),
                ),
              ),
            ),
          ),
        ),
      ),
    ),
  )
    where
      value : String → Option Value
      value name = from_env (environ (codes name))

      filed : String → Option Value
      filed key = lookup (codes key) file

  fields-agree :
      map (effective environ (configured file)) field_names
      ≡ map (by_precedence environ file) settings
  fields-agree = map-agree settings settings-agree

module _ {V : Type 0} (lib : Viper V) (environ : Text → Option Text)
    (decode : List (Option Value) → Result Config) (law : IsViper lib environ decode) where
  view-set_defaults :
      (rows : List (Text × Value)) (v : V)
      → law.view (set_defaults lib rows v)
        ≡ record (law.view v) { defaults = inserted rows (law.view v).defaults }
  unfolding set_defaults
  view-set_defaults [] v = refl
  view-set_defaults ((k, d) ∷ rows) v =
      rw (view-set_defaults rows (lib.set_default k d v), law.set_default k d v) refl

  view-bind_envs :
      (rows : List (Text × Text)) (v : V)
      → law.view (bind_envs lib rows v) ≡ record (law.view v) { bound = (law.view v).bound ++ rows }
  unfolding bind_envs
  view-bind_envs [] v =
      ap (λ b. record (law.view v) { bound = b }) (sym (append-nil (law.view v).bound))
  view-bind_envs ((k, n) ∷ rows) v =
      rw (view-bind_envs rows (lib.bind_env k n v), law.bind_env k n v)
        (ap (λ b. record (law.view v) { bound = b })
          (append_assoc (law.view v).bound ((k, n) ∷ []) rows))

  view-environment :
      law.view (
        lib.automatic_env (
          lib.set_env_key_replacer
            (codes ".")
            (codes "_")
            (lib.set_env_prefix (codes "OPENWATCH") (set_defaults lib defaults lib.new))))
      ≡ record (configured []) { bound = [] }
  unfolding insert text_eq
  view-environment =
      law.automatic_env _
      ∙ ap {A = View} (λ v. record v { is_automatic = true })
          (law.set_env_key_replacer b'.' b'_' _
            ∙ ap {A = View} (λ v. record v { replaced = some (b'.', b'_') })
                (law.set_env_prefix _ _
                  ∙ ap {A = View} (λ v. record v { prefix = codes "OPENWATCH" })
                      (view-set_defaults defaults lib.new
                        ∙ ap {A = View} (λ v. record v { defaults = inserted defaults v.defaults })
                            law.new)))

  view-prepared : law.view (prepared lib) ≡ configured []
  unfolding prepared add_config_paths insert text_eq
  view-prepared =
      law.add_config_path _ _
      ∙ law.set_config_type _ _
      ∙ law.set_config_name _ _
      ∙ view-bind_envs bindings _
      ∙ ap {A = View} (λ v. record v { bound = v.bound ++ bindings }) view-environment

  -- What comes of the reading of the file.
  abbrev pub expected : Result V → Result Config
  expected (ok v) = decode (map (by_precedence environ (law.view v).file) settings)
  expected (err e) =
      if lib.is_not_found e then decode (map (by_precedence environ []) settings) else err e

  load_of : (r : Result V) → lib.read_in_config (prepared lib) ≡ r → load lib ≡ expected r
  unfolding load
  load_of (ok v) h = rw h (
      law.unmarshal v
      ∙ ap (λ w. decode (map (effective environ w) field_names))
          (law.read_in_config (prepared lib) v h
            ∙ ap {A = View} (λ w. record w { file = (law.view v).file }) view-prepared)
      ∙ ap decode (fields-agree environ (law.view v).file))
  load_of (err e) h = elim (Bool-cases (lib.is_not_found e)) [
    | inl m ↦
        rw (h, m)
          (law.unmarshal (prepared lib)
            ∙ ap (λ w. decode (map (effective environ w) field_names)) view-prepared
            ∙ ap decode (fields-agree environ []))
    | inr m ↦ rw (h, m) refl
  ]

  -- With viper as documented, its replacer going over the name of every variable that is looked
  -- up, Load gives what decoding the fifteen settings gives, each from its environment variable
  -- where that is set (the Docker configuration from OPENWATCH_DOCKER_CONFIG or else
  -- DOCKER_CONFIG), else from the file that was read, else the default; a missing file counts as
  -- an empty one, and any other error of reading it is the result.
  pub load_precedence : load lib ≡ expected (lib.read_in_config (prepared lib))
  load_precedence = load_of (lib.read_in_config (prepared lib)) refl
