-- ===== src/Registry/Auth/Asks.antt =====
-- internal/registry/auth.go: which calls a search for credentials makes.
use openwatch.Base.{
  ◌≡◌, refl, inl, inr, Bool, true, false, not, ◌&&◌, none, List, [], ◌∷◌, All, All-impl, Any,
  if◌then◌else◌, Bool-cases,
}
use openwatch.Base.Text.{Text, codes, text_eq, is_empty, has_suffix}
use openwatch.Registry.{DockerConfig, DockerConfigAuth}
use openwatch.Registry.Auth.{
  is_ecr_host, with_aliases, hub_aliases, normalize_registry_host, load_ecr_auth, decode_basic_auth,
  decode_credential_output, exec_credential_helper, ask_store, resolve_docker_config_path,
  find_auth, entry_credentials, plain_auth, store_auth, config_auth, decode_config,
  load_docker_config_auth, load_auth,
}
use openwatch.World.{Call, Env, World}
use openwatch.World.Keeps.{
  Keeps-env, Keeps-pure, Keeps-bind, Keeps-if_some, Keeps-if_ok, Keeps-if, Keeps-test, Leaves-if,
}
use openwatch.World.Makes.{Makes, makes_rules, Makes-ask, trace-Makes}

-- With the credentials of the configuration nothing is asked; for an ECR host, AWS's
-- default configuration and the token of its account alone; for
-- another host, files, and helpers for its names.
abbrev pub IsAllowed : Bool → Text → Call → Type 0
IsAllowed false host Call.aws_config = is_ecr_host host ≡ true
IsAllowed false host Call.ecr_token = is_ecr_host host ≡ true
IsAllowed false host (Call.read_file p) = is_ecr_host host ≡ false
IsAllowed false host Call.home_dir = is_ecr_host host ≡ false
IsAllowed false host (Call.run_helper helper server) =
    (is_ecr_host host ≡ false) × Any (λ n. server ≡ n) (with_aliases host (host ∷ []))
IsAllowed _ host _ = ⊥

each-Any : (xs : List Text) → All (λ n. Any (λ m. n ≡ m) xs) xs
each-Any [] = tt
each-Any (x ∷ xs) = (inl refl, All-impl _ _ (λ n h. inr h) xs (each-Any xs))

module _ (host : Text) (plain : is_ecr_host host ≡ false) where
  abbrev Q : Call → Type 0
  Q = IsAllowed false host

  Makes-exec_credential_helper :
      (helper server : Text)
      → Any (λ n. server ≡ n) (with_aliases host (host ∷ []))
      → Makes Q (exec_credential_helper helper server)
  unfolding exec_credential_helper decode_credential_output
  Makes-exec_credential_helper helper server h =
      let asked : Q (Call.run_helper helper server) = (plain, h) in
      search (makes_rules, Keeps-env, asked) depth 12

  Makes-ask_store :
      (store : Text) (hosts : List Text)
      → All (λ n. Any (λ m. n ≡ m) (with_aliases host (host ∷ []))) hosts
      → Makes Q (ask_store store hosts)
  unfolding ask_store
  Makes-ask_store store [] h = Keeps-pure none
  Makes-ask_store store (n ∷ ns) h =
      Keeps-bind _ _ (Makes-exec_credential_helper store n h.0)
        (λ answer. Keeps-if_some _ _ _ (Makes-ask_store store ns h.1) (λ auth. Keeps-pure _))

  own_name : Any (λ n. host ≡ n) (with_aliases host (host ∷ []))
  own_name = first (text_eq host openwatch.Registry.Resolver.default_registry)
    where
      first : (b : Bool) → Any (λ n. host ≡ n) (if b then host ∷ hub_aliases else host ∷ [])
      first true = inl refl
      first false = inl refl

  Makes-entry_credentials : (entry : DockerConfigAuth) → Makes Q (entry_credentials entry)
  unfolding entry_credentials decode_basic_auth
  Makes-entry_credentials entry = search (makes_rules, Keeps-env) depth 12

  Makes-plain_auth : (cfg : DockerConfig) → Makes Q (plain_auth cfg host)
  unfolding plain_auth find_auth
  Makes-plain_auth cfg = search (makes_rules, Keeps-env, Makes-entry_credentials) depth 12

  Makes-store_auth : (cfg : DockerConfig) → Makes Q (store_auth cfg host)
  unfolding store_auth
  Makes-store_auth cfg = Keeps-if _ _ _ (Makes-plain_auth cfg) (
      Keeps-bind _ _ (Makes-ask_store cfg.creds_store _ (each-Any (with_aliases host (host ∷ []))))
        (λ found. Keeps-if_some _ _ _ (Makes-plain_auth cfg) (λ auth. Keeps-pure _)))

  Makes-config_auth : (cfg : DockerConfig) → Makes Q (config_auth cfg host)
  unfolding config_auth
  Makes-config_auth cfg =
      search (makes_rules, Makes-exec_credential_helper, own_name, Makes-store_auth) depth 12

  Makes-resolve_docker_config_path :
      (override : Text) → Makes Q (resolve_docker_config_path override)
  unfolding resolve_docker_config_path
  Makes-resolve_docker_config_path override = record {
    at = λ env e w h.
        Leaves-if _ _ (is_empty override) _ _
          ((Keeps-bind _ _ (Makes-ask Call.home_dir _ plain)
              (λ home. Keeps-if_ok home _ _ (λ x. Keeps-pure _) (λ dir. Keeps-pure _))).at
            env e w h)
          (Leaves-if _ _ (has_suffix (codes "config.json") override) _ _
            ((Keeps-pure {E = λ env. Unit {0}} _).at env e w h)
            ((Keeps-pure {E = λ env. Unit {0}} _).at env e w h));
  }

  Makes-load_docker_config_auth :
      (config_path : Text) → Makes Q (load_docker_config_auth config_path host)
  unfolding load_docker_config_auth decode_config
  Makes-load_docker_config_auth config_path =
      search (makes_rules, Keeps-env, Makes-resolve_docker_config_path, plain, Makes-config_auth)
        depth 16

Makes-load_ecr_auth :
    (host : Text) → is_ecr_host host ≡ true → Makes (IsAllowed false host) (load_ecr_auth host)
unfolding load_ecr_auth decode_basic_auth
Makes-load_ecr_auth host e =
    let configured : IsAllowed false host Call.aws_config = e in
    let asked : IsAllowed false host Call.ecr_token = e in
    search (makes_rules, Keeps-env, configured, asked) depth 16

-- The credentials of the configuration are complete.
abbrev pub is_explicit : Text → Text → Bool
is_explicit user password = not (is_empty user) && not (is_empty password)

Makes-load_auth :
    (config_path registry_host user password : Text)
    → Makes
        (IsAllowed (is_explicit user password) (normalize_registry_host registry_host))
        (load_auth config_path registry_host user password)
unfolding load_auth
Makes-load_auth config_path registry_host user password =
    elim (Bool-cases (is_explicit user password)) [
      | inl e ↦ rw e (Keeps-pure _)
      | inr e ↦ rw e (
          Keeps-test (is_ecr_host (normalize_registry_host registry_host)) _ _
            (λ ecr.
              Keeps-bind _ _ (Makes-load_ecr_auth _ ecr)
                (λ auth. Keeps-if_ok auth _ _ (λ x. Keeps-pure _) (λ a. Keeps-pure _)))
            (λ plain. Makes-load_docker_config_auth _ plain config_path))
    ]

-- LoadAuth adds, to a record of calls that has no others, no calls at all where the configuration
-- has a user and a password; for an ECR host otherwise none but loading the default configuration
-- of AWS and asking for the token of its account; and for another host none but reading files, the
-- home directory, and helpers asked for that host or, on Docker Hub, one of its other names,
-- whatever the world answers.
pub load_auth-IsAllowed :
    (config_path registry_host user password : Text) (env : Env) (w : World)
    → All (IsAllowed (is_explicit user password) (normalize_registry_host registry_host)) w.trace
    → All
        (IsAllowed (is_explicit user password) (normalize_registry_host registry_host))
        (load_auth config_path registry_host user password env w).1.trace
load_auth-IsAllowed config_path registry_host user password env w h =
    trace-Makes _ (Makes-load_auth config_path registry_host user password) env w h
