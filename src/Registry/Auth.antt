-- ===== src/Registry/Auth.antt =====
-- internal/registry/auth.go: the credentials for a registry host.
pub mod Asks
use openwatch.Base.{
  suc, ℕ, Bool, false, not, ◌&&◌, ◌||◌, Option, none, some, List, [], ◌∷◌, ◌++◌, ◌==◌, leb,
  if◌then◌else◌, take, drop,
}
use openwatch.Base.Text.{
  Text, codes, text_eq, index, to_lower, trim_space, has_prefix, has_suffix, contains, equal_fold,
  is_empty, trim_left,
}
use openwatch.Base.Assoc.{Assoc, lookup}
use openwatch.Base.Errors.{message, wrap, Result, ok, err, is_not_exist}
use openwatch.Registry.{DockerConfig, DockerConfigAuth}
use openwatch.Registry.Resolver.{default_registry}
use openwatch.World.{AuthConfig, Call, Env, M, pure, ask, ◌>>=◌, if_ok, if_some}

unfoldable pub normalize_registry_host : Text → Text
normalize_registry_host host =
    let h = to_lower (trim_space host) in
    if is_empty h
      || (text_eq h (codes "docker.io")
          || (text_eq h (codes "index.docker.io") || text_eq h (codes "registry-1.docker.io")))
    then default_registry
    else h

is_digit : ℕ → Bool
is_digit c = leb b'0' c && leb c b'9'

-- [a-z0-9-]
is_region_byte : ℕ → Bool
unfolding is_digit
is_region_byte c = (leb b'a' c && leb c b'z') || (is_digit c || (c == b'-'))

-- The text begins with one or more bytes of the class.
begins : (ℕ → Bool) → Text → Bool
begins p [] = false
begins p (c ∷ s) = p c

-- `ecrHostPattern`: digits, ".dkr.ecr.", a region and ".amazonaws.com", no more. No class holds a
-- dot, so each run is as long as it can be.
unfoldable pub is_ecr_host : Text → Bool
unfolding is_digit is_region_byte begins
is_ecr_host host =
    let mark = codes ".dkr.ecr." in
    let rest = trim_left is_digit host in
    let region = drop 9 rest in
    begins is_digit host
    && (has_prefix mark rest
        && (begins is_region_byte region
            && text_eq (trim_left is_region_byte region) (codes ".amazonaws.com")))

-- `strings.SplitN(s, ":", 2)`, if there are two parts.
abbrev pub halves : Text → Option ℕ → Option (Text × Text)
halves s none = none
halves s (some i) = some (take i s, drop (suc i) s)

unfoldable pub split_colon : Text → Option (Text × Text)
split_colon s = halves s (index b':' s)

abbrev pub pair_of : Result Text → Option (Text × Text)
pair_of (err e) = none
pair_of (ok raw) = split_colon raw

unfoldable pub decode_basic_auth : Text → M (Option (Text × Text))
decode_basic_auth encoded env w = pure (pair_of (env.decode_base64 encoded)) env w

abbrev pub credentials : Text → Text × Text → AuthConfig
credentials host (user, password) = record {
  username = user;
  password = password;
  server_address = host;
}

unfoldable pub load_ecr_auth : Text → M (Result AuthConfig)
load_ecr_auth host = do
  aws ← ask Call.aws_config (λ env tr. env.aws_config tr)
  if_ok aws (λ e. pure (err e))
      λ _. do
        answer ← ask Call.ecr_token (λ env tr. env.ecr_token tr)
        if_ok answer (λ e. pure (err e))
            λ data_or_none.
              if_some data_or_none
                (pure (err (message (codes "ecr returned no authorization data"))))
                λ token. do
                  parts ← decode_basic_auth token
                  if_some parts (pure (err (message (codes "ecr auth token malformed"))))
                      λ p. pure (ok (credentials host p))

unfoldable pub decode_credential_output : Text → M (Result (Text × Text))
decode_credential_output out env w = pure (env.decode_credential out) env w

-- `nil, nil` is `ok none`.
unfoldable pub exec_credential_helper : Text → Text → M (Result (Option AuthConfig))
exec_credential_helper helper server_url = do
  answer ← ask (Call.run_helper helper server_url) (λ env tr. env.run_helper tr helper server_url)
  if_ok answer (λ e. pure (err e))
      λ out. do
        decoded ← decode_credential_output out
        if_ok decoded (λ e. pure (err e))
            λ (user, secret).
              if is_empty user && is_empty secret
              then pure (ok none)
              else pure (ok (some (credentials server_url (user, secret))))

abbrev pub found_auth : Result (Option AuthConfig) → Option AuthConfig
found_auth (err e) = none
found_auth (ok auth) = auth

-- The loop over the host aliases: the first credentials that the store has.
unfoldable pub ask_store : Text → List Text → M (Option AuthConfig)
ask_store store [] = pure none
ask_store store (host ∷ hosts) = do
  answer ← exec_credential_helper store host
  if_some (found_auth answer) (ask_store store hosts) λ auth. pure (some auth)

abbrev pub hub_aliases : List Text
hub_aliases =
    codes "https://index.docker.io/v1/"
    ∷ codes "https://index.docker.io/v2/"
    ∷ codes "index.docker.io"
    ∷ codes "docker.io"
    ∷ []

abbrev pub with_aliases : Text → List Text → List Text
with_aliases host names = if text_eq host default_registry then names ++ hub_aliases else names

unfoldable pub resolve_docker_config_path : Text → M (Result Text)
resolve_docker_config_path override env w =
    if is_empty override
    then (do
      home ← ask Call.home_dir (λ e tr. e.home_dir tr)
      if_ok home (λ e. pure (err e))
          λ dir. pure (ok (env.join_path (dir ∷ codes ".docker" ∷ codes "config.json" ∷ []))))
        env w
    else if has_suffix (codes "config.json") override
    then pure (ok override) env w
    else pure (ok (env.join_path (override ∷ codes "config.json" ∷ []))) env w

-- The candidate keys in turn.
unfoldable pub first_candidate : Assoc DockerConfigAuth → List Text → Option DockerConfigAuth
first_candidate auths [] = none
first_candidate auths (key ∷ candidates) =
    let rest = first_candidate auths candidates in
    elim (lookup key auths) [ some v ↦ some v | none ↦ rest ]

abbrev pub same_host : Text → Result Text → Bool
same_host host (err e) = false
same_host host (ok h) = equal_fold h host

unfoldable pub host_matches : Env → Text → Text → Bool
host_matches env key host =
    same_host host
      (env.url_host (if contains (codes "://") key then key else codes "https://" ++ key))

-- The loop over the map's keys.
unfoldable pub match_host : Env → Assoc DockerConfigAuth → Text → Option DockerConfigAuth
match_host env [] host = none
match_host env ((key, v) ∷ auths) host =
    let rest = match_host env auths host in if host_matches env key host then some v else rest

abbrev pub or_match : Option DockerConfigAuth → Option DockerConfigAuth → Option DockerConfigAuth
or_match none o = o
or_match (some v) o = some v

unfoldable pub lookup_auth : Env → Assoc DockerConfigAuth → Text → Option DockerConfigAuth
lookup_auth env auths host =
    or_match
      (first_candidate auths
        (with_aliases host (host ∷ (codes "https://" ++ host) ∷ (codes "http://" ++ host) ∷ [])))
      (match_host env auths host)

unfoldable pub find_auth : Assoc DockerConfigAuth → Text → M (Option DockerConfigAuth)
find_auth auths host env w = pure (lookup_auth env auths host) env w

-- The user name and password of an entry: its `auth` field where one of the two is missing.
unfoldable pub entry_credentials : DockerConfigAuth → M (Text × Text)
entry_credentials entry =
    if not (is_empty entry.auth) && (is_empty entry.username || is_empty entry.password)
    then (do
      parts ← decode_basic_auth entry.auth
      if_some parts (pure (entry.username, entry.password)) λ p. pure p)
    else pure (entry.username, entry.password)

-- The plain `auths` field.
unfoldable pub plain_auth : DockerConfig → Text → M (Result (Option AuthConfig))
plain_auth cfg host = do
  found ← find_auth cfg.auths host
  if_some found (pure (ok none)) λ entry. do
    (user, password) ← entry_credentials entry
    if is_empty user && is_empty password
        then pure (ok none)
        else pure (ok (some (credentials host (user, password))))

-- The global credential store, then the plain field.
unfoldable pub store_auth : DockerConfig → Text → M (Result (Option AuthConfig))
store_auth cfg host = if is_empty cfg.creds_store then plain_auth cfg host else do
  found ← ask_store cfg.creds_store (with_aliases host (host ∷ []))
  if_some found (plain_auth cfg host) λ auth. pure (ok (some auth))

-- The helper of this host, then the store.
unfoldable pub config_auth : DockerConfig → Text → M (Result (Option AuthConfig))
config_auth cfg host = if_some (lookup host cfg.cred_helpers) (store_auth cfg host) λ helper. do
  answer ← exec_credential_helper helper host
  if_some (found_auth answer) (store_auth cfg host) λ auth. pure (ok (some auth))

unfoldable pub decode_config : Text → M (Result DockerConfig)
decode_config text env w = pure (env.decode_docker_config text) env w

unfoldable pub load_docker_config_auth : Text → Text → M (Result (Option AuthConfig))
load_docker_config_auth config_path host = do
  path ← resolve_docker_config_path config_path
  if_ok path (λ e. pure (ok none))
      λ p. do
        text ← ask (Call.read_file p) (λ env tr. env.read_file tr p)
        if_ok text
            (λ e.
              if is_not_exist e
              then pure (ok none)
              else pure (err (wrap (codes "read docker config") e)))
            λ t. do
              decoded ← decode_config t
              if_ok decoded (λ e. pure (err (wrap (codes "parse docker config") e)))
                  λ cfg. config_auth cfg host

unfoldable pub load_auth : Text → Text → Text → Text → M (Result (Option AuthConfig))
load_auth config_path registry_host env_user env_password =
    let host = normalize_registry_host registry_host in
    if not (is_empty env_user) && not (is_empty env_password)
    then pure (ok (some (credentials host (env_user, env_password))))
    else if is_ecr_host host
    then (do
      auth ← load_ecr_auth host
      if_ok auth
          (λ e. pure (
            err
              (message (codes "ecr authorization failed: check AWS_REGION and AWS_* credentials"))))
          (λ a. pure (ok (some a))))
    else load_docker_config_auth config_path host
