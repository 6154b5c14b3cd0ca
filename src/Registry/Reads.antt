-- ===== src/Registry/Reads.antt =====
-- internal/registry: asking a registry and finding credentials makes only calls that look.
use openwatch.Base.{Option, none, List, [], ◌∷◌}
use openwatch.Base.Text.{Text, is_empty, has_suffix, codes}
use openwatch.Base.Errors.{Result}
use openwatch.Registry.{DockerConfig, DockerConfigAuth}
use openwatch.Registry.Auth
use openwatch.Registry.Digest
use openwatch.Registry.Resolver.{Reference}
use openwatch.World.{Env, World, AuthConfig, Method, Request, Response, M}
use openwatch.World.Keeps.{
  Keeps, Leaves-if, Keeps-env, Keeps-pure, Keeps-ask, Keeps-bind, Keeps-if_ok, Keeps-if_some,
  keeps_rules,
}
use openwatch.World.Reads.{Looks}

module _ {E : Env → Type 0} {S : Type 0} {I : World → Type 0} (q : Looks I) where
  Keeps-do_request : (r : Request) → Keeps E S I (Digest.do_request r)
  unfolding Digest.do_request
  Keeps-do_request r = record {
    at = λ env e w h.
        Leaves-if S I (env.is_url r.url) _ _ ((Keeps-ask {E = E} _ _ (q.http r)).at env e w h)
          ((Keeps-pure {E = E} _).at env e w h);
  }

  Keeps-fetch_bearer_token :
      (challenge : Text) (auth : Option AuthConfig)
      → Keeps E S I (Digest.fetch_bearer_token challenge auth)
  unfolding Digest.fetch_bearer_token Digest.answered_token Digest.decode_token_body
  Keeps-fetch_bearer_token challenge auth =
      search (keeps_rules, Keeps-do_request, Keeps-env) depth 12

  Keeps-fetch_docker_hub_token :
      (repository : Text) (auth : Option AuthConfig)
      → Keeps E S I (Digest.fetch_docker_hub_token repository auth)
  unfolding Digest.fetch_docker_hub_token
  Keeps-fetch_docker_hub_token repository auth = Keeps-fetch_bearer_token _ auth

  module _ {ℓ} {A : Type ℓ} where
    Keeps-reactive :
        (m : Method) (url : Text) (auth : Option AuthConfig) (direct : Response → M (Result A))
        (retry : Text → M (Result A))
        → ((resp : Response) → Keeps E S I (direct resp))
        → ((t : Text) → Keeps E S I (retry t))
        → Keeps E S I (Digest.reactive m url auth direct retry)
    unfolding Digest.reactive
    Keeps-reactive m url auth direct retry hd hr =
        search (keeps_rules, Keeps-do_request, Keeps-fetch_bearer_token) depth 12

    Keeps-with_hub_token :
        (ref : Reference) (auth : Option AuthConfig) (usual : M (Result A))
        (authenticated : Text → M (Result A))
        → Keeps E S I usual
        → ((t : Text) → Keeps E S I (authenticated t))
        → Keeps E S I (Digest.with_hub_token ref auth usual authenticated)
    unfolding Digest.with_hub_token
    Keeps-with_hub_token ref auth usual authenticated hu ha =
        search (keeps_rules, Keeps-fetch_docker_hub_token) depth 12

  Keeps-head_manifest :
      (ref : Reference) (reference : Text) (auth : Option AuthConfig)
      → Keeps E S I (Digest.head_manifest ref reference auth)
  unfolding Digest.head_manifest Digest.authenticated_head
  Keeps-head_manifest ref reference auth =
      search (keeps_rules, Keeps-do_request, Keeps-reactive, Keeps-with_hub_token) depth 12

  Keeps-get_manifest :
      (ref : Reference) (reference : Text) (auth : Option AuthConfig)
      → Keeps E S I (Digest.get_manifest ref reference auth)
  unfolding Digest.get_manifest Digest.authenticated_get
  Keeps-get_manifest ref reference auth =
      search (keeps_rules, Keeps-do_request, Keeps-reactive, Keeps-with_hub_token) depth 12

  pub Keeps-head_manifest_digest :
      (ref : Reference) (auth : Option AuthConfig)
      → Keeps E S I (Digest.head_manifest_digest ref auth)
  unfolding Digest.head_manifest_digest
  Keeps-head_manifest_digest ref auth = search (keeps_rules, Keeps-head_manifest) depth 12

  Keeps-finish_identifiers :
      (reference : Text) (ids : List Text) (body : Text)
      → Keeps E S I (Digest.finish_identifiers reference ids body)
  unfolding Digest.finish_identifiers Digest.decode_manifest_body
  Keeps-finish_identifiers reference ids body = search (keeps_rules, Keeps-env) depth 12

  Keeps-fetch_identifiers :
      (ref : Reference) (reference : Text) (auth : Option AuthConfig)
      → Keeps E S I (Digest.fetch_identifiers ref reference auth)
  unfolding Digest.fetch_identifiers Digest.pick_platform_manifest
  Keeps-fetch_identifiers ref reference auth =
      search (keeps_rules, Keeps-env, Keeps-get_manifest, Keeps-finish_identifiers) depth 16

  pub Keeps-fetch_remote_identifiers :
      (ref : Reference) (auth : Option AuthConfig)
      → Keeps E S I (Digest.fetch_remote_identifiers ref auth)
  unfolding Digest.fetch_remote_identifiers
  Keeps-fetch_remote_identifiers ref auth = search (keeps_rules, Keeps-fetch_identifiers) depth 12

  Keeps-exec_credential_helper :
      (helper server_url : Text) → Keeps E S I (Auth.exec_credential_helper helper server_url)
  unfolding Auth.exec_credential_helper Auth.decode_credential_output
  Keeps-exec_credential_helper helper server_url =
      search (keeps_rules, Keeps-env, q.run_helper) depth 12

  Keeps-ask_store : (store : Text) (hosts : List Text) → Keeps E S I (Auth.ask_store store hosts)
  unfolding Auth.ask_store
  Keeps-ask_store store [] = Keeps-pure none
  Keeps-ask_store store (host ∷ hosts) =
      Keeps-bind _ _ (Keeps-exec_credential_helper store host)
        (λ answer. Keeps-if_some _ _ _ (Keeps-ask_store store hosts) (λ auth. Keeps-pure _))

  Keeps-load_ecr_auth : (host : Text) → Keeps E S I (Auth.load_ecr_auth host)
  unfolding Auth.load_ecr_auth Auth.decode_basic_auth
  Keeps-load_ecr_auth host = search (keeps_rules, Keeps-env, q.aws_config, q.ecr_token) depth 12

  Keeps-entry_credentials : (entry : DockerConfigAuth) → Keeps E S I (Auth.entry_credentials entry)
  unfolding Auth.entry_credentials Auth.decode_basic_auth
  Keeps-entry_credentials entry = search (keeps_rules, Keeps-env) depth 12

  Keeps-plain_auth : (cfg : DockerConfig) (host : Text) → Keeps E S I (Auth.plain_auth cfg host)
  unfolding Auth.plain_auth Auth.find_auth
  Keeps-plain_auth cfg host = search (keeps_rules, Keeps-env, Keeps-entry_credentials) depth 12

  Keeps-store_auth : (cfg : DockerConfig) (host : Text) → Keeps E S I (Auth.store_auth cfg host)
  unfolding Auth.store_auth
  Keeps-store_auth cfg host = search (keeps_rules, Keeps-ask_store, Keeps-plain_auth) depth 12

  Keeps-config_auth : (cfg : DockerConfig) (host : Text) → Keeps E S I (Auth.config_auth cfg host)
  unfolding Auth.config_auth
  Keeps-config_auth cfg host =
      search (keeps_rules, Keeps-exec_credential_helper, Keeps-store_auth) depth 12

  Keeps-resolve_docker_config_path :
      (override : Text) → Keeps E S I (Auth.resolve_docker_config_path override)
  unfolding Auth.resolve_docker_config_path
  Keeps-resolve_docker_config_path override = record {
    at = λ env e w h.
        Leaves-if S I (is_empty override) _ _
          ((Keeps-bind {E = E} _ _ (Keeps-ask _ _ q.home_dir)
              (λ home. Keeps-if_ok home _ _ (λ x. Keeps-pure _) (λ dir. Keeps-pure _))).at
            env e w h)
          (Leaves-if S I (has_suffix (codes "config.json") override) _ _
            ((Keeps-pure {E = E} _).at env e w h) ((Keeps-pure {E = E} _).at env e w h));
  }

  Keeps-load_docker_config_auth :
      (config_path host : Text) → Keeps E S I (Auth.load_docker_config_auth config_path host)
  unfolding Auth.load_docker_config_auth Auth.decode_config
  Keeps-load_docker_config_auth config_path host =
      search
        (keeps_rules, Keeps-env, Keeps-resolve_docker_config_path, q.read_file, Keeps-config_auth)
        depth 16

  pub Keeps-load_auth :
      (config_path registry_host env_user env_password : Text)
      → Keeps E S I (Auth.load_auth config_path registry_host env_user env_password)
  unfolding Auth.load_auth
  Keeps-load_auth config_path registry_host env_user env_password =
      search (keeps_rules, Keeps-load_ecr_auth, Keeps-load_docker_config_auth) depth 16
