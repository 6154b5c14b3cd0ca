-- ===== src/Registry/Digest/Tokens.antt =====
-- internal/registry/digest.go: requests to a registry, and the token flow.
use openwatch.Base.{Bool, ◌||◌, not, Option, none, some, [], ◌∷◌, ◌++◌, ◌==◌, if◌then◌else◌}
use openwatch.Base.Text.{Text, codes, text_eq, to_lower, contains, is_empty}
use openwatch.Base.Assoc.{Assoc, lookup}
use openwatch.Base.Numbers.{show_nat}
use openwatch.Base.Errors.{message, Result, ok, err}
use openwatch.Docker.Reconcile.{text_or_empty}
use openwatch.Registry.Challenge.{parse_challenge}
use openwatch.World.{
  AuthConfig, Authorization, anonymous, basic, Method, Request, Response, Call, M, pure, ask, ◌>>=◌,
  if_ok,
}

-- The media types, the list forms first, joined by ", ".
abbrev pub accept_header : Text
accept_header =
    codes "application/vnd.docker.distribution.manifest.list.v2+json"
    ++ (codes ", application/vnd.docker.distribution.manifest.v2+json"
        ++ (codes ", application/vnd.oci.image.index.v1+json"
            ++ codes ", application/vnd.oci.image.manifest.v1+json"))

unfoldable pub is_manifest_list : Text → Bool
is_manifest_list content_type =
    let ct = to_lower content_type in
    contains (codes "manifest.list") ct || contains (codes "image.index") ct

unfoldable pub is_docker_hub : Text → Bool
is_docker_hub host =
    let h = to_lower host in
    text_eq h (codes "registry-1.docker.io")
    || (text_eq h (codes "docker.io") || text_eq h (codes "index.docker.io"))

-- `http.NewRequest` and `httpClient.Do`: an error of the first is reported as one of the second.
unfoldable pub do_request : Request → M (Result Response)
do_request req env w =
    if env.is_url req.url
    then ask (Call.http_request req) (λ e tr. e.http tr req) env w
    else pure (err (message (codes "invalid URL"))) env w

-- `req.SetBasicAuth` where there is a user name.
abbrev pub basic_auth : Option AuthConfig → Authorization
basic_auth none = anonymous
basic_auth (some auth) =
    if is_empty auth.username then anonymous else basic auth.username auth.password

unfoldable pub manifest_request : Method → Text → Authorization → Request
manifest_request method url authorization = record {
  method = method;
  url = url;
  query = [];
  accept = accept_header;
  authorization = authorization;
}

abbrev pub copy_param : Text → Option Text → Assoc Text → Assoc Text
copy_param key none query = query
copy_param key (some v) query = (key, v) ∷ query

unfoldable pub token_request : Assoc Text → Option AuthConfig → Request
token_request params auth = record {
  method = Method.get;
  url = text_or_empty (lookup (codes "realm") params);
  query =
      copy_param (codes "service") (lookup (codes "service") params)
        (copy_param (codes "scope") (lookup (codes "scope") params) []);
  accept = [];
  authorization = basic_auth auth;
}

-- `token`, or `access_token` where that is "".
abbrev pub chosen_token : Text × Text → Text
chosen_token (token, access_token) = if is_empty token then access_token else token

unfoldable pub decode_token_body : Text → M (Result (Text × Text))
decode_token_body body env w = pure (env.decode_token body) env w

-- What the token endpoint has answered.
unfoldable pub answered_token : Response → M (Result Text)
answered_token resp =
    if not (resp.status == 200)
    then pure (err (message (codes "token endpoint returned status " ++ show_nat resp.status)))
    else if_ok resp.body (λ e. pure (err e))
        λ body. do
          decoded ← decode_token_body body
          if_ok decoded (λ e. pure (err e)) λ tokens. pure (ok (chosen_token tokens))

unfoldable pub fetch_bearer_token : Text → Option AuthConfig → M (Result Text)
fetch_bearer_token challenge auth =
    let params = parse_challenge challenge in
    if is_empty (text_or_empty (lookup (codes "realm") params))
    then pure (err (message (codes "bearer challenge missing realm")))
    else do
      answer ← do_request (token_request params auth)
      if_ok answer (λ e. pure (err e)) answered_token

abbrev pub hub_challenge : Text → Text
hub_challenge repository =
    codes
      "Bearer realm=\"https://auth.docker.io/token\",service=\"registry.docker.io\",scope=\"repository:"
    ++ (repository ++ codes ":pull\"")

unfoldable pub fetch_docker_hub_token : Text → Option AuthConfig → M (Result Text)
fetch_docker_hub_token repository auth = fetch_bearer_token (hub_challenge repository) auth
