-- ===== src/Registry/Digest.antt =====
-- internal/registry/digest.go: what a registry says of an image. Each request is one call of the
-- world.
pub mod Tokens
pub mod Requests
pub mod Protocol
pub mod Lookup
pub mod Hub
pub mod Bounds
pub mod Platform
mod Tests
unfoldable pub use openwatch.Registry.Digest.Tokens.{
  is_manifest_list, is_docker_hub, do_request, basic_auth, manifest_request, decode_token_body,
  answered_token, fetch_bearer_token, fetch_docker_hub_token,
}
use openwatch.Base.{
  Bool, ◌&&◌, ◌||◌, not, Option, none, some, List, [], ◌∷◌, ◌++◌, ◌==◌, if◌then◌else◌,
}
use openwatch.Base.Text.{Text, codes, text_eq, to_lower, contains, has_prefix, is_empty, trim_space}
use openwatch.Base.Assoc.{Assoc, lookup}
use openwatch.Base.Numbers.{show_nat}
use openwatch.Base.Errors.{message, wrap, Result, ok, err}
use openwatch.Docker.Image.{add_id}
use openwatch.Docker.Reconcile.{text_or_empty}
use openwatch.Registry.{PlatformDescriptor}
use openwatch.Registry.Resolver.{Reference}
use openwatch.Registry.Challenge.{parse_challenge}
use openwatch.World.{
  AuthConfig, Authorization, anonymous, basic, bearer, Method, Request, Response, Call, M, pure,
  ask, ◌>>=◌, if_ok,
}

unfoldable pub manifest_url : Reference → Text → Text
manifest_url ref reference =
    codes "https://"
    ++ (ref.registry ++ (codes "/v2/" ++ (ref.repository ++ (codes "/manifests/" ++ reference))))

unfoldable pub head_result : Text → Response → Result Text
head_result url resp =
    if resp.status == 200
    then ok resp.docker_content_digest
    else err (message (codes "HEAD " ++ (url ++ (codes ": status " ++ show_nat resp.status))))

unfoldable pub authenticated_head : Text → Text → M (Result Text)
authenticated_head url token = do
  answer ← do_request (manifest_request Method.head url (bearer token))
  if_ok answer (λ e. pure (err (wrap (codes "HEAD " ++ url) e))) λ resp. pure (head_result url resp)

-- 401 or 429, with a bearer challenge.
unfoldable pub is_challenged : Response → Bool
is_challenged resp =
    (resp.status == 401 || resp.status == 429)
    && has_prefix (codes "bearer") (to_lower resp.www_authenticate)

abbrev pub verb : Method → Text
verb Method.head = codes "HEAD "
verb Method.get = codes "GET "

-- The first request without a token, and one retry with the token that the challenge leads to.
unfoldable pub reactive {ℓ} :
    {A : Type ℓ}
    → Method
    → Text
    → Option AuthConfig
    → (Response → M (Result A))
    → (Text → M (Result A))
    → M (Result A)
reactive method url auth direct retry = do
  answer ← do_request (manifest_request method url (basic_auth auth))
  if_ok answer (λ e. pure (err (wrap (verb method ++ url) e)))
      λ resp.
        if is_challenged resp
        then (do
          token ← fetch_bearer_token resp.www_authenticate auth
          if_ok token (λ e. pure (err (wrap (codes "fetch bearer token") e))) retry)
        else direct resp

-- On Docker Hub the token is fetched first; without one the usual flow is taken.
unfoldable pub with_hub_token {ℓ} :
    {A : Type ℓ}
    → Reference
    → Option AuthConfig
    → M (Result A)
    → (Text → M (Result A))
    → M (Result A)
with_hub_token ref auth usual authenticated =
    if is_docker_hub ref.registry
    then (do
      token ← fetch_docker_hub_token ref.repository auth
      if_ok token (λ e. usual) λ t. if is_empty t then usual else authenticated t)
    else usual

unfoldable pub head_manifest : Reference → Text → Option AuthConfig → M (Result Text)
head_manifest ref reference auth =
    let url = manifest_url ref reference in
    with_hub_token ref auth
      (reactive Method.head url auth (λ resp. pure (head_result url resp)) (authenticated_head url))
      (authenticated_head url)

-- `readManifest`: the digest header, the body and the content type.
unfoldable pub read_manifest : Text → Response → Result (Text × Text × Text)
read_manifest url resp = elim resp.body [
  | err e ↦ err (wrap (codes "read manifest body") e)
  | ok body ↦
      if resp.status == 200
      then ok (resp.docker_content_digest, body, resp.content_type)
      else err (
          message (
            codes "GET "
            ++ (url
                ++ (codes ": status "
                    ++ (show_nat resp.status ++ (codes ": " ++ trim_space body))))))
]

unfoldable pub authenticated_get : Text → Text → M (Result (Text × Text × Text))
authenticated_get url token = do
  answer ← do_request (manifest_request Method.get url (bearer token))
  if_ok answer (λ e. pure (err (wrap (codes "GET " ++ url) e)))
      λ resp. pure (read_manifest url resp)

unfoldable pub get_manifest : Reference → Text → Option AuthConfig → M (Result (Text × Text × Text))
get_manifest ref reference auth =
    let url = manifest_url ref reference in
    with_hub_token ref auth
      (reactive Method.get url auth (λ resp. pure (read_manifest url resp)) (authenticated_get url))
      (authenticated_get url)

-- The tag, or the digest where there is no tag.
abbrev pub reference_of : Reference → Text
reference_of ref = if is_empty ref.tag then ref.digest else ref.tag

unfoldable pub head_manifest_digest : Reference → Option AuthConfig → M (Result Text)
head_manifest_digest ref auth =
    if is_empty (reference_of ref)
    then pure (err (message (codes "no tag or digest to look up")))
    else head_manifest ref (reference_of ref) auth

-- The first descriptor of the platform.
unfoldable pub find_platform : Text → Text → List PlatformDescriptor → Option Text
find_platform os arch [] = none
find_platform os arch (m ∷ ms) =
    let rest = find_platform os arch ms in
    if text_eq m.os os && text_eq m.architecture arch then some m.digest else rest

-- linux on the wanted architecture, else linux/amd64, else the first entry.
unfoldable pub choose_platform : Text → List PlatformDescriptor → Result Text
choose_platform goarch [] = err (message (codes "manifest list has no entries"))
choose_platform goarch (m ∷ ms) =
    let arch = if is_empty goarch then codes "amd64" else goarch in
    elim (find_platform (codes "linux") arch (m ∷ ms)) [
      | some digest ↦ ok digest
      | none ↦ elim (find_platform (codes "linux") (codes "amd64") (m ∷ ms)) [
        | some digest ↦ ok digest
        | none ↦ ok m.digest
      ]
    ]

abbrev pub and_choose : Text → Result (List PlatformDescriptor) → Result Text
and_choose goarch (err e) = err e
and_choose goarch (ok ms) = choose_platform goarch ms

unfoldable pub pick_platform_manifest : Text → M (Result Text)
pick_platform_manifest body env w =
    pure (and_choose env.goarch (env.decode_manifest_list body)) env w

unfoldable pub decode_manifest_body : Text → M (Result Text)
decode_manifest_body body env w = pure (env.decode_manifest body) env w

abbrev pub ids_or_error : Text → List Text → Result (List Text)
ids_or_error reference [] =
    err (message (codes "registry returned no identifiers for " ++ reference))
ids_or_error reference (id ∷ ids) = ok (id ∷ ids)

-- The end of `FetchRemoteIdentifiers`, from the parsing of the manifest on.
unfoldable pub finish_identifiers : Text → List Text → Text → M (Result (List Text))
finish_identifiers reference ids body = do
  decoded ← decode_manifest_body body
  if_ok decoded (λ e. pure (err (wrap (codes "parse manifest") e)))
      λ digest. pure (ids_or_error reference (add_id digest ids))

unfoldable pub fetch_identifiers : Reference → Text → Option AuthConfig → M (Result (List Text))
fetch_identifiers ref reference auth = do
  top ← get_manifest ref reference auth
  if_ok top (λ e. pure (err e))
      λ (top_digest, body, content_type).
        if is_manifest_list content_type
        then (do
          picked ← pick_platform_manifest body
          if_ok picked (λ e. pure (err (wrap (codes "pick platform manifest") e)))
              λ platform. do
                leaf ← get_manifest ref platform auth
                if_ok leaf (λ e. pure (err (wrap (codes "resolve platform manifest") e)))
                    λ (leaf_digest, leaf_body, _).
                      finish_identifiers reference
                        (add_id leaf_digest (add_id platform (add_id top_digest []))) leaf_body)
        else finish_identifiers reference (add_id top_digest []) body

unfoldable pub fetch_remote_identifiers : Reference → Option AuthConfig → M (Result (List Text))
fetch_remote_identifiers ref auth =
    if is_empty (reference_of ref)
    then pure (err (message (codes "no tag or digest to look up")))
    else fetch_identifiers ref (reference_of ref) auth
