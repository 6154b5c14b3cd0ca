-- ===== src/Registry/Digest/Protocol.antt =====
-- internal/registry/digest.go: the requests of one manifest lookup, as a protocol that the answers
-- determine, and what is made of the last answer.
use openwatch.Base.{◌≡◌, true, false, Option, List}
use openwatch.Base.Text.{Text, is_empty}
use openwatch.Base.Errors.{Error, Result, ok, err}
use openwatch.Registry.Challenge.{parse_challenge}
use openwatch.Registry.Digest.{basic_auth, manifest_request, is_challenged, is_docker_hub}
use openwatch.Registry.Digest.Requests.{Sent, Fetched}
use openwatch.Registry.Digest.Tokens.{hub_challenge}
use openwatch.Registry.Resolver.{Reference}
use openwatch.World.{AuthConfig, bearer, Method, Response, Call, Env}

-- An answer that asks for no token.
unfoldable pub IsFinal : Result Response → Type 0
IsFinal (err e) = Unit {0}
IsFinal (ok resp) = is_challenged resp ≡ false

-- An attempt that has brought no token.
unfoldable pub IsTokenless : Result Text → Type 0
IsTokenless (err e) = Unit {0}
IsTokenless (ok t) = is_empty t ≡ true

module _ (env : Env) (m : Method) (url : Text) (auth : Option AuthConfig) where
  -- A request with the user's credentials, if there are any; where it is challenged, an attempt to
  -- get a token where the challenge says, and with the token one more request.
  pub data Exchanged (tr : List Call) : Result Response → List Call → Type 0 where
    direct :
        (answer : Result Response) (tr' : List Call)
        → Sent env (manifest_request m url (basic_auth auth)) tr answer tr'
        → IsFinal answer
        → Exchanged tr answer tr'
    stopped :
        (resp : Response) (e e' : Error) (tr₁ tr' : List Call)
        → Sent env (manifest_request m url (basic_auth auth)) tr (ok resp) tr₁
        → is_challenged resp ≡ true
        → Fetched env (parse_challenge resp.www_authenticate) auth tr₁ (err e) tr'
        → Exchanged tr (err e') tr'
    retried :
        (resp : Response) (t : Text) (tr₁ tr₂ : List Call) (answer : Result Response)
        (tr' : List Call)
        → Sent env (manifest_request m url (basic_auth auth)) tr (ok resp) tr₁
        → is_challenged resp ≡ true
        → Fetched env (parse_challenge resp.www_authenticate) auth tr₁ (ok t) tr₂
        → Sent env (manifest_request m url (bearer t)) tr₂ answer tr'
        → Exchanged tr answer tr'

  -- On Docker Hub a token is tried for first, and with one there is one request; otherwise, and
  -- without one, the exchange above.
  pub data Conversation (ref : Reference) (tr : List Call)
      : Result Response → List Call → Type 0 where
    usual :
        (answer : Result Response) (tr' : List Call)
        → is_docker_hub ref.registry ≡ false
        → Exchanged tr answer tr'
        → Conversation ref tr answer tr'
    ahead :
        (t : Text) (tr₁ : List Call) (answer : Result Response) (tr' : List Call)
        → is_docker_hub ref.registry ≡ true
        → Fetched env (parse_challenge (hub_challenge ref.repository)) auth tr (ok t) tr₁
        → is_empty t ≡ false
        → Sent env (manifest_request m url (bearer t)) tr₁ answer tr'
        → Conversation ref tr answer tr'
    behind :
        (r : Result Text) (tr₁ : List Call) (answer : Result Response) (tr' : List Call)
        → is_docker_hub ref.registry ≡ true
        → Fetched env (parse_challenge (hub_challenge ref.repository)) auth tr r tr₁
        → IsTokenless r
        → Exchanged tr₁ answer tr'
        → Conversation ref tr answer tr'

-- What is made of the last answer: `read` of a response, and of an error an error.
unfoldable pub Concludes {ℓ} :
    {A : Type ℓ} → (Response → Result A) → Result Response → Result A → Type ℓ
Concludes read (ok resp) r = r ≡ read resp
Concludes {A = A} read (err e) r = (e' : Error) × (r ≡ err e')
