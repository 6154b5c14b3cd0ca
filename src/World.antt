-- ===== src/World.antt =====
-- What the program meets outside: the Docker daemon, registries, the notifier, the clock, the
-- file system and helper programs. Each call is recorded, and what it answers may depend on all
-- the calls before it; an environment is any such family of answers.
pub mod Keeps
pub mod Makes
pub mod Gives
pub mod Splits
pub mod Sound
pub mod Reads
use openwatch.Base.{ℕ, Bool, Option, none, some, List, ◌∷◌}
use openwatch.Base.Text.{Text}
use openwatch.Base.Assoc.{Assoc}
use openwatch.Base.Numbers.{ℤ}
use openwatch.Base.Errors.{Error, Result, ok, err}
use openwatch.Docker.{ContainerConfig, HostConfig, EndpointSettings, InspectResponse, ImageInspect}
use openwatch.Registry.{PlatformDescriptor, DockerConfig}
use openwatch.Metrics.{Metrics}
use openwatch.State.{StateStore, Time}
use openwatch.State.Writes.{Write, perform}

-- registry.AuthConfig of the Docker library
pub record AuthConfig : Type 0 where
  pub username : Text
  pub password : Text
  pub server_address : Text

-- The notification events of watcher.go.
pub data Event : Type 0 where
  update_started update_success update_failed update_available : Event
  rollback_trigger rollback_success rollback_failed : Event

pub data Method : Type 0 where
  head get : Method

pub data Authorization : Type 0 where
  anonymous : Authorization
  basic : Text → Text → Authorization
  bearer : Text → Authorization

-- A request to a registry or a token endpoint, with the query parameters that are set.
pub record Request : Type 0 where
  pub method : Method
  pub url : Text
  pub query : Assoc Text
  pub accept : Text
  pub authorization : Authorization

-- A response; reading its body may fail.
pub record Response : Type 0 where
  pub status : ℕ
  pub www_authenticate : Text
  pub docker_content_digest : Text
  pub content_type : Text
  pub body : Result Text

pub data Call : Type 0 where
  container_list : Bool → Call
  container_inspect container_start image_inspect image_drain image_remove : Text → Call
  container_stop : Text → ℤ → Call
  container_kill : Text → Text → Call
  -- with `Force` and `RemoveVolumes`
  container_remove : Text → Bool → Bool → Call
  -- configuration, host configuration, the one network, name
  container_create : ContainerConfig → HostConfig → Option (Text × EndpointSettings) → Text → Call
  network_connect : Text → Text → EndpointSettings → Call
  -- reference and encoded credentials
  image_pull : Text → Text → Call
  http_request : Request → Call
  notify : Event → Text → Text → Call
  clock : Call
  sleep : ℕ → Call
  hostname home_dir : Call
  read_file : Text → Call
  -- a credential helper and the server that it is asked for
  run_helper : Text → Text → Call
  -- `LoadDefaultConfig` of the AWS library, whose own reads are its own, and
  -- `GetAuthorizationToken` of the account and region that it has found
  aws_config ecr_token : Call

-- The answers, by the calls made before, latest first.
pub record Env : Type 0 where
  pub container_list : List Call → Bool → Result (List Text)
  pub container_inspect : List Call → Text → Result InspectResponse
  pub container_start : List Call → Text → Result (Unit {0})
  pub container_stop : List Call → Text → ℤ → Result (Unit {0})
  pub container_kill : List Call → Text → Result (Unit {0})
  pub container_remove : List Call → Text → Result (Unit {0})
  pub container_create : List Call → Text → Result Text
  pub network_connect : List Call → Text → Text → Result (Unit {0})
  pub image_inspect : List Call → Text → Result ImageInspect
  pub image_pull : List Call → Text → Result (Unit {0})
  pub image_drain : List Call → Text → Result (Unit {0})
  pub image_remove : List Call → Text → Result (Unit {0})
  pub http : List Call → Request → Result Response
  pub now : List Call → Time
  -- the context was cancelled before the time was over
  pub cancelled : List Call → Bool
  pub hostname : List Call → Result Text
  pub home_dir : List Call → Result Text
  pub read_file : List Call → Text → Result Text
  pub run_helper : List Call → Text → Text → Result Text
  pub aws_config : List Call → Result (Unit {0})
  -- the token of `GetAuthorizationToken`; `none` for no authorization data
  pub ecr_token : List Call → Result (Option Text)
  -- `json.Marshal` and base64 of the credentials
  pub encode_auth : AuthConfig → Result Text
  -- `base64.StdEncoding.DecodeString`
  pub decode_base64 : Text → Result Text
  -- `json.Unmarshal` into the types of the program
  pub decode_manifest : Text → Result Text
  pub decode_manifest_list : Text → Result (List PlatformDescriptor)
  pub decode_token : Text → Result (Text × Text)
  pub decode_docker_config : Text → Result DockerConfig
  pub decode_credential : Text → Result (Text × Text)
  -- the host of `url.Parse`, and whether `http.NewRequest` takes the URL
  pub url_host : Text → Result Text
  pub is_url : Text → Bool
  -- `filepath.Join`
  pub join_path : List Text → Text
  -- `runtime.GOARCH`
  pub goarch : Text

pub record World : Type 0 where
  pub trace : List Call
  pub store : Option StateStore
  -- the calls that the store has got, latest first, which the program itself does not keep
  pub writes : List Write
  pub metrics : Option Metrics

-- A Go call returns or panics; `stuck` is a loop of the model that has used up its fuel.
pub data Outcome {ℓ} (A : Type ℓ) : Type ℓ where
  done : A → Outcome A
  panic stuck : Outcome A

abbrev pub M {ℓ} : Type ℓ → Type ℓ
M A = Env → World → Outcome A × World

module _ {ℓ} {A : Type ℓ} where
  unfoldable pub pure : A → M A
  pure a env w = (done a, w)

  -- A nil dereference or an index out of range.
  unfoldable pub fault : M A
  fault env w = (panic, w)

  unfoldable pub exhausted : M A
  exhausted env w = (stuck, w)

  -- An outside call and its answer.
  unfoldable pub ask : Call → (Env → List Call → A) → M A
  ask c answer env w = (done (answer env w.trace), record w { trace = c ∷ w.trace })

module _ {ℓ κ} {A : Type ℓ} {B : Type κ} where
  abbrev pub continue : Outcome A → (A → M B) → M B
  continue (done a) f env w = f a env w
  continue panic f env w = (panic, w)
  continue stuck f env w = (stuck, w)

  infixl 5 ◌>>=◌
  unfoldable pub ◌>>=◌ : M A → (A → M B) → M B
  ◌>>=◌ m f env w = let (r, w') = m env w in continue r f env w'

  infixl 5 ◌>>◌
  abbrev pub ◌>>◌ : M A → M B → M B
  m >> n = m >>= λ _. n

  -- `if err != nil { ... }`
  unfoldable pub if_ok : Result A → (Error → M B) → (A → M B) → M B
  if_ok (ok a) failed go = go a
  if_ok (err e) failed go = failed e

  -- A pointer that may be nil.
  unfoldable pub if_some : Option A → M B → (A → M B) → M B
  if_some none absent go = absent
  if_some (some a) absent go = go a

-- A method of the store that reads the clock; a nil store is left alone, and so is the clock.
abbrev pub stamped : (Time → Write) → Option StateStore → Env → World → World
stamped f none env w = w
stamped f (some s) env w = record w {
  trace = clock ∷ w.trace;
  store = some (perform (f (env.now w.trace)) s);
  writes = f (env.now w.trace) ∷ w.writes;
}

unfoldable pub update_store : (Time → Write) → M (Unit {0})
update_store f env w = (done tt, stamped f w.store env w)

-- A method of the store that reads no clock.
abbrev pub unstamped : Write → Option StateStore → World → World
unstamped c none w = w
unstamped c (some s) w = record w { store = some (perform c s); writes = c ∷ w.writes }

unfoldable pub modify_store : Write → M (Unit {0})
modify_store c env w = (done tt, unstamped c w.store w)

unfoldable pub update_metrics : (Option Metrics → Option Metrics) → M (Unit {0})
update_metrics f env w = (done tt, record w { metrics = f w.metrics })

-- `time.Now()`
unfoldable pub read_clock : M Time
unfolding ask
read_clock = ask clock (λ env tr. env.now tr)

-- `_ = w.notify.Notify(...)`
unfoldable pub send : Event → Text → Text → M (Unit {0})
unfolding ask
send event name details = ask (notify event name details) (λ env tr. tt)
