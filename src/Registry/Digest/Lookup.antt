-- ===== src/Registry/Digest/Lookup.antt =====
-- internal/registry/digest.go: manifest lookups, step by step through the protocol.
use openwatch.Base.{◌≡◌, refl, true, Option, List}
use openwatch.Base.Text.{Text, is_empty}
use openwatch.Base.Errors.{wrap, Result, ok, err}
use openwatch.Registry.Challenge.{parse_challenge}
use openwatch.Registry.Digest.{
  do_request, manifest_request, is_challenged, is_docker_hub, reactive, with_hub_token,
  fetch_docker_hub_token, authenticated_head, authenticated_get, head_manifest, get_manifest,
  manifest_url, head_result, read_manifest,
}
use openwatch.Registry.Digest.Protocol.{
  IsFinal, IsTokenless, Exchanged, direct, stopped, retried, Conversation, usual, ahead, behind,
  Concludes,
}
use openwatch.Registry.Digest.Requests.{Sent, do_request-Sent, Fetched, fetch_bearer_token-Fetched}
use openwatch.Registry.Digest.Tokens.{hub_challenge}
use openwatch.Registry.Resolver.{Reference}
use openwatch.World.{AuthConfig, bearer, Method, Response, Call, Env, World, M, pure, ◌>>=◌, if_ok}
use openwatch.World.Gives.{Gives, Gives-weaken, Gives-pure, Gives-if, Gives-bind, Gives-if_ok}

module _ {A : Type 0} (env : Env) (m : Method) (url : Text) (auth : Option AuthConfig)
    (read : Response → Result A) where
  -- By the last answer, which is related to the record of calls by `R`.
  abbrev pub After : (Result Response → List Call → Type 0) → Result A → List Call → Type 0
  After R r tr = (answer : Result Response) × R answer tr × Concludes read answer r

  -- A request whose answer is the last.
  closing :
      (t : Text) (what : Text) (w : World)
      → Gives (After (Sent env (manifest_request m url (bearer t)) w.trace)) (
          (do
            answer ← do_request (manifest_request m url (bearer t))
            if_ok answer (λ e. pure (err (wrap what e))) λ resp. pure (read resp))
            env w)
  unfolding Concludes
  closing t what w =
      let R = After (Sent env (manifest_request m url (bearer t)) w.trace) in
      Gives-bind _ R _ _ env w (do_request-Sent _ env w) λ answer w' s.
        Gives-if_ok R answer _ _ env w' (λ e h. Gives-pure R _ env w' (err e, rw h at s, (_, refl)))
          (λ resp h. Gives-pure R _ env w' (ok resp, rw h at s, refl))

  module _ (retry : Text → M (Result A))
      (last : (t : Text) (w : World)
        → Gives
            (After (Sent env (manifest_request m url (bearer t)) w.trace))
            (retry t env w)) where
    reactive-Exchanged :
        (w : World)
        → Gives
            (After (Exchanged env m url auth w.trace))
            (reactive m url auth (λ resp. pure (read resp)) retry env w)
    unfolding reactive Concludes IsFinal
    reactive-Exchanged w =
        let R = After (Exchanged env m url auth w.trace) in
        Gives-bind _ R _ _ env w (do_request-Sent _ env w) λ answer w₁ s.
          Gives-if_ok R answer _ _ env w₁
            (λ e h. Gives-pure R _ env w₁ (err e, direct (err e) _ (rw h at s) tt, (_, refl)))
            λ resp h.
              Gives-if R (is_challenged resp) _ _ env w₁
                (λ yes.
                  Gives-bind _ R _ _ env w₁
                    (fetch_bearer_token-Fetched resp.www_authenticate auth env w₁)
                    λ token w₂ f.
                      Gives-if_ok R token _ _ env w₂
                        (λ e g.
                          Gives-pure R _ env w₂
                            (err e, stopped resp e e _ _ (rw h at s) yes (rw g at f), (_, refl)))
                        λ t g.
                          Gives-weaken
                            (After (Sent env (manifest_request m url (bearer t)) w₂.trace)) R _
                            (λ r tr (a, k, c).
                              (a, retried resp t _ _ a tr (rw h at s) yes (rw g at f) k, c))
                            (last t w₂))
                (λ no. Gives-pure R _ env w₁ (ok resp, direct (ok resp) _ (rw h at s) no, refl))

    with_hub_token-Conversation :
        (ref : Reference) (w : World)
        → Gives (After (Conversation env m url auth ref w.trace)) (
            with_hub_token ref auth
              (reactive m url auth (λ resp. pure (read resp)) retry)
              retry
              env
              w)
    unfolding with_hub_token fetch_docker_hub_token IsTokenless
    with_hub_token-Conversation ref w =
        let R = After (Conversation env m url auth ref w.trace) in
        Gives-if R (is_docker_hub ref.registry) _ _ env w
          (λ hub. Gives-bind _ R _ _ env w (fetch_bearer_token-Fetched _ auth env w) λ token w₁ f.
            Gives-if_ok R token _ _ env w₁ (λ e h. fall_back w₁ ref w hub token f (rw h tt))
              λ t h.
                Gives-if R (is_empty t) _ _ env w₁
                  (λ none_given. fall_back w₁ ref w hub token f (rw h none_given))
                  λ given.
                    Gives-weaken (After (Sent env (manifest_request m url (bearer t)) w₁.trace)) R _
                      (λ r tr (a, k, c). (a, ahead t _ a tr hub (rw h at f) given k, c))
                      (last t w₁))
          (λ other.
            Gives-weaken (After (Exchanged env m url auth w.trace)) R _
              (λ r tr (a, k, c). (a, usual a tr other k, c)) (reactive-Exchanged w))
      where
        fall_back :
            (w₁ : World) (ref : Reference) (w : World)
            → is_docker_hub ref.registry ≡ true
            → (token : Result Text)
            → Fetched env
                (parse_challenge (hub_challenge ref.repository))
                auth
                w.trace
                token
                w₁.trace
            → IsTokenless token
            → Gives
                (After (Conversation env m url auth ref w.trace))
                (reactive m url auth (λ resp. pure (read resp)) retry env w₁)
        fall_back w₁ ref w hub token f n =
            Gives-weaken (After (Exchanged env m url auth w₁.trace))
              (After (Conversation env m url auth ref w.trace)) _
              (λ r tr (a, k, c). (a, behind token _ a tr hub f n k, c)) (reactive-Exchanged w₁)

pub head_manifest-Conversation :
    (ref : Reference) (reference : Text) (auth : Option AuthConfig) (env : Env) (w : World)
    → let url = manifest_url ref reference in
      Gives
        (After env Method.head url auth
          (head_result url)
          (Conversation env Method.head url auth ref w.trace))
        (head_manifest ref reference auth env w)
unfolding head_manifest authenticated_head
head_manifest-Conversation ref reference auth env w =
    let url = manifest_url ref reference in
    with_hub_token-Conversation env Method.head url auth (head_result url) (authenticated_head url)
      (λ t w. closing env Method.head url auth (head_result url) t _ w) ref w

pub get_manifest-Conversation :
    (ref : Reference) (reference : Text) (auth : Option AuthConfig) (env : Env) (w : World)
    → let url = manifest_url ref reference in
      Gives
        (After env Method.get url auth
          (read_manifest url)
          (Conversation env Method.get url auth ref w.trace))
        (get_manifest ref reference auth env w)
unfolding get_manifest authenticated_get
get_manifest-Conversation ref reference auth env w =
    let url = manifest_url ref reference in
    with_hub_token-Conversation env Method.get url auth (read_manifest url) (authenticated_get url)
      (λ t w. closing env Method.get url auth (read_manifest url) t _ w) ref w

-- A HEAD and a GET of a manifest return, and send what the protocol says. On Docker Hub a token is
-- asked for first, and where one comes, the manifest is asked for once, with it; otherwise it is
-- asked for with the user's credentials, and where the answer is a challenge, a token is asked for
-- where the challenge says, and where one comes, the manifest is asked for once more, with it. The
-- result is what is read from the last answer, and an error where there is none.
pub lookups-Conversation :
    (ref : Reference) (reference : Text) (auth : Option AuthConfig) (env : Env) (w : World)
    → let url = manifest_url ref reference in
      Gives
        (After env Method.head url auth
          (head_result url)
          (Conversation env Method.head url auth ref w.trace))
        (head_manifest ref reference auth env w)
      × Gives
          (After env Method.get url auth
            (read_manifest url)
            (Conversation env Method.get url auth ref w.trace))
          (get_manifest ref reference auth env w)
lookups-Conversation ref reference auth env w = (
  head_manifest-Conversation ref reference auth env w,
  get_manifest-Conversation ref reference auth env w,
)
