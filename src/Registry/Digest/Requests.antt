-- ===== src/Registry/Digest/Requests.antt =====
-- internal/registry/digest.go: a request, and one attempt to get a token, by what is sent and what
-- comes of it.
use openwatch.Base.{
  ℕ, arith, ap, ◌≡◌, ◌≢◌, ◌⊎◌, inl, inr, refl, true, false, not, Bool-cases, Option, List, [], ◌∷◌,
  ◌==◌, ◌∙◌,
}
use openwatch.Base.Text.{Text, codes, is_empty}
use openwatch.Base.Assoc.{Assoc, lookup}
use openwatch.Base.Errors.{Error, Result, ok, err}
use openwatch.Docker.Reconcile.{text_or_empty}
use openwatch.Registry.Challenge.{parse_challenge}
use openwatch.Registry.Digest.{do_request, fetch_bearer_token, decode_token_body, answered_token}
use openwatch.Registry.Digest.Tokens.{token_request, chosen_token}
use openwatch.World.{AuthConfig, Request, Response, Call, Env, World, pure}
use openwatch.World.Gives.{Gives, Gives-pure, Gives-ask, Gives-if, Gives-bind, Gives-if_ok}

-- A request, and what it is answered; it is sent exactly where its URL is one.
pub data Sent (env : Env) (r : Request) (tr : List Call)
    : Result Response → List Call → Type 0 where
  unsent : (e : Error) → env.is_url r.url ≡ false → Sent env r tr (err e) tr
  sent :
      (answer : Result Response)
      → env.is_url r.url ≡ true
      → env.http tr r ≡ answer
      → Sent env r tr answer (Call.http_request r ∷ tr)

-- The token endpoint that the parameters name.
abbrev pub realm_of : Assoc Text → Text
realm_of params = text_or_empty (lookup (codes "realm") params)

-- An answer of the token endpoint that has no token in it.
abbrev pub IsUseless : Env → Result Response → Type 0
IsUseless env (err e) = Unit {0}
IsUseless env (ok resp) =
    (resp.status ≢ 200)
    ⊎ (((e : Error) × (resp.body ≡ err e))
        ⊎ ((body : Text) × (e : Error) × (resp.body ≡ ok body) × (env.decode_token body ≡ err e)))

-- One attempt to get a token, at the endpoint that the parameters name: what comes of it, and the
-- record of calls after it. Nothing is sent exactly where no endpoint is named, or no URL.
pub data Fetched (env : Env) (params : Assoc Text) (auth : Option AuthConfig) (tr : List Call)
    : Result Text → List Call → Type 0 where
  unnamed : (e : Error) → realm_of params ≡ [] → Fetched env params auth tr (err e) tr
  unasked :
      (e : Error)
      → realm_of params ≢ []
      → env.is_url (realm_of params) ≡ false
      → Fetched env params auth tr (err e) tr
  refused :
      (e : Error)
      → realm_of params ≢ []
      → env.is_url (realm_of params) ≡ true
      → IsUseless env (env.http tr (token_request params auth))
      → Fetched env params auth tr (err e) (Call.http_request (token_request params auth) ∷ tr)
  granted :
      (resp : Response) (body : Text) (tokens : Text × Text)
      → realm_of params ≢ []
      → env.is_url (realm_of params) ≡ true
      → env.http tr (token_request params auth) ≡ ok resp
      → resp.status ≡ 200
      → resp.body ≡ ok body
      → env.decode_token body ≡ ok tokens
      → Fetched env params auth tr
          (ok (chosen_token tokens))
          (Call.http_request (token_request params auth) ∷ tr)

pub do_request-Sent :
    (r : Request) (env : Env) (w : World) → Gives (Sent env r w.trace) (do_request r env w)
unfolding do_request
do_request-Sent r env w = elim (Bool-cases (env.is_url r.url)) [
  | inl u ↦ rw u (Gives-ask _ _ _ env w (sent _ u refl))
  | inr u ↦ rw u (Gives-pure _ _ env w (unsent _ u))
]

pub Sent-ok :
    (r : Request) (env : Env) (tr : List Call) (resp : Response) (tr' : List Call)
    → Sent env r tr (ok resp) tr'
    → (env.is_url r.url ≡ true) × (env.http tr r ≡ ok resp) × (tr' ≡ Call.http_request r ∷ tr)
Sent-ok r env tr resp tr' (sent _ u p) = (u, p, refl)

-- A status that passes the test is 200, and one that does not is another.
status_ok : (n : ℕ) → not (n == 200) ≡ false → n ≡ 200
status_ok n h = ground (arith, h)

status_other : (n : ℕ) → not (n == 200) ≡ true → n ≢ 200
status_other n h = λ e. ground (arith, h, e)

-- An environment's answer that no call is made for.
decode-Gives :
    (body : Text) (env : Env) (w : World)
    → Gives (λ r tr. (env.decode_token body ≡ r) × (tr ≡ w.trace)) (decode_token_body body env w)
unfolding decode_token_body
decode-Gives body env w = Gives-pure _ (env.decode_token body) env w (refl, refl)

module _ (env : Env) (params : Assoc Text) (auth : Option AuthConfig) (tr : List Call) where
  abbrev Post : Result Text → List Call → Type 0
  Post = Fetched env params auth tr

  module _ (named : realm_of params ≢ []) where
    Fetched-failed :
        (e e' : Error) (tr' : List Call)
        → Sent env (token_request params auth) tr (err e) tr'
        → Fetched env params auth tr (err e') tr'
    unfolding token_request
    Fetched-failed e e' tr' (unsent _ u) = unasked e' named u
    Fetched-failed e e' tr' (sent _ u p) = refused e' named u (rw p tt)

    Fetched-refused :
        (e : Error) (resp : Response) (w : World)
        → env.is_url (realm_of params) ≡ true
        → env.http tr (token_request params auth) ≡ ok resp
        → w.trace ≡ Call.http_request (token_request params auth) ∷ tr
        → IsUseless env (ok resp)
        → Gives Post (pure (err e) env w)
    Fetched-refused e resp w u p t k = Gives-pure _ _ env w (rw t (refused e named u (rw p k)))

    -- What is done with the answer.
    Fetched-answered :
        (resp : Response) (w : World)
        → env.is_url (realm_of params) ≡ true
        → env.http tr (token_request params auth) ≡ ok resp
        → w.trace ≡ Call.http_request (token_request params auth) ∷ tr
        → Gives Post (answered_token resp env w)
    unfolding answered_token
    Fetched-answered resp w u p t =
        Gives-if Post (not (resp.status == 200)) _ _ env w
          (λ other. Fetched-refused _ resp w u p t (inl (status_other resp.status other)))
          λ fine.
            Gives-if_ok Post resp.body _ _ env w
              (λ e h. Fetched-refused e resp w u p t (inr (inl (e, h))))
              λ body read.
                Gives-bind _ Post (decode_token_body body) _ env w (decode-Gives body env w)
                  λ decoded w' d.
                    Gives-if_ok Post decoded _ _ env w'
                      (λ e h.
                        Fetched-refused e resp w' u p (d.1 ∙ t)
                          (inr (inr (body, e, read, d.0 ∙ h))))
                      λ tokens h. Gives-pure _ _ env w' (
                        rw (d.1 ∙ t) (
                          granted resp body tokens named u p (status_ok resp.status fine) read
                            (d.0 ∙ h)))

nil_of : (s : Text) → is_empty s ≡ true → s ≡ []
nil_of [] h = refl
nil_of (c ∷ s) h = cc h

not_nil : (s : Text) → is_empty s ≡ false → s ≢ []
not_nil s h = λ e. cc (h, ap is_empty e)

pub fetch_bearer_token-Fetched :
    (challenge : Text) (auth : Option AuthConfig) (env : Env) (w : World)
    → Gives
        (Fetched env (parse_challenge challenge) auth w.trace)
        (fetch_bearer_token challenge auth env w)
unfolding fetch_bearer_token answered_token token_request
fetch_bearer_token-Fetched challenge auth env w =
    let params = parse_challenge challenge in
    let R = Fetched env params auth w.trace in
    Gives-if R (is_empty (realm_of params)) _ _ env w
      (λ missing. Gives-pure _ _ env w (unnamed _ (nil_of (realm_of params) missing)))
      λ present.
        let named = not_nil (realm_of params) present in
        Gives-bind (Sent env (token_request params auth) w.trace) R
          (do_request (token_request params auth)) _ env w (do_request-Sent _ env w)
          λ answer w' s.
            Gives-if_ok R answer _ _ env w'
              (λ e h.
                Gives-pure _ _ env w'
                  (Fetched-failed env params auth w.trace named e e _ (rw h at s)))
              λ resp h.
                let (u, p, t) = Sent-ok _ env w.trace resp _ (rw h at s) in
                Fetched-answered env params auth w.trace named resp w' u p t
