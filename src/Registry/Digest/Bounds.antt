-- ===== src/Registry/Digest/Bounds.antt =====
-- internal/registry/digest.go: how many requests a lookup sends.
use openwatch.Base.{ℕ, ◌+◌, ◌≤◌, Option, List, arith, length}
use openwatch.Base.Text.{Text, is_empty}
use openwatch.Base.Assoc.{Assoc}
use openwatch.Base.Errors.{Result}
use openwatch.Registry.Digest.{
  get_manifest, head_manifest_digest, fetch_identifiers, fetch_remote_identifiers,
  finish_identifiers, pick_platform_manifest, decode_manifest_body, is_manifest_list, reference_of,
}
use openwatch.Registry.Digest.Protocol.{
  Exchanged, direct, stopped, retried, Conversation, usual, ahead, behind,
}
use openwatch.Registry.Digest.Requests.{
  Sent, unsent, sent, Fetched, unnamed, unasked, refused, granted,
}
use openwatch.Registry.Digest.Lookup.{head_manifest-Conversation, get_manifest-Conversation}
use openwatch.Registry.Resolver.{Reference}
use openwatch.World.{AuthConfig, Method, Request, Response, Call, Env, World}
use openwatch.World.Gives.{Gives, Gives-weaken, Gives-pure, Gives-if, Gives-bind, Gives-if_ok}

-- At most `n` calls more.
abbrev pub Within {ℓ} : {A : Type ℓ} → ℕ → List Call → A → List Call → Type 0
Within n tr r tr' = length tr' ≤ n + length tr

Sent-le :
    {env : Env} {r : Request} {tr : List Call} {a : Result Response} {tr' : List Call}
    → Sent env r tr a tr'
    → length tr' ≤ 1 + length tr
Sent-le (unsent e u) = omega arith
Sent-le (sent a u p) = omega arith

Fetched-le :
    {env : Env} {params : Assoc Text} {auth : Option AuthConfig} {tr : List Call} {r : Result Text}
    {tr' : List Call}
    → Fetched env params auth tr r tr'
    → length tr' ≤ 1 + length tr
Fetched-le (unnamed e r) = omega arith
Fetched-le (unasked e n u) = omega arith
Fetched-le (refused e n u k) = omega arith
Fetched-le (granted resp body tokens n u p q s t) = omega arith

module _ {env : Env} {m : Method} {url : Text} {auth : Option AuthConfig} where
  Exchanged-le :
      {tr : List Call} {a : Result Response} {tr' : List Call}
      → Exchanged env m url auth tr a tr'
      → length tr' ≤ 3 + length tr
  Exchanged-le (direct a tr' s f) = omega (arith, Sent-le s)
  Exchanged-le (stopped resp e e' tr₁ tr' s c f) = omega (arith, Sent-le s, Fetched-le f)
  Exchanged-le (retried resp t tr₁ tr₂ a tr' s c f k) =
      omega (arith, Sent-le s, Fetched-le f, Sent-le k)

  Conversation-le :
      {ref : Reference} {tr : List Call} {a : Result Response} {tr' : List Call}
      → Conversation env m url auth ref tr a tr'
      → length tr' ≤ 4 + length tr
  Conversation-le (usual a tr' h x) = omega (arith, Exchanged-le x)
  Conversation-le (ahead t tr₁ a tr' h f g s) = omega (arith, Fetched-le f, Sent-le s)
  Conversation-le (behind r tr₁ a tr' h f n x) = omega (arith, Fetched-le f, Exchanged-le x)

get_manifest-le :
    (ref : Reference) (reference : Text) (auth : Option AuthConfig) (env : Env) (w : World)
    → Gives (Within 4 w.trace) (get_manifest ref reference auth env w)
get_manifest-le ref reference auth env w =
    Gives-weaken _ (Within 4 w.trace) _ (λ r tr (a, k, c). Conversation-le k)
      (get_manifest-Conversation ref reference auth env w)

finish_identifiers-le :
    (n : ℕ) (tr : List Call) (reference : Text) (ids : List Text) (body : Text) (env : Env)
    (w : World)
    → length w.trace ≤ n + length tr
    → Gives (Within n tr) (finish_identifiers reference ids body env w)
unfolding finish_identifiers decode_manifest_body
finish_identifiers-le n tr reference ids body env w h =
    let R = Within n tr in
    Gives-bind (Within n tr) R (decode_manifest_body body) _ env w
      (Gives-pure (Within n tr) _ env w h)
      λ decoded w' h'.
        Gives-if_ok R decoded _ _ env w' (λ e p. Gives-pure R _ env w' h')
          (λ digest p. Gives-pure R _ env w' h')

fetch_identifiers-le :
    (ref : Reference) (reference : Text) (auth : Option AuthConfig) (env : Env) (w : World)
    → Gives (Within 8 w.trace) (fetch_identifiers ref reference auth env w)
unfolding fetch_identifiers pick_platform_manifest
fetch_identifiers-le ref reference auth env w =
    let R = Within 8 w.trace in
    Gives-bind (Within 4 w.trace) R _ _ env w (get_manifest-le ref reference auth env w)
      λ top w₁ h₁.
        Gives-if_ok R top _ _ env w₁ (λ e p. Gives-pure R _ env w₁ (omega (arith, h₁)))
          λ (top_digest, body, content_type) p.
            Gives-if R (is_manifest_list content_type) _ _ env w₁
              (λ yes.
                Gives-bind (Within 0 w₁.trace) R (pick_platform_manifest body) _ env w₁
                  (Gives-pure (Within 0 w₁.trace) _ env w₁ (omega arith))
                  λ picked w₂ h₂.
                    Gives-if_ok R picked _ _ env w₂
                      (λ e p. Gives-pure R _ env w₂ (omega (arith, h₁, h₂)))
                      λ platform p.
                        Gives-bind (Within 4 w₂.trace) R _ _ env w₂
                          (get_manifest-le ref platform auth env w₂)
                          λ leaf w₃ h₃.
                            Gives-if_ok R leaf _ _ env w₃
                              (λ e p. Gives-pure R _ env w₃ (omega (arith, h₁, h₂, h₃)))
                              λ (leaf_digest, leaf_body, _) p.
                                finish_identifiers-le 8 w.trace reference _ leaf_body env w₃
                                  (omega (arith, h₁, h₂, h₃)))
              (λ no. finish_identifiers-le 8 w.trace reference _ body env w₁ (omega (arith, h₁)))

-- HeadManifestDigest returns after at most four requests, and FetchRemoteIdentifiers after at most
-- eight, whatever is answered.
pub lookups-le :
    (ref : Reference) (auth : Option AuthConfig) (env : Env) (w : World)
    → Gives (Within 4 w.trace) (head_manifest_digest ref auth env w)
      × Gives (Within 8 w.trace) (fetch_remote_identifiers ref auth env w)
unfolding head_manifest_digest fetch_remote_identifiers
lookups-le ref auth env w = (
  Gives-if (Within 4 w.trace) (is_empty (reference_of ref)) _ _ env w
      (λ p. Gives-pure (Within 4 w.trace) _ env w (omega arith))
      (λ p.
        Gives-weaken _ (Within 4 w.trace) _ (λ r tr (a, k, c). Conversation-le k)
          (head_manifest-Conversation ref (reference_of ref) auth env w)),
  Gives-if (Within 8 w.trace) (is_empty (reference_of ref)) _ _ env w
      (λ p. Gives-pure (Within 8 w.trace) _ env w (omega arith))
      (λ p. fetch_identifiers-le ref (reference_of ref) auth env w),
)
