-- ===== src/Updater/Watcher/Sound/Filled.antt =====
-- internal/docker/image.go, internal/registry/digest.go: whether the lists of identifiers can be
-- empty.
use openwatch.Base.{Option, List, [], ◌∷◌}
use openwatch.Base.Text.{Text, is_empty}
use openwatch.Base.Errors.{Result, ok, err}
use openwatch.Docker.Image
use openwatch.Docker.Image.{inspect_image, local_image_identifiers}
use openwatch.Registry.Digest
use openwatch.Registry.Digest.{
  head_manifest_digest, fetch_remote_identifiers, fetch_identifiers, finish_identifiers,
  get_manifest, decode_manifest_body, pick_platform_manifest, is_manifest_list, reference_of,
}
use openwatch.Registry.Digest.Lookup.{get_manifest-Conversation}
use openwatch.Registry.Resolver.{Reference}
use openwatch.World.{AuthConfig, Call, Env, World}
use openwatch.World.Gives.{
  Gives, Gives-weaken, Gives-pure, Gives-ask, Gives-if, Gives-bind, Gives-if_ok,
}

-- Where there are identifiers, there is one.
unfoldable pub IsFilled : Result (List Text) → Type 0
IsFilled (err e) = Unit {0}
IsFilled (ok []) = ⊥
IsFilled (ok (id ∷ ids)) = Unit {0}

IsFilled-local : (ref : Text) (ids : List Text) → IsFilled (Image.ids_or_error ref ids)
unfolding IsFilled
IsFilled-local ref [] = tt
IsFilled-local ref (id ∷ ids) = tt

IsFilled-remote : (ref : Text) (ids : List Text) → IsFilled (Digest.ids_or_error ref ids)
unfolding IsFilled
IsFilled-remote ref [] = tt
IsFilled-remote ref (id ∷ ids) = tt

abbrev pub Filled : Result (List Text) → List Call → Type 0
Filled r tr = IsFilled r

pub local_image_identifiers-IsFilled :
    (ref : Text) (env : Env) (w : World) → Gives Filled (local_image_identifiers ref env w)
unfolding local_image_identifiers inspect_image
local_image_identifiers-IsFilled ref env w =
    Gives-bind (λ img tr. Unit {0}) Filled (inspect_image ref) _ env w
      (Gives-ask (λ img tr. Unit {0}) _ _ env w tt)
      (λ img w' h. Gives-pure Filled _ env w' (IsFilled-local ref _))

finish_identifiers-IsFilled :
    (reference : Text) (ids : List Text) (body : Text) (env : Env) (w : World)
    → Gives Filled (finish_identifiers reference ids body env w)
unfolding finish_identifiers decode_manifest_body IsFilled
finish_identifiers-IsFilled reference ids body env w =
    Gives-bind (λ r tr. Unit {0}) Filled (decode_manifest_body body) _ env w
      (Gives-pure (λ r tr. Unit {0}) _ env w tt)
      λ decoded w' h.
        Gives-if_ok Filled decoded _ _ env w' (λ e p. Gives-pure Filled _ env w' tt)
          (λ digest p. Gives-pure Filled _ env w' (IsFilled-remote reference _))

got :
    (ref : Reference) (reference : Text) (auth : Option AuthConfig) (env : Env) (w : World)
    → Gives (λ r tr. Unit {0}) (get_manifest ref reference auth env w)
got ref reference auth env w =
    Gives-weaken _ (λ r tr. Unit {0}) _ (λ r tr k. tt)
      (get_manifest-Conversation ref reference auth env w)

fetch_identifiers-IsFilled :
    (ref : Reference) (reference : Text) (auth : Option AuthConfig) (env : Env) (w : World)
    → Gives Filled (fetch_identifiers ref reference auth env w)
unfolding fetch_identifiers pick_platform_manifest IsFilled
fetch_identifiers-IsFilled ref reference auth env w =
    Gives-bind (λ r tr. Unit {0}) Filled _ _ env w (got ref reference auth env w)
      λ top w₁ h₁.
        Gives-if_ok Filled top _ _ env w₁ (λ e p. Gives-pure Filled _ env w₁ tt)
          λ (top_digest, body, content_type) p.
            Gives-if Filled (is_manifest_list content_type) _ _ env w₁
              (λ yes.
                Gives-bind (λ r tr. Unit {0}) Filled (pick_platform_manifest body) _ env w₁
                  (Gives-pure (λ r tr. Unit {0}) _ env w₁ tt)
                  λ picked w₂ h₂.
                    Gives-if_ok Filled picked _ _ env w₂ (λ e p. Gives-pure Filled _ env w₂ tt)
                      λ platform p.
                        Gives-bind (λ r tr. Unit {0}) Filled _ _ env w₂
                          (got ref platform auth env w₂)
                          λ leaf w₃ h₃.
                            Gives-if_ok Filled leaf _ _ env w₃
                              (λ e p. Gives-pure Filled _ env w₃ tt)
                              λ (leaf_digest, leaf_body, _) p.
                                finish_identifiers-IsFilled reference _ leaf_body env w₃)
              (λ no. finish_identifiers-IsFilled reference _ body env w₁)

pub fetch_remote_identifiers-IsFilled :
    (ref : Reference) (auth : Option AuthConfig) (env : Env) (w : World)
    → Gives Filled (fetch_remote_identifiers ref auth env w)
unfolding fetch_remote_identifiers IsFilled
fetch_remote_identifiers-IsFilled ref auth env w =
    Gives-if Filled (is_empty (reference_of ref)) _ _ env w (λ p. Gives-pure Filled _ env w tt)
      (λ p. fetch_identifiers-IsFilled ref (reference_of ref) auth env w)
