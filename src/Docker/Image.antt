-- ===== src/Docker/Image.antt =====
-- internal/docker/image.go: pulling, naming and removing images.
use openwatch.Base.{
  suc, ℕ, Bool, true, false, Option, none, some, List, [], ◌∷◌, ◌++◌, if◌then◌else◌, drop,
}
use openwatch.Base.Text.{Text, codes, index, has_prefix, trim_space, is_empty, text_eq}
use openwatch.Base.Errors.{message, wrap, Result, ok, err, is_not_found}
use openwatch.Docker.{ImageInspect}
use openwatch.World.{AuthConfig, Call, M, pure, ask, ◌>>=◌, if_ok, if_some}

-- `cli.ImageInspect`
unfoldable pub inspect_image : Text → M (Result ImageInspect)
inspect_image ref = ask (Call.image_inspect ref) (λ env tr. env.image_inspect tr ref)

-- `cli.ImagePull` with the encoded credentials, then the stream read to its end.
unfoldable pub pull_with : Text → Text → M (Result (Unit {0}))
pull_with ref encoded = do
  opened ← ask (Call.image_pull ref encoded) (λ env tr. env.image_pull tr ref)
  if_ok opened (λ e. pure (err (wrap (codes "pull image " ++ ref) e)))
      λ _. do
        drained ← ask (Call.image_drain ref) (λ env tr. env.image_drain tr ref)
        if_ok drained (λ e. pure (err (wrap (codes "drain pull stream for " ++ ref) e)))
            λ _. pure (ok tt)

-- `encodeAuth`
unfoldable pub encode : AuthConfig → M (Result Text)
encode auth env w = pure (env.encode_auth auth) env w

unfoldable pub pull_image : Text → Option AuthConfig → M (Result (Unit {0}))
pull_image ref auth_config = if_some auth_config (pull_with ref []) λ auth. do
  encoded ← encode auth
  if_ok encoded (λ e. pure (err (wrap (codes "encode auth") e))) λ text. pull_with ref text

unfoldable pub member : Text → List Text → Bool
member id [] = false
member id (x ∷ xs) = let rest = member id xs in if text_eq x id then true else rest

-- The closure `add`: trimmed, not empty, not there yet. `ids` is also the set `seen`.
unfoldable pub add_id : Text → List Text → List Text
add_id id ids =
    let trimmed = trim_space id in
    if is_empty trimmed then ids else if member trimmed ids then ids else ids ++ trimmed ∷ []

abbrev pub add_digest_at : Text → Option ℕ → List Text → List Text
add_digest_at rd none ids = ids
add_digest_at rd (some i) ids = add_id (drop (suc i) rd) ids

-- The loop over `img.RepoDigests`.
unfoldable pub add_digests : List Text → List Text → List Text
add_digests [] ids = ids
add_digests (rd ∷ rds) ids = add_digests rds (add_digest_at rd (index b'@' rd) ids)

abbrev pub add_image : Result ImageInspect → List Text → List Text
add_image (ok img) ids = add_digests img.repo_digests (add_id img.id ids)
add_image (err e) ids = ids

abbrev pub ids_or_error : Text → List Text → Result (List Text)
ids_or_error ref [] = err (message (codes "image " ++ ref ++ codes " has no identifiers"))
ids_or_error ref (id ∷ ids) = ok (id ∷ ids)

unfoldable pub local_image_identifiers : Text → M (Result (List Text))
local_image_identifiers ref = do
  img ← inspect_image ref
  pure (
      ids_or_error ref
        (add_image img (if has_prefix (codes "sha256:") ref then add_id ref [] else [])))

unfoldable pub remove_image : Text → M (Result (Unit {0}))
remove_image id = do
  removed ← ask (Call.image_remove id) (λ env tr. env.image_remove tr id)
  if_ok removed
      (λ e.
        if is_not_found e then pure (ok tt) else pure (err (wrap (codes "remove image " ++ id) e)))
      (λ _. pure (ok tt))
