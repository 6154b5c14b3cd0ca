-- ===== src/Registry/Resolver.antt =====
-- internal/registry/resolver.go: `Parse` and the reference that it returns.
pub mod Laws
pub mod RoundTrip
pub mod ImageId
mod Tests
use openwatch.Base.{
  ℕ, zero, suc, Bool, true, false, not, ◌&&◌, ◌||◌, Option, none, some, List, [], ◌∷◌, ◌++◌,
  if◌then◌else◌, take, drop,
}
use openwatch.Base.Text.{Text, codes, text_eq, index, last_index, has_byte, is_empty}
use openwatch.Base.Errors.{Error, message, Result, ok, err}

pub record Reference : Type 0 where
  pub registry : Text
  pub repository : Text
  pub tag : Text
  pub digest : Text

abbrev pub default_registry : Text
default_registry = codes "registry-1.docker.io"

abbrev pub default_tag : Text
default_tag = codes "latest"

abbrev pub docker_hub_shortcut : Text
docker_hub_shortcut = codes "docker.io"

-- `remainder[:idx]` and `remainder[idx+1:]` at the first "@"; no digest without one.
abbrev pub cut_digest : Text → Option ℕ → Text × Text
cut_digest remainder none = (remainder, [])
cut_digest remainder (some i) = (take i remainder, drop (suc i) remainder)

unfoldable pub split_digest : Text → Text × Text
split_digest ref = cut_digest ref (index b'@' ref)

-- `first == "localhost" || strings.ContainsAny(first, ".:")`
unfoldable pub is_host : Text → Bool
is_host first = text_eq first (codes "localhost") || (has_byte b'.' first || has_byte b':' first)

abbrev pub cut_registry : Text → Option ℕ → Text × Text
cut_registry remainder none = (default_registry, remainder)
cut_registry remainder (some slash) =
    if is_host (take slash remainder)
    then (take slash remainder, drop (suc slash) remainder)
    else (default_registry, remainder)

-- The registry host and the path behind it.
unfoldable pub split_registry : Text → Text × Text
split_registry remainder = cut_registry remainder (index b'/' remainder)

-- The Docker Hub aliases become the canonical host.
unfoldable pub normalise_registry : Text → Text
normalise_registry registry =
    if text_eq registry docker_hub_shortcut || text_eq registry (codes "index.docker.io")
    then default_registry
    else registry

-- On Docker Hub a bare name lives under "library/".
unfoldable pub qualify : Text → Text → Text
qualify registry path =
    if text_eq registry default_registry && not (has_byte b'/' path)
    then codes "library/" ++ path
    else path

abbrev pub cut_tag : Text → Option ℕ → Text × Text
cut_tag path none = (path, [])
cut_tag path (some colon) =
    if not (has_byte b'/' (drop colon path))
    then (take colon path, drop (suc colon) path)
    else (path, [])

-- The repository and the tag, "" if there is none.
unfoldable pub split_tag : Text → Text × Text
split_tag path = cut_tag path (last_index b':' path)

-- The last checks, and the default tag.
unfoldable pub build_reference : Text → Text → Text → Text → Text → Result Reference
build_reference ref registry repo tag digest =
    if is_empty repo
    then err (message (codes "invalid image reference \"" ++ ref ++ codes "\": empty repository"))
    else ok (record {
      registry = registry;
      repository = repo;
      tag = if is_empty tag && is_empty digest then default_tag else tag;
      digest = digest;
    })

unfoldable pub parse : Text → Result Reference
parse ref =
    let (remainder, digest) = split_digest ref in
    let (host, path) = split_registry remainder in
    let registry = normalise_registry host in
    let (repo, tag) = split_tag (qualify registry path) in
    if is_empty ref
    then err (message (codes "empty image reference"))
    else build_reference ref registry repo tag digest
