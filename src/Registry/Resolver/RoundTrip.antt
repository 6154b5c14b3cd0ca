-- ===== src/Registry/Resolver/RoundTrip.antt =====
-- `Parse` reads back a reference that is written out in full.
use mathlib.Core.List.{append-nil}
use openwatch.Base.{
  ℕ, ◌≡◌, refl, ap, ◌∙◌, ◌≢◌, ◌⊎◌, inl, inr, true, false, [], ◌∷◌, ◌++◌, arith, take-length-append,
  drop-length-append, drop-suc-length-append,
}
use openwatch.Base.Text.{Text, codes, has_byte, is_empty}
use openwatch.Base.Text.Equality.{text_ne}
use openwatch.Base.Text.Cut.{
  Lacks, index-Lacks, index-append, last_index-Lacks, last_index-append, Lacks-append,
}
use openwatch.Base.Errors.{ok}
use openwatch.Registry.Resolver.{
  Reference, default_registry, docker_hub_shortcut, cut_digest, split_digest, is_host, cut_registry,
  split_registry, normalise_registry, qualify, cut_tag, split_tag, build_reference, parse,
}

-- ":tag", or nothing for no tag; "@digest" likewise.
abbrev pub suffix : Text → Text
suffix [] = []
suffix (c ∷ tag) = b':' ∷ c ∷ tag

abbrev pub digest_suffix : Text → Text
digest_suffix [] = []
digest_suffix (c ∷ digest) = b'@' ∷ c ∷ digest

-- registry/repository[:tag][@digest]
abbrev pub print_reference : Reference → Text
print_reference r = (r.registry ++ b'/' ∷ (r.repository ++ suffix r.tag)) ++ digest_suffix r.digest

-- A reference with nothing left to default.
pub record IsFull (r : Reference) : Type 0 where
  pub host : is_host r.registry ≡ true
  pub host_path : Lacks b'/' r.registry
  pub host_digest : Lacks b'@' r.registry
  pub shortcut : r.registry ≢ docker_hub_shortcut
  pub index_host : r.registry ≢ codes "index.docker.io"
  pub named : r.repository ≢ []
  pub namespaced : (r.registry ≢ default_registry) ⊎ (has_byte b'/' r.repository ≡ true)
  pub repository_tag : Lacks b':' r.repository
  pub repository_digest : Lacks b'@' r.repository
  pub tag_path : Lacks b'/' r.tag
  pub tag_tag : Lacks b':' r.tag
  pub tag_digest : Lacks b'@' r.tag
  pub pinned : (r.tag ≢ []) ⊎ (r.digest ≢ [])

has_byte-append_left : (c : ℕ) (s t : Text) → has_byte c s ≡ true → has_byte c (s ++ t) ≡ true
unfolding has_byte
has_byte-append_left c [] t h = cc
has_byte-append_left c (a ∷ s) t h = ground (arith, has_byte-append_left c s t)

suffix-Lacks : (tag : Text) → Lacks b'@' tag → Lacks b'@' (suffix tag)
unfolding has_byte
suffix-Lacks [] h = refl
suffix-Lacks (c ∷ tag) h = h

split_digest_lem :
    (s digest : Text) → Lacks b'@' s → split_digest (s ++ digest_suffix digest) ≡ (s, digest)
unfolding split_digest
split_digest_lem s [] h = rw (append-nil s) (ap (cut_digest s) (index-Lacks b'@' s h))
split_digest_lem s (c ∷ digest) h =
    let full = s ++ b'@' ∷ c ∷ digest in
    ap (cut_digest full) (index-append b'@' s (c ∷ digest) h)
    ∙ (rw (take-length-append s (b'@' ∷ c ∷ digest), drop-suc-length-append s b'@' (c ∷ digest)))

split_registry_lem :
    (host path : Text)
    → is_host host ≡ true
    → Lacks b'/' host
    → split_registry (host ++ b'/' ∷ path) ≡ (host, path)
unfolding split_registry
split_registry_lem host path h k =
    let full = host ++ b'/' ∷ path in
    ap (cut_registry full) (index-append b'/' host path k)
    ∙ (rw (take-length-append host (b'/' ∷ path), h, drop-suc-length-append host b'/' path))

normalise_registry_lem :
    (host : Text)
    → host ≢ docker_hub_shortcut
    → host ≢ codes "index.docker.io"
    → normalise_registry host ≡ host
unfolding normalise_registry
normalise_registry_lem host h k = rw (text_ne host _ h, text_ne host _ k)

qualify_lem :
    (host repo tail : Text)
    → (host ≢ default_registry) ⊎ (has_byte b'/' repo ≡ true)
    → qualify host (repo ++ tail) ≡ repo ++ tail
unfolding qualify
qualify_lem host repo tail (inl h) = rw (text_ne host _ h)
qualify_lem host repo tail (inr h) = ground (arith, has_byte-append_left b'/' repo tail h)

pub split_tag_lem :
    (repo tag : Text)
    → Lacks b':' repo
    → Lacks b':' tag
    → Lacks b'/' tag
    → split_tag (repo ++ suffix tag) ≡ (repo, tag)
unfolding split_tag
split_tag_lem repo [] h k l =
    rw (append-nil repo) (ap (cut_tag repo) (last_index-Lacks b':' repo h))
split_tag_lem repo (c ∷ tag) h k l =
    let full = repo ++ b':' ∷ c ∷ tag in
    let plain : has_byte b'/' (b':' ∷ c ∷ tag) ≡ false = unfold has_byte in l in
    ap (cut_tag full) (last_index-append b':' repo (c ∷ tag) k)
    ∙ (rw (
      take-length-append repo (b':' ∷ c ∷ tag),
      drop-length-append repo (b':' ∷ c ∷ tag),
      plain,
      drop-suc-length-append repo b':' (c ∷ tag),
    ))

build_reference_lem :
    (ref : Text) (r : Reference)
    → r.repository ≢ []
    → (r.tag ≢ []) ⊎ (r.digest ≢ [])
    → build_reference ref r.registry r.repository r.tag r.digest ≡ ok r
unfolding build_reference
build_reference_lem ref r h k = ground arith

is_empty-append : (s : Text) (c : ℕ) (t u : Text) → is_empty ((s ++ c ∷ t) ++ u) ≡ false
is_empty-append [] c t u = refl
is_empty-append (a ∷ s) c t u = refl

Lacks-body :
    (r : Reference) → IsFull r → Lacks b'@' (r.registry ++ b'/' ∷ (r.repository ++ suffix r.tag))
Lacks-body r h =
    Lacks-append b'@' r.registry (b'/' ∷ (r.repository ++ suffix r.tag)) h.host_digest (
      unfold has_byte in
      Lacks-append b'@' r.repository (suffix r.tag) h.repository_digest
        (suffix-Lacks r.tag h.tag_digest))

-- Parsing a reference that is written out in full gives the reference back. Full means: a host
-- that reads as one and is not an alias of Docker Hub, a repository, with a namespace on Docker
-- Hub, a tag or a digest, and no separators inside the parts.
pub parse-print_reference : (r : Reference) → IsFull r → parse (print_reference r) ≡ ok r
unfolding parse
parse-print_reference r h =
    let path = r.repository ++ suffix r.tag in
    rw
      (
        is_empty-append r.registry b'/' path (digest_suffix r.digest),
        split_digest_lem (r.registry ++ b'/' ∷ path) r.digest (Lacks-body r h),
        split_registry_lem r.registry path h.host h.host_path,
        normalise_registry_lem r.registry h.shortcut h.index_host,
        qualify_lem r.registry r.repository (suffix r.tag) h.namespaced,
        split_tag_lem r.repository r.tag h.repository_tag h.tag_tag h.tag_path,
      )
      (build_reference_lem (print_reference r) r h.named h.pinned)
