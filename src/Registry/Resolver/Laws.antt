-- ===== src/Registry/Resolver/Laws.antt =====
-- What every reference that `Parse` returns has, and the Docker Hub shorthands.
use openwatch.Base.{
  ℕ, suc, zero, ◌≡◌, refl, sym, ap, ◌∙◌, ◌≢◌, ◌⊎◌, inl, inr, true, ◌||◌, [], ◌∷◌, ◌++◌, arith,
  Bool-cases, Option-cases, take, drop,
}
use openwatch.Base.Text.{Text, codes, text_eq, last_index, has_byte, is_empty}
use openwatch.Base.Text.Equality.{text_eq_iff, text_eq_refl}
use openwatch.Base.Text.Cut.{Lacks, index-Lacks, last_index-Lacks}
use openwatch.Base.Errors.{ok}
use openwatch.Registry.Resolver.{
  Reference, default_registry, default_tag, docker_hub_shortcut, split_digest, split_registry,
  cut_tag, normalise_registry, qualify, split_tag, build_reference, parse,
}

has_byte-append : (c : ℕ) (s t : Text) → has_byte c (s ++ t) ≡ (has_byte c s || has_byte c t)
unfolding has_byte
has_byte-append c [] t = refl
has_byte-append c (a ∷ s) t = ground (arith, has_byte-append c s t)

take-append-drop : (n : ℕ) (s : Text) → take n s ++ drop n s ≡ s
take-append-drop zero s = refl
take-append-drop (suc n) [] = refl
take-append-drop (suc n) (a ∷ s) = rw (take-append-drop n s)

-- Cutting off the tag leaves the slashes in the repository.
split_tag-has_slash :
    (path : Text) → has_byte b'/' path ≡ true → has_byte b'/' (split_tag path).0 ≡ true
unfolding split_tag
split_tag-has_slash path h = elim (Option-cases (last_index b':' path)) [
  | inl p ↦ rw p h
  | inr (i, p) ↦ rw p (elim (Bool-cases (has_byte b'/' (drop i path))) [
    | inl q ↦ rw q h
    | inr q ↦ rw q (
        let e : has_byte b'/' (take i path ++ drop i path) ≡ true =
          rw (take-append-drop i path) h in
        ground (arith, e, q, has_byte-append b'/' (take i path) (drop i path)))
  ])
]

qualify-has_slash : (path : Text) → has_byte b'/' (qualify default_registry path) ≡ true
unfolding qualify
qualify-has_slash path =
    rw (text_eq_refl default_registry) (elim (Bool-cases (has_byte b'/' path)) [
      | inl q ↦ rw q q
      | inr q ↦ rw q (unfold has_byte in refl)
    ])

build_reference-eq-ok :
    (ref registry repo tag digest : Text) (r : Reference)
    → build_reference ref registry repo tag digest ≡ ok r
    → (r.registry ≡ registry)
      × (r.repository ≡ repo)
      × (repo ≢ [])
      × ((r.tag ≢ []) ⊎ (r.digest ≢ []))
unfolding build_reference
build_reference-eq-ok ref registry [] tag digest r h = cc
build_reference-eq-ok ref registry (c ∷ repo) [] [] r h =
    (ground arith, ground arith, ground arith, inl (λ e. cc (h, e)))
build_reference-eq-ok ref registry (c ∷ repo) [] (d ∷ digest) r h =
    (ground arith, ground arith, ground arith, inr (λ e. cc (h, e)))
build_reference-eq-ok ref registry (c ∷ repo) (t ∷ tag) digest r h =
    (ground arith, ground arith, ground arith, inl (λ e. cc (h, e)))

normalise_registry-ne :
    (host : Text)
    → (normalise_registry host ≢ docker_hub_shortcut)
      × (normalise_registry host ≢ codes "index.docker.io")
unfolding normalise_registry
normalise_registry-ne host =
    ground (arith, text_eq_iff host docker_hub_shortcut, text_eq_iff host (codes "index.docker.io"))

-- What holds of every parsed reference.
pub record IsUsable (r : Reference) : Type 0 where
  pub named : r.repository ≢ []
  pub pinned : (r.tag ≢ []) ⊎ (r.digest ≢ [])
  pub canonical : (r.registry ≢ docker_hub_shortcut) × (r.registry ≢ codes "index.docker.io")
  pub namespaced : r.registry ≡ default_registry → has_byte b'/' r.repository ≡ true

-- Where Parse succeeds, the reference has a repository and a tag or a digest, its host is not an
-- alias of Docker Hub, and on Docker Hub the repository has a namespace.
pub parse-IsUsable : (s : Text) (r : Reference) → parse s ≡ ok r → IsUsable r
unfolding parse
parse-IsUsable s r h = elim (Bool-cases (is_empty s)) [
  | inl e ↦ ground (arith, e)
  | inr e ↦
      let host = (split_registry (split_digest s).0).0 in
      let path = (split_registry (split_digest s).0).1 in
      let registry = normalise_registry host in
      let (repo, tag) = split_tag (qualify registry path) in
      let built : build_reference s registry repo tag (split_digest s).1 ≡ ok r = rw e at h in
      let (reg, rep, named, pinned) =
        build_reference-eq-ok s registry repo tag (split_digest s).1 r built in
      record {
        named = rw rep named;
        pinned = pinned;
        canonical = rw reg (normalise_registry-ne host);
        namespaced = λ k. rw rep (
            let is_default : registry ≡ default_registry = sym reg ∙ k in
            split_tag-has_slash (qualify registry path) (rw is_default (qualify-has_slash path)));
      }
]

-- A name with no host, namespace, tag or digest.
pub record IsBare (name : Text) : Type 0 where
  pub named : name ≢ []
  pub no_path : Lacks b'/' name
  pub no_tag : Lacks b':' name
  pub no_digest : Lacks b'@' name

-- Parsing a name that is not empty and has no slash, colon or at sign gives the image of that name
-- in Docker Hub's library at the default tag.
pub parse-bare :
    (name : Text)
    → IsBare name
    → parse name
      ≡ ok (record {
        registry = default_registry;
        repository = codes "library/" ++ name;
        tag = default_tag;
        digest = [];
      })
unfolding parse build_reference
parse-bare [] h = absurd (h.named refl)
parse-bare (c ∷ name) h =
    let s = c ∷ name in
    let d : split_digest s ≡ (s, []) =
      unfold split_digest in
      ap (openwatch.Registry.Resolver.cut_digest s) (index-Lacks b'@' s h.no_digest) in
    let p : split_registry s ≡ (default_registry, s) =
      unfold split_registry in
      ap (openwatch.Registry.Resolver.cut_registry s) (index-Lacks b'/' s h.no_path) in
    let n : normalise_registry default_registry ≡ default_registry =
      unfold normalise_registry text_eq in refl in
    let q : qualify default_registry s ≡ codes "library/" ++ s =
      unfold qualify in rw (text_eq_refl default_registry, h.no_path) in
    let colon : Lacks b':' (codes "library/" ++ s) = unfold has_byte in h.no_tag in
    let t : split_tag (codes "library/" ++ s) ≡ (codes "library/" ++ s, []) =
      unfold split_tag in ap (cut_tag (codes "library/" ++ s)) (last_index-Lacks b':' _ colon) in
    rw (d, p, n, q, t)
