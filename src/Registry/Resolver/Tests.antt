-- ===== src/Registry/Resolver/Tests.antt =====
-- The examples in the comment of `Parse`.
use openwatch.Registry.Resolver.Laws.{IsUsable, parse-IsUsable, parse-bare}
use openwatch.Registry.Resolver.RoundTrip.{print_reference, IsFull, parse-print_reference}
use openwatch.Registry.Resolver.ImageId.{parse-image_id}
use openwatch.Base.{◌≡◌, ◌≢◌, false, ◌++◌, refl, inl, inr, []}
use openwatch.Base.Text.{Text, codes, text_eq, index, last_index, has_byte}
use openwatch.Base.Text.Equality.{text_eq_refl}
use openwatch.Base.Errors.{ok}
use openwatch.Registry.Resolver.{
  Reference, default_registry, default_tag, parse, split_digest, split_registry, is_host,
  normalise_registry, qualify, split_tag, build_reference,
}

parsing : Unit {0}
unfolding parse split_digest split_registry is_host normalise_registry qualify split_tag
    build_reference text_eq index last_index has_byte
parsing = tt

abbrev reference : Text → Text → Text → Text → Reference
reference r p t d = record { registry = r; repository = p; tag = t; digest = d }

parse-nginx :
    parse (codes "nginx")
    ≡ ok (reference (codes "registry-1.docker.io") (codes "library/nginx") (codes "latest") [])
unfolding parsing
parse-nginx = refl

parse-port :
    parse (codes "host:5000/img")
    ≡ ok (reference (codes "host:5000") (codes "img") (codes "latest") [])
unfolding parsing
parse-port = refl

parse-pinned :
    parse (codes "docker.io/user/app:1@sha256:ab")
    ≡ ok (
        reference (codes "registry-1.docker.io") (codes "user/app") (codes "1") (codes "sha256:ab"))
unfolding parsing
parse-pinned = refl

parse-IsUsable_example : IsUsable (reference (codes "host:5000") (codes "img") (codes "latest") [])
parse-IsUsable_example =
    parse-IsUsable (codes "host:5000/img")
      (reference (codes "host:5000") (codes "img") (codes "latest") []) parse-port

parse-bare_example :
    parse (codes "nginx")
    ≡ ok (reference default_registry (codes "library/" ++ codes "nginx") default_tag [])
unfolding has_byte
parse-bare_example =
    parse-bare (codes "nginx")
      (record { named = λ e. cc; no_path = refl; no_tag = refl; no_digest = refl })

abbrev pinned : Reference
pinned = reference (codes "host:5000") (codes "user/app") (codes "1") (codes "sha256:ab")

apart : (s t : Text) → text_eq s t ≡ false → s ≢ t
apart s t h e = cc (h, e, text_eq_refl t)

pinned-IsFull : IsFull pinned
unfolding is_host has_byte text_eq
pinned-IsFull = record {
  host = refl;
  host_path = refl;
  host_digest = refl;
  shortcut = apart _ _ refl;
  index_host = apart _ _ refl;
  named = λ e. cc;
  namespaced = inr refl;
  repository_tag = refl;
  repository_digest = refl;
  tag_path = refl;
  tag_tag = refl;
  tag_digest = refl;
  pinned = inl (λ e. cc);
}

parse-print_reference_example : parse (print_reference pinned) ≡ ok pinned
parse-print_reference_example = parse-print_reference pinned pinned-IsFull

parse-image_id_example :
    parse (codes "sha256:" ++ codes "0123ab")
    ≡ ok (reference default_registry (codes "library/sha256") (codes "0123ab") [])
unfolding has_byte
parse-image_id_example = parse-image_id (codes "0123ab") (λ e. cc) refl refl refl
