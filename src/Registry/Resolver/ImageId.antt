-- ===== src/Registry/Resolver/ImageId.antt =====
-- internal/registry/resolver.go: what `Parse` makes of an image ID, which a rollback puts in the
-- place of the image's name.
use openwatch.Base.{◌≡◌, ◌≢◌, refl, ap, [], ◌∷◌, ◌++◌}
use openwatch.Base.Text.{Text, codes, text_eq, has_byte}
use openwatch.Base.Text.Equality.{text_eq_refl}
use openwatch.Base.Text.Cut.{Lacks, index-Lacks}
use openwatch.Base.Errors.{ok}
use openwatch.Registry.Resolver.{
  default_registry, cut_digest, split_digest, cut_registry, split_registry, normalise_registry,
  qualify, split_tag, build_reference, parse,
}
use openwatch.Registry.Resolver.RoundTrip.{split_tag_lem}

-- Parsing "sha256:" and a text that is not empty and has no slash, colon or at sign, as of an
-- image ID, succeeds: it gives the repository library/sha256 on Docker Hub, with that text as the
-- tag.
pub parse-image_id :
    (hex : Text)
    → hex ≢ []
    → Lacks b'/' hex
    → Lacks b':' hex
    → Lacks b'@' hex
    → parse (codes "sha256:" ++ hex)
      ≡ ok (record {
        registry = default_registry;
        repository = codes "library/sha256";
        tag = hex;
        digest = [];
      })
unfolding parse build_reference
parse-image_id [] h p t a = absurd (h refl)
parse-image_id (c ∷ hex) h p t a =
    let s = codes "sha256:" ++ c ∷ hex in
    let d : split_digest s ≡ (s, []) =
      unfold split_digest has_byte in ap (cut_digest s) (index-Lacks b'@' s a) in
    let r : split_registry s ≡ (default_registry, s) =
      unfold split_registry has_byte in ap (cut_registry s) (index-Lacks b'/' s p) in
    let n : normalise_registry default_registry ≡ default_registry =
      unfold normalise_registry text_eq in refl in
    let q : qualify default_registry s ≡ codes "library/" ++ s =
      unfold qualify has_byte in rw (text_eq_refl default_registry, p) in
    let g : split_tag (codes "library/" ++ s) ≡ (codes "library/sha256", c ∷ hex) =
      split_tag_lem (codes "library/sha256") (c ∷ hex) (unfold has_byte in refl) t p in
    rw (d, r, n, q, g)
