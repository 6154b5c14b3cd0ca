-- ===== src/Registry/Digest/Tests.antt =====
-- The choice of a platform at a concrete list, and lookups of one image.
use openwatch.Base.{◌≡◌, refl, none, List, [], ◌∷◌, inl, inr}
use openwatch.Base.Text.{Text, codes}
use openwatch.Base.Errors.{ok}
use openwatch.Registry.{PlatformDescriptor}
use openwatch.Base.Text.{has_byte}
use openwatch.Registry.Challenge.{parse_challenge}
use openwatch.Registry.Resolver.{Reference}
use openwatch.Registry.Digest.{
  choose_platform, basic_auth, manifest_url, head_result, read_manifest, head_manifest,
  get_manifest, head_manifest_digest, fetch_remote_identifiers,
}
use openwatch.Registry.Digest.Bounds.{Within, lookups-le}
use openwatch.Base.Text.Utf8.{repaired}
use openwatch.Registry.Digest.Hub.{hub_scope, hub-token_request}
use openwatch.Registry.Digest.Lookup.{After, lookups-Conversation}
use openwatch.Registry.Digest.Protocol.{Conversation}
use openwatch.Registry.Digest.Tokens.{token_request, hub_challenge}
use openwatch.Updater.Fixture.{answers, start}
use openwatch.World.{Method}
use openwatch.World.Gives.{Gives}
use openwatch.Registry.Digest.Platform.{IsDigestOf, wanted, choose_platform-Fits}

abbrev entry : Text → Text → Text → PlatformDescriptor
entry digest os arch = record {
  digest = digest;
  media_type = [];
  architecture = arch;
  os = os;
  variant = [];
}

abbrev entries : List PlatformDescriptor
entries =
    entry (codes "d1") (codes "windows") (codes "arm64")
    ∷ entry (codes "d2") (codes "linux") (codes "arm64")
    ∷ []

choose_platform-Fits_example :
    (d : Text) × (choose_platform (codes "arm64") entries ≡ ok d)
    × IsDigestOf (wanted (codes "arm64")) entries d
choose_platform-Fits_example = choose_platform-Fits (codes "arm64") entries (inr (inl (refl, refl)))

hub-token_request_example :
    token_request (parse_challenge (hub_challenge (codes "library/web"))) none ≡ record {
      method = Method.get;
      url = codes "https://auth.docker.io/token";
      query =
          (codes "service", codes "registry.docker.io")
          ∷ (codes "scope", hub_scope (repaired (codes "library/web")))
          ∷ [];
      accept = [];
      authorization = basic_auth none;
    }
unfolding has_byte
hub-token_request_example = hub-token_request (codes "library/web") none refl

abbrev hub_image : Reference
hub_image = record {
  registry = codes "registry-1.docker.io";
  repository = codes "library/web";
  tag = codes "1";
  digest = [];
}

lookups-Conversation_example :
    let url = manifest_url hub_image (codes "1") in
    Gives
      (After answers Method.head url none
        (head_result url)
        (Conversation answers Method.head url none hub_image []))
      (head_manifest hub_image (codes "1") none answers start)
    × Gives
        (After answers Method.get url none
          (read_manifest url)
          (Conversation answers Method.get url none hub_image []))
        (get_manifest hub_image (codes "1") none answers start)
lookups-Conversation_example = lookups-Conversation hub_image (codes "1") none answers start

lookups-le_example :
    Gives (Within 4 []) (head_manifest_digest hub_image none answers start)
    × Gives (Within 8 []) (fetch_remote_identifiers hub_image none answers start)
lookups-le_example = lookups-le hub_image none answers start
