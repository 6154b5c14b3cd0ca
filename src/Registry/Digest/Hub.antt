-- ===== src/Registry/Digest/Hub.antt =====
-- internal/registry/digest.go: the challenge that `fetchDockerHubToken` makes up.
use mathlib.Core.List.{append_assoc}
use openwatch.Base.{
  map, arith, Bool, Bool-cases, ◌≡◌, refl, sym, ap, ◌∙◌, false, Option, none, some, List, [], ◌∷◌,
  ◌++◌, All,
}
use openwatch.Base.Text.{Text, codes, has_byte, is_space}
use openwatch.Base.Text.Cut.{Lacks, Lacks-append}
use openwatch.Base.Text.Utf8.{
  repaired, repaired_from, repaired-append, repaired-clear, lead, tail_of,
}
use openwatch.Base.Assoc.{Assoc, lookup}
use openwatch.Registry.Challenge.{parse_challenge}
use openwatch.Registry.Challenge.Split.{print_challenge, print_params, IsParam, repaired_param}
use openwatch.Registry.Challenge.RoundTrip.{lookup-parse_repaired, last_value}
use openwatch.Registry.Digest.Tokens.{hub_challenge, token_request, basic_auth}
use openwatch.World.{AuthConfig, Method}

abbrev pub hub_scope : Text → Text
hub_scope repository = codes "repository:" ++ (repository ++ codes ":pull")

abbrev hub_realm : Text × Text
hub_realm = (codes "realm", codes "https://auth.docker.io/token")

abbrev hub_others : Text → Assoc Text
hub_others repository =
    (codes "service", codes "registry.docker.io") ∷ (codes "scope", hub_scope repository) ∷ []

printed :
    (repository : Text)
    → print_challenge (hub_realm ∷ hub_others repository) ≡ hub_challenge repository
unfolding print_challenge print_params
printed repository =
    ap
      (λ t.
        codes
          "Bearer realm=\"https://auth.docker.io/token\",service=\"registry.docker.io\",scope=\"repository:"
        ++ t)
      (append_assoc repository (codes ":pull") (b'"' ∷ []))

hub_scope-Lacks : (repository : Text) → Lacks b'"' repository → Lacks b'"' (hub_scope repository)
unfolding has_byte
hub_scope-Lacks repository h =
    Lacks-append b'"' (codes "repository:") (repository ++ codes ":pull") refl
      (Lacks-append b'"' repository (codes ":pull") h refl)

ArePlain :
    (repository : Text) → Lacks b'"' repository → All IsParam (hub_realm ∷ hub_others repository)
unfolding has_byte is_space
ArePlain repository h = (
  (
    refl,
    refl,
    refl,
    ((refl, (refl, (refl, (refl, (refl, tt))))), (refl, (refl, (refl, (refl, (refl, tt)))))),
    refl,
  ),
  (
    (
      refl,
      refl,
      refl,
      (
        (refl, (refl, (refl, (refl, (refl, (refl, (refl, tt))))))),
        (refl, (refl, (refl, (refl, (refl, (refl, (refl, tt))))))),
      ),
      refl,
    ),
    (
      (
        refl,
        refl,
        refl,
        ((refl, (refl, (refl, (refl, (refl, tt))))), (refl, (refl, (refl, (refl, (refl, tt)))))),
        hub_scope-Lacks repository h,
      ),
      tt,
    ),
  ),
)

repaired_scope :
    (repository : Text) → repaired (hub_scope repository) ≡ hub_scope (repaired repository)
unfolding repaired repaired_from lead tail_of
repaired_scope repository =
    repaired-clear (codes "repository:") (repository ++ codes ":pull")
      (refl, (refl, (refl, (refl, (refl, (refl, (refl, (refl, (refl, (refl, (refl, tt)))))))))))
    ∙ ap (λ t. codes "repository:" ++ t)
        (repaired-append b':' (omega arith) repository (codes "pull"))

-- The parameters as they are read.
repaired_hub :
    (repository : Text)
    → map repaired_param (hub_realm ∷ hub_others repository)
      ≡ hub_realm ∷ hub_others (repaired repository)
unfolding repaired repaired_from lead tail_of
repaired_hub repository =
    ap (λ s. hub_realm ∷ (codes "service", codes "registry.docker.io") ∷ (codes "scope", s) ∷ [])
      (repaired_scope repository)

param :
    (repository n : Text)
    → Lacks b'"' repository
    → lookup n (parse_challenge (hub_challenge repository))
      ≡ last_value n (hub_realm ∷ hub_others (repaired repository))
param repository n h =
    ap (λ t. lookup n (parse_challenge t)) (sym (printed repository))
    ∙ lookup-parse_repaired hub_realm (hub_others repository) n (ArePlain repository h)
    ∙ ap (last_value n) (repaired_hub repository)

-- For a repository without quotes, the request for a token of Docker Hub is a GET of
-- https://auth.docker.io/token with the service and the scope of pulling that repository, and with
-- the user's credentials if there are any. A byte of the repository that is no UTF-8 counts as
-- U+FFFD.
pub hub-token_request :
    (repository : Text) (auth : Option AuthConfig)
    → Lacks b'"' repository
    → token_request (parse_challenge (hub_challenge repository)) auth ≡ record {
      method = Method.get;
      url = codes "https://auth.docker.io/token";
      query =
          (codes "service", codes "registry.docker.io")
          ∷ (codes "scope", hub_scope (repaired repository))
          ∷ [];
      accept = [];
      authorization = basic_auth auth;
    }
unfolding token_request last_value openwatch.Base.Text.text_eq
hub-token_request repository auth h =
    rw
      (
        param repository (codes "realm") h,
        param repository (codes "service") h,
        param repository (codes "scope") h,
      )
      refl
