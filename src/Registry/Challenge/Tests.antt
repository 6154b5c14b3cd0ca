-- ===== src/Registry/Challenge/Tests.antt =====
-- A challenge of Docker Hub, with a comma in its scope.
use openwatch.Base.Text.Utf8.{IsUtf8, nil, one}
use openwatch.Base.{arith, Bool, true, leb, ◌&&◌, Bool-cases, inl, inr, ◌≡◌, refl, [], ◌∷◌}
use openwatch.Base.Text.{codes, has_byte, is_space}
use openwatch.Base.Assoc.{Assoc, lookup}
use openwatch.Base.Text.{Text}
use openwatch.Registry.Challenge.{parse_challenge}
use openwatch.Registry.Challenge.Split.{print_challenge}
use openwatch.Registry.Challenge.RoundTrip.{last_value, lookup-parse_challenge}

abbrev realm : Text × Text
realm = (codes "realm", codes "https://auth.docker.io/token")

abbrev others : Assoc Text
others =
    (codes "service", codes "registry.docker.io")
    ∷ (codes "scope", codes "repository:a/b:pull,push")
    ∷ []

abbrev all_below : Text → Bool
all_below [] = true
all_below (a ∷ s) = leb a 127 && all_below s

-- A text of ASCII is UTF-8.
all_ascii : (s : Text) → all_below s ≡ true → IsUtf8 s
all_ascii [] h = nil
all_ascii (a ∷ s) h = elim (Bool-cases (leb a 127)) [
  | inl e ↦ one a s (ground (arith, e)) (all_ascii s (ground (arith, e, h)))
  | inr e ↦ cc (h, e)
]

lookup-parse_challenge_example :
    lookup (codes "scope") (parse_challenge (print_challenge (realm ∷ others)))
    ≡ last_value (codes "scope") (realm ∷ others)
unfolding has_byte is_space
lookup-parse_challenge_example =
    lookup-parse_challenge realm others (codes "scope")
      (
        (
          refl,
          refl,
          refl,
          ((refl, (refl, (refl, (refl, (refl, tt))))), (refl, (refl, (refl, (refl, (refl, tt)))))),
          refl,
        ),
        (
          (
            refl,
            refl,
            refl,
            (
              (refl, (refl, (refl, (refl, (refl, (refl, (refl, tt))))))),
              (refl, (refl, (refl, (refl, (refl, (refl, (refl, tt))))))),
            ),
            refl,
          ),
          (
            (
              refl,
              refl,
              refl,
              (
                (refl, (refl, (refl, (refl, (refl, tt))))),
                (refl, (refl, (refl, (refl, (refl, tt))))),
              ),
              refl,
            ),
            tt,
          ),
        ),
      )
      (
        all_ascii (codes "https://auth.docker.io/token") refl,
        (
          all_ascii (codes "registry.docker.io") refl,
          (all_ascii (codes "repository:a/b:pull,push") refl, tt),
        ),
      )
