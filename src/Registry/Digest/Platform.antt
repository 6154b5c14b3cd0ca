-- ===== src/Registry/Digest/Platform.antt =====
-- internal/registry/digest.go: which entry of a manifest list is chosen.
use openwatch.Base.{
  ◌≡◌, refl, true, some, List, [], ◌∷◌, ◌&&◌, inl, inr, Any, Bool-cases, if◌then◌else◌, and_true,
}
use openwatch.Base.Text.{Text, codes, text_eq, is_empty}
use openwatch.Base.Text.Equality.{eq_of_text_eq, text_eq_refl}
use openwatch.Base.Errors.{ok}
use openwatch.Registry.{PlatformDescriptor}
use openwatch.Registry.Digest.{find_platform, choose_platform}

-- An entry for linux on the architecture.
abbrev pub Fits : Text → PlatformDescriptor → Type 0
Fits arch p = (p.os ≡ codes "linux") × (p.architecture ≡ arch)

-- The digest of an entry that fits.
abbrev pub IsDigestOf : Text → List PlatformDescriptor → Text → Type 0
IsDigestOf arch ms d = Any (λ p. Fits arch p × (p.digest ≡ d)) ms

-- The architecture that is looked for.
abbrev pub wanted : Text → Text
wanted goarch = if is_empty goarch then codes "amd64" else goarch

Fits-test :
    (arch : Text) (m : PlatformDescriptor)
    → Fits arch m
    → (text_eq m.os (codes "linux") && text_eq m.architecture arch) ≡ true
Fits-test arch m h = rw (h.0, h.1, text_eq_refl arch, text_eq_refl (codes "linux"))

test-Fits :
    (arch : Text) (m : PlatformDescriptor)
    → (text_eq m.os (codes "linux") && text_eq m.architecture arch) ≡ true
    → Fits arch m
test-Fits arch m e =
    let (os, same) = and_true (text_eq m.os (codes "linux")) _ e in
    (eq_of_text_eq m.os _ os, eq_of_text_eq m.architecture arch same)

find_platform-Fits :
    (arch : Text) (ms : List PlatformDescriptor)
    → Any (Fits arch) ms
    → (d : Text) × (find_platform (codes "linux") arch ms ≡ some d) × IsDigestOf arch ms d
unfolding find_platform
find_platform-Fits arch [] h = absurd h
find_platform-Fits arch (m ∷ ms) h =
    elim (Bool-cases (text_eq m.os (codes "linux") && text_eq m.architecture arch)) [
      | inl e ↦ (m.digest, rw e, inl (test-Fits arch m e, refl))
      | inr e ↦ elim h [
        | inl fits ↦ cc (e, Fits-test arch m fits)
        | inr rest ↦
            let (d, found, listed) = find_platform-Fits arch ms rest in (d, rw e found, inr listed)
      ]
    ]

-- Where a manifest list has an entry for linux on the wanted architecture, which is the host's, or
-- amd64 where that is unknown, the choice of a platform succeeds with the digest of such an entry.
pub choose_platform-Fits :
    (goarch : Text) (ms : List PlatformDescriptor)
    → Any (Fits (wanted goarch)) ms
    → (d : Text) × (choose_platform goarch ms ≡ ok d) × IsDigestOf (wanted goarch) ms d
unfolding choose_platform
choose_platform-Fits goarch [] h = absurd h
choose_platform-Fits goarch (m ∷ ms) h =
    let (d, found, listed) = find_platform-Fits (wanted goarch) (m ∷ ms) h in
    (d, rw (choose_platform, found), listed)
