-- ===== src/Updater/Identifiers/Tests.antt =====
-- The theorems on identifiers at concrete inputs.
use openwatch.Base.{◌≡◌, ◌↔◌, ◌≢◌, true, List, [], ◌∷◌, ◌<◌, ◌≤◌, length}
use openwatch.Base.Text.{Text, codes}
use openwatch.Updater.Identifiers.{identifiers_intersect, short_image_id}
use openwatch.Updater.Identifiers.Laws.{
  Reads, identifiers_intersect_iff, identifiers_intersect_comm, short_image_id_bounds,
}

abbrev locals : List Text
locals = codes "sha256:AB " ∷ codes "sha256:cd" ∷ []

abbrev remotes : List Text
remotes = codes "sha256:ab" ∷ []

identifiers_intersect_iff_example :
    (identifiers_intersect locals remotes ≡ true)
    ↔ ((d : Text) × (d ≢ []) × Reads d locals × Reads d remotes)
identifiers_intersect_iff_example = identifiers_intersect_iff locals remotes

identifiers_intersect_comm_example :
    identifiers_intersect locals remotes ≡ identifiers_intersect remotes locals
identifiers_intersect_comm_example = identifiers_intersect_comm locals remotes

short_image_id_bounds_example :
    (0 < length (short_image_id (codes "sha256:0123456789abcdef")))
    × (length (short_image_id (codes "sha256:0123456789abcdef")) ≤ 12)
short_image_id_bounds_example = short_image_id_bounds (codes "sha256:0123456789abcdef")
