-- ===== src/Updater/Identifiers.antt =====
-- internal/updater/watcher.go: `identifiersIntersect`, `shortDigest` and `shortImageID`.
pub mod Laws
mod Tests
use openwatch.Base.{
  suc, zero, ℕ, Bool, true, false, ◌||◌, Option, none, some, List, [], ◌∷◌, ◌++◌, ltb,
  if◌then◌else◌, length, take, drop,
}
use openwatch.Base.Text.{Text, codes, index, to_lower, trim_space, is_empty}
use openwatch.Base.Assoc.{Assoc, insert, has_key}

-- `strings.ToLower(strings.TrimSpace(id))`
unfoldable pub normal : Text → Text
normal id = to_lower (trim_space id)

-- One round of the loop over the local identifiers.
unfoldable pub add_seen : Text → Assoc (Unit {0}) → Assoc (Unit {0})
add_seen id seen = if is_empty id then seen else insert id tt seen

-- The loop over the local identifiers: `seen`.
unfoldable pub seen_from : Assoc (Unit {0}) → List Text → Assoc (Unit {0})
seen_from seen [] = seen
seen_from seen (id ∷ ids) = seen_from (add_seen (normal id) seen) ids

-- The loop over the remote identifiers.
unfoldable pub any_seen : Assoc (Unit {0}) → List Text → Bool
any_seen seen [] = false
any_seen seen (id ∷ ids) =
    let rest = any_seen seen ids in
    if is_empty (normal id) then rest else if has_key (normal id) seen then true else rest

unfoldable pub identifiers_intersect : List Text → List Text → Bool
identifiers_intersect locals remotes =
    if is_empty locals || is_empty remotes then false else any_seen (seen_from [] locals) remotes

-- `none` is the -1 of `strings.Index(d, ":")`.
abbrev pub shorten_at : Text → Option ℕ → Text
shorten_at d none = d
shorten_at d (some i) =
    let rest = drop (suc i) d in if ltb 12 (length rest) then take (suc i) d ++ take 12 rest else d

unfoldable pub short_digest : Text → Text
short_digest d = shorten_at d (index b':' d)

abbrev pub after_colon : Text → Option ℕ → Text
after_colon id none = id
after_colon id (some i) = drop (suc i) id

abbrev pub short_or_unknown : Text → Text
short_or_unknown id =
    if ltb 12 (length id) then take 12 id else if is_empty id then codes "unknown" else id

unfoldable pub short_image_id : Text → Text
short_image_id id = short_or_unknown (after_colon id (index b':' id))
