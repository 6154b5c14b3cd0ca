-- ===== src/Updater/Identifiers/Laws.antt =====
-- When two identifier sets are taken to describe one image.
use openwatch.Base.{
  ℕ, suc, zero, ◌≤◌, ◌<◌, ◌≡◌, refl, sym, ap, ◌∙◌, ◌↔◌, ◌≢◌, ◌⊎◌, inl, inr, true, false, ◌||◌, List,
  [], ◌∷◌, arith, ltb, if◌then◌else◌, Bool-cases, Any, length, take,
}
use openwatch.Base.Text.{Text, text_eq, index, is_empty, to_lower, trim_space}
use openwatch.Base.Text.Equality.{text_eq_iff, eq_of_text_eq}
use openwatch.Base.Assoc.{Assoc, insert, has_key, lookup}
use openwatch.Base.Assoc.Laws.{lookup-insert}
use openwatch.Updater.Identifiers.{
  normal, add_seen, seen_from, any_seen, identifiers_intersect, short_image_id, short_or_unknown,
  after_colon,
}

-- An identifier of the list reads `d` once trimmed and in lower case. What is trimmed is the white
-- space at both ends, as much as there is.
abbrev pub Reads : Text → List Text → Type 0
Reads d = Any (λ id. to_lower (trim_space id) ≡ d)

has_key-insert :
    (k j : Text) (m : Assoc (Unit {0})) → has_key j (insert k tt m) ≡ (text_eq k j || has_key j m)
unfolding has_key
has_key-insert k j m = ground (arith, lookup-insert k j tt m)

is_empty_iff : (s : Text) → (is_empty s ≡ true) ↔ (s ≡ [])
is_empty_iff [] = (λ h. refl, λ h. refl)
is_empty_iff (c ∷ s) = (λ h. cc, λ h. cc)

has_key-add_seen :
    (id d : Text) (m : Assoc (Unit {0}))
    → has_key d (add_seen id m) ≡ (if is_empty id then has_key d m else text_eq id d || has_key d m)
unfolding add_seen
has_key-add_seen id d m = ground (arith, has_key-insert id d m)

seen_from-keeps :
    (d : Text) (m : Assoc (Unit {0})) (ids : List Text)
    → has_key d m ≡ true
    → has_key d (seen_from m ids) ≡ true
unfolding seen_from normal
seen_from-keeps d m [] h = h
seen_from-keeps d m (id ∷ ids) h =
    seen_from-keeps d (add_seen (normal id) m) ids
      (ground (arith, has_key-add_seen (normal id) d m))

seen_from_of :
    (d : Text) (m : Assoc (Unit {0})) (ids : List Text)
    → d ≢ []
    → Reads d ids
    → has_key d (seen_from m ids) ≡ true
unfolding seen_from normal
seen_from_of d m [] h k = absurd k
seen_from_of d m (id ∷ ids) h (inl e) = seen_from-keeps d (add_seen (normal id) m) ids (
    ground (
      arith,
      is_empty_iff (normal id),
      has_key-add_seen (normal id) d m,
      text_eq_iff (normal id) d,
    ))
seen_from_of d m (id ∷ ids) h (inr k) = seen_from_of d (add_seen (normal id) m) ids h k

add_seen-Reads :
    (id d : Text) (m : Assoc (Unit {0}))
    → has_key d (add_seen id m) ≡ true
    → (has_key d m ≡ true) ⊎ ((d ≢ []) × (id ≡ d))
add_seen-Reads id d m h = elim (Bool-cases (is_empty id)) [
  | inl e ↦ inl (ground (arith, e, has_key-add_seen id d m))
  | inr e ↦ elim (Bool-cases (text_eq id d)) [
    | inl same ↦ inr (
      λ p. ground (arith, e, p, eq_of_text_eq id d same, is_empty_iff id),
      eq_of_text_eq id d same,
    )
    | inr different ↦ inl (ground (arith, e, different, has_key-add_seen id d m))
  ]
]

seen_from-Reads :
    (d : Text) (m : Assoc (Unit {0})) (ids : List Text)
    → has_key d (seen_from m ids) ≡ true
    → (has_key d m ≡ true) ⊎ ((d ≢ []) × Reads d ids)
unfolding seen_from normal
seen_from-Reads d m [] h = inl h
seen_from-Reads d m (id ∷ ids) h = elim (seen_from-Reads d (add_seen (normal id) m) ids h) [
  | inr (ne, k) ↦ inr (ne, inr k)
  | inl k ↦ elim (add_seen-Reads (normal id) d m k) [
    | inl old ↦ inl old
    | inr (ne, e) ↦ inr (ne, inl e)
  ]
]

any_seen_of :
    (d : Text) (m : Assoc (Unit {0})) (ids : List Text)
    → d ≢ []
    → has_key d m ≡ true
    → Reads d ids
    → any_seen m ids ≡ true
unfolding any_seen normal
any_seen_of d m [] h s k = absurd k
any_seen_of d m (id ∷ ids) h s (inl e) =
    ground (arith, is_empty_iff (normal id), ap (λ x. has_key x m) e)
any_seen_of d m (id ∷ ids) h s (inr k) = ground (arith, any_seen_of d m ids h s k)

abbrev IsSeenIn : Assoc (Unit {0}) → List Text → Type 0
IsSeenIn m ids = (d : Text) × (has_key d m ≡ true) × Reads d ids

IsSeenIn-cons :
    (m : Assoc (Unit {0})) (id : Text) (ids : List Text) → IsSeenIn m ids → IsSeenIn m (id ∷ ids)
IsSeenIn-cons m id ids (d, s, r) = (d, s, inr r)

any_seen-IsSeenIn :
    (m : Assoc (Unit {0})) (ids : List Text) → any_seen m ids ≡ true → IsSeenIn m ids
unfolding any_seen normal
any_seen-IsSeenIn m [] h = cc
any_seen-IsSeenIn m (id ∷ ids) h = elim (Bool-cases (is_empty (normal id))) [
  | inl e ↦ IsSeenIn-cons m id ids (any_seen-IsSeenIn m ids (ground (arith, e)))
  | inr e ↦ elim (Bool-cases (has_key (normal id) m)) [
    | inl k ↦ (normal id, k, inl refl)
    | inr k ↦ IsSeenIn-cons m id ids (any_seen-IsSeenIn m ids (ground (arith, e, k)))
  ]
]

has_key-nil : (d : Text) → has_key {V = Unit {0}} d [] ≡ false
unfolding has_key lookup
has_key-nil d = refl

-- The identifiers intersect exactly when some local and some remote one agree, trimmed of the
-- white space at both ends and in lower case, on a text that is not empty.
pub identifiers_intersect_iff :
    (locals remotes : List Text)
    → (identifiers_intersect locals remotes ≡ true)
      ↔ ((d : Text) × (d ≢ []) × Reads d locals × Reads d remotes)
unfolding identifiers_intersect
identifiers_intersect_iff [] remotes = (λ h. cc, λ k. absurd k.2)
identifiers_intersect_iff (l ∷ locals) [] = (λ h. cc, λ k. absurd k.3)
identifiers_intersect_iff (l ∷ locals) (r ∷ remotes) =
    let seen = seen_from [] (l ∷ locals) in
    (
      λ h.
          let (d, s, k) = any_seen-IsSeenIn seen (r ∷ remotes) h in
          elim (seen_from-Reads d [] (l ∷ locals) s) [
            | inl old ↦ cc (old, has_key-nil d)
            | inr (ne, j) ↦ (d, ne, j, k)
          ],
      λ k. any_seen_of k.0 seen (r ∷ remotes) k.1 (seen_from_of k.0 [] (l ∷ locals) k.1 k.2) k.3,
    )

-- Whether the identifiers intersect does not depend on which side is local.
pub identifiers_intersect_comm :
    (locals remotes : List Text)
    → identifiers_intersect locals remotes ≡ identifiers_intersect remotes locals
identifiers_intersect_comm locals remotes =
    let there = identifiers_intersect_iff locals remotes in
    let back = identifiers_intersect_iff remotes locals in
    elim (Bool-cases (identifiers_intersect locals remotes)) [
      | inl e ↦ let (d, ne, j, k) = there.0 e in e ∙ sym (back.1 (d, ne, k, j))
      | inr e ↦ elim (Bool-cases (identifiers_intersect remotes locals)) [
        | inl e' ↦ let (d, ne, j, k) = back.0 e' in cc (e, there.1 (d, ne, k, j))
        | inr e' ↦ e ∙ sym e'
      ]
    ]

length-take : (n : ℕ) (s : Text) → n ≤ length s → length (take n s) ≡ n
length-take zero s h = refl
length-take (suc n) [] h = absurd (omega arith)
length-take (suc n) (c ∷ s) h = ap suc (length-take n s (omega arith))

short_or_unknown-bounds :
    (s : Text) → (0 < length (short_or_unknown s)) × (length (short_or_unknown s) ≤ 12)
short_or_unknown-bounds [] = omega arith
short_or_unknown-bounds (c ∷ s) = elim (Bool-cases (ltb 12 (length (c ∷ s)))) [
  | inl e ↦ let n = length-take 12 (c ∷ s) (ground arith) in rw (e, n) (omega arith)
  | inr e ↦ rw e (ground (arith, e))
]

-- A shortened image ID is not empty and has at most twelve bytes.
pub short_image_id_bounds :
    (id : Text) → (0 < length (short_image_id id)) × (length (short_image_id id) ≤ 12)
unfolding short_image_id
short_image_id_bounds id = short_or_unknown-bounds (after_colon id (index b':' id))
