-- ===== src/State/Sort.antt =====
-- `sortContainerStates` is an insertion sort.
use mathlib.Core.List.{
  reverse, reverse-reverse, append_assoc, append-nil, reverse-cons, reverse_aux-eq,
}
use openwatch.Base.{
  ◌≡◌, refl, ap, inl, inr, true, false, List, [], ◌∷◌, ◌++◌, arith, if◌then◌else◌, Bool-cases, All,
  All-last, All-init, All-impl, IsOrdered,
}
use openwatch.Base.Text.{text_lt}
use openwatch.Base.Text.Equality.{text_lt_asym, text_nlt_trans}
use openwatch.State.{ContainerState, sink, sort_from, sort_container_states}

-- Later entries do not have smaller names.
abbrev pub IsSorted : List ContainerState → Type 0
IsSorted = IsOrdered (λ a b. text_lt b.name a.name ≡ false)

-- Before the first entry with a greater name.
unfoldable pub place : ContainerState → List ContainerState → List ContainerState
place x [] = x ∷ []
place x (y ∷ l) = if text_lt x.name y.name then x ∷ y ∷ l else y ∷ place x l

-- The reference: one entry after another is placed.
unfoldable pub place_all : List ContainerState → List ContainerState → List ContainerState
place_all acc [] = acc
place_all acc (x ∷ xs) = place_all (place x acc) xs

place-snoc_lt :
    (x y : ContainerState) (p : List ContainerState)
    → text_lt x.name y.name ≡ true
    → place x (p ++ y ∷ []) ≡ place x p ++ y ∷ []
unfolding place
place-snoc_lt x y [] h = rw h
place-snoc_lt x y (z ∷ p) h = ground (arith, place-snoc_lt x y p h)

place-after :
    (x : ContainerState) (p : List ContainerState)
    → All (λ z. text_lt x.name z.name ≡ false) p
    → place x p ≡ p ++ x ∷ []
unfolding place
place-after x [] h = refl
place-after x (z ∷ p) h = rw h.0 (ap (λ l. z ∷ l) (place-after x p h.1))

All-not_above :
    (x y : ContainerState) (p : List ContainerState)
    → IsSorted (p ++ y ∷ [])
    → text_lt x.name y.name ≡ false
    → All (λ z. text_lt x.name z.name ≡ false) (p ++ y ∷ [])
All-not_above x y [] s h = (h, tt)
All-not_above x y (z ∷ p) s h =
    let rest = All-not_above x y p s.1 h in
    (
      text_nlt_trans x.name y.name z.name h (All-last (λ b. text_lt b.name z.name ≡ false) p y s.0),
      rest,
    )

IsSorted-init : (p : List ContainerState) (y : ContainerState) → IsSorted (p ++ y ∷ []) → IsSorted p
IsSorted-init [] y s = tt
IsSorted-init (z ∷ p) y s =
    (All-init (λ b. text_lt b.name z.name ≡ false) p y s.0, IsSorted-init p y s.1)

sink-place :
    (left : List ContainerState) (x : ContainerState) (right : List ContainerState)
    → IsSorted (reverse left)
    → sink left x right ≡ place x (reverse left) ++ right
unfolding sink
sink-place [] x right s = unfold place in refl
sink-place (y ∷ left) x right s =
    let s' : IsSorted (reverse left ++ y ∷ []) = rw (← reverse-cons y left) s in
    elim (Bool-cases (text_lt x.name y.name)) [
      | inl e ↦ rw (
        e,
        sink-place left x (y ∷ right) (IsSorted-init (reverse left) y s'),
        reverse_aux-eq left (y ∷ []),
        place-snoc_lt x y (reverse left) e,
        append_assoc,
      )
      | inr e ↦
          rw
            (
              e,
              reverse_aux-eq left (y ∷ x ∷ right),
              reverse_aux-eq left (y ∷ []),
              place-after x (reverse left ++ y ∷ []) (All-not_above x y (reverse left) s' e),
            )
            (simp append_assoc)
    ]

module _ {ℓ} (P : ContainerState → Type ℓ) where
  pub All-place : (x : ContainerState) (l : List ContainerState) → P x → All P l → All P (place x l)
  unfolding place
  All-place x [] p h = (p, tt)
  All-place x (y ∷ l) p h = elim (Bool-cases (text_lt x.name y.name)) [
    | inl e ↦ rw e (p, h)
    | inr e ↦ rw e (h.0, All-place x l p h.1)
  ]

pub place-IsSorted :
    (x : ContainerState) (l : List ContainerState) → IsSorted l → IsSorted (place x l)
unfolding place
place-IsSorted x [] h = (tt, tt)
place-IsSorted x (y ∷ l) h = elim (Bool-cases (text_lt x.name y.name)) [
  | inl e ↦ rw e (
    (
      text_lt_asym _ _ e,
      All-impl (λ b. text_lt b.name y.name ≡ false) (λ b. text_lt b.name x.name ≡ false)
          (λ z k. text_nlt_trans z.name y.name x.name k (text_lt_asym _ _ e)) l h.0,
    ),
    h,
  )
  | inr e ↦ rw e (All-place (λ b. text_lt b.name y.name ≡ false) x l e h.0, place-IsSorted x l h.1)
]

sort_from-place_all :
    (acc l : List ContainerState) → IsSorted acc → sort_from acc l ≡ place_all acc l
unfolding sort_from place_all
sort_from-place_all acc [] h = refl
sort_from-place_all acc (x ∷ l) h =
    rw (sink-place (reverse acc) x [] (rw reverse-reverse h), reverse-reverse, append-nil)
      (sort_from-place_all (place x acc) l (place-IsSorted x acc h))

-- The in-place insertion sort computes what placing one entry after another into a sorted list
-- computes.
pub sort-place_all : (l : List ContainerState) → sort_container_states l ≡ place_all [] l
unfolding sort_container_states place_all place
sort-place_all [] = refl
sort-place_all (x ∷ xs) = sort_from-place_all (x ∷ []) xs (tt, tt)

place_all-IsSorted : (acc l : List ContainerState) → IsSorted acc → IsSorted (place_all acc l)
unfolding place_all
place_all-IsSorted acc [] h = h
place_all-IsSorted acc (x ∷ l) h = place_all-IsSorted (place x acc) l (place-IsSorted x acc h)

pub sort-IsSorted : (l : List ContainerState) → IsSorted (sort_container_states l)
sort-IsSorted l = rw sort-place_all (place_all-IsSorted [] l tt)
