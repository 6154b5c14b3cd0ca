-- ===== src/State/Snapshot/Finding.antt =====
-- Finding a name in a list of entries, as entries are placed in their order.
use mathlib.Core.List.{Perm, perm_middle}
use mathlib.Core.List.Perm
use openwatch.Base.{
  ◌≡◌, refl, sym, ◌∙◌, ◌≢◌, inl, inr, true, false, Option, none, some, List, [], ◌∷◌, ◌++◌,
  if◌then◌else◌, Bool-cases, All, All-impl, IsOrdered,
}
use openwatch.Base.Text.{Text, text_eq, text_lt}
use openwatch.Base.Text.Equality.{
  eq_of_text_eq, text_ne, text_eq_refl, text_lt_total, text_lt_irrefl, text_lt_trans,
}
use openwatch.State.{ContainerState}
use openwatch.State.Sort.{IsSorted, place, place_all, All-place}

place-perm : (x : ContainerState) (l : List ContainerState) → Perm (place x l) (x ∷ l)
unfolding place
place-perm x [] = Perm.refl _
place-perm x (y ∷ l) = elim (Bool-cases (text_lt x.name y.name)) [
  | inl e ↦ rw e (Perm.refl _)
  | inr e ↦ rw e (Perm.trans (Perm.cons y (place-perm x l)) (Perm.swap _ _ _))
]

pub place_all-perm : (acc l : List ContainerState) → Perm (place_all acc l) (l ++ acc)
unfolding place_all
place_all-perm acc [] = Perm.refl _
place_all-perm acc (x ∷ l) =
    Perm.trans (place_all-perm (place x acc) l)
      (Perm.trans (Perm.append_left l (place-perm x acc)) (perm_middle l acc))

-- The entry of the list with a given name.
unfoldable pub find : Text → List ContainerState → Option ContainerState
find n [] = none
find n (c ∷ l) = if text_eq c.name n then some c else find n l

abbrev pub IsFresh : ContainerState → List ContainerState → Type 0
IsFresh x = All (λ y. x.name ≢ y.name)

abbrev pub HasDistinctNames : List ContainerState → Type 0
HasDistinctNames = IsOrdered (λ a b. a.name ≢ b.name)

-- Each name is smaller than every later one.
abbrev pub IsStrict : List ContainerState → Type 0
IsStrict = IsOrdered (λ a b. text_lt a.name b.name ≡ true)

pub IsStrict-of : (l : List ContainerState) → IsSorted l → HasDistinctNames l → IsStrict l
IsStrict-of [] s d = tt
IsStrict-of (x ∷ l) s d = (step l s.0 d.0, IsStrict-of l s.1 d.1)
  where
    step :
        (l : List ContainerState)
        → All (λ b. text_lt b.name x.name ≡ false) l
        → IsFresh x l
        → All (λ b. text_lt x.name b.name ≡ true) l
    step [] h k = tt
    step (y ∷ l) h k = (
      elim (Bool-cases (text_lt x.name y.name)) [
        | inl e ↦ e
        | inr e ↦ absurd (k.0 (text_lt_total _ _ e h.0))
      ],
      step l h.1 k.1,
    )

find-fresh : (x : ContainerState) (l : List ContainerState) → IsFresh x l → find x.name l ≡ none
unfolding find
find-fresh x [] h = refl
find-fresh x (y ∷ l) h = rw (text_ne y.name x.name (λ e. h.0 (sym e))) (find-fresh x l h.1)

find-place :
    (n : Text) (x : ContainerState) (l : List ContainerState)
    → IsFresh x l
    → find n (place x l) ≡ (if text_eq x.name n then some x else find n l)
unfolding find place
find-place n x [] h = refl
find-place n x (y ∷ l) h = elim (Bool-cases (text_lt x.name y.name)) [
  | inl e ↦ rw e
  | inr e ↦ rw e (elim (Bool-cases (text_eq x.name n)) [
    | inl same ↦ rw (
      same,
      text_ne y.name n (λ p. h.0 (eq_of_text_eq x.name n same ∙ sym p)),
      find-place n x l h.1,
      same,
    )
    | inr other ↦ rw (other, find-place n x l h.1, other)
  ])
]

unfoldable pub find_append :
    Text → Option ContainerState → Option ContainerState → Option ContainerState
find_append n none o = o
find_append n (some c) o = some c

place-HasDistinctNames :
    (x : ContainerState) (l : List ContainerState)
    → IsFresh x l
    → HasDistinctNames l
    → HasDistinctNames (place x l)
unfolding place
place-HasDistinctNames x [] h d = (tt, tt)
place-HasDistinctNames x (y ∷ l) h d = elim (Bool-cases (text_lt x.name y.name)) [
  | inl e ↦ rw e (h, d)
  | inr e ↦ rw e (
    All-place (λ b. y.name ≢ b.name) x l (λ p. h.0 (sym p)) d.0,
    place-HasDistinctNames x l h.1 d.1,
  )
]

-- No entry of the second list has a name of the first.
abbrev pub AreApart : List ContainerState → List ContainerState → Type 0
AreApart acc = All (λ x. IsFresh x acc)

AreApart-place :
    (x : ContainerState) (acc l : List ContainerState)
    → IsFresh x l
    → AreApart acc l
    → AreApart (place x acc) l
AreApart-place x acc [] h k = tt
AreApart-place x acc (y ∷ l) h k =
    (All-place (λ z. y.name ≢ z.name) x acc (λ p. h.0 (sym p)) k.0, AreApart-place x acc l h.1 k.1)

pub place_all-HasDistinctNames :
    (acc l : List ContainerState)
    → HasDistinctNames acc
    → HasDistinctNames l
    → AreApart acc l
    → HasDistinctNames (place_all acc l)
unfolding place_all
place_all-HasDistinctNames acc [] d e k = d
place_all-HasDistinctNames acc (x ∷ l) d e k =
    place_all-HasDistinctNames (place x acc) l (place-HasDistinctNames x acc k.0 d) e.1
      (AreApart-place x acc l e.0 k.1)

pub find-place_all :
    (n : Text) (acc l : List ContainerState)
    → HasDistinctNames l
    → AreApart acc l
    → find n (place_all acc l) ≡ find_append n (find n l) (find n acc)
unfolding place_all find_append find
find-place_all n acc [] d k = refl
find-place_all n acc (x ∷ l) d k =
    rw
      (
        find-place_all n (place x acc) l d.1 (AreApart-place x acc l d.0 k.1),
        find-place n x acc k.0,
      )
      (elim (Bool-cases (text_eq x.name n)) [
        | inl same ↦ rw same (rw (← eq_of_text_eq x.name n same, find-fresh x l d.0))
        | inr other ↦ rw other
      ])

find-below :
    (n : Text) (l : List ContainerState) → All (λ b. text_lt n b.name ≡ true) l → find n l ≡ none
unfolding find
find-below n [] h = refl
find-below n (y ∷ l) h =
    rw (text_ne y.name n (λ e. cc (e, h.0, text_lt_irrefl n))) (find-below n l h.1)

pub find-head : (x : ContainerState) (l : List ContainerState) → find x.name (x ∷ l) ≡ some x
unfolding find
find-head x l = rw (text_eq_refl x.name)

pub find-below_cons :
    (x y : ContainerState) (m : List ContainerState)
    → text_lt x.name y.name ≡ true
    → IsStrict (y ∷ m)
    → find x.name (y ∷ m) ≡ none
find-below_cons x y m e t = find-below x.name (y ∷ m) (
  e,
  All-impl (λ b. text_lt y.name b.name ≡ true) (λ b. text_lt x.name b.name ≡ true)
      (λ b k. text_lt_trans x.name y.name b.name e k) m t.0,
)

pub find-tail_eq :
    (x : ContainerState) (l m : List ContainerState)
    → IsStrict (x ∷ l)
    → IsStrict (x ∷ m)
    → ((n : Text) → find n (x ∷ l) ≡ find n (x ∷ m))
    → (n : Text) → find n l ≡ find n m
unfolding find
find-tail_eq x l m s t h n = elim (Bool-cases (text_eq x.name n)) [
  | inl e ↦
      let p = eq_of_text_eq x.name n e in
      rw (← p) (find-below x.name l s.0 ∙ sym (find-below x.name m t.0))
  | inr e ↦ cc (h n, e)
]
