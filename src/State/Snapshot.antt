-- ===== src/State/Snapshot.antt =====
-- What a snapshot holds: every entry once, in the order of the names, whatever the map's order.
pub mod Finding
unfoldable pub use openwatch.State.Snapshot.Finding.{find, IsStrict}
use openwatch.State.Snapshot.Finding.{
  place_all-perm, IsFresh, HasDistinctNames, IsStrict-of, find_append, AreApart,
  place_all-HasDistinctNames, find-place_all, find-head, find-below_cons, find-tail_eq,
}
use mathlib.Core.List.{Perm, perm_middle, append-nil}
use mathlib.Core.List.Perm
use mathlib.Core.Path.{ap₂}
use openwatch.Base.{
  ◌≡◌, refl, sym, ap, ◌∙◌, ◌≢◌, inl, inr, true, false, Option, none, some, List, [], ◌∷◌, ◌++◌,
  if◌then◌else◌, Bool-cases, All, All-impl, IsOrdered,
}
use openwatch.Base.Text.{Text, text_eq, text_lt}
use openwatch.Base.Text.Equality.{
  eq_of_text_eq, text_ne, text_eq_refl, text_lt_total, text_lt_irrefl, text_lt_trans,
}
use openwatch.Base.Assoc.{Assoc, lookup, keys, HasDistinctKeys}
use openwatch.State.{ContainerState, StateStore, sort_container_states, values, snapshot, get}
use openwatch.State.Sort.{IsSorted, place, place_all, All-place, sort-place_all, sort-IsSorted}
use openwatch.State.Laws.{IsValid, IsNamed}

-- Two lists in the order of the names that hold the same entry under each name are the same.
find_ext :
    (l m : List ContainerState)
    → IsStrict l
    → IsStrict m
    → ((n : Text) → find n l ≡ find n m)
    → l ≡ m
find_ext [] [] s t h = refl
find_ext [] (y ∷ m) s t h = unfold find in cc (h y.name, find-head y m)
find_ext (x ∷ l) [] s t h = unfold find in cc (h x.name, find-head x l)
find_ext (x ∷ l) (y ∷ m) s t h = elim (Bool-cases (text_lt x.name y.name)) [
  | inl e ↦ cc (h x.name, find-head x l, find-below_cons x y m e t)
  | inr e ↦ elim (Bool-cases (text_lt y.name x.name)) [
    | inl e' ↦ cc (h y.name, find-head y m, find-below_cons y x l e' s)
    | inr e' ↦
        let same : x ≡ y = cc (
          sym (find-head x l)
          ∙ h x.name
          ∙ ap (λ n. find n (y ∷ m)) (text_lt_total x.name y.name e e')
          ∙ find-head y m) in
        let t' : IsStrict (x ∷ m) = rw same t in
        let h' : (n : Text) → find n (x ∷ l) ≡ find n (x ∷ m) =
          λ n. h n ∙ ap (λ z. find n (z ∷ m)) (sym same) in
        ap₂ (λ z zs. z ∷ zs) same (find_ext l m s.1 t'.1 (find-tail_eq x l m s t' h'))
  ]
]

All-values {ℓ} :
    (P : Text → Type ℓ) (m : Assoc ContainerState)
    → IsNamed m
    → All P (keys m)
    → All (λ c. P c.name) (values m)
All-values P [] d h = tt
All-values P ((k, v) ∷ m) d h = (rw d.0 h.0, All-values P m d.1 h.1)

values-HasDistinctNames :
    (m : Assoc ContainerState) → IsNamed m → HasDistinctKeys m → HasDistinctNames (values m)
values-HasDistinctNames [] d h = tt
values-HasDistinctNames ((k, v) ∷ m) d h =
    (rw d.0 (All-values (λ j. k ≢ j) m d.1 h.0), values-HasDistinctNames m d.1 h.1)

find-values : (n : Text) (m : Assoc ContainerState) → IsNamed m → find n (values m) ≡ lookup n m
unfolding find lookup
find-values n [] d = refl
find-values n ((k, v) ∷ m) d = rw (d.0, find-values n m d.1)

AreApart-nil : (l : List ContainerState) → AreApart [] l
AreApart-nil [] = tt
AreApart-nil (x ∷ l) = (tt, AreApart-nil l)

find_append-none : (n : Text) (o : Option ContainerState) → find_append n o none ≡ o
unfolding find_append
find_append-none n none = refl
find_append-none n (some c) = refl

-- The snapshot is a permutation of the values of the store.
pub snapshot-perm : (s : StateStore) → Perm (snapshot s) (values s.items)
unfolding snapshot
snapshot-perm s =
    rw sort-place_all (rw (append-nil (values s.items)) at (place_all-perm [] (values s.items)))

-- The snapshot of a valid store is in strictly increasing order of the names.
pub snapshot-IsStrict : (s : StateStore) → IsValid s → IsStrict (snapshot s)
unfolding snapshot
snapshot-IsStrict s h =
    let l = values s.items in
    IsStrict-of (sort_container_states l) (sort-IsSorted l) (
      rw sort-place_all (
        place_all-HasDistinctNames [] l tt (values-HasDistinctNames s.items h.named h.distinct)
          (AreApart-nil l)))

-- In a valid store, finding a name in the snapshot gives what Get gives.
pub find-snapshot : (n : Text) (s : StateStore) → IsValid s → find n (snapshot s) ≡ get n s
unfolding snapshot get
find-snapshot n s h =
    let l = values s.items in
    rw
      (
        sort-place_all,
        find-place_all n [] l (values-HasDistinctNames s.items h.named h.distinct) (AreApart-nil l),
        find-values n s.items h.named,
      )
      (unfold find in find_append-none n (lookup n s.items))

-- Two valid stores that answer every Get alike have the same snapshot: the map's order does not
-- show.
pub snapshot_ext :
    (s t : StateStore)
    → IsValid s
    → IsValid t
    → ((n : Text) → get n s ≡ get n t)
    → snapshot s ≡ snapshot t
snapshot_ext s t hs ht h =
    find_ext (snapshot s) (snapshot t) (snapshot-IsStrict s hs) (snapshot-IsStrict t ht)
      (λ n. find-snapshot n s hs ∙ h n ∙ sym (find-snapshot n t ht))
