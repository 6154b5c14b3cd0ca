-- ===== src/State/Laws.antt =====
-- The store's invariant, and what each method does to the entries.
use openwatch.Base.{
  ◌≡◌, refl, sym, ◌∙◌, ◌≢◌, inl, inr, none, some, [], ◌∷◌, arith, if◌then◌else◌, Bool-cases, All,
}
use openwatch.Base.Text.{Text, text_eq}
use openwatch.Base.Text.Equality.{eq_of_text_eq, text_eq_refl}
use openwatch.Base.Assoc.{Assoc, lookup, insert, has_key, keys, HasDistinctKeys}
use openwatch.Base.Assoc.Laws.{lookup-insert, insert-HasDistinctKeys}
use openwatch.State.{
  Time, ContainerStatus, ContainerState, StateStore, entry_or_zero, mark_checked, mark_updating,
  mark_updated, get, prune, prune_items, updating, up_to_date,
}

-- Each entry carries the name it is filed under, and no name is listed twice.
abbrev pub IsNamed : Assoc ContainerState → Type 0
IsNamed = All (λ e. e.1.name ≡ e.0)

pub record IsValid (s : StateStore) : Type 0 where
  pub distinct : HasDistinctKeys s.items
  pub named : IsNamed s.items

insert-IsNamed :
    (k : Text) (v : ContainerState) (m : Assoc ContainerState)
    → v.name ≡ k
    → IsNamed m
    → IsNamed (insert k v m)
unfolding insert
insert-IsNamed k v [] e h = (e, tt)
insert-IsNamed k v ((j, w) ∷ m) e h = elim (Bool-cases (text_eq j k)) [
  | inl same ↦ rw same (e ∙ sym (eq_of_text_eq j k same), h.1)
  | inr other ↦ rw other (h.0, insert-IsNamed k v m e h.1)
]

file-IsValid :
    (k : Text) (v : ContainerState) (s : StateStore)
    → v.name ≡ k
    → IsValid s
    → IsValid (record { items = insert k v s.items })
file-IsValid k v s e h = record {
  distinct = insert-HasDistinctKeys k v s.items h.distinct;
  named = insert-IsNamed k v s.items e h.named;
}

pub mark_checked-IsValid :
    (n i : Text) (st : ContainerStatus) (t : Time) (s : StateStore)
    → IsValid s
    → IsValid (mark_checked n i st t s)
unfolding mark_checked
mark_checked-IsValid n i st t s h = file-IsValid n _ s refl h

pub mark_updating-IsValid :
    (n i : Text) (t : Time) (s : StateStore) → IsValid s → IsValid (mark_updating n i t s)
unfolding mark_updating
mark_updating-IsValid n i t s h = file-IsValid n _ s refl h

pub mark_updated-IsValid :
    (n i : Text) (t : Time) (s : StateStore) → IsValid s → IsValid (mark_updated n i t s)
unfolding mark_updated
mark_updated-IsValid n i t s h = file-IsValid n _ s refl h

All-prune_keys {ℓ} :
    (P : Text → Type ℓ) (keep : Assoc (Unit {0})) (m : Assoc ContainerState)
    → All P (keys m)
    → All P (keys (prune_items keep m))
unfolding prune_items
All-prune_keys P keep [] h = tt
All-prune_keys P keep ((k, v) ∷ m) h = elim (Bool-cases (has_key k keep)) [
  | inl e ↦ rw e (h.0, All-prune_keys P keep m h.1)
  | inr e ↦ rw e (All-prune_keys P keep m h.1)
]

prune_items-HasDistinctKeys :
    (keep : Assoc (Unit {0})) (m : Assoc ContainerState)
    → HasDistinctKeys m
    → HasDistinctKeys (prune_items keep m)
unfolding prune_items
prune_items-HasDistinctKeys keep [] h = tt
prune_items-HasDistinctKeys keep ((k, v) ∷ m) h = elim (Bool-cases (has_key k keep)) [
  | inl e ↦ rw e (All-prune_keys (λ j. k ≢ j) keep m h.0, prune_items-HasDistinctKeys keep m h.1)
  | inr e ↦ rw e (prune_items-HasDistinctKeys keep m h.1)
]

prune_items-IsNamed :
    (keep : Assoc (Unit {0})) (m : Assoc ContainerState) → IsNamed m → IsNamed (prune_items keep m)
unfolding prune_items
prune_items-IsNamed keep [] h = tt
prune_items-IsNamed keep ((k, v) ∷ m) h = elim (Bool-cases (has_key k keep)) [
  | inl e ↦ rw e (h.0, prune_items-IsNamed keep m h.1)
  | inr e ↦ rw e (prune_items-IsNamed keep m h.1)
]

pub prune-IsValid : (keep : Assoc (Unit {0})) (s : StateStore) → IsValid s → IsValid (prune keep s)
unfolding prune
prune-IsValid keep s h = record {
  distinct = prune_items-HasDistinctKeys keep s.items h.distinct;
  named = prune_items-IsNamed keep s.items h.named;
}

lookup-prune_items :
    (n : Text) (keep : Assoc (Unit {0})) (m : Assoc ContainerState)
    → lookup n (prune_items keep m) ≡ (if has_key n keep then lookup n m else none)
unfolding prune_items lookup
lookup-prune_items n keep [] = ground arith
lookup-prune_items n keep ((k, v) ∷ m) = elim (Bool-cases (text_eq k n)) [
  | inl e ↦ rw (eq_of_text_eq k n e) (ground (arith, lookup-prune_items n keep m, text_eq_refl n))
  | inr e ↦ ground (arith, lookup-prune_items n keep m)
]

-- After Prune, Get answers as before for the names to keep, and nothing for the others.
pub get-prune :
    (n : Text) (keep : Assoc (Unit {0})) (s : StateStore)
    → get n (prune keep s) ≡ (if has_key n keep then get n s else none)
unfolding get prune
get-prune n keep s = lookup-prune_items n keep s.items

pub get-mark_checked :
    (j n i : Text) (st : ContainerStatus) (t : Time) (s : StateStore)
    → get j (mark_checked n i st t s) ≡ (
        if text_eq n j
        then some (record {
          name = n;
          image = i;
          status = st;
          last_checked = t;
          last_updated = (entry_or_zero (get n s)).last_updated;
        })
        else get j s)
unfolding get mark_checked
get-mark_checked j n i st t s = lookup-insert n j _ s.items

pub get-mark_updating :
    (j n i : Text) (t : Time) (s : StateStore)
    → get j (mark_updating n i t s) ≡ get j (mark_checked n i updating t s)
unfolding mark_updating mark_checked
get-mark_updating j n i t s = refl

pub get-mark_updated :
    (j n i : Text) (t : Time) (s : StateStore)
    → get j (mark_updated n i t s) ≡ (
        if text_eq n j
        then some (record {
          name = n;
          image = i;
          status = up_to_date;
          last_checked = t;
          last_updated = t;
        })
        else get j s)
unfolding get mark_updated
get-mark_updated j n i t s = lookup-insert n j _ s.items
