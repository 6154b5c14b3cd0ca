-- ===== src/State/History.antt =====
-- The store refines its history: what `Get` answers is what the calls on that name have left.
use openwatch.Base.{
  ◌≡◌, refl, sym, ap, ◌∙◌, ◌≢◌, ◌≤◌, inl, inr, Bool, true, false, Option, none, some, List, [], ◌∷◌,
  arith, if◌then◌else◌, Bool-cases, Option-cases, All,
}
use openwatch.Base.Text.{Text, text_eq}
use openwatch.Base.Text.Equality.{eq_of_text_eq}
use openwatch.Base.Assoc.{Assoc, has_key}
use openwatch.State.{
  Time, ContainerStatus, up_to_date, updating, ContainerState, StateStore, new_state_store,
  entry_or_zero, mark_checked, mark_updated, get,
}
use openwatch.State.Writes.{Write, checked, began, ended, pruned, perform}
use openwatch.State.Laws.{
  IsValid, mark_checked-IsValid, mark_updating-IsValid, mark_updated-IsValid, prune-IsValid,
  get-mark_checked, get-mark_updating, get-mark_updated, get-prune,
}

-- The calls of a run, the latest first.
unfoldable pub replay : List Write → StateStore
unfolding perform
replay [] = new_state_store
replay (c ∷ calls) = perform c (replay calls)

-- The abstract store: what the calls say of one name, with no map.
abbrev note : Option ContainerState → Text → Text → ContainerStatus → Time → ContainerState
note old n i st t = record (entry_or_zero old) {
  name = n;
  image = i;
  status = st;
  last_checked = t;
}

pub view : Text → List Write → Option ContainerState
view n [] = none
view n (checked m i st t ∷ calls) =
    let before = view n calls in if text_eq m n then some (note before n i st t) else before
view n (began m i t ∷ calls) =
    let before = view n calls in if text_eq m n then some (note before n i updating t) else before
view n (ended m i t ∷ calls) =
    let before = view n calls in
    if text_eq m n
    then some
        (record { name = n; image = i; status = up_to_date; last_checked = t; last_updated = t })
    else before
view n (pruned keep ∷ calls) = let before = view n calls in if has_key n keep then before else none

-- Every run of calls on a new store leaves it valid: its keys are distinct, and every entry bears
-- its key as its name.
pub replay-IsValid : (calls : List Write) → IsValid (replay calls)
unfolding replay perform
replay-IsValid [] = record { distinct = tt; named = tt }
replay-IsValid (checked n i st t ∷ calls) = mark_checked-IsValid n i st t _ (replay-IsValid calls)
replay-IsValid (began n i t ∷ calls) = mark_updating-IsValid n i t _ (replay-IsValid calls)
replay-IsValid (ended n i t ∷ calls) = mark_updated-IsValid n i t _ (replay-IsValid calls)
replay-IsValid (pruned keep ∷ calls) = prune-IsValid keep _ (replay-IsValid calls)

get-checked :
    (n m i : Text) (st : ContainerStatus) (t : Time) (s : StateStore)
    → get n (mark_checked m i st t s)
      ≡ (if text_eq m n then some (note (get n s) n i st t) else get n s)
get-checked n m i st t s = elim (Bool-cases (text_eq m n)) [
  | inl e ↦ rw (get-mark_checked, e, eq_of_text_eq m n e)
  | inr e ↦ rw (get-mark_checked, e)
]

get-ended :
    (n m i : Text) (t : Time) (s : StateStore)
    → get n (mark_updated m i t s) ≡ (
        if text_eq m n
        then some (record {
          name = n;
          image = i;
          status = up_to_date;
          last_checked = t;
          last_updated = t;
        })
        else get n s)
get-ended n m i t s = elim (Bool-cases (text_eq m n)) [
  | inl e ↦ rw (get-mark_updated, e, eq_of_text_eq m n e)
  | inr e ↦ rw (get-mark_updated, e)
]

-- After any run of MarkChecked, MarkUpdating, MarkUpdated and Prune on a new store, Get answers
-- for every name what the abstract history says.
pub get-replay : (n : Text) (calls : List Write) → get n (replay calls) ≡ view n calls
unfolding replay perform view
get-replay n [] = unfold get openwatch.Base.Assoc.lookup in refl
get-replay n (checked m i st t ∷ calls) =
    rw (get-checked n m i st t (replay calls), get-replay n calls)
get-replay n (began m i t ∷ calls) =
    rw (get-mark_updating, get-checked n m i updating t (replay calls), get-replay n calls)
get-replay n (ended m i t ∷ calls) = rw (get-ended n m i t (replay calls), get-replay n calls)
get-replay n (pruned keep ∷ calls) = rw (get-prune n keep (replay calls), get-replay n calls)

-- The clock's reading that a call carries; `Prune` reads no clock.
abbrev stamp : Write → Time
stamp (checked n i st t) = t
stamp (began n i t) = t
stamp (ended n i t) = t
stamp (pruned keep) = 0

-- The clock's readings do not fall from call to call; the latest call stands first.
abbrev pub IsTimed : List Write → Type 0
IsTimed [] = Unit
IsTimed (pruned keep ∷ calls) = IsTimed calls
IsTimed (checked n i st t ∷ calls) = All (λ d. stamp d ≤ t) calls × IsTimed calls
IsTimed (began n i t ∷ calls) = All (λ d. stamp d ≤ t) calls × IsTimed calls
IsTimed (ended n i t ∷ calls) = All (λ d. stamp d ≤ t) calls × IsTimed calls

view-within :
    (n : Text) (bound : Time) (calls : List Write) (e : ContainerState)
    → All (λ d. stamp d ≤ bound) calls
    → view n calls ≡ some e
    → e.last_updated ≤ bound
unfolding view
view-within n bound [] e h k = cc
view-within n bound (checked m i st t ∷ calls) e h k = elim (Option-cases (view n calls)) [
  | inl p ↦ ground (arith, p)
  | inr (e', p) ↦ ground (arith, p, view-within n bound calls e' h.1 p)
]
view-within n bound (began m i t ∷ calls) e h k = elim (Option-cases (view n calls)) [
  | inl p ↦ ground (arith, p)
  | inr (e', p) ↦ ground (arith, p, view-within n bound calls e' h.1 p)
]
view-within n bound (ended m i t ∷ calls) e h k = ground (arith, view-within n bound calls e h.1)
view-within n bound (pruned keep ∷ calls) e h k = ground (arith, view-within n bound calls e h.1)

view-timed :
    (n : Text) (calls : List Write) (e : ContainerState)
    → IsTimed calls
    → view n calls ≡ some e
    → e.last_updated ≤ e.last_checked
unfolding view
view-timed n [] e h k = cc
view-timed n (checked m i st t ∷ calls) e h k = elim (Option-cases (view n calls)) [
  | inl p ↦ ground (arith, p)
  | inr (e', p) ↦ ground (arith, p, view-within n t calls e' h.0 p, view-timed n calls e h.1)
]
view-timed n (began m i t ∷ calls) e h k = elim (Option-cases (view n calls)) [
  | inl p ↦ ground (arith, p)
  | inr (e', p) ↦ ground (arith, p, view-within n t calls e' h.0 p, view-timed n calls e h.1)
]
view-timed n (ended m i t ∷ calls) e h k = ground (arith, view-timed n calls e h.1)
view-timed n (pruned keep ∷ calls) e h k = ground (arith, view-timed n calls e h)

-- After a run of calls whose clock readings do not fall, an entry's last update is not after its
-- last check.
pub last_updated-le :
    (n : Text) (calls : List Write) (e : ContainerState)
    → IsTimed calls
    → get n (replay calls) ≡ some e
    → e.last_updated ≤ e.last_checked
last_updated-le n calls e h k = view-timed n calls e h (sym (get-replay n calls) ∙ k)
