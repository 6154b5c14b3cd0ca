-- ===== src/State.antt =====
-- internal/updater/state.go: the container state store. A method runs under the store's lock, so
-- it is one function from the store before to the store after; a nil receiver is `none`. A time is
-- a number of which 0 is Go's zero time, and `now` is what `time.Now().UTC()` returned.
pub mod Sort
pub mod Laws
pub mod Snapshot
pub mod Writes
pub mod Interleave
pub mod History
mod Tests
use mathlib.Core.List.{reverse, reverse_aux}
use openwatch.Base.{ℕ, Bool, true, false, Option, none, some, List, [], ◌∷◌, if◌then◌else◌}
use openwatch.Base.Text.{Text, text_lt}
use openwatch.Base.Assoc.{Assoc, lookup, insert, has_key}

abbrev pub Time : Type 0
Time = ℕ

-- `unset` is the zero value "" of the string type.
pub data ContainerStatus : Type 0 where
  up_to_date updating unknown unset : ContainerStatus

pub record ContainerState : Type 0 where
  pub name : Text
  pub image : Text
  pub status : ContainerStatus
  pub last_checked : Time
  pub last_updated : Time

pub record StateStore : Type 0 where
  pub items : Assoc ContainerState

abbrev pub new_state_store : StateStore
new_state_store = record { items = [] }

-- `ContainerState{}`
abbrev pub zero_state : ContainerState
zero_state = record { name = []; image = []; status = unset; last_checked = 0; last_updated = 0 }

-- `s.items[name]`: the zero value where the name is not there.
abbrev pub entry_or_zero : Option ContainerState → ContainerState
entry_or_zero none = zero_state
entry_or_zero (some e) = e

unfoldable pub mark_checked : Text → Text → ContainerStatus → Time → StateStore → StateStore
mark_checked name image status now s =
    let entry = entry_or_zero (lookup name s.items) in
    let entry' : ContainerState = record entry {
      name = name;
      image = image;
      status = status;
      last_checked = now;
    } in
    record { items = insert name entry' s.items }

unfoldable pub mark_updating : Text → Text → Time → StateStore → StateStore
mark_updating name image now s =
    let entry = entry_or_zero (lookup name s.items) in
    let entry' : ContainerState = record entry {
      name = name;
      image = image;
      status = updating;
      last_checked = now;
    } in
    record { items = insert name entry' s.items }

unfoldable pub mark_updated : Text → Text → Time → StateStore → StateStore
mark_updated name image now s =
    let entry = entry_or_zero (lookup name s.items) in
    let entry' : ContainerState = record entry {
      name = name;
      image = image;
      status = up_to_date;
      last_checked = now;
      last_updated = now;
    } in
    record { items = insert name entry' s.items }

unfoldable pub get : Text → StateStore → Option ContainerState
get name s = lookup name s.items

unfoldable pub has : Text → StateStore → Bool
unfolding has_key
has name s = has_key name s.items

-- The loop of `Prune` over the entries: `delete` where the name is not in `keep`.
unfoldable pub prune_items : Assoc (Unit {0}) → Assoc ContainerState → Assoc ContainerState
prune_items keep [] = []
prune_items keep ((name, v) ∷ rest) =
    let kept = prune_items keep rest in if has_key name keep then (name, v) ∷ kept else kept

unfoldable pub prune : Assoc (Unit {0}) → StateStore → StateStore
unfolding prune_items
prune keep s = record { items = prune_items keep s.items }

-- The inner loop of `sortContainerStates` at an element `x`: `left` is the part of the slice before
-- `x`, nearest first, and `right` the part after it that the loop has passed.
unfoldable pub sink :
    List ContainerState → ContainerState → List ContainerState → List ContainerState
sink [] x right = x ∷ right
sink (y ∷ left) x right =
    let moved = sink left x (y ∷ right) in
    if text_lt x.name y.name then moved else reverse_aux left (y ∷ x ∷ right)

-- The outer loop: `sorted` is `s[:i]`, and the elements from `i` on are still to come.
unfoldable pub sort_from : List ContainerState → List ContainerState → List ContainerState
unfolding sink
sort_from sorted [] = sorted
sort_from sorted (x ∷ rest) = sort_from (sink (reverse sorted) x []) rest

unfoldable pub sort_container_states : List ContainerState → List ContainerState
unfolding sort_from
sort_container_states [] = []
sort_container_states (x ∷ xs) = sort_from (x ∷ []) xs

-- `for _, v := range s.items { out = append(out, v) }`
abbrev pub values : Assoc ContainerState → List ContainerState
values [] = []
values ((_, v) ∷ m) = v ∷ values m

unfoldable pub snapshot : StateStore → List ContainerState
unfolding sort_container_states
snapshot s = sort_container_states (values s.items)
