-- ===== src/State/Tests.antt =====
-- Runs of the store, and its theorems at concrete inputs.
use openwatch.Base.{inl, inr, Bool-cases, ◌≡◌, refl, List, [], ◌∷◌}
use openwatch.Base.Text.{Text, codes, text_eq, text_lt}
use openwatch.Base.Text.Equality.{eq_of_text_eq}
use openwatch.Base.Assoc.{lookup, insert, has_key}
use openwatch.State.{
  ContainerState, StateStore, up_to_date, unknown, snapshot, get, prune, mark_checked,
  mark_updating, mark_updated,
}
use openwatch.State.Laws.{IsValid}
use openwatch.State.Snapshot.{snapshot_ext}
use openwatch.State.Writes.{Write, checked, began, ended, pruned}
use openwatch.State.History.{replay, view, get-replay, replay-IsValid}

abbrev run : List Write
run =
    pruned ((codes "web", tt) ∷ (codes "api", tt) ∷ [])
    ∷ checked (codes "old") (codes "img:o") unknown 12
    ∷ ended (codes "web") (codes "img:2") 11
    ∷ began (codes "web") (codes "img:1") 10
    ∷ checked (codes "api") (codes "img:a") up_to_date 9
    ∷ checked (codes "web") (codes "img:1") up_to_date 8
    ∷ []

abbrev api_state : ContainerState
api_state = record {
  name = codes "api";
  image = codes "img:a";
  status = up_to_date;
  last_checked = 9;
  last_updated = 0;
}

abbrev web_state : ContainerState
web_state = record {
  name = codes "web";
  image = codes "img:2";
  status = up_to_date;
  last_checked = 11;
  last_updated = 11;
}

compute : Unit {0}
unfolding replay mark_checked mark_updating mark_updated prune snapshot lookup insert has_key
    text_eq text_lt get
compute = tt

snapshot-run : snapshot (replay run) ≡ api_state ∷ web_state ∷ []
unfolding compute
snapshot-run = refl

-- The same entries, put into the map in two orders.
abbrev store_ab : StateStore
unfolding compute
store_ab = replay (checked (codes "b") [] unknown 1 ∷ checked (codes "a") [] unknown 1 ∷ [])

abbrev store_ba : StateStore
unfolding compute
store_ba = replay (checked (codes "a") [] unknown 1 ∷ checked (codes "b") [] unknown 1 ∷ [])

same_entries : (n : Text) → get n store_ab ≡ get n store_ba
unfolding compute
same_entries n = elim (Bool-cases (text_eq (codes "a") n)) [
  | inl e ↦ rw (← eq_of_text_eq (codes "a") n e) refl
  | inr e ↦ rw e refl
]

snapshot_ext_example : snapshot store_ab ≡ snapshot store_ba
unfolding store_ab store_ba
snapshot_ext_example =
    snapshot_ext store_ab store_ba
      (replay-IsValid (checked (codes "b") [] unknown 1 ∷ checked (codes "a") [] unknown 1 ∷ []))
      (replay-IsValid (checked (codes "a") [] unknown 1 ∷ checked (codes "b") [] unknown 1 ∷ []))
      same_entries

get-replay_example : get (codes "web") (replay run) ≡ view (codes "web") run
get-replay_example = get-replay (codes "web") run

replay-IsValid_example : IsValid (replay run)
replay-IsValid_example = replay-IsValid run
