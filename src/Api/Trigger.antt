-- ===== src/Api/Trigger.antt =====
-- internal/api/server.go: the interface `Trigger`, over the state `S` of what implements it.
use openwatch.Base.{◌≡◌, Bool, false, Option}
use openwatch.Base.Text.{Text}
use openwatch.State.{StateStore}

pub record Trigger (S : Type 0) : Type 0 where
  pub trigger_all : S → S
  pub trigger_by_name : Text → S → Bool × S
  pub state : S → Option StateStore

-- What the handlers rely on: a trigger answers before the work it starts touches the store, and one
-- that is refused does nothing.
pub record IsLawful {S : Type 0} (t : Trigger S) : Type 0 where
  pub all_keeps : (s : S) → t.state (t.trigger_all s) ≡ t.state s
  pub by_name_keeps : (name : Text) (s : S) → t.state (t.trigger_by_name name s).1 ≡ t.state s
  pub refused :
      (name : Text) (s : S)
      → (t.trigger_by_name name s).0 ≡ false
      → (t.trigger_by_name name s).1 ≡ s
