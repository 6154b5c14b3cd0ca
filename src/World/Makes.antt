-- ===== src/World/Makes.antt =====
-- Which calls a run makes, whatever is answered and however it ends.
use openwatch.Base.{List, All, Option, none, some}
use openwatch.Base.Text.{Text}
use openwatch.Metrics.{Metrics}
use openwatch.State.{StateStore, Time}
use openwatch.State.Writes.{Write}
use openwatch.World.{
  Call, clock, Event, notify, Env, World, M, exhausted, ask, stamped, unstamped, update_store,
  modify_store, update_metrics, read_clock, send,
}
use openwatch.World.Keeps.{
  Leaves, Leaves-world, Keeps, Admits, Keeps-pure, Keeps-fault, Keeps-ask, Keeps-if, Keeps-bind,
  Keeps-if_ok, Keeps-if_some,
}

-- Every call so far is one that `Q` allows.
abbrev pub Calls : (Call → Type 0) → World → Type 0
Calls Q w = All Q w.trace

abbrev pub Makes {ℓ} : {A : Type ℓ} → (Call → Type 0) → M A → Type 0
Makes Q m = Keeps (λ env. Unit {0}) (Unit {0}) (Calls Q) m

pub trace-Makes {ℓ} :
    {A : Type ℓ} {Q : Call → Type 0} (m : M A)
    → Makes Q m
    → (env : Env) (w : World) → All Q w.trace
    → All Q (m env w).1.trace
trace-Makes m hm env w h = Leaves-world _ _ (m env w) (hm.at env tt w h)

Makes-stamped :
    (Q : Call → Type 0) (f : Time → Write) (o : Option StateStore) (env : Env) (w : World)
    → Q clock
    → All Q w.trace
    → All Q (stamped f o env w).trace
Makes-stamped Q f none env w q h = h
Makes-stamped Q f (some s) env w q h = (q, h)

Makes-unstamped :
    (Q : Call → Type 0) (c : Write) (o : Option StateStore) (w : World)
    → All Q w.trace
    → All Q (unstamped c o w).trace
Makes-unstamped Q c none w h = h
Makes-unstamped Q c (some s) w h = h

module _ {Q : Call → Type 0} where
  pub Admits-call : (c : Call) → Q c → Admits (Calls Q) c
  Admits-call c q = record { at = λ w h. (q, h) }

  pub Makes-ask {ℓ} : {A : Type ℓ} (c : Call) (f : Env → List Call → A) → Q c → Makes Q (ask c f)
  Makes-ask c f q = Keeps-ask c f (Admits-call c q)

  pub Makes-exhausted {ℓ} : {A : Type ℓ} → Makes Q (exhausted {A = A})
  unfolding exhausted Leaves
  Makes-exhausted = record { at = λ env e w h. (tt, h) }

  pub Makes-update_store : (f : Time → Write) → Q clock → Makes Q (update_store f)
  unfolding update_store Leaves
  Makes-update_store f q = record { at = λ env e w h. Makes-stamped Q f w.store env w q h }

  pub Makes-modify_store : (c : Write) → Makes Q (modify_store c)
  unfolding modify_store Leaves
  Makes-modify_store c = record { at = λ env e w h. Makes-unstamped Q c w.store w h }

  pub Makes-update_metrics : (f : Option Metrics → Option Metrics) → Makes Q (update_metrics f)
  unfolding update_metrics Leaves
  Makes-update_metrics f = record { at = λ env e w h. h }

  pub Makes-send : (e : Event) (n d : Text) → Q (notify e n d) → Makes Q (send e n d)
  unfolding send
  Makes-send e n d q = Makes-ask (notify e n d) _ q

  pub Makes-read_clock : Q clock → Makes Q read_clock
  unfolding read_clock
  Makes-read_clock q = Makes-ask clock _ q

pub ruleset makes_rules = (
  Keeps-pure, Keeps-fault, Makes-exhausted, Makes-ask, Keeps-if, Keeps-bind, Keeps-if_ok,
  Keeps-if_some, Makes-update_store, Makes-modify_store, Makes-update_metrics, Makes-send,
  Makes-read_clock,
)
