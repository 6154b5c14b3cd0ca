-- ===== src/Updater/Watcher/Counts.antt =====
-- internal/updater, internal/metrics/metrics.go: how often a run counts an outcome.
pub mod Laws
pub mod Ticks
use openwatch.Base.{
  ◌≡◌, refl, sym, ◌∙◌, ◌⊎◌, inl, inr, Bool, true, false, Option, none, some, List, [], ◌∷◌,
  if◌then◌else◌,
}
use openwatch.Base.Text.{Text}
use openwatch.Base.Errors.{Error, Result, ok, err}
use openwatch.Metrics.{
  Metrics, UpdateStatus, RollbackStatus, record_update, record_rollback, observe_update_duration,
}
use openwatch.State.{StateStore, Time}
use openwatch.State.Writes.{Write}
use openwatch.Updater.Marks.{count_update, count_rollback}
use openwatch.Updater.Watcher.OnStore.{OffTrace}
use openwatch.World.{
  Env, World, Outcome, done, panic, stuck, M, continue, ◌>>=◌, if_ok, if_some, stamped,
  update_store, update_metrics,
}
use openwatch.World.Keeps.{Keeps, Leaves, Leaves-world}

-- The outcomes counted so far, latest first; without metrics there are none.
abbrev pub updates_of : Option Metrics → List (Text × UpdateStatus)
updates_of none = []
updates_of (some m) = m.updates

abbrev pub Counted : List (Text × UpdateStatus) → World → Type 0
Counted us w = updates_of w.metrics ≡ us

pub Counted-OffTrace : (us : List (Text × UpdateStatus)) → OffTrace (Counted us)
Counted-OffTrace us = record { at = λ tr w h. h }

-- Besides the outcomes in `us` there is at most one, and that under the name.
abbrev pub IsOnce : Text → List (Text × UpdateStatus) → World → Type 0
IsOnce n us w =
    (updates_of w.metrics ≡ us)
    ⊎ ((status : UpdateStatus) × (updates_of w.metrics ≡ (n, status) ∷ us))

pub record CountsOnce {ℓ} {A : Type ℓ} (n : Text) (m : M A) : Type 0 where
  pub at : (env : Env) (w : World) → IsOnce n (updates_of w.metrics) (m env w).1

-- The run counts no outcome.
abbrev pub Uncounted {ℓ} : {A : Type ℓ} → M A → Type 0
Uncounted m = (us : List (Text × UpdateStatus)) → Keeps (λ env. Unit {0}) (Unit {0}) (Counted us) m

pub Uncounted-at {ℓ} :
    {A : Type ℓ} (m : M A)
    → Uncounted m
    → (env : Env) (w : World) → updates_of (m env w).1.metrics ≡ updates_of w.metrics
Uncounted-at m h env w = Leaves-world _ _ (m env w) ((h (updates_of w.metrics)).at env tt w refl)

stamped-Counted :
    (us : List (Text × UpdateStatus)) (f : Time → Write) (o : Option StateStore) (env : Env)
    (w : World)
    → Counted us w
    → Counted us (stamped f o env w)
stamped-Counted us f none env w h = h
stamped-Counted us f (some s) env w h = h

durations-Counted :
    (n : Text) (d : Time) (m : Option Metrics)
    → updates_of (observe_update_duration n d m) ≡ updates_of m
unfolding observe_update_duration
durations-Counted n d none = refl
durations-Counted n d (some m) = refl

rollbacks-Counted :
    (n : Text) (s : RollbackStatus) (m : Option Metrics)
    → updates_of (record_rollback n s m) ≡ updates_of m
unfolding record_rollback
rollbacks-Counted n s none = refl
rollbacks-Counted n s (some m) = refl

module _ {E : Env → Type 0} {S : Type 0} (us : List (Text × UpdateStatus)) where
  pub Keeps-update_store : (f : Time → Write) → Keeps E S (Counted us) (update_store f)
  unfolding update_store Leaves
  Keeps-update_store f = record { at = λ env e w h. stamped-Counted us f w.store env w h }

  pub Keeps-observe :
      (n : Text) (d : Time) → Keeps E S (Counted us) (update_metrics (observe_update_duration n d))
  unfolding update_metrics Leaves
  Keeps-observe n d = record { at = λ env e w h. durations-Counted n d w.metrics ∙ h }

  pub Keeps-count_rollback :
      (n : Text) (s : RollbackStatus) → Keeps E S (Counted us) (count_rollback n s)
  unfolding count_rollback update_metrics Leaves
  Keeps-count_rollback n s = record { at = λ env e w h. rollbacks-Counted n s w.metrics ∙ h }

recorded :
    (n : Text) (s : UpdateStatus) (o : Option Metrics) (w : World)
    → IsOnce n (updates_of o) (record w { metrics = record_update n s o })
unfolding record_update
recorded n s none w = inl refl
recorded n s (some m) w = inr (s, refl)

pub CountsOnce-count_update : (n : Text) (s : UpdateStatus) → CountsOnce n (count_update n s)
unfolding count_update update_metrics
CountsOnce-count_update n s = record { at = λ env w. recorded n s w.metrics w }

pub CountsOnce-Uncounted {ℓ} : {A : Type ℓ} (n : Text) (m : M A) → Uncounted m → CountsOnce n m
CountsOnce-Uncounted n m h = record { at = λ env w. inl (Uncounted-at m h env w) }

IsOnce-same :
    (n : Text) (us : List (Text × UpdateStatus)) (w w' : World)
    → updates_of w'.metrics ≡ updates_of w.metrics
    → IsOnce n us w
    → IsOnce n us w'
IsOnce-same n us w w' e (inl h) = inl (e ∙ h)
IsOnce-same n us w w' e (inr (s, h)) = inr (s, e ∙ h)

module _ {ℓ κ} {A : Type ℓ} {B : Type κ} {n : Text} where
  before :
      (us : List (Text × UpdateStatus)) (r : Outcome A) (f : A → M B) (env : Env) (w : World)
      → updates_of w.metrics ≡ us
      → ((a : A) → CountsOnce n (f a))
      → IsOnce n us (continue r f env w).1
  before us (done a) f env w h hf = rw (sym h) ((hf a).at env w)
  before us panic f env w h hf = inl h
  before us stuck f env w h hf = inl h

  pub CountsOnce-after :
      (m : M A) (f : A → M B)
      → Uncounted m
      → ((a : A) → CountsOnce n (f a))
      → CountsOnce n (m >>= f)
  unfolding ◌>>=◌
  CountsOnce-after m f hm hf = record {
    at = λ env w.
        before (updates_of w.metrics) (m env w).0 f env (m env w).1 (Uncounted-at m hm env w) hf;
  }

  behind :
      (us : List (Text × UpdateStatus)) (r : Outcome A) (f : A → M B) (env : Env) (w : World)
      → IsOnce n us w
      → ((a : A) → Uncounted (f a))
      → IsOnce n us (continue r f env w).1
  behind us (done a) f env w h hf =
      IsOnce-same n us w (f a env w).1 (Uncounted-at (f a) (hf a) env w) h
  behind us panic f env w h hf = h
  behind us stuck f env w h hf = h

  pub CountsOnce-before :
      (m : M A) (f : A → M B)
      → CountsOnce n m
      → ((a : A) → Uncounted (f a))
      → CountsOnce n (m >>= f)
  unfolding ◌>>=◌
  CountsOnce-before m f hm hf = record {
    at = λ env w. behind (updates_of w.metrics) (m env w).0 f env (m env w).1 (hm.at env w) hf;
  }

  pub CountsOnce-if_ok :
      (r : Result A) (failed : Error → M B) (go : A → M B)
      → ((e : Error) → CountsOnce n (failed e))
      → ((a : A) → CountsOnce n (go a))
      → CountsOnce n (if_ok r failed go)
  unfolding if_ok
  CountsOnce-if_ok (ok a) failed go hf hg = hg a
  CountsOnce-if_ok (err e) failed go hf hg = hf e

  pub CountsOnce-if_some :
      (o : Option A) (absent : M B) (go : A → M B)
      → CountsOnce n absent
      → ((a : A) → CountsOnce n (go a))
      → CountsOnce n (if_some o absent go)
  unfolding if_some
  CountsOnce-if_some none absent go hf hg = hf
  CountsOnce-if_some (some a) absent go hf hg = hg a

pub CountsOnce-if {ℓ} :
    {A : Type ℓ} {n : Text} (b : Bool) (p q : M A)
    → CountsOnce n p
    → CountsOnce n q
    → CountsOnce n (if b then p else q)
CountsOnce-if true p q hp hq = hp
CountsOnce-if false p q hp hq = hq
