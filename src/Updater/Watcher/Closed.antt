-- ===== src/Updater/Watcher/Closed.antt =====
-- internal/updater, internal/updater/state.go: the names that the calls of the store leave open, and
-- what the calls make of a store.
use openwatch.Base.{
  ◌≡◌, ◌≢◌, ap, sym, refl, ◌∙◌, false, Option, none, some, List, [], ◌∷◌, Bool-cases, inl, inr,
}
use openwatch.Base.Text.{Text, text_eq}
use openwatch.Base.Assoc.{Assoc, has_key}
use openwatch.State.{
  ContainerState, ContainerStatus, StateStore, Time, up_to_date, updating, unknown, unset, get,
}
use openwatch.State.Laws.{get-prune, get-mark_checked, get-mark_updating, get-mark_updated}
use openwatch.State.Writes.{Write, checked, began, ended, pruned, perform, apply}
use openwatch.State.Interleave.{IsClosed, is_open, is_updating}
use openwatch.Updater.Watcher.Calm.{Marking}
use openwatch.Updater.Watcher.Quiet.{IsQuiet}
use openwatch.World.{Env, World, stamped, unstamped}

-- There is a store, and no name is left open by the calls logged.
unfoldable pub Closed : Option StateStore → List Write → Type 0
Closed none ws = ⊥
Closed (some s) ws = IsClosed ws

unfoldable pub ClosedBut : Text → Option StateStore → List Write → Type 0
ClosedBut k none ws = ⊥
ClosedBut k (some s) ws = (n : Text) → text_eq k n ≡ false → is_open n ws ≡ false

Closed-ClosedBut :
    (k : Text) (o : Option StateStore) (ws : List Write) → Closed o ws → ClosedBut k o ws
unfolding Closed ClosedBut IsClosed
Closed-ClosedBut k none ws h = h
Closed-ClosedBut k (some s) ws h = λ n other. h n

is_updating-other : (st : ContainerStatus) → st ≢ updating → is_updating st ≡ false
is_updating-other up_to_date h = refl
is_updating-other updating h = elim (h refl) [ ]
is_updating-other unknown h = refl
is_updating-other unset h = refl

checks-Closed :
    (k i : Text) (st : ContainerStatus) (o : Option StateStore) (env : Env) (w : World)
    → w.store ≡ o
    → st ≢ updating
    → ClosedBut k o w.writes
    → let w' = stamped (λ now. checked k i st now) o env w in Closed w'.store w'.writes
unfolding Closed ClosedBut IsClosed is_open
checks-Closed k i st none env w p ne q = elim q [ ]
checks-Closed k i st (some s) env w p ne q = λ n. elim (Bool-cases (text_eq k n)) [
  | inl same ↦ rw same (is_updating-other st ne)
  | inr other ↦ rw other (q n other)
]

begins-ClosedBut :
    (k i : Text) (o : Option StateStore) (env : Env) (w : World)
    → w.store ≡ o
    → ClosedBut k o w.writes
    → let w' = stamped (λ now. began k i now) o env w in ClosedBut k w'.store w'.writes
unfolding ClosedBut is_open
begins-ClosedBut k i none env w p q = elim q [ ]
begins-ClosedBut k i (some s) env w p q = λ n other. rw other (q n other)

ends-Closed :
    (k i : Text) (o : Option StateStore) (env : Env) (w : World)
    → w.store ≡ o
    → ClosedBut k o w.writes
    → let w' = stamped (λ now. ended k i now) o env w in Closed w'.store w'.writes
unfolding Closed ClosedBut IsClosed is_open
ends-Closed k i none env w p q = elim q [ ]
ends-Closed k i (some s) env w p q = λ n. elim (Bool-cases (text_eq k n)) [
  | inl same ↦ rw same refl
  | inr other ↦ rw other (q n other)
]

prunes-Closed :
    (keep : Assoc (Unit {0})) (o : Option StateStore) (w : World)
    → w.store ≡ o
    → Closed o w.writes
    → let w' = unstamped (pruned keep) o w in Closed w'.store w'.writes
unfolding Closed IsClosed is_open
prunes-Closed keep none w p q = elim q [ ]
prunes-Closed keep (some s) w p q = λ n. q n

pub Closed-Marking : Marking (λ w. Closed w.store w.writes) (λ k w. ClosedBut k w.store w.writes)
Closed-Marking = record {
  about = record { at = λ tr m w h. h };
  about_open = λ k. record { at = λ tr m w h. h };
  weaken = λ k w q. Closed-ClosedBut k w.store w.writes q;
  checks = λ k i st env w ne q. checks-Closed k i st w.store env w refl ne q;
  begins = λ k i env w q. begins-ClosedBut k i w.store env w refl q;
  ends = λ k i env w q. ends-Closed k i w.store env w refl q;
  prunes = λ keep w q. prunes-Closed keep w.store w refl q;
}

status-eq : (v e : ContainerState) → some v ≡ some e → v.status ≡ e.status
status-eq v e h = cc

is_updating-updating : (st : ContainerStatus) → is_updating st ≡ false → st ≢ updating
is_updating-updating up_to_date h = λ e. cc
is_updating-updating updating h = λ e. cc
is_updating-updating unknown h = λ e. cc
is_updating-updating unset h = λ e. cc

IsQuiet-at :
    (n : Text) (s : StateStore) (e : ContainerState)
    → IsQuiet (some s)
    → get n s ≡ some e
    → e.status ≢ updating
unfolding IsQuiet
IsQuiet-at n s e q g = q n e g

-- A name that the calls leave closed is at `updating` only where it was before them.
get-apply-IsQuiet :
    (n : Text) (zs : List Write) (s : StateStore) (e : ContainerState)
    → IsQuiet (some s)
    → is_open n zs ≡ false
    → get n (apply zs s) ≡ some e
    → e.status ≢ updating
unfolding apply is_open perform
get-apply-IsQuiet n [] s e q h g = IsQuiet-at n s e q g
get-apply-IsQuiet n (checked m i st t ∷ zs) s e q h g = elim (Bool-cases (text_eq m n)) [
  | inl same ↦ λ p.
      is_updating-updating st (rw same at h)
        (status-eq _ e (sym (rw same at (get-mark_checked n m i st t (apply zs s))) ∙ g) ∙ p)
  | inr other ↦
      get-apply-IsQuiet n zs s e q (rw other at h)
        (sym (rw other at (get-mark_checked n m i st t (apply zs s))) ∙ g)
]
get-apply-IsQuiet n (began m i t ∷ zs) s e q h g = elim (Bool-cases (text_eq m n)) [
  | inl same ↦ cc (rw same at h)
  | inr other ↦ get-apply-IsQuiet n zs s e q (rw other at h) (
      sym (
        rw other at
          (get-mark_updating n m i t (apply zs s) ∙ get-mark_checked n m i updating t (apply zs s)))
      ∙ g)
]
get-apply-IsQuiet n (ended m i t ∷ zs) s e q h g = elim (Bool-cases (text_eq m n)) [
  | inl same ↦ λ p.
      is_updating-updating up_to_date refl
        (status-eq _ e (sym (rw same at (get-mark_updated n m i t (apply zs s))) ∙ g) ∙ p)
  | inr other ↦
      get-apply-IsQuiet n zs s e q (rw other at h)
        (sym (rw other at (get-mark_updated n m i t (apply zs s))) ∙ g)
]
get-apply-IsQuiet n (pruned keep ∷ zs) s e q h g = elim (Bool-cases (has_key n keep)) [
  | inl kept ↦ get-apply-IsQuiet n zs s e q h (sym (rw kept at (get-prune n keep (apply zs s))) ∙ g)
  | inr gone ↦ cc (sym (rw gone at (get-prune n keep (apply zs s))) ∙ g)
]

pub apply-IsQuiet :
    (zs : List Write) (s : StateStore)
    → IsClosed zs
    → IsQuiet (some s)
    → IsQuiet (some (apply zs s))
unfolding IsClosed
apply-IsQuiet zs s h q = unfold IsQuiet in λ n e g. get-apply-IsQuiet n zs s e q (h n) g

pub Closed-IsClosed : (o : Option StateStore) (ws : List Write) → Closed o ws → IsClosed ws
unfolding Closed
Closed-IsClosed none ws h = elim h [ ]
Closed-IsClosed (some s) ws h = h

some-eq : (a b : StateStore) → some a ≡ some b → a ≡ b
some-eq a b h = cc

-- The store is what the logged calls make of `s`.
abbrev pub Logged : StateStore → World → Type 0
Logged s w = w.store ≡ some (apply w.writes s)

module _ (s : StateStore) (w : World) where
  logs :
      (env : Env) (f : Time → Write) (o : Option StateStore)
      → w.store ≡ o
      → Logged s w
      → Logged s (stamped f o env w)
  unfolding apply
  logs env f none p q = q
  logs env f (some s') p q =
      ap (λ x. some (perform (f (env.now w.trace)) x)) (some-eq _ _ (sym p ∙ q))

  logs_unstamped :
      (c : Write) (o : Option StateStore) → w.store ≡ o → Logged s w → Logged s (unstamped c o w)
  unfolding apply
  logs_unstamped c none p q = q
  logs_unstamped c (some s') p q = ap (λ x. some (perform c x)) (some-eq _ _ (sym p ∙ q))

pub Logged-Marking : (s : StateStore) → Marking (Logged s) (λ k. Logged s)
Logged-Marking s = record {
  about = record { at = λ tr m w h. h };
  about_open = λ k. record { at = λ tr m w h. h };
  weaken = λ k w q. q;
  checks = λ k i st env w ne q. logs s w env (λ now. checked k i st now) w.store refl q;
  begins = λ k i env w q. logs s w env (λ now. began k i now) w.store refl q;
  ends = λ k i env w q. logs s w env (λ now. ended k i now) w.store refl q;
  prunes = λ keep w q. logs_unstamped s w (pruned keep) w.store refl q;
}
