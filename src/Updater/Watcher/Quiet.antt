-- ===== src/Updater/Watcher/Quiet.antt =====
-- internal/updater: stores with no container at `updating`.
pub mod Ticks
use openwatch.Base.{
  ◌≡◌, ◌≢◌, ◌∙◌, sym, refl, Bool, true, false, Option, none, some, List, [], ◌∷◌, if◌then◌else◌,
  Bool-cases, inl, inr,
}
use openwatch.Base.Text.{Text, text_eq}
use openwatch.Base.Assoc.{Assoc, has_key}
use openwatch.State.{
  ContainerState, ContainerStatus, StateStore, updating, get, prune, mark_checked,
}
use openwatch.State.Laws.{get-prune, get-mark_checked, get-mark_updating, get-mark_updated}
use openwatch.Updater.Watcher.Calm.{Marking, Leads}
use openwatch.State.Writes.{checked, began, ended, pruned, perform}
use openwatch.World.{Env, World, Outcome, stamped, unstamped}

-- No entry is at `updating`.
unfoldable pub IsQuiet : Option StateStore → Type 0
IsQuiet none = Unit {0}
IsQuiet (some s) = (n : Text) (e : ContainerState) → get n s ≡ some e → e.status ≢ updating

-- No entry of another name is.
unfoldable pub IsQuietBut : Text → Option StateStore → Type 0
IsQuietBut k none = Unit {0}
IsQuietBut k (some s) =
    (n : Text) (e : ContainerState) → text_eq k n ≡ false → get n s ≡ some e → e.status ≢ updating

IsQuietBut-IsQuiet : (k : Text) (o : Option StateStore) → IsQuiet o → IsQuietBut k o
unfolding IsQuiet IsQuietBut
IsQuietBut-IsQuiet k none h = tt
IsQuietBut-IsQuiet k (some s) h = λ n e ne g. h n e g

-- The store with `v` filed under `k`.
module _ (k : Text) (v : ContainerState) (s s' : StateStore)
    (filed : (n : Text) → get n s' ≡ (if text_eq k n then some v else get n s)) where
  filed-IsQuiet : v.status ≢ updating → IsQuietBut k (some s) → IsQuiet (some s')
  unfolding IsQuiet IsQuietBut
  filed-IsQuiet h q = λ n e g. elim (Bool-cases (text_eq k n)) [
    | inl same ↦
        let there : some v ≡ some e = sym (rw same at (filed n)) ∙ g in
        λ p. h (status-eq v e there ∙ p)
    | inr other ↦ q n e other (sym (rw other at (filed n)) ∙ g)
  ]
    where
      status-eq : (v e : ContainerState) → some v ≡ some e → v.status ≡ e.status
      status-eq v e h = cc

  filed-IsQuietBut : IsQuietBut k (some s) → IsQuietBut k (some s')
  unfolding IsQuietBut
  filed-IsQuietBut q = λ n e other g. q n e other (sym (rw other at (filed n)) ∙ g)

abbrev pub Quiet : World → Type 0
Quiet w = IsQuiet w.store

abbrev pub QuietBut : Text → World → Type 0
QuietBut k w = IsQuietBut k w.store

checks-Quiet :
    (k i : Text) (st : ContainerStatus) (o : Option StateStore) (env : Env) (w : World)
    → w.store ≡ o
    → st ≢ updating
    → IsQuietBut k o
    → Quiet (stamped (λ now. checked k i st now) o env w)
unfolding perform
checks-Quiet k i st none env w p ne q = rw p (unfold IsQuiet in tt)
checks-Quiet k i st (some s) env w p ne q =
    filed-IsQuiet k _ s _ (λ n. get-mark_checked n k i st (env.now w.trace) s) ne q

begins-QuietBut :
    (k i : Text) (o : Option StateStore) (env : Env) (w : World)
    → w.store ≡ o
    → IsQuietBut k o
    → QuietBut k (stamped (λ now. began k i now) o env w)
unfolding perform
begins-QuietBut k i none env w p q = rw p q
begins-QuietBut k i (some s) env w p q =
    filed-IsQuietBut k _ s _
      (λ n.
        get-mark_updating n k i (env.now w.trace) s
        ∙ get-mark_checked n k i updating (env.now w.trace) s)
      q

ends-Quiet :
    (k i : Text) (o : Option StateStore) (env : Env) (w : World)
    → w.store ≡ o
    → IsQuietBut k o
    → Quiet (stamped (λ now. ended k i now) o env w)
unfolding perform
ends-Quiet k i none env w p q = rw p (unfold IsQuiet in tt)
ends-Quiet k i (some s) env w p q =
    filed-IsQuiet k _ s _ (λ n. get-mark_updated n k i (env.now w.trace) s) (λ e. cc) q

prunes-Quiet :
    (keep : Assoc (Unit {0})) (o : Option StateStore) (w : World)
    → w.store ≡ o
    → IsQuiet o
    → Quiet (unstamped (pruned keep) o w)
unfolding IsQuiet perform
prunes-Quiet keep none w p q = rw p tt
prunes-Quiet keep (some s) w p q = λ n e g. elim (Bool-cases (has_key n keep)) [
  | inl kept ↦ q n e (sym (rw kept at (get-prune n keep s)) ∙ g)
  | inr gone ↦ absurd_entry n e (sym (rw gone at (get-prune n keep s)) ∙ g)
]
  where
    absurd_entry : (n : Text) (e : ContainerState) → none ≡ some e → e.status ≢ updating
    absurd_entry n e h = cc

pub Quiet-Marking : Marking Quiet QuietBut
Quiet-Marking = record {
  about = record { at = λ tr m w h. h };
  about_open = λ k. record { at = λ tr m w h. h };
  weaken = λ k w q. IsQuietBut-IsQuiet k w.store q;
  checks = λ k i st env w ne q. checks-Quiet k i st w.store env w refl ne q;
  begins = λ k i env w q. begins-QuietBut k i w.store env w refl q;
  ends = λ k i env w q. ends-Quiet k i w.store env w refl q;
  prunes = λ keep w q. prunes-Quiet keep w.store w refl q;
}

-- The run returns with a quiet store, or panics.
abbrev pub Quieted {ℓ} : {A : Type ℓ} → Outcome A × World → Type 0
Quieted = Leads Quiet
