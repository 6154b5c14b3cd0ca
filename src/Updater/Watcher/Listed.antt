-- ===== src/Updater/Watcher/Listed.antt =====
-- internal/updater/watcher.go: what the store shows after a tick.
use openwatch.Base.{
  ℕ, ◌≡◌, refl, sym, ◌∙◌, ◌⊎◌, inl, inr, Bool, true, false, Option, none, some, List, [], ◌∷◌, Any,
  ap, length, Bool-cases,
}
use openwatch.Base.Text.{Text, text_eq}
use openwatch.Base.Text.Equality.{eq_of_text_eq}
use openwatch.Base.Assoc.{Assoc, lookup, insert, has_key}
use openwatch.Base.Assoc.Laws.{lookup-insert}
use openwatch.Base.Errors.{Result, ok, err}
use openwatch.Config.{Config}
use openwatch.Docker.{Container}
use openwatch.Docker.Containers.{list_containers}
use openwatch.Metrics.{set_containers_monitored}
use openwatch.State.{ContainerState, StateStore, get}
use openwatch.State.Writes.{pruned, perform}
use openwatch.State.Laws.{get-prune}
use openwatch.Updater.Watcher.{process_container, process_all, tick}
use openwatch.World.{
  Env, World, Outcome, done, panic, stuck, M, pure, continue, ◌>>=◌, ◌>>◌, if_ok, update_metrics,
  modify_store, unstamped,
}

abbrev IsNamed : List Container → Text → Type 0
IsNamed cs n = Any (λ c. c.name ≡ n) cs

-- Every entry is of a container of the list.
unfoldable pub IsListed : List Container → Option StateStore → Type 0
IsListed cs none = Unit {0}
IsListed cs (some s) = (n : Text) (e : ContainerState) → get n s ≡ some e → IsNamed cs n

abbrev is_there : Option (Unit {0}) → Bool
is_there none = false
is_there (some u) = true

has_key-lookup : (n : Text) (m : Assoc (Unit {0})) → has_key n m ≡ is_there (lookup n m)
unfolding has_key
has_key-lookup n m = there (lookup n m)
  where
    there : (o : Option (Unit {0})) → elim o [ none ↦ false | some _ ↦ true ] ≡ is_there o
    there none = refl
    there (some u) = refl

has_key-insert :
    (k n : Text) (m : Assoc (Unit {0}))
    → has_key n (insert k tt m) ≡ true
    → (k ≡ n) ⊎ (has_key n m ≡ true)
has_key-insert k n m h = elim (Bool-cases (text_eq k n)) [
  | inl e ↦ inl (eq_of_text_eq k n e)
  | inr e ↦ inr (
      has_key-lookup n m
      ∙ ap is_there (sym (rw e at (lookup-insert k n tt m)))
      ∙ sym (has_key-lookup n (insert k tt m))
      ∙ h)
]

-- What `process_all` has seen.
unfoldable Sees : Assoc (Unit {0}) → List Container → Outcome (Assoc (Unit {0})) → Type 0
Sees seen cs (done s) = (n : Text) → has_key n s ≡ true → (has_key n seen ≡ true) ⊎ IsNamed cs n
Sees seen cs panic = Unit {0}
Sees seen cs stuck = Unit {0}

Sees-later :
    (c : Container) (seen : Assoc (Unit {0})) (cs : List Container) (o : Outcome (Assoc (Unit {0})))
    → Sees (insert c.name tt seen) cs o
    → Sees seen (c ∷ cs) o
unfolding Sees
Sees-later c seen cs (done s) h = λ n k. elim (h n k) [
  | inr there ↦ inr (inr there)
  | inl new ↦ elim (has_key-insert c.name n seen new) [ inl e ↦ inr (inl e) | inr old ↦ inl old ]
]
Sees-later c seen cs panic h = tt
Sees-later c seen cs stuck h = tt

Sees-continue :
    (seen : Assoc (Unit {0})) (cs : List Container) (m : M (Assoc (Unit {0}))) (env : Env)
    (r : Outcome (Unit {0})) (w : World)
    → ((w : World) → Sees seen cs (m env w).0)
    → Sees seen cs (continue r (λ _. m) env w).0
unfolding Sees
Sees-continue seen cs m env (done a) w h = h w
Sees-continue seen cs m env panic w h = tt
Sees-continue seen cs m env stuck w h = tt

process_all-Sees :
    (fuel : ℕ) (cfg : Config) (seen : Assoc (Unit {0})) (cs : List Container) (env : Env)
    (w : World)
    → Sees seen cs (process_all fuel cfg seen cs env w).0
unfolding process_all ◌>>=◌ ◌>>◌ pure
process_all-Sees fuel cfg seen [] env w = unfold Sees in λ n h. inl h
process_all-Sees fuel cfg seen (c ∷ cs) env w =
    Sees-continue seen (c ∷ cs) (process_all fuel cfg (insert c.name tt seen) cs) env
      (process_container fuel cfg c env w).0 _
      (λ w. Sees-later c seen cs _ (process_all-Sees fuel cfg (insert c.name tt seen) cs env w))

prune-IsListed :
    (seen : Assoc (Unit {0})) (cs : List Container) (o : Option StateStore) (w : World)
    → w.store ≡ o
    → Sees [] cs (done seen)
    → IsListed cs (unstamped (pruned seen) o w).store
unfolding IsListed Sees has_key lookup perform
prune-IsListed seen cs none w p h = rw p tt
prune-IsListed seen cs (some s) w p h = λ n e g. elim (Bool-cases (has_key n seen)) [
  | inl kept ↦ elim (h n kept) [ inl before ↦ cc before | inr named ↦ named ]
  | inr gone ↦ gone_entry n e (sym (rw gone at (get-prune n seen s)) ∙ g)
]
  where
    gone_entry : (n : Text) (e : ContainerState) → none ≡ some e → IsNamed cs n
    gone_entry n e k = cc k

-- Of a tick and the listing that it begins with.
unfoldable pub Shows : Outcome (Result (List Container)) → Outcome (Unit {0}) × World → Type 0
Shows (done (ok cs)) (done u, w) = IsListed cs w.store
Shows _ _ = Unit {0}

after_all :
    (cs : List Container) (env : Env) (o : Outcome (Assoc (Unit {0}))) (w : World)
    → Sees [] cs o
    → Shows (done (ok cs)) (continue o (λ seen. modify_store (pruned seen)) env w)
unfolding Shows modify_store
after_all cs env (done seen) w h = prune-IsListed seen cs w.store w refl h
after_all cs env panic w h = tt
after_all cs env stuck w h = tt

-- The tick from the listing on.
abbrev rest_of_tick : ℕ → Config → Result (List Container) → M (Unit {0})
rest_of_tick fuel cfg listed =
    if_ok listed (λ e. pure tt)
      λ containers. do
        update_metrics (set_containers_monitored (length containers))
        seen ← process_all fuel cfg [] containers
        modify_store (pruned seen)

after_listing :
    (fuel : ℕ) (cfg : Config) (env : Env) (l : Outcome (Result (List Container))) (w : World)
    → Shows l (continue l (rest_of_tick fuel cfg) env w)
unfolding update_metrics ◌>>=◌ ◌>>◌ if_ok
after_listing fuel cfg env (done (ok cs)) w =
    after_all cs env _ _ (process_all-Sees fuel cfg [] cs env _)
after_listing fuel cfg env (done (err e)) w = unfold Shows in tt
after_listing fuel cfg env panic w = unfold Shows in tt
after_listing fuel cfg env stuck w = unfold Shows in tt

-- Where the listing at the start of a tick succeeds and the tick returns, every entry that the
-- store then has is of a name that the listing has, whatever the world answers.
pub tick-Shows :
    (fuel : ℕ) (cfg : Config) (env : Env) (w : World)
    → Shows (list_containers cfg.include_stopped env w).0 (tick fuel cfg env w)
unfolding tick ◌>>=◌
tick-Shows fuel cfg env w =
    after_listing fuel cfg env (list_containers cfg.include_stopped env w).0
      (list_containers cfg.include_stopped env w).1
