-- ===== src/Updater/Watcher/Counts/Ticks.antt =====
-- internal/updater/watcher.go: the outcomes that a tick counts, by its listing.
use openwatch.Base.{ℕ, ◌≡◌, refl, sym, inl, inr, Option, none, some, List, [], ◌∷◌, length}
use openwatch.Base.Text.{Text}
use openwatch.Base.Assoc.{Assoc, insert}
use openwatch.Base.Errors.{Result, ok, err}
use openwatch.Config.{Config}
use openwatch.Docker.{Container}
use openwatch.Docker.Containers.{list_containers}
use openwatch.Docker.Reads.{Keeps-list_containers}
use openwatch.Metrics.{Metrics, UpdateStatus, set_containers_monitored}
use openwatch.State.{StateStore}
use openwatch.State.Writes.{Write, pruned}
use openwatch.Updater.Watcher.{process_container, process_all, tick}
use openwatch.Updater.Watcher.OnStore.{looks_any}
use openwatch.Updater.Watcher.Counts.{updates_of, IsOnce, Counted-OffTrace, Uncounted-at}
use openwatch.Updater.Watcher.Counts.Laws.{process_container-IsOnce}
use openwatch.World.{
  Env, World, Outcome, done, panic, stuck, M, continue, pure, ◌>>=◌, ◌>>◌, if_ok, unstamped,
  modify_store, update_metrics,
}

-- From the outcomes `us` to others: for each container in turn nothing, or one under its name.
pub data Outcomes
    : List Container → List (Text × UpdateStatus) → List (Text × UpdateStatus) → Type 0 where
  finished : (us : List (Text × UpdateStatus)) → Outcomes [] us us
  silent :
      (c : Container) (cs : List Container) (us us' : List (Text × UpdateStatus))
      → Outcomes cs us us'
      → Outcomes (c ∷ cs) us us'
  counted :
      (c : Container) (status : UpdateStatus) (cs : List Container)
      (us us' : List (Text × UpdateStatus))
      → Outcomes cs ((c.name, status) ∷ us) us'
      → Outcomes (c ∷ cs) us us'

Outcomes-none : (cs : List Container) (us : List (Text × UpdateStatus)) → Outcomes cs us us
Outcomes-none [] us = finished us
Outcomes-none (c ∷ cs) us = silent c cs us us (Outcomes-none cs us)

Outcomes-next :
    (c : Container) (cs : List Container) (us : List (Text × UpdateStatus)) (w : World)
    (us' : List (Text × UpdateStatus))
    → IsOnce c.name us w
    → Outcomes cs (updates_of w.metrics) us'
    → Outcomes (c ∷ cs) us us'
Outcomes-next c cs us w us' (inl e) h = silent c cs us us' (rw e at h)
Outcomes-next c cs us w us' (inr (status, e)) h = counted c status cs us us' (rw e at h)

Outcomes-continue :
    {A B : Type 0} (cs : List Container) (r : Outcome A) (f : A → M B) (env : Env) (w : World)
    → ((a : A) → Outcomes cs (updates_of w.metrics) (updates_of (f a env w).1.metrics))
    → Outcomes cs (updates_of w.metrics) (updates_of (continue r f env w).1.metrics)
Outcomes-continue cs (done a) f env w h = h a
Outcomes-continue cs panic f env w h = Outcomes-none cs _
Outcomes-continue cs stuck f env w h = Outcomes-none cs _

process_all-Outcomes :
    (fuel : ℕ) (cfg : Config) (seen : Assoc (Unit {0})) (cs : List Container) (env : Env)
    (w : World)
    → Outcomes cs (updates_of w.metrics) (updates_of (process_all fuel cfg seen cs env w).1.metrics)
unfolding process_all ◌>>=◌ pure
process_all-Outcomes fuel cfg seen [] env w = finished _
process_all-Outcomes fuel cfg seen (c ∷ cs) env w =
    let p = process_container fuel cfg c env w in
    Outcomes-next c cs (updates_of w.metrics) p.1 _ (process_container-IsOnce fuel cfg c env w) (
      Outcomes-continue cs p.0 _ env p.1
        (λ u. process_all-Outcomes fuel cfg (insert c.name tt seen) cs env p.1))

monitored-updates :
    (n : ℕ) (m : Option Metrics) → updates_of (set_containers_monitored n m) ≡ updates_of m
unfolding set_containers_monitored
monitored-updates n none = refl
monitored-updates n (some m) = refl

unstamped-updates :
    (c : Write) (o : Option StateStore) (w : World)
    → updates_of (unstamped c o w).metrics ≡ updates_of w.metrics
unstamped-updates c none w = refl
unstamped-updates c (some s) w = refl

pruned-updates :
    (o : Outcome (Assoc (Unit {0}))) (env : Env) (w : World)
    → updates_of (continue o (λ seen. modify_store (pruned seen)) env w).1.metrics
      ≡ updates_of w.metrics
unfolding modify_store
pruned-updates (done seen) env w = unstamped-updates (pruned seen) w.store w
pruned-updates panic env w = refl
pruned-updates stuck env w = refl

-- The containers of a listing that succeeds.
abbrev pub listed : Outcome (Result (List Container)) → List Container
listed (done (ok cs)) = cs
listed _ = []

-- The tick from the listing on.
abbrev rest_of_tick : ℕ → Config → Result (List Container) → M (Unit {0})
rest_of_tick fuel cfg answer =
    if_ok answer (λ e. pure tt)
      λ containers. do
        update_metrics (set_containers_monitored (length containers))
        seen ← process_all fuel cfg [] containers
        modify_store (pruned seen)

after_listing :
    (fuel : ℕ) (cfg : Config) (env : Env) (l : Outcome (Result (List Container))) (w : World)
    → Outcomes
        (listed l)
        (updates_of w.metrics)
        (updates_of (continue l (rest_of_tick fuel cfg) env w).1.metrics)
unfolding update_metrics ◌>>=◌ ◌>>◌ if_ok pure
after_listing fuel cfg env (done (ok cs)) w =
    let w₁ : World = record w { metrics = set_containers_monitored (length cs) w.metrics } in
    let p = process_all fuel cfg [] cs env w₁ in
    rw (pruned-updates p.0 env p.1, ← monitored-updates (length cs) w.metrics)
      (process_all-Outcomes fuel cfg [] cs env w₁)
after_listing fuel cfg env (done (err e)) w = finished _
after_listing fuel cfg env panic w = finished _
after_listing fuel cfg env stuck w = finished _

-- However a tick ends and whatever the world answers, it adds to the counted outcomes of updates,
-- in the order of the listing, at most one for each container listed, under that container's name,
-- and none where the listing fails.
pub tick-Outcomes :
    (fuel : ℕ) (cfg : Config) (env : Env) (w : World)
    → Outcomes
        (listed (list_containers cfg.include_stopped env w).0)
        (updates_of w.metrics)
        (updates_of (tick fuel cfg env w).1.metrics)
unfolding tick ◌>>=◌
tick-Outcomes fuel cfg env w =
    rw
      (sym (
        Uncounted-at (list_containers cfg.include_stopped)
          (λ us. Keeps-list_containers (looks_any (Counted-OffTrace us)) cfg.include_stopped) env
          w))
      (after_listing fuel cfg env (list_containers cfg.include_stopped env w).0
        (list_containers cfg.include_stopped env w).1)
