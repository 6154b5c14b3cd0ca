-- ===== src/Updater/Watcher/Calm/Ticks.antt =====
-- internal/updater/watcher.go: a tick, and the check of one container, for any predicate that the
-- notes keep.
use openwatch.Base.{ℕ, suc, ◌*◌, ◌<◌, Bool, true, false, List, [], ◌∷◌, if◌then◌else◌}
use openwatch.Base.Text.{Text, text_eq}
use openwatch.Base.Assoc.{Assoc, insert}
use openwatch.Base.Errors.{Error, Result, ok, err}
use openwatch.Config.{Config}
use openwatch.Docker.{Container}
use openwatch.Docker.Reads.{Keeps-is_self, Keeps-list_containers}
use openwatch.State.Writes.{pruned}
use openwatch.Updater.Health.{budget, health_poll_interval}
use openwatch.Updater.Health.Laws.{SteadyClock}
use openwatch.Updater.Policy.{resolve_policy}
use openwatch.Updater.Watcher.{process_container, process_all, process_named, run_trigger, tick}
use openwatch.Updater.Watcher.OnStore.{OnStore-OffTrace, Keeps-update_metrics, looks_any}
use openwatch.Updater.Watcher.Calm.{Marking, Leads, Leads-Leaves, Closes}
use openwatch.Updater.Watcher.Calm.Laws.{Closes-process_policy}
use openwatch.World.{
  Env, World, Outcome, done, panic, stuck, M, continue, ◌>>=◌, if_ok, modify_store,
}
use openwatch.World.Keeps.{Keeps, Keeps-pure}

pub record Calms {ℓ} {A : Type ℓ} (I : World → Type 0) (m : M A) : Type 0 where
  pub at : (env : Env) → SteadyClock env → (w : World) → I w → Leads I (m env w)

module _ {ℓ} {A : Type ℓ} {I : World → Type 0} where
  pub Calms-Keeps : (m : M A) → Keeps SteadyClock ⊥ I m → Calms I m
  Calms-Keeps m h = record { at = λ env e w q. Leads-Leaves I (m env w) (h.at env e w q) }

  pub Calms-if : (b : Bool) (m n : M A) → Calms I m → Calms I n → Calms I (if b then m else n)
  Calms-if true m n hm hn = hm
  Calms-if false m n hm hn = hn

module _ {ℓ κ} {A : Type ℓ} {B : Type κ} {I : World → Type 0} where
  Calms-continue :
      (r : Outcome A) (f : A → M B) (env : Env) (w : World)
      → SteadyClock env
      → ((a : A) → Calms I (f a))
      → Leads I (r, w)
      → Leads I (continue r f env w)
  unfolding Leads
  Calms-continue (done a) f env w e hf h = (hf a).at env e w h
  Calms-continue panic f env w e hf h = tt
  Calms-continue stuck f env w e hf h = h

  pub Calms-bind :
      (m : M A) (f : A → M B) → Calms I m → ((a : A) → Calms I (f a)) → Calms I (m >>= f)
  unfolding ◌>>=◌
  Calms-bind m f hm hf = record {
    at = λ env e w h. Calms-continue (m env w).0 f env (m env w).1 e hf (hm.at env e w h);
  }

  pub Calms-if_ok :
      (r : Result A) (failed : Error → M B) (go : A → M B)
      → ((e : Error) → Calms I (failed e))
      → ((a : A) → Calms I (go a))
      → Calms I (if_ok r failed go)
  unfolding if_ok
  Calms-if_ok (ok a) failed go hf hg = hg a
  Calms-if_ok (err e) failed go hf hg = hf e

module _ {I : World → Type 0} {J : Text → World → Type 0} (law : Marking I J) where
  Calms-Closes {ℓ} : {A : Type ℓ} (k : Text) (m : M A) → Closes I J k m → Calms I m
  Calms-Closes k m h = record { at = λ env e w q. h.at env e w (law.weaken k w q) }

  Calms-prune : (keep : Assoc (Unit {0})) → Calms I (modify_store (pruned keep))
  unfolding modify_store Leads
  Calms-prune keep = record { at = λ env e w q. law.prunes keep w q }

  module _ (f : ℕ) (cfg : Config)
      (enough : ◌<◌ (budget cfg.healthcheck_timeout) (f * health_poll_interval)) where
    Calms-process_container : (c : Container) → Calms I (process_container (suc f) cfg c)
    unfolding process_container
    Calms-process_container c =
        Calms-bind _ _ (Calms-Keeps _ (Keeps-is_self (looks_any (OnStore-OffTrace law.about)) c))
          (λ self. Calms-if self _ _ (Calms-Keeps _ (Keeps-pure tt)) (
            Calms-Closes c.name _
              (Closes-process_policy law c f cfg (resolve_policy cfg c) enough)))

    Calms-process_all :
        (seen : Assoc (Unit {0})) (cs : List Container) → Calms I (process_all (suc f) cfg seen cs)
    unfolding process_all
    Calms-process_all seen [] = Calms-Keeps _ (Keeps-pure seen)
    Calms-process_all seen (c ∷ cs) =
        Calms-bind _ _ (Calms-process_container c)
          (λ _. Calms-process_all (insert c.name tt seen) cs)

    Calms-process_named :
        (name : Text) (cs : List Container) → Calms I (process_named (suc f) cfg name cs)
    unfolding process_named
    Calms-process_named name [] = Calms-Keeps _ (Keeps-pure tt)
    Calms-process_named name (c ∷ cs) =
        Calms-if (text_eq c.name name) _ _ (Calms-process_container c) (Calms-process_named name cs)

    pub Calms-tick : Calms I (tick (suc f) cfg)
    unfolding tick
    Calms-tick =
        Calms-bind _ _
          (Calms-Keeps _
            (Keeps-list_containers (looks_any (OnStore-OffTrace law.about)) cfg.include_stopped))
          (λ listed.
            Calms-if_ok listed _ _ (λ e. Calms-Keeps _ (Keeps-pure tt))
              (λ containers.
                Calms-bind _ _ (Calms-Keeps _ (Keeps-update_metrics law.about _)) (λ _.
                  Calms-bind _ _ (Calms-process_all [] containers) (λ seen. Calms-prune seen))))

    pub Calms-run_trigger : (name : Text) → Calms I (run_trigger (suc f) cfg name)
    unfolding run_trigger
    Calms-run_trigger name =
        Calms-bind _ _
          (Calms-Keeps _
            (Keeps-list_containers (looks_any (OnStore-OffTrace law.about)) cfg.include_stopped))
          (λ listed.
            Calms-if_ok listed _ _ (λ e. Calms-Keeps _ (Keeps-pure tt))
              (λ containers. Calms-process_named name containers))
