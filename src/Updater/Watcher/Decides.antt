-- ===== src/Updater/Watcher/Decides.antt =====
-- internal/updater/watcher.go: what has to be found before an update is applied, in the order in
-- which it is found.
pub mod Laws
use openwatch.Base.{
  ℕ, ◌≡◌, ◌≢◌, refl, sym, ap, ◌∙◌, ◌⊎◌, inl, inr, Bool, true, false, Option, List, [], ◌∷◌, All,
  if◌then◌else◌, Bool-cases,
}
use openwatch.Base.Text.{Text}
use openwatch.Base.Errors.{Error, Result, ok, err}
use openwatch.Config.{Config}
use openwatch.Docker.{Container}
use openwatch.Docker.Containers.{is_self}
use openwatch.Docker.Image.{local_image_identifiers}
use openwatch.Docker.Reads.{Keeps-is_self, Keeps-local_image_identifiers}
use openwatch.Registry.Auth.{load_auth}
use openwatch.Registry.Digest.{head_manifest_digest, fetch_remote_identifiers}
use openwatch.Registry.Resolver.{Reference, parse}
use openwatch.Registry.Reads.{
  Keeps-load_auth, Keeps-head_manifest_digest, Keeps-fetch_remote_identifiers,
}
use openwatch.State.{ContainerStatus, up_to_date, unknown}
use openwatch.Updater.Marks.{note_checked, note_failed, count_update}
use openwatch.Updater.Identifiers.{identifiers_intersect}
use openwatch.Updater.Identifiers.Laws.{Reads, identifiers_intersect_iff}
use openwatch.Updater.Policy.{Policy, resolve_policy}
use openwatch.Updater.Watcher.{
  first_id, head_matches, announce, apply_update, compare_identifiers, check_remote,
  auth_or_anonymous, check_container, process_policy, process_container,
}
use openwatch.Updater.Watcher.Reads.{
  IsHarmless, IsHarmless-reads, IsHarmless-announce, Makes-first_id, Makes-note_checked,
  Makes-note_failed,
}
use openwatch.World.{
  Call, AuthConfig, Env, World, Outcome, done, panic, stuck, M, continue, pure, fault, ◌>>=◌, if_ok,
}
use openwatch.World.Makes.{Makes, Makes-update_metrics}
use openwatch.World.Keeps.{Keeps-bind, Keeps-pure}
use openwatch.World.Splits.{Splits, Splits-Makes, Splits-bind, Splits-if, Splits-if_ok, Splits-map}
use openwatch.World.Reads.{looks}

-- No local and no remote identifier agree, up to case and surrounding white space, on a text that is
-- not empty.
unfoldable pub AreDisjoint : List Text → List Text → Type 0
AreDisjoint local_ids remote_ids = (d : Text) → d ≢ [] → Reads d local_ids → Reads d remote_ids → ⊥

module _ (fuel : ℕ) (cfg : Config) (policy : Policy) (c : Container) (env : Env) where
  -- The registry, asked first by HEAD and then by GET, names the image by no local identifier.
  pub record Changed (ref : Reference) (auth : Option AuthConfig) (local_ids : List Text)
      (w : World) (p : Outcome (Unit {0}) × World) : Type 0 where
    pub head : Result Text
    pub remote_ids : List Text
    pub w₁ : World
    pub w₂ : World
    pub asked :
        ◌≡◌ {A = Outcome (Result Text) × World}
          (head_manifest_digest ref auth env w)
          (done head, w₁)
    pub unmatched :
        (digest : Text) → head ≡ ok digest → digest ≢ [] → AreDisjoint local_ids (digest ∷ [])
    pub fetched :
        ◌≡◌ {A = Outcome (Result (List Text)) × World}
          (fetch_remote_identifiers ref auth env w₁)
          (done (ok remote_ids), w₂)
    pub disjoint : AreDisjoint local_ids remote_ids
    pub wanted : policy.notify_only ≡ false
    pub applied : p ≡ apply_update fuel cfg policy c auth env w₂

  -- The container is managed, its image reads as a reference, and its local identifiers are known.
  pub record Outdated (w : World) (p : Outcome (Unit {0}) × World) : Type 0 where
    pub ref : Reference
    pub loaded : Result (Option AuthConfig)
    pub local_ids : List Text
    pub w₁ : World
    pub w₂ : World
    pub managed : policy.skip ≡ false
    pub parsed : parse c.image ≡ ok ref
    pub authorized :
        ◌≡◌ {A = Outcome (Result (Option AuthConfig)) × World}
          (load_auth cfg.docker_config ref.registry cfg.registry_user cfg.registry_password env w)
          (done loaded, w₁)
    pub named :
        ◌≡◌ {A = Outcome (Result (List Text)) × World}
          (local_image_identifiers c.image_id env w₁)
          (done (ok local_ids), w₂)
    pub changed : Changed ref (auth_or_anonymous loaded) local_ids w₂ p

-- The container is not the daemon's own, and outdated.
pub record Updates (fuel : ℕ) (cfg : Config) (c : Container) (env : Env) (w : World)
    (p : Outcome (Unit {0}) × World) : Type 0 where
  pub w₀ : World
  pub other : ◌≡◌ {A = Outcome Bool × World} (is_self c env w) (done false, w₀)
  pub outdated : Outdated fuel cfg (resolve_policy cfg c) c env w₀ p
