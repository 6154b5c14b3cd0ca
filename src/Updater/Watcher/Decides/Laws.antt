-- ===== src/Updater/Watcher/Decides/Laws.antt =====
-- internal/updater/watcher.go: the decision to update, step by step.
use openwatch.Base.{◌≢◌, refl, ℕ, ◌≡◌, sym, ap, ◌∙◌, ◌⊎◌, inr, false, Option, List, [], ◌∷◌, All}
use openwatch.Base.Text.{Text}
use openwatch.Base.Errors.{Result, ok}
use openwatch.Config.{Config}
use openwatch.Docker.{Container}
use openwatch.Docker.Containers.{is_self}
use openwatch.Docker.Image.{local_image_identifiers}
use openwatch.Docker.Reads.{Keeps-is_self, Keeps-local_image_identifiers}
use openwatch.Registry.Auth.{load_auth}
use openwatch.Registry.Digest.{head_manifest_digest, fetch_remote_identifiers}
use openwatch.Registry.Resolver.{Reference, parse}
use openwatch.Registry.Reads.{
  Keeps-load_auth, Keeps-head_manifest_digest, Keeps-fetch_remote_identifiers,
}
use openwatch.State.{ContainerStatus, up_to_date, unknown}
use openwatch.Updater.Marks.{note_checked, note_failed, count_update}
use openwatch.Updater.Identifiers.{identifiers_intersect}
use openwatch.Updater.Identifiers.Laws.{identifiers_intersect_iff}
use openwatch.Updater.Policy.{Policy, resolve_policy}
use openwatch.Updater.Watcher.{
  first_id, head_matches, apply_update, compare_identifiers, check_remote, auth_or_anonymous,
  check_container, process_policy, process_container,
}
use openwatch.Updater.Watcher.Reads.{
  IsHarmless, IsHarmless-reads, IsHarmless-announce, Makes-first_id, Makes-note_checked,
  Makes-note_failed,
}
use openwatch.World.{AuthConfig, Env, World, Outcome, done, pure, fault}
use openwatch.World.Makes.{Makes, Makes-update_metrics}
use openwatch.World.Keeps.{Keeps-bind, Keeps-pure}
use openwatch.World.Splits.{Splits, Splits-Makes, Splits-bind, Splits-if, Splits-if_ok, Splits-map}
use openwatch.World.Reads.{looks}
use openwatch.Updater.Watcher.Decides.{AreDisjoint, Changed, Outdated, Updates}

-- The run has only looked, or `X` holds of it.
abbrev Finds : (Outcome (Unit {0}) × World → Type 0) → Outcome (Unit {0}) × World → Type 0
Finds = Splits IsHarmless

IsHarmless-note_checked :
    (c : Container) (s : ContainerStatus) → Makes IsHarmless (note_checked c s)
unfolding IsHarmless
IsHarmless-note_checked c s = Makes-note_checked c s tt

IsHarmless-note_failed : (c : Container) → Makes IsHarmless (note_failed c)
unfolding IsHarmless
IsHarmless-note_failed c = Makes-note_failed c tt

-- Where `ids[0]` is read, the world is as before.
first_id-world :
    (ids : List Text) (env : Env) (w : World) (id : Text) (w' : World)
    → ◌≡◌ {A = Outcome Text × World} (first_id ids env w) (done id, w')
    → w ≡ w'
unfolding first_id pure fault
first_id-world [] env w id w' h = cc h
first_id-world (x ∷ ids) env w id w' h = ap (λ p. p.1) h

identifiers_intersect-AreDisjoint :
    (local_ids remote_ids : List Text)
    → identifiers_intersect local_ids remote_ids ≡ false
    → AreDisjoint local_ids remote_ids
unfolding AreDisjoint
identifiers_intersect-AreDisjoint local_ids remote_ids h =
    λ d ne j k. cc (h, (identifiers_intersect_iff local_ids remote_ids).1 (d, ne, j, k))

head_matches-AreDisjoint :
    (local_ids : List Text) (head : Result Text) (digest : Text)
    → head_matches local_ids head ≡ false
    → head ≡ ok digest
    → digest ≢ []
    → AreDisjoint local_ids (digest ∷ [])
head_matches-AreDisjoint local_ids head digest h e ne =
    identifiers_intersect-AreDisjoint local_ids (digest ∷ []) (tested digest (rw e at h) ne)
  where
    tested :
        (digest : Text)
        → head_matches local_ids (ok digest) ≡ false
        → digest ≢ []
        → identifiers_intersect local_ids (digest ∷ []) ≡ false
    tested [] h ne = absurd (ne refl)
    tested (a ∷ s) h ne = h

module _ (fuel : ℕ) (cfg : Config) (policy : Policy) (c : Container) (env : Env) where
  -- The update is what the run consists of, from `w` on.
  abbrev Applies : Option AuthConfig → World → Outcome (Unit {0}) × World → Type 0
  Applies auth w p = (policy.notify_only ≡ false) × (p ≡ apply_update fuel cfg policy c auth env w)

  compare_identifiers-Splits :
      (auth : Option AuthConfig) (local_ids remote_ids : List Text) (w : World)
      → All IsHarmless w.trace
      → Finds
          (λ p. AreDisjoint local_ids remote_ids × Applies auth w p)
          (compare_identifiers fuel cfg policy c auth local_ids remote_ids env w)
  unfolding compare_identifiers
  compare_identifiers-Splits auth local_ids remote_ids w h =
      let X : Outcome (Unit {0}) × World → Type 0 =
        λ p. AreDisjoint local_ids remote_ids × Applies auth w p in
      Splits-if IsHarmless X env (identifiers_intersect local_ids remote_ids) _ _ w
        (λ same.
          Splits-Makes IsHarmless X env _ w
            (Keeps-bind _ _ (Makes-first_id local_ids) (λ id. IsHarmless-note_checked c up_to_date))
            h)
        λ other.
          Splits-bind IsHarmless X env (first_id local_ids) _ w (Makes-first_id local_ids) h
            λ l w₁ e₁ h₁.
              Splits-bind IsHarmless X env (first_id remote_ids) _ w₁ (Makes-first_id remote_ids) h₁
                λ r w₂ e₂ h₂.
                  Splits-if IsHarmless X env policy.notify_only _ _ w₂
                    (λ watched. Splits-Makes IsHarmless X env _ w₂ (IsHarmless-announce c) h₂)
                    λ free. inr (
                      identifiers_intersect-AreDisjoint local_ids remote_ids other,
                      (
                        free,
                        ap (apply_update fuel cfg policy c auth env) (
                            sym (
                              first_id-world local_ids env w l w₁ e₁
                              ∙ first_id-world remote_ids env w₁ r w₂ e₂)),
                      ),
                    )

  check_remote-Splits :
      (ref : Reference) (auth : Option AuthConfig) (local_ids : List Text) (w : World)
      → All IsHarmless w.trace
      → Finds
          (Changed fuel cfg policy c env ref auth local_ids w)
          (check_remote fuel cfg policy c ref auth local_ids env w)
  unfolding check_remote
  check_remote-Splits ref auth local_ids w h =
      let X = Changed fuel cfg policy c env ref auth local_ids w in
      Splits-bind IsHarmless X env (head_manifest_digest ref auth) _ w
        (Keeps-head_manifest_digest (looks IsHarmless-reads) ref auth) h
        λ head w₁ e₁ h₁.
          Splits-if IsHarmless X env (head_matches local_ids head) _ _ w₁
            (λ same.
              Splits-Makes IsHarmless X env (note_checked c up_to_date) w₁
                (IsHarmless-note_checked c up_to_date) h₁)
            λ other.
              Splits-bind IsHarmless X env (fetch_remote_identifiers ref auth) _ w₁
                (Keeps-fetch_remote_identifiers (looks IsHarmless-reads) ref auth) h₁
                λ remote w₂ e₂ h₂.
                  Splits-if_ok IsHarmless X env remote _ _ w₂
                    (λ e.
                      Splits-Makes IsHarmless X env (note_failed c) w₂ (IsHarmless-note_failed c)
                        h₂)
                    λ remote_ids e.
                      Splits-map IsHarmless
                        (λ p. AreDisjoint local_ids remote_ids × Applies auth w₂ p) X
                        (λ (disjoint, (wanted, applied)). record {
                          head = head;
                          remote_ids = remote_ids;
                          w₁ = w₁;
                          w₂ = w₂;
                          asked = e₁;
                          unmatched = λ digest e ne.
                              head_matches-AreDisjoint local_ids head digest other e ne;
                          fetched = rw e at e₂;
                          disjoint = disjoint;
                          wanted = wanted;
                          applied = applied;
                        })
                        (compare_identifiers-Splits auth local_ids remote_ids w₂ h₂)

  check_container-Splits :
      (ref : Reference) (w : World)
      → policy.skip ≡ false
      → parse c.image ≡ ok ref
      → All IsHarmless w.trace
      → Finds (Outdated fuel cfg policy c env w) (check_container fuel cfg policy c ref env w)
  unfolding check_container
  check_container-Splits ref w managed parsed h =
      let X = Outdated fuel cfg policy c env w in
      Splits-bind IsHarmless X env
        (load_auth cfg.docker_config ref.registry cfg.registry_user cfg.registry_password) _ w
        (Keeps-load_auth (looks IsHarmless-reads) cfg.docker_config ref.registry cfg.registry_user
          cfg.registry_password)
        h
        λ loaded w₁ e₁ h₁.
          Splits-bind IsHarmless X env (local_image_identifiers c.image_id) _ w₁
            (Keeps-local_image_identifiers (looks IsHarmless-reads) c.image_id) h₁
            λ named w₂ e₂ h₂.
              Splits-if_ok IsHarmless X env named _ _ w₂
                (λ e.
                  Splits-Makes IsHarmless X env (note_failed c) w₂ (IsHarmless-note_failed c) h₂)
                λ local_ids e.
                  Splits-map IsHarmless
                    (Changed fuel cfg policy c env ref (auth_or_anonymous loaded) local_ids w₂) X
                    (λ changed. record {
                      ref = ref;
                      loaded = loaded;
                      local_ids = local_ids;
                      w₁ = w₁;
                      w₂ = w₂;
                      managed = managed;
                      parsed = parsed;
                      authorized = e₁;
                      named = rw e at e₂;
                      changed = changed;
                    })
                    (check_remote-Splits ref (auth_or_anonymous loaded) local_ids w₂ h₂)

  process_policy-Splits :
      (w : World)
      → All IsHarmless w.trace
      → Finds (Outdated fuel cfg policy c env w) (process_policy fuel cfg policy c env w)
  unfolding process_policy count_update
  process_policy-Splits w h =
      let X = Outdated fuel cfg policy c env w in
      Splits-if IsHarmless X env policy.skip _ _ w
        (λ skipped.
          Splits-Makes IsHarmless X env _ w
            (Keeps-bind _ _ (Makes-update_metrics _) (λ u. IsHarmless-note_checked c unknown)) h)
        λ managed.
          Splits-if_ok IsHarmless X env (parse c.image) _ _ w
            (λ e. Splits-Makes IsHarmless X env (note_failed c) w (IsHarmless-note_failed c) h)
            λ ref e. check_container-Splits ref w managed e h

-- Processing a container adds, to a record of calls that has no others, no calls but looking, the
-- clock and telling of an available update; or the container is not the daemon itself, is neither
-- skipped nor notify_only, its image reads as a reference, its local identifiers are known, the
-- HEAD request's digest is none of them, the GET requests give remote identifiers of which none is
-- a local one, and the processing is the update, begun in the world that these steps leave.
pub process_container-Decides :
    (fuel : ℕ) (cfg : Config) (c : Container) (env : Env) (w : World)
    → All IsHarmless w.trace
    → All IsHarmless (process_container fuel cfg c env w).1.trace
      ⊎ Updates fuel cfg c env w (process_container fuel cfg c env w)
unfolding process_container
process_container-Decides fuel cfg c env w h =
    let X = Updates fuel cfg c env w in
    let policy = resolve_policy cfg c in
    Splits-bind IsHarmless X env (is_self c) _ w (Keeps-is_self (looks IsHarmless-reads) c) h
      λ self w₀ e₀ h₀.
        Splits-if IsHarmless X env self _ _ w₀
          (λ own. Splits-Makes IsHarmless X env (pure tt) w₀ (Keeps-pure tt) h₀)
          λ other.
            Splits-map IsHarmless (Outdated fuel cfg policy c env w₀) X
              (λ outdated. record { w₀ = w₀; other = rw other at e₀; outdated = outdated })
              (process_policy-Splits fuel cfg policy c env w₀ h₀)
