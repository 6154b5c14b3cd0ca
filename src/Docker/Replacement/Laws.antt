-- ===== src/Docker/Replacement/Laws.antt =====
-- internal/docker/container.go: `Recreate` and what it calls, by Docker/Replacement.
use openwatch.Base.{◌≢◌, true, not, ◌≡◌, refl, ◌∙◌, sym, ap, false, Option, List, [], ◌∷◌, inl, inr}
use openwatch.Base.Text.{Text, codes}
use openwatch.Base.Assoc.{Assoc}
use openwatch.Base.Numbers.{ℤ}
use openwatch.Base.Errors.{Error, Result, ok, err}
use openwatch.Docker.{ContainerConfig, HostConfig, EndpointSettings, InspectResponse, Container}
use openwatch.Docker.Containers.{
  inspect_container, inspect_base, lacks_base, still_running, remove_container, stop_and_remove,
  first_network, extra_networks, connect_and_start, replace, recreate, new_config_of, image_config,
  new_host_config, clean_networks,
}
use openwatch.Docker.Image.{inspect_image}
use openwatch.Docker.Replacement.{
  Erased, erased, unerased, Removed, unstopped, unkilled, stopped, killed, told, Attached, started,
  unstarted, connected, unconnected, Replaced, kept, lost, made, Recreated, incomplete, replaced,
}
use openwatch.World.{Call, Env, World, ask}
use openwatch.World.Sound.{HasBases}
use openwatch.World.Gives.{
  Gives, Gives-weaken, Gives-pure, Gives-ask, Gives-if, Gives-bind, Gives-if_ok, Gives-if_some,
}

-- A call, its answer and the record after it.
asked :
    {A : Type 0} (c : Call) (f : Env → List Call → A) (env : Env) (w : World)
    → Gives (λ a tr. (f env w.trace ≡ a) × (tr ≡ c ∷ w.trace)) (ask c f env w)
asked c f env w = Gives-ask _ c f env w (refl, refl)

remove_container-Erased :
    (id : Text) (env : Env) (w : World) → Gives (Erased env id w.trace) (remove_container id env w)
unfolding remove_container
remove_container-Erased id env w =
    let R = Erased env id w.trace in
    Gives-bind _ R _ _ env w (asked (Call.container_remove id false false) _ env w)
      λ answer w' (p, t).
        Gives-if_ok R answer _ _ env w' (λ e h. Gives-pure R _ env w' (rw t (unerased e _ (p ∙ h))))
          (λ u h. Gives-pure R _ env w' (rw t (erased (p ∙ h))))

-- An inspection whose base is read.
pub inspect_base-Gives :
    (id : Text) (env : Env) (w : World)
    → HasBases env
    → Gives
        (λ a tr.
          (env.container_inspect w.trace id ≡ a) × (tr ≡ Call.container_inspect id ∷ w.trace))
        (inspect_base id env w)
unfolding inspect_base inspect_container
inspect_base-Gives id env w b =
    let R : Result InspectResponse → List Call → Type 0 =
      λ a tr. (env.container_inspect w.trace id ≡ a) × (tr ≡ Call.container_inspect id ∷ w.trace) in
    Gives-bind R R _ _ env w (asked (Call.container_inspect id) _ env w) λ answer w' (p, t).
      Gives-if R (lacks_base answer) _ _ env w' (λ bare. absurd (whole answer p bare))
        (λ _. Gives-pure R answer env w' (p, t))
  where
    whole :
        (answer : Result InspectResponse)
        → env.container_inspect w.trace id ≡ answer
        → lacks_base answer ≢ true
    whole (err e) p = λ k. cc k
    whole (ok inspect) p = λ k. cc (k, b w.trace id inspect p)

stop_and_remove-Removed :
    (id : Text) (timeout : ℤ) (env : Env) (w : World)
    → HasBases env
    → Gives (Removed env id timeout w.trace) (stop_and_remove id timeout env w)
unfolding stop_and_remove
stop_and_remove-Removed id timeout env w b =
    let R = Removed env id timeout w.trace in
    Gives-bind _ R _ _ env w (asked (Call.container_stop id timeout) _ env w) λ halted w₁ (p₁, t₁).
      Gives-bind _ R (inspect_base id) _ env w₁ (inspect_base-Gives id env w₁ b) λ seen w₂ (p₂, t₂).
        let there : w₂.trace ≡ told env id timeout w.trace = rw (t₂, t₁) refl in
        let known : env.container_inspect (Call.container_stop id timeout ∷ w.trace) id ≡ seen =
          rw t₁ at p₂ in
        Gives-if R (still_running seen) _ _ env w₂
          (λ runs.
            Gives-bind _ R _ _ env w₂ (asked (Call.container_kill id (codes "KILL")) _ env w₂)
              λ struck w₃ (p₃, t₃).
                Gives-if_ok R struck _ _ env w₃
                  (λ e h. Gives-pure R _ env w₃ (
                    rw (t₃, there)
                      (unkilled e _ (rw known runs)
                        (sym (ap (λ x. env.container_kill x id) there) ∙ p₃ ∙ h))))
                  (λ u h.
                    Gives-weaken (Erased env id w₃.trace) R _
                      (λ r tr k.
                        killed r tr (rw known runs)
                          (sym (ap (λ x. env.container_kill x id) there) ∙ p₃ ∙ h)
                          (rw (t₃, there) at k))
                      (remove_container-Erased id env w₃)))
          (λ rests.
            Gives-if_ok R halted _ _ env w₂
              (λ e h. Gives-pure R _ env w₂ (rw there (unstopped e _ (rw known rests) (p₁ ∙ h))))
              (λ u h.
                Gives-weaken (Erased env id w₂.trace) R _
                  (λ r tr k. stopped r tr (rw known rests) (p₁ ∙ h) (rw there at k))
                  (remove_container-Erased id env w₂)))

connect_and_start-Attached :
    (name id : Text) (networks : Assoc EndpointSettings) (env : Env) (w : World)
    → Gives
        (λ p tr. (p.0 ≡ id) × Attached env id w.trace networks p.1 tr)
        (connect_and_start name id networks env w)
unfolding connect_and_start
connect_and_start-Attached name id [] env w =
    let R : Text × Option Error → List Call → Type 0 =
      λ p tr. (p.0 ≡ id) × Attached env id w.trace [] p.1 tr in
    Gives-bind _ R _ _ env w (asked (Call.container_start id) _ env w) λ answer w' (p, t).
      Gives-if_ok R answer _ _ env w'
        (λ e h. Gives-pure R _ env w' (refl, rw t (unstarted w.trace e _ (p ∙ h))))
        (λ u h. Gives-pure R _ env w' (refl, rw t (started w.trace (p ∙ h))))
connect_and_start-Attached name id ((net, ep) ∷ networks) env w =
    let R : Text × Option Error → List Call → Type 0 =
      λ p tr. (p.0 ≡ id) × Attached env id w.trace ((net, ep) ∷ networks) p.1 tr in
    Gives-bind _ R _ _ env w
      (asked (Call.network_connect net id ep) (λ env tr. env.network_connect tr net id) env w)
      λ answer w' (p, t).
        Gives-if_ok R answer _ _ env w'
          (λ e h.
            Gives-pure R _ env w' (refl, rw t (unconnected w.trace net ep networks e _ (p ∙ h))))
          (λ u h.
            Gives-weaken (λ q tr. (q.0 ≡ id) × Attached env id w'.trace networks q.1 tr) R _
              (λ q tr (same, k).
                (same, connected w.trace net ep networks q.1 tr (p ∙ h) (rw t at k)))
              (connect_and_start-Attached name id networks env w'))

module _ (c : Container) (config : ContainerConfig) (host : HostConfig)
    (networks : Assoc EndpointSettings) (timeout : ℤ) (env : Env) (b : HasBases env) where
  replace-Replaced :
      (w : World)
      → Gives
          (Replaced env c config host networks timeout w.trace)
          (replace c config host networks timeout env w)
  unfolding replace
  replace-Replaced w =
      let R = Replaced env c config host networks timeout w.trace in
      Gives-bind _ R _ _ env w (stop_and_remove-Removed c.id timeout env w b) λ removed w₁ k.
        Gives-if_ok R removed _ _ env w₁ (λ e h. Gives-pure R _ env w₁ (kept e e _ (rw h at k)))
          λ u h.
            Gives-bind _ R _ _ env w₁
              (asked (Call.container_create config host (first_network networks) c.name)
                (λ env tr. env.container_create tr c.name) env w₁)
              λ created w₂ (p, t).
                Gives-if_ok R created _ _ env w₂
                  (λ e g. Gives-pure R _ env w₂ (rw t (lost e _ w₁.trace (rw h at k) (p ∙ g))))
                  λ id g.
                    Gives-weaken
                      (λ q tr.
                        (q.0 ≡ id) × Attached env id w₂.trace (extra_networks networks) q.1 tr)
                      R _
                      (λ q tr (same, a).
                        rw same (made id w₁.trace q.1 tr (rw h at k) (p ∙ g) (rw t at a)))
                      (connect_and_start-Attached c.name id (extra_networks networks) env w₂)

looked :
    (ref : Text) (env : Env) (w : World)
    → Gives
        (λ a tr. (env.image_inspect w.trace ref ≡ a) × (tr ≡ Call.image_inspect ref ∷ w.trace))
        (inspect_image ref env w)
unfolding inspect_image
looked ref env w = asked (Call.image_inspect ref) (λ env tr. env.image_inspect tr ref) env w

-- Where inspections are answered with a base, as the container's own was, Recreate returns, and
-- its calls and result are as the daemon's answers determine. Nothing is called where the
-- inspection has no configuration or no host configuration. Otherwise both images are inspected,
-- the old container is stopped, inspected, killed if it still runs, and removed without force and
-- volumes; only once that has succeeded is the new one created, under the old name with the new
-- configuration, connected to its further networks in order, and started. The first refusal ends
-- it with an error, together with the new ID from the creation on; without an error all of these
-- have succeeded.
pub recreate-Recreated :
    (c : Container) (image : Text) (timeout : ℤ) (env : Env) (w : World)
    → HasBases env
    → c.inspect.has_base ≡ true
    → Gives (Recreated env c image timeout w.trace) (recreate c image timeout env w)
unfolding recreate
recreate-Recreated c image timeout env w b based =
    let R = Recreated env c image timeout w.trace in
    Gives-if_some R c.inspect.config _ _ env w (λ h. Gives-pure R _ env w (incomplete _ (inl h)))
      λ config h.
        Gives-if R (not c.inspect.has_base) _ _ env w (λ bare. cc (bare, based))
          λ _.
            Gives-if_some R c.inspect.host_config _ _ env w
              (λ g. Gives-pure R _ env w (incomplete _ (inr g)))
              λ host g. Gives-bind _ R _ _ env w (looked c.image_id env w) λ old w₁ (p₁, t₁).
                Gives-bind _ R _ _ env w₁ (looked image env w₁) λ new w₂ (p₂, t₂).
                  let there : w₂.trace
                      ≡ Call.image_inspect image ∷ Call.image_inspect c.image_id ∷ w.trace =
                    rw (t₂, t₁) refl in
                  let known : env.image_inspect (Call.image_inspect c.image_id ∷ w.trace) image
                      ≡ new =
                    rw t₁ at p₂ in
                  Gives-weaken
                    (Replaced env c
                      (new_config_of config image (image_config old) (image_config new))
                      (new_host_config host) (clean_networks c.inspect.networks) timeout w₂.trace)
                    R _ (λ r tr k. replaced config host r tr h g (rw (p₁, known) (rw there at k)))
                    (replace-Replaced c _ (new_host_config host) (clean_networks c.inspect.networks)
                      timeout env b w₂)
