-- ===== src/Api/Accepts.antt =====
-- internal/api/server.go: which requests are answered with 202.
use openwatch.Base.{
  ◌≡◌, ◌≢◌, refl, ◌↔◌, ◌⊎◌, inl, inr, Bool, true, false, [], ◌==◌, Bool-cases, Option-cases, arith,
}
use openwatch.Base.Text.{Text, codes, text_eq, has_prefix, is_empty}
use openwatch.Base.Text.Equality.{eq_of_text_eq, text_eq_refl}
use openwatch.State.{Time}
use openwatch.Api.{Method, post, Request, Server, Endpoint, route, update_prefix}
use openwatch.Api.Trigger.{Trigger}
use openwatch.Api.Handlers.{
  write_json, write_error, method_not_allowed, handle_health, handle_containers, handle_update_all,
  handle_update_by_name, by_name_response, name_of, handle, serve_http, is_post, is_get,
}
use openwatch.Api.Laws.{is_accepted}

-- The request asks for an update: of all, or of a container that the trigger takes.
abbrev pub AsksUpdate : {S : Type 0} → Trigger S → Request → S → Type 0
AsksUpdate t r s =
    (r.method ≡ post)
    × ((r.path ≡ codes "/api/v1/update")
        ⊎ ((has_prefix update_prefix r.path ≡ true)
            × (name_of r.path ≢ [])
            × ((t.trigger_by_name (name_of r.path) s).0 ≡ true)))

-- An answer to an endpoint.
abbrev Takes : {S : Type 0} → Trigger S → Endpoint → Request → S → Type 0
Takes t Endpoint.health r s = ⊥
Takes t Endpoint.metrics r s = ⊥
Takes t Endpoint.containers r s = ⊥
Takes t Endpoint.update_all r s = (r.method ≡ post) × (r.path ≡ codes "/api/v1/update")
Takes t Endpoint.update_by_name r s =
    (r.method ≡ post) × (name_of r.path ≢ []) × ((t.trigger_by_name (name_of r.path) s).0 ≡ true)
Takes t Endpoint.unknown r s = ⊥

empty_eq : (s : Text) → is_empty s ≡ true → s ≡ []
empty_eq s h = ground arith

is_post_iff : (m : Method) → (is_post m ≡ true) ↔ (m ≡ post)
is_post_iff m = ground arith

module _ {S : Type 0} (t : Trigger S) (format : Time → Text) where
  containers_unaccepted :
      (r : Request) (s : S) → ((handle_containers t format r s).status == 202) ≡ false
  unfolding handle_containers method_not_allowed write_error write_json
  containers_unaccepted r s = elim (Bool-cases (is_get r.method)) [
    | inr p ↦ rw p
    | inl p ↦ elim (Option-cases (t.state s)) [ inl n ↦ rw (p, n) | inr (store, n) ↦ rw (p, n) ]
  ]

  update_all_accepts :
      (r : Request) (s : S)
      → (((handle_update_all t format r s).0.status == 202) ≡ true)
        ↔ Takes t Endpoint.update_all r s
  unfolding handle_update_all method_not_allowed write_error write_json
  update_all_accepts r s = elim (Bool-cases (text_eq r.path (codes "/api/v1/update"))) [
    | inl e ↦ elim (Bool-cases (is_post r.method)) [
      | inl p ↦ rw (e, p) (λ _. ((is_post_iff r.method).0 p, eq_of_text_eq r.path _ e), λ _. refl)
      | inr p ↦ rw (e, p) (λ h. cc, λ k. cc (p, (is_post_iff r.method).1 k.0))
    ]
    | inr e ↦ rw e (λ h. cc, λ k. cc (e, text_eq_refl (codes "/api/v1/update"), k.1))
  ]

  update_by_name_accepts :
      (r : Request) (s : S)
      → (((handle_update_by_name t format r s).0.status == 202) ≡ true)
        ↔ Takes t Endpoint.update_by_name r s
  unfolding handle_update_by_name method_not_allowed write_error write_json by_name_response
  update_by_name_accepts r s = elim (Bool-cases (is_post r.method)) [
    | inr p ↦ rw p (λ h. cc, λ k. cc (p, (is_post_iff r.method).1 k.0))
    | inl p ↦ elim (Bool-cases (is_empty (name_of r.path))) [
      | inl e ↦ rw (p, e) (λ h. cc, λ k. absurd (k.1 (empty_eq (name_of r.path) e)))
      | inr e ↦ elim (Bool-cases (t.trigger_by_name (name_of r.path) s).0) [
        | inl a ↦
            rw (p, e, a) (λ _. ((is_post_iff r.method).0 p, (λ n. cc (e, n)), refl), λ _. refl)
        | inr a ↦ rw (p, e, a) (λ h. cc, λ k. cc (a, k.2))
      ]
    ]
  ]

  handle_accepts :
      (srv : Server) (ep : Endpoint) (r : Request) (s : S)
      → (is_accepted (handle t format srv ep r s).0 ≡ true) ↔ Takes t ep r s
  unfolding handle handle_health handle_containers method_not_allowed write_error write_json
  handle_accepts srv Endpoint.health r s = ground arith
  handle_accepts srv Endpoint.metrics r s = ground arith
  handle_accepts srv Endpoint.containers r s =
      (λ h. cc (h, containers_unaccepted r s), λ k. absurd k)
  handle_accepts srv Endpoint.update_all r s = update_all_accepts r s
  handle_accepts srv Endpoint.update_by_name r s = update_by_name_accepts r s
  handle_accepts srv Endpoint.unknown r s = ground arith

  -- No update is asked for at a path that is another endpoint's.
  elsewhere :
      (path : Text) (r : Request) (s : S)
      → text_eq r.path path ≡ true
      → text_eq (codes "/api/v1/update") path ≡ false
      → has_prefix update_prefix path ≡ false
      → AsksUpdate t r s
      → ⊥
  elsewhere path r s here apart outside (_, inl e) = cc (rw e at here, apart)
  elsewhere path r s here apart outside (_, inr (inside, _, _)) =
      cc (rw (eq_of_text_eq r.path path here) at inside, outside)

  by_name :
      (r : Request) (s : S)
      → text_eq r.path (codes "/api/v1/update") ≡ false
      → (r.path ≡ codes "/api/v1/update")
        ⊎ (((◌≡◌ {A = Bool} true true)
            × (name_of r.path ≢ [])
            × ((t.trigger_by_name (name_of r.path) s).0 ≡ true)))
      → (name_of r.path ≢ []) × ((t.trigger_by_name (name_of r.path) s).0 ≡ true)
  by_name r s h (inl e) = cc (h, e, text_eq_refl (codes "/api/v1/update"))
  by_name r s h (inr (_, n, a)) = (n, a)

  by_none :
      (r : Request) (s : S)
      → text_eq r.path (codes "/api/v1/update") ≡ false
      → (r.path ≡ codes "/api/v1/update")
        ⊎ (((◌≡◌ {A = Bool} false true)
            × (name_of r.path ≢ [])
            × ((t.trigger_by_name (name_of r.path) s).0 ≡ true)))
      → ⊥
  by_none r s h (inl e) = cc (h, e, text_eq_refl (codes "/api/v1/update"))
  by_none r s h (inr (e, n, a)) = cc e

  Takes-route : (b : Bool) (r : Request) (s : S) → Takes t (route b r.path) r s ↔ AsksUpdate t r s
  unfolding route
  Takes-route b r s = elim (Bool-cases (text_eq r.path (codes "/health"))) [
    | inl e ↦ rw e (
      λ k. absurd k,
      elsewhere (codes "/health") r s e (unfold text_eq in refl) (unfold has_prefix in refl),
    )
    | inr e ↦ elim (Bool-cases (text_eq r.path (codes "/metrics"))) [
      | inl f ↦ elim (Bool-cases b) [
        | inl m ↦
            rw (e, f, m)
              (
                λ k. absurd k,
                elsewhere (codes "/metrics") r s f (unfold text_eq in refl)
                    (unfold has_prefix in refl),
              )
        | inr m ↦
            rw (e, f, m)
              (
                λ k. absurd k,
                elsewhere (codes "/metrics") r s f (unfold text_eq in refl)
                    (unfold has_prefix in refl),
              )
      ]
      | inr f ↦ elim (Bool-cases (text_eq r.path (codes "/api/v1/containers"))) [
        | inl g ↦
            rw (e, f, g)
              (
                λ k. absurd k,
                elsewhere (codes "/api/v1/containers") r s g (unfold text_eq in refl)
                    (unfold has_prefix in refl),
              )
        | inr g ↦ elim (Bool-cases (text_eq r.path (codes "/api/v1/update"))) [
          | inl h ↦ rw (e, f, g, h) (λ k. (k.0, inl k.1), λ a. (a.0, eq_of_text_eq r.path _ h))
          | inr h ↦ elim (Bool-cases (has_prefix update_prefix r.path)) [
            | inl k ↦
                rw (e, f, g, h, k)
                  (
                    λ a. (a.0, inr (refl, a.1, a.2)),
                    λ a. let (n, y) = by_name r s h a.1 in (a.0, n, y),
                  )
            | inr k ↦ rw (e, f, g, h, k) (λ a. absurd a, λ a. by_none r s h a.1)
          ]
        ]
      ]
    ]
  ]

-- A request is answered with 202 exactly when it is a POST to /api/v1/update, or a POST below it
-- with a name, not empty once the slashes at both ends are trimmed, that the trigger takes.
pub serve_http_accepts :
    {S : Type 0} (t : Trigger S) (format : Time → Text) (srv : Server) (r : Request) (s : S)
    → (is_accepted (serve_http t format srv r s).0 ≡ true) ↔ AsksUpdate t r s
unfolding serve_http
serve_http_accepts t format srv r s =
    let ep = route srv.has_metrics r.path in
    let (there, back) = handle_accepts t format srv ep r s in
    let (inwards, outwards) = Takes-route t format srv.has_metrics r s in
    (λ h. inwards (there h), λ a. back (outwards a))
