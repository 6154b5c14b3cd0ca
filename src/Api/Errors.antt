-- ===== src/Api/Errors.antt =====
-- internal/api/server.go: what an error response says.
use openwatch.Base.{
  ℕ, ◌≡◌, refl, ◌⊎◌, inl, inr, Bool, true, false, Option, none, some, List, [], ◌∷◌, if◌then◌else◌,
  Bool-cases, Option-cases, Any,
}
use openwatch.Base.Text.{Text, codes, text_eq, is_empty}
use openwatch.State.{Time}
use openwatch.Api.{
  Json, string, object, member, end, Request, Response, Answer, reply, metrics_page, page_not_found,
  Server, Endpoint, route,
}
use openwatch.Api.Trigger.{Trigger}
use openwatch.Api.Handlers.{
  write_json, write_error, method_not_allowed, handle_health, handle_containers, handle_update_all,
  handle_update_by_name, by_name_response, name_of, handle, serve_http, is_get, is_post,
}

-- The text of an error body.
abbrev pub message_of : Json → Option Text
message_of (object (member key (string m) end)) =
    if text_eq key (codes "error") then some m else none
message_of _ = none

-- The statuses and texts of the errors.
abbrev pub refusals : List (ℕ × Text)
refusals =
    (405, codes "method not allowed")
    ∷ (404, codes "not found")
    ∷ (404, codes "container not found")
    ∷ (400, codes "container name is required")
    ∷ []

abbrev pub IsRefusal : Response → Type 0
IsRefusal r =
    Any
      (λ e. r ≡ record {
        status = e.0;
        content_type = codes "application/json";
        body = object (member (codes "error") (string e.1) end);
      })
      refusals

-- 200 or 202, with a body that is no error.
abbrev pub IsSuccess : Response → Type 0
IsSuccess r = ((r.status ≡ 200) ⊎ (r.status ≡ 202)) × (message_of r.body ≡ none)

pub IsPlain : Answer → Type 0
IsPlain (reply r) = (r.content_type ≡ codes "application/json") × (IsSuccess r ⊎ IsRefusal r)
IsPlain (metrics_page r) = Unit {0}
IsPlain page_not_found = Unit {0}

not_allowed-IsPlain : IsPlain (reply method_not_allowed)
unfolding method_not_allowed write_error write_json IsPlain
not_allowed-IsPlain = (refl, inr (inl refl))

module _ {S : Type 0} (t : Trigger S) (format : Time → Text) where
  health-IsPlain : (version : Text) (r : Request) → IsPlain (reply (handle_health version r))
  unfolding handle_health write_json IsPlain
  health-IsPlain version r = elim (Bool-cases (is_get r.method)) [
    | inl p ↦ rw p (refl, inl (inl refl, refl))
    | inr p ↦ rw p not_allowed-IsPlain
  ]

  containers-IsPlain : (r : Request) (s : S) → IsPlain (reply (handle_containers t format r s))
  unfolding handle_containers write_json IsPlain
  containers-IsPlain r s = elim (Bool-cases (is_get r.method)) [
    | inr p ↦ rw p not_allowed-IsPlain
    | inl p ↦ elim (Option-cases (t.state s)) [
      | inl n ↦ rw (p, n) (refl, inl (inl refl, refl))
      | inr (store, n) ↦ rw (p, n) (refl, inl (inl refl, refl))
    ]
  ]

  update_all-IsPlain : (r : Request) (s : S) → IsPlain (reply (handle_update_all t format r s).0)
  unfolding handle_update_all write_error write_json IsPlain text_eq
  update_all-IsPlain r s = elim (Bool-cases (text_eq r.path (codes "/api/v1/update"))) [
    | inr e ↦ rw e (refl, inr (inr (inl refl)))
    | inl e ↦ elim (Bool-cases (is_post r.method)) [
      | inl p ↦ rw (e, p) (refl, inl (inr refl, refl))
      | inr p ↦ rw (e, p) not_allowed-IsPlain
    ]
  ]

  by_name-IsPlain :
      (name : Text) (accepted : Bool) → IsPlain (reply (by_name_response name accepted))
  unfolding by_name_response write_error write_json IsPlain
  by_name-IsPlain name true = (refl, inl (inr refl, refl))
  by_name-IsPlain name false = (refl, inr (inr (inr (inl refl))))

  update_by_name-IsPlain :
      (r : Request) (s : S) → IsPlain (reply (handle_update_by_name t format r s).0)
  unfolding handle_update_by_name write_error write_json IsPlain
  update_by_name-IsPlain r s = elim (Bool-cases (is_post r.method)) [
    | inr p ↦ rw p not_allowed-IsPlain
    | inl p ↦ elim (Bool-cases (is_empty (name_of r.path))) [
      | inl e ↦ rw (p, e) (refl, inr (inr (inr (inr (inl refl)))))
      | inr e ↦
          rw (p, e) (by_name-IsPlain (name_of r.path) (t.trigger_by_name (name_of r.path) s).0)
    ]
  ]

  handle-IsPlain :
      (srv : Server) (ep : Endpoint) (r : Request) (s : S) → IsPlain (handle t format srv ep r s).0
  unfolding handle IsPlain
  handle-IsPlain srv Endpoint.health r s = health-IsPlain srv.version r
  handle-IsPlain srv Endpoint.metrics r s = tt
  handle-IsPlain srv Endpoint.containers r s = containers-IsPlain r s
  handle-IsPlain srv Endpoint.update_all r s = update_all-IsPlain r s
  handle-IsPlain srv Endpoint.update_by_name r s = update_by_name-IsPlain r s
  handle-IsPlain srv Endpoint.unknown r s = tt

-- Every reply of a handler is JSON, and is a 200 or 202 whose body is no error, or one of four
-- errors: 405 method not allowed, 404 not found, 404 container not found and 400 container name is
-- required.
pub serve_http-IsPlain :
    {S : Type 0} (t : Trigger S) (format : Time → Text) (srv : Server) (r : Request) (s : S)
    → IsPlain (serve_http t format srv r s).0
unfolding serve_http
serve_http-IsPlain t format srv r s = handle-IsPlain t format srv (route srv.has_metrics r.path) r s
