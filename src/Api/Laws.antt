-- ===== src/Api/Laws.antt =====
-- internal/api/server.go: what a request may change, and what its answer says.
use openwatch.Base.{
  ◌≡◌, ◌≢◌, arith, ap, refl, ◌⊎◌, inl, inr, Bool, true, false, Option, none, some, List, [], ◌∷◌,
  ◌==◌, Bool-cases, if◌then◌else◌,
}
use openwatch.Base.Text.{Text, codes, text_eq, is_empty}
use openwatch.State.{
  Time, ContainerStatus, up_to_date, updating, unknown, unset, ContainerState, StateStore, snapshot,
  get,
}
use openwatch.State.Laws.{IsValid}
use openwatch.State.Snapshot.{IsStrict, find, find-snapshot, snapshot-IsStrict}
use openwatch.Api.{
  Json, null, string, array, object, Items, nil, cons, Members, end, member, Method, Request,
  Answer, reply, metrics_page, page_not_found, Server, Endpoint, route,
}
use openwatch.Api.Trigger.{Trigger, IsLawful}
use openwatch.Api.Handlers.{
  write_json, write_error, method_not_allowed, handle_containers, handle_update_all,
  handle_update_by_name, by_name_response, container_dto, container_dtos, status_text,
  last_updated_json, name_of, handle, serve_http, is_post,
}

abbrev pub is_accepted : Answer → Bool
is_accepted (reply r) = r.status == 202
is_accepted (metrics_page r) = false
is_accepted page_not_found = false

module _ {S : Type 0} (t : Trigger S) (format : Time → Text) (lawful : IsLawful t) where
  -- The state of the store is as before; so is all, where the answer is not 202.
  abbrev Spares : S → Answer × S → Type 0
  Spares s r = (t.state r.1 ≡ t.state s) × (is_accepted r.0 ≡ false → r.1 ≡ s)

  update_all-Spares :
      (r : Request) (s : S)
      → let (resp, s') = handle_update_all t format r s in Spares s (reply resp, s')
  unfolding handle_update_all method_not_allowed write_error write_json
  update_all-Spares r s = elim (Bool-cases (text_eq r.path (codes "/api/v1/update"))) [
    | inl e ↦ elim (Bool-cases (is_post r.method)) [
      | inl p ↦ rw (e, p) (lawful.all_keeps s, λ h. cc)
      | inr p ↦ rw (e, p) (refl, λ h. refl)
    ]
    | inr e ↦ rw e (refl, λ h. refl)
  ]

  update_by_name-Spares :
      (r : Request) (s : S)
      → let (resp, s') = handle_update_by_name t format r s in Spares s (reply resp, s')
  unfolding handle_update_by_name method_not_allowed write_error write_json by_name_response
  update_by_name-Spares r s = elim (Bool-cases (is_post r.method)) [
    | inr p ↦ rw p (refl, λ h. refl)
    | inl p ↦ elim (Bool-cases (is_empty (name_of r.path))) [
      | inl e ↦ rw (p, e) (refl, λ h. refl)
      | inr e ↦
          let (accepted, s') = t.trigger_by_name (name_of r.path) s in
          elim (Bool-cases accepted) [
            | inl a ↦ rw (p, e, a) (lawful.by_name_keeps (name_of r.path) s, λ h. cc)
            | inr a ↦
                rw (p, e, a)
                  (
                    lawful.by_name_keeps (name_of r.path) s,
                    λ h. lawful.refused (name_of r.path) s a,
                  )
          ]
    ]
  ]

  handle-Spares :
      (srv : Server) (ep : Endpoint) (r : Request) (s : S) → Spares s (handle t format srv ep r s)
  unfolding handle
  handle-Spares srv Endpoint.health r s = (refl, λ h. refl)
  handle-Spares srv Endpoint.metrics r s = (refl, λ h. refl)
  handle-Spares srv Endpoint.containers r s = (refl, λ h. refl)
  handle-Spares srv Endpoint.update_all r s = update_all-Spares r s
  handle-Spares srv Endpoint.update_by_name r s = update_by_name-Spares r s
  handle-Spares srv Endpoint.unknown r s = (refl, λ h. refl)

-- With a lawful trigger, a request leaves the store as it was, and it is answered with 202 or
-- leaves the whole state of the trigger as it was.
pub serve_http_spares :
    {S : Type 0} (t : Trigger S) (format : Time → Text) (srv : Server) (r : Request) (s : S)
    → IsLawful t
    → (t.state (serve_http t format srv r s).1 ≡ t.state s)
      × ((is_accepted (serve_http t format srv r s).0 ≡ true)
          ⊎ ((serve_http t format srv r s).1 ≡ s))
unfolding serve_http
serve_http_spares t format srv r s lawful =
    let ep = route srv.has_metrics r.path in
    let (keeps, spares) = handle-Spares t format lawful srv ep r s in
    (
      keeps,
      elim (Bool-cases (is_accepted (handle t format srv ep r s).0)) [
        | inl a ↦ inl a
        | inr a ↦ inr (spares a)
      ],
    )

-- The value of a member.
unfoldable pub field : Text → Json → Option Json
field key (object ms) = go ms
  where
    go : Members → Option Json
    go end = none
    go (member k j rest) = let later = go rest in if text_eq k key then some j else later
field key _ = none

-- The words for a status.
abbrev pub words : ContainerStatus → Text
words up_to_date = codes "up_to_date"
words updating = codes "updating"
words unknown = codes "unknown"
words unset = codes ""

-- What is said of the time of the last update.
abbrev pub IsLastUpdated : (Time → Text) → Time → Option Json → Type 0
IsLastUpdated format t j = (t ≡ 0 → j ≡ some null) × (t ≢ 0 → j ≡ some (string (format t)))

-- A row of the list, read by the names of its members.
unfoldable pub IsRow : (Time → Text) → ContainerState → Json → Type 0
IsRow format c j =
    (field (codes "name") j ≡ some (string c.name))
    × (field (codes "image") j ≡ some (string c.image))
    × (field (codes "status") j ≡ some (string (words c.status)))
    × (field (codes "last_checked") j ≡ some (string (format c.last_checked)))
    × IsLastUpdated format c.last_updated (field (codes "last_updated") j)

-- The rows are those of the containers, in their order.
unfoldable pub Rows : (Time → Text) → List ContainerState → Items → Type 0
Rows format [] nil = Unit {0}
Rows format [] (cons j js) = ⊥
Rows format (c ∷ cs) nil = ⊥
Rows format (c ∷ cs) (cons j js) = IsRow format c j × Rows format cs js

status_words : (s : ContainerStatus) → status_text s ≡ words s
status_words up_to_date = refl
status_words updating = refl
status_words unknown = refl
status_words unset = refl

last_updated_json-IsLastUpdated :
    (format : Time → Text) (t : Time) → IsLastUpdated format t (some (last_updated_json format t))
last_updated_json-IsLastUpdated format t = (λ h. ground (arith, h), λ h. ground (arith, h))

container_dto-IsRow :
    (format : Time → Text) (c : ContainerState) → IsRow format c (container_dto format c)
unfolding IsRow field container_dto text_eq
container_dto-IsRow format c = (
  refl,
  refl,
  ap (λ s. some (string s)) (status_words c.status),
  refl,
  last_updated_json-IsLastUpdated format c.last_updated,
)

container_dtos-Rows :
    (format : Time → Text) (cs : List ContainerState) → Rows format cs (container_dtos format cs)
unfolding Rows container_dtos
container_dtos-Rows format [] = tt
container_dtos-Rows format (c ∷ cs) = (container_dto-IsRow format c, container_dtos-Rows format cs)

-- A GET of the containers, with a valid store, is answered with 200 and a JSON list with a row for
-- each of some containers, in strictly increasing order of the names, in which finding a name
-- gives what the store has for it; a row gives the container's name, image, status, time of the
-- last check and time of the last update, null where there was none.
pub handle_containers_lists :
    {S : Type 0} (t : Trigger S) (format : Time → Text) (r : Request) (s : S) (store : StateStore)
    → r.method ≡ Method.get
    → t.state s ≡ some store
    → IsValid store
    → (cs : List ContainerState) × (rows : Items) × (handle_containers t format r s
        ≡ record { status = 200; content_type = codes "application/json"; body = array rows })
      × Rows format cs rows
      × IsStrict cs
      × ((n : Text) → find n cs ≡ get n store)
unfolding handle_containers write_json
handle_containers_lists t format r s store m e v = (
  snapshot store,
  container_dtos format (snapshot store),
  rw (m, e) refl,
  container_dtos-Rows format (snapshot store),
  snapshot-IsStrict store v,
  λ n. find-snapshot n store v,
)
