-- ===== src/Api/Handlers.antt =====
-- internal/api/server.go: the handlers. `format` is `Format(time.RFC3339)`.
use openwatch.Base.{ℕ, Bool, true, false, not, none, some, List, [], ◌∷◌, ◌==◌, if◌then◌else◌}
use openwatch.Base.Text.{Text, codes, text_eq, trim_prefix, trim_byte, is_empty}
use openwatch.State.{
  Time, ContainerStatus, ContainerState, up_to_date, updating, unknown, unset, snapshot,
}
use openwatch.Api.{
  Json, null, bool, string, array, object, Items, nil, cons, end, member, Method, get, post, other,
  Request, Response, Answer, reply, metrics_page, page_not_found, Server, Endpoint, route,
  update_prefix,
}
use openwatch.Api.Trigger.{Trigger}

unfoldable pub write_json : ℕ → Json → Response
write_json status payload = record {
  status = status;
  content_type = codes "application/json";
  body = payload;
}

unfoldable pub write_error : ℕ → Text → Response
unfolding write_json
write_error status message =
    write_json status (object (member (codes "error") (string message) end))

abbrev pub is_get : Method → Bool
is_get get = true
is_get post = false
is_get (other m) = false

abbrev pub is_post : Method → Bool
is_post get = false
is_post post = true
is_post (other m) = false

unfoldable pub method_not_allowed : Response
unfolding write_error
method_not_allowed = write_error 405 (codes "method not allowed")

unfoldable pub handle_health : Text → Request → Response
unfolding method_not_allowed write_json
handle_health version r =
    if is_get r.method
    then write_json 200 (
        object (
          member (codes "status") (string (codes "ok"))
            (member (codes "version") (string version) end)))
    else method_not_allowed

-- `string(c.Status)`
abbrev pub status_text : ContainerStatus → Text
status_text up_to_date = codes "up_to_date"
status_text updating = codes "updating"
status_text unknown = codes "unknown"
status_text unset = []

-- A zero time is shown as null.
abbrev pub last_updated_json : (Time → Text) → Time → Json
last_updated_json format t = if t == 0 then null else string (format t)

unfoldable pub container_dto : (Time → Text) → ContainerState → Json
container_dto format c = object (
    member (codes "name") (string c.name) (
      member (codes "image") (string c.image) (
        member (codes "status") (string (status_text c.status)) (
          member (codes "last_checked") (string (format c.last_checked))
            (member (codes "last_updated") (last_updated_json format c.last_updated) end)))))

unfoldable pub container_dtos : (Time → Text) → List ContainerState → Items
container_dtos format [] = nil
container_dtos format (c ∷ cs) = cons (container_dto format c) (container_dtos format cs)

-- The name in the path: the prefix and the slashes at both ends are trimmed.
unfoldable pub name_of : Text → Text
name_of path = trim_byte b'/' (trim_prefix update_prefix path)

-- The end of `handleUpdateByName`, from the trigger's answer on.
unfoldable pub by_name_response : Text → Bool → Response
unfolding write_error write_json
by_name_response name false = write_error 404 (codes "container not found")
by_name_response name true =
    write_json 202 (
      object (member (codes "accepted") (bool true) (member (codes "container") (string name) end)))

module _ {S : Type 0} (t : Trigger S) (format : Time → Text) where
  unfoldable pub handle_containers : Request → S → Response
  unfolding method_not_allowed write_json container_dtos
  handle_containers r s =
      if is_get r.method
      then elim (t.state s) [
        | none ↦ write_json 200 (array nil)
        | some store ↦ write_json 200 (array (container_dtos format (snapshot store)))
      ]
      else method_not_allowed

  unfoldable pub handle_update_all : Request → S → Response × S
  unfolding method_not_allowed write_error write_json
  handle_update_all r s =
      if not (text_eq r.path (codes "/api/v1/update"))
      then (write_error 404 (codes "not found"), s)
      else if is_post r.method
      then (write_json 202 (object (member (codes "accepted") (bool true) end)), t.trigger_all s)
      else (method_not_allowed, s)

  unfoldable pub handle_update_by_name : Request → S → Response × S
  unfolding method_not_allowed write_error by_name_response
  handle_update_by_name r s =
      if is_post r.method
      then (let name = name_of r.path in
          if is_empty name
          then (write_error 400 (codes "container name is required"), s)
          else (let (accepted, s') = t.trigger_by_name name s in
              (by_name_response name accepted, s')))
      else (method_not_allowed, s)

  unfoldable pub handle : Server → Endpoint → Request → S → Answer × S
  unfolding handle_health handle_containers handle_update_all handle_update_by_name
  handle srv Endpoint.health r s = (reply (handle_health srv.version r), s)
  handle srv Endpoint.metrics r s = (metrics_page r, s)
  handle srv Endpoint.containers r s = (reply (handle_containers r s), s)
  handle srv Endpoint.update_all r s = let (resp, s') = handle_update_all r s in (reply resp, s')
  handle srv Endpoint.update_by_name r s =
      let (resp, s') = handle_update_by_name r s in (reply resp, s')
  handle srv Endpoint.unknown r s = (page_not_found, s)

  -- One request to the server.
  unfoldable pub serve_http : Server → Request → S → Answer × S
  unfolding handle route
  serve_http srv r s = handle srv (route srv.has_metrics r.path) r s
