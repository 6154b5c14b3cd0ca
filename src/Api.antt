-- ===== src/Api.antt =====
-- internal/api/server.go: the HTTP server. A path is one that Go's ServeMux hands to a handler: it
-- answers any other spelling with a redirect to the cleaned one. A response's body is the JSON value
-- that is encoded; members stand in the order in which Go writes them.
pub mod Trigger
pub mod Handlers
pub mod Listener
pub mod Laws
pub mod Errors
pub mod Accepts
pub mod Watcher
pub mod Jobs
pub mod Overlap
mod Tests
use openwatch.Base.{ℕ, Bool, true, false, Option, none, some, List, [], ◌∷◌, if◌then◌else◌}
use openwatch.Base.Text.{Text, codes, text_eq, has_prefix, is_empty}

mutual
  pub data Json : Type 0 where
    null : Json
    bool : Bool → Json
    string : Text → Json
    array : Items → Json
    object : Members → Json

  pub data Items : Type 0 where
    nil : Items
    cons : Json → Items → Items

  pub data Members : Type 0 where
    end : Members
    member : Text → Json → Members → Members

pub data Method : Type 0 where
  get post : Method
  other : Text → Method

pub record Request : Type 0 where
  pub method : Method
  pub path : Text

pub record Response : Type 0 where
  pub status : ℕ
  pub content_type : Text
  pub body : Json

-- What a request gets: a response of a handler, the page of the metrics library's handler, or the
-- multiplexer's own "404 page not found".
pub data Answer : Type 0 where
  reply : Response → Answer
  metrics_page : Request → Answer
  page_not_found : Answer

-- `has_metrics`: `s.metrics != nil`.
pub record Server : Type 0 where
  pub addr : Text
  pub version : Text
  pub has_metrics : Bool

abbrev pub default_addr : Text
default_addr = codes ":8080"

abbrev pub or_default : Text → Text → Text
or_default default s = if is_empty s then default else s

-- From the address, the version and the metrics of the configuration.
unfoldable pub new : Text → Text → Bool → Server
new addr version has_metrics = record {
  addr = or_default default_addr addr;
  version = or_default (codes "dev") version;
  has_metrics = has_metrics;
}

pub data Endpoint : Type 0 where
  health metrics containers update_all update_by_name unknown : Endpoint

abbrev pub update_prefix : Text
update_prefix = codes "/api/v1/update/"

-- The multiplexer: an exact pattern first, then the subtree.
unfoldable pub route : Bool → Text → Endpoint
route has_metrics path =
    if text_eq path (codes "/health")
    then health
    else if text_eq path (codes "/metrics")
    then (if has_metrics then metrics else unknown)
    else if text_eq path (codes "/api/v1/containers")
    then containers
    else if text_eq path (codes "/api/v1/update")
    then update_all
    else if has_prefix update_prefix path
    then update_by_name
    else unknown
