-- ===== src/Api/Watcher.antt =====
-- internal/updater/watcher.go: the watcher as the server's trigger. A goroutine that a request starts
-- is a job; `jobs` has all that were started, in the order of their start. They run at once, beside
-- the requests: their calls of the store are events between these.
use openwatch.Base.{
  none, some, ◌≡◌, refl, Bool, true, false, Option, List, [], ◌∷◌, ◌++◌, All, if◌then◌else◌,
  Bool-cases, inl, inr,
}
use openwatch.Base.Text.{Text, codes, text_eq, is_empty}
use openwatch.State.{Time, StateStore}
use openwatch.State.Writes.{Write, perform}
use openwatch.Updater.Watcher.{tracks}
use openwatch.Api.{Request, Server, Endpoint, route}
use openwatch.Api.Trigger.{Trigger, IsLawful}
use openwatch.Api.Handlers.{
  handle_update_all, handle_update_by_name, name_of, handle, serve_http, is_post,
}

pub data Job : Type 0 where
  tick_all : Job
  check : Text → Job

pub record Daemon : Type 0 where
  pub store : Option StateStore
  pub jobs : List Job

-- `TriggerAll`
unfoldable pub trigger_all : Daemon → Daemon
trigger_all d = record d { jobs = d.jobs ++ tick_all ∷ [] }

-- `TriggerByName`
unfoldable pub trigger_by_name : Text → Daemon → Bool × Daemon
trigger_by_name name d =
    if tracks name d.store
    then (true, record d { jobs = d.jobs ++ check name ∷ [] })
    else (false, d)

unfoldable pub watcher_trigger : Trigger Daemon
watcher_trigger = record {
  trigger_all = trigger_all;
  trigger_by_name = trigger_by_name;
  state = λ d. d.store;
}

pub watcher_trigger-IsLawful : IsLawful watcher_trigger
unfolding watcher_trigger trigger_all trigger_by_name
watcher_trigger-IsLawful = record {
  all_keeps = λ d. refl;
  by_name_keeps = λ name d. elim (Bool-cases (tracks name d.store)) [ inl e ↦ rw e | inr e ↦ rw e ];
  refused =
      λ name d h. elim (Bool-cases (tracks name d.store)) [ inl e ↦ cc (rw e at h) | inr e ↦ rw e ];
}

-- What the triggers keep, a request keeps.
module _ {S : Type 0} (t : Trigger S) (format : Time → Text) (P : S → Type 0)
    (all : (s : S) → P s → P (t.trigger_all s))
    (by_name : (name : Text) (s : S) → P s → P (t.trigger_by_name name s).1) where
  update_all-keeps : (r : Request) (s : S) → P s → P (handle_update_all t format r s).1
  unfolding handle_update_all
  update_all-keeps r s h = elim (Bool-cases (text_eq r.path (codes "/api/v1/update"))) [
    | inr e ↦ rw e h
    | inl e ↦ elim (Bool-cases (is_post r.method)) [
      | inl p ↦ rw (e, p) (all s h)
      | inr p ↦ rw (e, p) h
    ]
  ]

  update_by_name-keeps : (r : Request) (s : S) → P s → P (handle_update_by_name t format r s).1
  unfolding handle_update_by_name
  update_by_name-keeps r s h = elim (Bool-cases (is_post r.method)) [
    | inr p ↦ rw p h
    | inl p ↦ elim (Bool-cases (is_empty (name_of r.path))) [
      | inl e ↦ rw (p, e) h
      | inr e ↦ rw (p, e) (by_name (name_of r.path) s h)
    ]
  ]

  handle-keeps :
      (srv : Server) (ep : Endpoint) (r : Request) (s : S) → P s → P (handle t format srv ep r s).1
  unfolding handle
  handle-keeps srv Endpoint.health r s h = h
  handle-keeps srv Endpoint.metrics r s h = h
  handle-keeps srv Endpoint.containers r s h = h
  handle-keeps srv Endpoint.update_all r s h = update_all-keeps r s h
  handle-keeps srv Endpoint.update_by_name r s h = update_by_name-keeps r s h
  handle-keeps srv Endpoint.unknown r s h = h

  pub serve_http-keeps :
      (srv : Server) (r : Request) (s : S) → P s → P (serve_http t format srv r s).1
  unfolding serve_http
  serve_http-keeps srv r s h = handle-keeps srv (route srv.has_metrics r.path) r s h

-- What happens to the daemon: a request, or a call of the store by a goroutine that runs beside.
pub data Event : Type 0 where
  asked : Request → Event
  wrote : Write → Event

abbrev pub on_store : Write → Option StateStore → Option StateStore
on_store c none = none
on_store c (some s) = some (perform c s)

unfoldable pub happen : (Time → Text) → Server → Event → Daemon → Daemon
happen format srv (asked r) d = (serve_http watcher_trigger format srv r d).1
happen format srv (wrote c) d = record d { store = on_store c d.store }

-- The events in turn.
unfoldable pub serve_all : (Time → Text) → Server → List Event → Daemon → Daemon
serve_all format srv [] d = d
serve_all format srv (e ∷ es) d = serve_all format srv es (happen format srv e d)

-- The calls alone.
abbrev pub written : List Event → Option StateStore → Option StateStore
written [] s = s
written (asked r ∷ es) s = written es s
written (wrote c ∷ es) s = written es (on_store c s)

-- A check of one container was started by one of the requests, and the store had the container
-- by then.
abbrev pub IsKnown : Option StateStore → List Event → Job → Type 0
IsKnown store es tick_all = Unit {0}
IsKnown store es (check name) =
    (before : List Event) × (r : Request) × (after : List Event) × (es ≡ before ++ asked r ∷ after)
    × (tracks name (written before store) ≡ true)

-- After the events so far.
IsFollowing : Option StateStore → List Event → Daemon → Type 0
IsFollowing store past d = (d.store ≡ written past store) × All (IsKnown store past) d.jobs
