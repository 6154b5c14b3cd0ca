-- ===== src/Api/Tests.antt =====
-- The theorems on the server at concrete requests, with the watcher as its trigger.
use openwatch.Base.{none, ◌≢◌, arith, ◌≡◌, ◌↔◌, ◌⊎◌, refl, true, some, List, [], ◌∷◌}
use openwatch.Base.Text.{Text, codes}
use openwatch.State.{new_state_store, Time, ContainerState, StateStore, up_to_date, unknown, get}
use openwatch.State.Writes.{Write, checked, pruned, apply}
use openwatch.State.Interleave.{nil, left, right}
use openwatch.Docker.Labels.{label_enable, label_value_false}
use openwatch.Docker.Containers.{list_containers, is_self}
use openwatch.Updater.Policy.{resolve_policy}
use openwatch.Updater.Watcher.{
  tick, run_trigger, process_named, process_all, process_container, process_policy,
}
use openwatch.World.{Env, done, panic}
use openwatch.Base.Errors.{ok}
use openwatch.Updater.Health.Laws.{SteadyClock}
use openwatch.State.History.{replay, replay-IsValid}
use openwatch.State.Snapshot.{IsStrict, find}
use openwatch.Api.{Method, Request, Server, Items, array}
use openwatch.Api.Handlers.{serve_http, handle_containers}
use openwatch.Api.Laws.{is_accepted, Rows, handle_containers_lists}
use openwatch.Api.Accepts.{AsksUpdate, serve_http_accepts}
use openwatch.Api.Errors.{IsPlain, serve_http-IsPlain}
use openwatch.Api.Jobs.{run_job}
use openwatch.Base.Words.{seconds_duration}
use openwatch.Updater.Fixture.{
  answers, settings, inspected, defaults, answers-SteadyClock, new-IsQuiet,
}
use openwatch.Updater.Watcher.Quiet.{IsQuiet}
use openwatch.Api.Overlap.{Run, Overlap, no_runs, beside, finish, Overlap-IsQuiet}
use openwatch.Api.Watcher.{Job, tick_all, check, Daemon, watcher_trigger, Event, asked, wrote}

abbrev server : Server
server = record { addr = codes ":8080"; version = codes "dev"; has_metrics = true }

abbrev seen : StateStore
seen = replay (checked (codes "web") (codes "img:1") up_to_date 8 ∷ [])

abbrev idle : Daemon
idle = record { store = some seen; jobs = [] }

abbrev update_web : Request
update_web = record { method = Method.post; path = codes "/api/v1/update/web" }

abbrev list : Request
list = record { method = Method.get; path = codes "/api/v1/containers" }

-- The time in place of its format.
abbrev format : Time → Text
format t = t ∷ []

handle_containers_lists_example :
    (cs : List ContainerState) × (rows : Items) × (handle_containers watcher_trigger format list
        idle
      ≡ record { status = 200; content_type = codes "application/json"; body = array rows })
    × Rows format cs rows
    × IsStrict cs
    × ((n : Text) → find n cs ≡ get n seen)
unfolding watcher_trigger
handle_containers_lists_example =
    handle_containers_lists watcher_trigger format list idle seen refl refl
      (replay-IsValid (checked (codes "web") (codes "img:1") up_to_date 8 ∷ []))

serve_http_accepts_example :
    (is_accepted (serve_http watcher_trigger format server update_web idle).0 ≡ true)
    ↔ AsksUpdate watcher_trigger update_web idle
serve_http_accepts_example = serve_http_accepts watcher_trigger format server update_web idle

serve_http-IsPlain_example : IsPlain (serve_http watcher_trigger format server update_web idle).0
serve_http-IsPlain_example = serve_http-IsPlain watcher_trigger format server update_web idle

-- A check ends and prunes the store between two requests.
abbrev happenings : List Event
happenings = asked update_web ∷ wrote (pruned []) ∷ asked update_web ∷ asked list ∷ []

-- Containers that are not managed.
abbrev unmanaged_answers : Env
unmanaged_answers = record answers {
  container_inspect = λ tr id. ok (record (inspected tr) {
    config = some (record settings { labels = (label_enable, label_value_false) ∷ [] });
  });
}

unmanaged_answers-SteadyClock : SteadyClock unmanaged_answers
unmanaged_answers-SteadyClock = record {
  monotone = answers-SteadyClock.monotone;
  advances = answers-SteadyClock.advances;
}

-- A tick and a check of one container, which overlap.
abbrev goroutine : Job → Run
goroutine job = record {
  job = job;
  env = unmanaged_answers;
  trace = [];
  store = new_state_store;
  metrics = none;
}

compute : Unit {0}
unfolding finish run_job tick run_trigger process_named process_all process_container process_policy
    list_containers is_self resolve_policy openwatch.Docker.Containers.inspect_all
    openwatch.Docker.Containers.inspect_base openwatch.World.fault
    openwatch.Docker.Containers.inspect_container openwatch.World.◌>>=◌ openwatch.World.ask
    openwatch.World.pure openwatch.World.if_ok openwatch.World.if_some
    openwatch.Base.Text.trim_prefix openwatch.Base.Text.has_prefix openwatch.Base.Text.equal_fold
    openwatch.Base.Text.to_lower openwatch.Base.Text.lower openwatch.Base.Text.text_eq
    openwatch.Base.Assoc.lookup openwatch.Updater.Policy.label_is
    openwatch.Updater.Policy.resolve_enable openwatch.Updater.Marks.note_checked
    openwatch.Updater.Marks.count_update openwatch.World.update_store openwatch.World.modify_store
    openwatch.World.update_metrics
compute = tt

abbrev skipped : Write
skipped = checked (codes "web") (codes "web:1") unknown 3

-- The check's call between the two of the tick.
abbrev calls : List Write
calls = pruned ((codes "web", tt) ∷ []) ∷ skipped ∷ skipped ∷ []

overlapping : Overlap 17 defaults (goroutine tick_all ∷ goroutine (check (codes "web")) ∷ []) calls
unfolding compute openwatch.Base.Assoc.insert
overlapping =
    beside (goroutine tick_all) (λ e. cc) (left (right (left nil)))
      (beside (goroutine (check (codes "web"))) (λ e. cc) (left nil) no_runs)

Overlap-IsQuiet_example : IsQuiet (some (apply calls new_state_store))
unfolding seconds_duration
Overlap-IsQuiet_example =
    Overlap-IsQuiet 16 defaults (goroutine tick_all ∷ goroutine (check (codes "web")) ∷ []) calls
      new_state_store (omega arith)
      (unmanaged_answers-SteadyClock, (unmanaged_answers-SteadyClock, tt)) overlapping new-IsQuiet
