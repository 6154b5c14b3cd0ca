-- ===== src/Command.antt =====
-- cmd/openwatch/main.go: the start of the process and how it ends. The end of the context, by a
-- signal or by the API server's crash, is an occasion of the schedule. What the goroutines that the
-- API server starts have made of the world by the time `main` returns is a parameter, `beside`, which
-- is `none` where one of them has panicked; what they do is modelled in Api. Log lines are left out.
pub mod Laws
mod Tests
use openwatch.Base.{ℕ, Bool, true, false, Option, none, some, List, [], if◌then◌else◌}
use openwatch.Base.Text.{Text, codes, text_eq, to_lower, is_empty}
use openwatch.Base.Errors.{Error, Result, ok, err}
use openwatch.Api.{Server}
use openwatch.Api.Listener.{Ending, serve}
use openwatch.Config.{Config}
use openwatch.Docker.Client.{new_client}
use openwatch.Metrics.{Metrics}
use openwatch.Metrics.Collectors.{Registry}
use openwatch.Notify.{Logger, Notifier}
use openwatch.State.{new_state_store}
use openwatch.Updater.Schedule.{Run, running, returned, Scheduler, run}
use openwatch.World.{Env, World, Outcome, done, panic, stuck}

pub data Format : Type 0 where
  json console : Format

-- What the process meets before the watcher runs: the configuration, the level parser of the logging
-- library, the Docker library's constructor and ping, shoutrrr and the metrics registry.
pub record Host (Client Sender R Level : Type 0) : Type 0 where
  pub load : Result Config
  pub parse_level : Text → Result Level
  pub info_level : Level
  pub open_client : Result Client
  pub ping : Result (Unit {0})
  pub create_sender : Text → Result Sender
  pub registry : Registry R
  -- set when the program is built
  pub version : Text

-- What the watcher and the server get. The state store is a new one.
pub record Daemon (Client Sender R : Type 0) : Type 0 where
  pub cfg : Config
  pub client : Client
  pub notifier : Notifier Sender
  pub registry : R
  pub metrics : Metrics
  pub api : Option Server

-- `failed` is `Fatal`, with its message.
pub data Start {ℓ} (A : Type ℓ) : Type ℓ where
  started : A → Start A
  failed : Text → Error → Start A

-- How the process ends: by `Fatal` with the exit code 1, by the end of `main`, or by a panic.
-- `going` is a process that runs on where the occasions are over, or a model out of fuel.
pub data End : Type 0 where
  fatal : Text → Error → End
  stopped crashed going : End

unfoldable pub stage {ℓ κ} : {A : Type ℓ} {B : Type κ} → Text → Result A → (A → Start B) → Start B
stage what (err e) go = failed what e
stage what (ok a) go = go a

abbrev pub watcher_failed : Text
watcher_failed = codes "watcher exited with error"

-- From the result of `w.Run`.
unfoldable pub end_of : Outcome Run → End
end_of (done (returned none)) = stopped
end_of (done (returned (some e))) = fatal watcher_failed e
end_of (done running) = going
end_of panic = crashed
end_of stuck = going

-- Whether the goroutine of the server cancels the context.
unfoldable pub cancels : (Error → Bool) → Result (Unit {0}) → Ending → Bool
cancels is_closed listening ending = elim (serve is_closed listening ending) [
  | none ↦ false
  | some e ↦ true
]

-- The end of `main`, with a server beside the watcher: a goroutine of a request is not waited for.
unfoldable pub with_requests : (World → Option World) → Option Server → End × World → End × World
with_requests beside none p = p
with_requests beside (some server) (r, w) = elim (beside w) [
  | none ↦ (crashed, w)
  | some w' ↦ (r, w')
]

-- The run of the watcher, and the end of `main`.
unfoldable pub watch :
    {Client Sender R : Type 0}
    → (World → Option World)
    → Scheduler
    → ℕ
    → Env
    → Daemon Client Sender R
    → End × World
unfolding with_requests
watch beside sch fuel env d =
    let (r, w) = run sch fuel d.cfg env (record {
      trace = [];
      store = some new_state_store;
      writes = [];
      metrics = some d.metrics;
    }) in
    with_requests beside d.api (end_of r, w)

-- With the world that the watcher has left, where it has run.
unfoldable pub proceed :
    {Client Sender R : Type 0}
    → (World → Option World)
    → Scheduler
    → ℕ
    → Env
    → Start (Daemon Client Sender R)
    → End × Option World
proceed beside sch fuel env (failed what e) = (fatal what e, none)
proceed beside sch fuel env (started d) = let (r, w) = watch beside sch fuel env d in (r, some w)

module _ {Client Sender R Level : Type 0} where
  -- The level and the format.
  unfoldable pub build_logger : Host Client Sender R Level → Text → Text → Level × Format
  build_logger h level format = (
    level_of (h.parse_level (to_lower level)),
    if text_eq (to_lower format) (codes "json") then Format.json else Format.console,
  )
    where
      level_of : Result Level → Level
      level_of (err e) = h.info_level
      level_of (ok l) = if is_empty level then h.info_level else l

  -- Up to the run of the watcher.
  unfoldable pub start : Host Client Sender R Level → Start (Daemon Client Sender R)
  start h = stage (codes "load config") h.load λ cfg.
      stage (codes "docker client init failed") (new_client h.open_client h.ping).0 λ cli.
        stage (codes "notifier init failed")
          (openwatch.Notify.new h.create_sender cfg.notify_url Logger.daemon).0
          λ n.
            stage (codes "metrics init failed") (openwatch.Metrics.Collectors.new h.registry) λ m.
              started (record {
                cfg = cfg;
                client = cli;
                notifier = n;
                registry = m.0;
                metrics = m.1;
                api =
                    if cfg.http_api
                    then some (openwatch.Api.new (codes ":8080") h.version true)
                    else none;
              })

  unfoldable pub main :
      Host Client Sender R Level → (World → Option World) → Scheduler → ℕ → Env → End × Option World
  main h beside sch fuel env = proceed beside sch fuel env (start h)
