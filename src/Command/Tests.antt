-- ===== src/Command/Tests.antt =====
-- A process that starts with every part at hand, checks its containers once, and is told to stop.
use openwatch.Base.{◌≡◌, ◌*◌, ◌<◌, arith, List, [], ◌∷◌}
use openwatch.Base.Numbers.{pos}
use openwatch.Base.Words.{seconds_duration}
use openwatch.Base.Text.{Text, codes}
use openwatch.Base.Errors.{ok}
use openwatch.Config.{Config}
use openwatch.Updater.Fixture.{answers, defaults, answers-SteadyClock}
use openwatch.Updater.Health.{budget, health_poll_interval}
use openwatch.Updater.Schedule.{due, stop, Scheduler}
use openwatch.Updater.Schedule.Laws.{HasStop}
use openwatch.State.{new_state_store}
use openwatch.State.Writes.{began, perform}
use openwatch.World.{World}
use openwatch.Base.{Option, some, true}
use openwatch.Command.{Host, main}
use openwatch.Command.Laws.{Ends, main-Ends}

abbrev once : Scheduler
once = record {
  ticker = λ period. due ∷ stop ∷ [];
  cron = λ expression. due ∷ stop ∷ [];
  parse = λ expression. ok tt;
  add_func = λ expression. ok tt;
}

-- A client, a sender, a registry and a level are each a text or a list of texts.
abbrev host : Host Text Text (List Text) Text
host = record {
  load = ok (record defaults { http_api = true });
  parse_level = λ level. ok level;
  info_level = codes "info";
  open_client = ok (codes "unix:///var/run/docker.sock");
  ping = ok tt;
  create_sender = λ url. ok url;
  registry = record { new_registry = []; register = λ reg c. ok (c.name ∷ reg) };
  version = codes "dev";
}

enough :
    (cfg : Config)
    → host.load ≡ ok cfg
    → ◌<◌ (budget cfg.healthcheck_timeout) (16 * health_poll_interval)
unfolding seconds_duration
enough cfg h = let timeout : cfg.healthcheck_timeout ≡ pos 30 = cc (h) in rw timeout (omega arith)

-- A request has started a check that is at its update when the process ends.
abbrev beside : World → Option World
beside w =
    some
      (record w { store = some (perform (began (codes "web") (codes "img:1") 4) new_state_store) })

main-Ends_example : Ends host once (main host beside once 17 answers)
unfolding HasStop
main-Ends_example =
    main-Ends host once beside 16 answers answers-SteadyClock enough (λ period. tt) (λ schedule. tt)
