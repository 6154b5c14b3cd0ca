-- ===== src/Command/Laws.antt =====
-- cmd/openwatch/main.go: how the process ends.
use openwatch.Base.{
  ℕ, suc, ◌*◌, ◌<◌, ◌≡◌, ◌≢◌, Bool, false, if◌then◌else◌, ◌⊎◌, inl, inr, refl, sym, ◌∙◌, Option,
  none, some, [], Option-cases,
}
use openwatch.Base.Numbers.{ℤ}
use openwatch.Base.Text.{Text, codes}
use openwatch.Base.Errors.{Error, Result, ok, err}
use openwatch.Api.{Server}
use openwatch.Config.{Config}
use openwatch.Docker.Client.{new_client}
use openwatch.Notify.{Logger, invalid_url}
use openwatch.Notify.Laws.{Fails, new_error}
use openwatch.State.{new_state_store, get}
use openwatch.Base.Assoc.{lookup}
use openwatch.Updater.Health.{budget, health_poll_interval}
use openwatch.Updater.Health.Laws.{SteadyClock}
use openwatch.Updater.Schedule.{Run, running, returned, Scheduler, run}
use openwatch.Updater.Schedule.Laws.{HasStop, Stopped, refusal, error_of, run-Stopped, run_refused}
use openwatch.Updater.Watcher.Quiet.{IsQuiet}
use openwatch.World.{Env, World, Outcome, done, panic, stuck}
use openwatch.Command.{
  Host, Daemon, Start, started, failed, End, fatal, stopped, crashed, going, stage, watcher_failed,
  end_of, with_requests, start, watch, proceed, main,
}

stage-by {ℓ κ} :
    {A : Type ℓ} {B : Type κ} (P : Start B → Type 0) (what : Text) (r : Result A) (go : A → Start B)
    → ((e : Error) → r ≡ err e → P (failed what e))
    → ((a : A) → r ≡ ok a → P (go a))
    → P (stage what r go)
unfolding stage
stage-by P what (err e) go hf hg = hf e refl
stage-by P what (ok a) go hf hg = hg a refl

-- The world that the watcher starts in.
abbrev begin : {Client Sender R : Type 0} → Daemon Client Sender R → World
begin d = record { trace = []; store = some new_state_store; writes = []; metrics = some d.metrics }

new-IsQuiet : IsQuiet (some new_state_store)
unfolding IsQuiet new_state_store get lookup
new-IsQuiet = λ n e g. cc

module _ {Client Sender R Level : Type 0} (h : Host Client Sender R Level) where
  -- The reasons for which the start fails.
  abbrev pub Unstarted : Text → Error → Type 0
  Unstarted what e =
      ((what ≡ codes "load config") × (h.load ≡ err e))
      ⊎ (((what ≡ codes "docker client init failed") × (Fails h.open_client ⊎ Fails h.ping))
          ⊎ (((what ≡ codes "notifier init failed") × (e ≡ invalid_url))
              ⊎ ((what ≡ codes "metrics init failed")
                  × (openwatch.Metrics.Collectors.new h.registry ≡ err e))))

  -- A server runs exactly where the configuration has it.
  abbrev Begun : Start (Daemon Client Sender R) → Type 0
  Begun (failed what e) = Unstarted what e
  Begun (started d) = (h.load ≡ ok d.cfg) × (d.cfg.http_api ≡ false → d.api ≡ none)

  client_failure :
      (e : Error) → (new_client h.open_client h.ping).0 ≡ err e → Fails h.open_client ⊎ Fails h.ping
  unfolding new_client Fails
  client_failure e = reason h.open_client h.ping
    where
      reason :
          (opened : Result Client) (ping : Result (Unit {0}))
          → (new_client opened ping).0 ≡ err e
          → Fails opened ⊎ Fails ping
      reason (err e') ping k = inl tt
      reason (ok cli) (err e') k = inr tt
      reason (ok cli) (ok u) k = cc

  serverless :
      (server : Server) (on : Bool) → on ≡ false → (if on then some server else none) ≡ none
  serverless server on off = rw off refl

  start-Begun : Begun (start h)
  unfolding start
  start-Begun =
      stage-by Begun _ h.load _ (λ e k. inl (refl, k))
        λ cfg loaded.
          stage-by Begun _ _ _ (λ e k. inr (inl (refl, client_failure e k)))
            λ cli _.
              stage-by Begun _ _ _
                (λ e k.
                  inr
                    (inr (inl (refl, new_error h.create_sender cfg.notify_url Logger.daemon e k))))
                λ n _.
                  stage-by Begun _ _ _ (λ e k. inr (inr (inr (refl, k))))
                    λ m _. (loaded, λ off. serverless _ cfg.http_api off)

  -- The reasons for which the process exits with 1.
  abbrev pub Refused : Scheduler → Text → Error → Type 0
  Refused sch what e =
      Unstarted what e
      ⊎ ((what ≡ watcher_failed)
          × ((cfg : Config) × (h.load ≡ ok cfg) × (refusal sch cfg ≡ some e)))

  -- A process that is over: one without a server that ends by itself has left no container at
  -- updating.
  unfoldable pub Ends : Scheduler → End × Option World → Type 0
  Ends sch (fatal what e, w) = Refused sch what e
  Ends sch (stopped, none) = ⊥
  Ends sch (stopped, some w) =
      (cfg : Config) × (h.load ≡ ok cfg) × (cfg.http_api ≡ false → IsQuiet w.store)
  Ends sch (crashed, w) = Unit {0}
  Ends sch (going, w) = ⊥

  Ends-Stopped :
      (sch : Scheduler) (cfg : Config) (r : Outcome Run) (w : World)
      → h.load ≡ ok cfg
      → Stopped (r, w)
      → Ends sch (end_of r, some w)
  unfolding Ends Stopped end_of
  Ends-Stopped sch cfg (done running) w l q = q
  Ends-Stopped sch cfg (done (returned none)) w l q = (cfg, l, λ off. q)
  Ends-Stopped sch cfg (done (returned (some e))) w l q = absurd q
  Ends-Stopped sch cfg panic w l q = tt
  Ends-Stopped sch cfg stuck w l q = q

  Ends-refused :
      (sch : Scheduler) (cfg : Config) (r : Outcome Run) (w : World) (e : Error)
      → h.load ≡ ok cfg
      → refusal sch cfg ≡ some e
      → error_of r ≡ some e
      → Ends sch (end_of r, some w)
  unfolding Ends error_of end_of
  Ends-refused sch cfg (done running) w e l k q = cc q
  Ends-refused sch cfg (done (returned none)) w e l k q = cc q
  Ends-refused sch cfg (done (returned (some e'))) w e l k q = inr (refl, (cfg, l, k ∙ sym q))
  Ends-refused sch cfg panic w e l k q = cc q
  Ends-refused sch cfg stuck w e l k q = cc q

  crashed-Ends : (sch : Scheduler) (w : World) → Ends sch (crashed, some w)
  unfolding Ends
  crashed-Ends sch w = tt

  -- The same end with another world, where there is a server.
  later-Ends :
      (sch : Scheduler) (cfg : Config) (e : End) (w w' : World)
      → h.load ≡ ok cfg
      → cfg.http_api ≢ false
      → Ends sch (e, some w)
      → Ends sch (e, some w')
  unfolding Ends
  later-Ends sch cfg (fatal what x) w w' l on q = q
  later-Ends sch cfg stopped w w' l on q = (cfg, l, λ off. absurd (on off))
  later-Ends sch cfg crashed w w' l on q = tt
  later-Ends sch cfg going w w' l on q = q

  -- What is left of it with a server beside: nothing is said of the store then.
  with_requests-Ends :
      (sch : Scheduler) (beside : World → Option World) (cfg : Config) (api : Option Server)
      (e : End) (w : World)
      → h.load ≡ ok cfg
      → (cfg.http_api ≡ false → api ≡ none)
      → Ends sch (e, some w)
      → Ends sch ((with_requests beside api (e, w)).0, some (with_requests beside api (e, w)).1)
  unfolding with_requests
  with_requests-Ends sch beside cfg none e w l off q = q
  with_requests-Ends sch beside cfg (some server) e w l off q = elim (Option-cases (beside w)) [
    | inl p ↦ rw (p, with_requests) (crashed-Ends sch w)
    | inr (w', p) ↦ rw (p, with_requests) (later-Ends sch cfg e w w' l (λ k. cc (off k)) q)
  ]

  module _ (sch : Scheduler) (beside : World → Option World) (f : ℕ) (env : Env)
      (steady : SteadyClock env)
      (enough : (cfg : Config)
        → h.load ≡ ok cfg
        → ◌<◌ (budget cfg.healthcheck_timeout) (f * health_poll_interval))
      (ticks : (period : ℤ) → HasStop (sch.ticker period))
      (crons : (schedule : Text) → HasStop (sch.cron schedule)) where
    run-Ends :
        (d : Daemon Client Sender R)
        → h.load ≡ ok d.cfg
        → Ends sch (
          end_of (run sch (suc f) d.cfg env (begin d)).0,
          some (run sch (suc f) d.cfg env (begin d)).1,
        )
    run-Ends d loaded = elim (Option-cases (refusal sch d.cfg)) [
      | inl none_refused ↦ Ends-Stopped sch d.cfg _ _ loaded (
          run-Stopped sch f d.cfg env (begin d) steady (enough d.cfg loaded) ticks crons new-IsQuiet
            none_refused)
      | inr (e, k) ↦
          Ends-refused sch d.cfg _ _ e loaded k
            ((run_refused sch (suc f) d.cfg env (begin d)).0 ∙ k)
    ]

    watch-Ends :
        (d : Daemon Client Sender R)
        → Begun (started d)
        → Ends sch ((watch beside sch (suc f) env d).0, some (watch beside sch (suc f) env d).1)
    unfolding watch
    watch-Ends d (loaded, off) =
        with_requests-Ends sch beside d.cfg d.api _ _ loaded off (run-Ends d loaded)

    proceed-Ends :
        (s : Start (Daemon Client Sender R)) → Begun s → Ends sch (proceed beside sch (suc f) env s)
    unfolding proceed Ends
    proceed-Ends (failed what e) b = inl b
    proceed-Ends (started d) b = watch-Ends d b

    -- Where the clock is turned back by no call and moved on by every pause that is not cancelled,
    -- where the model has more rounds than the nanoseconds of the health timeout have pauses, and
    -- where the context ends after any ticker and any cron schedule, the process comes to an end:
    -- it exits with 1 and one of the five messages, whose reason is then that the configuration
    -- did not load, that the Docker client was not made or did not answer, that the notification
    -- URL is invalid (with the one constant text as error), that the metrics were not registered,
    -- or that the schedule was refused; or it ends by itself, without the API server with no
    -- container at updating; or it panics.
    pub main-Ends : Ends sch (main h beside sch (suc f) env)
    unfolding main
    main-Ends = proceed-Ends (start h) start-Begun
