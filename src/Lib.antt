-- ===== src/Lib.antt =====
-- OpenWatch watches the containers of a Docker daemon, compares each container's image with its
-- registry, and recreates the containers whose image has changed.
--
-- The program's parts, and the files that model them:
--
--   internal/updater/state.go        State         the status of every container under its name:
--                                                  `mark_checked`, `mark_updating`, `mark_updated`,
--                                                  `get`, `has`, `prune`, `snapshot` with its sort
--   internal/updater/policy.go       Updater/Policy        `resolve_policy`
--   internal/updater/watcher.go      Updater/Identifiers   `identifiersIntersect`, `shortImageID`
--                                    Updater/Schedule      `Run`, `runInterval`, `runCron`
--                                    Updater/Watcher       `tick`, `processContainer`, the trigger
--                                    Updater/Marks         its calls of the store and the metrics
--   internal/updater/rollback.go     Updater/Health        `waitForHealthy`
--                                    Updater/Rollback      `handleHealthFailure`, `performRollback`
--   internal/docker/container.go     Docker/Containers     listing, stopping, recreating
--   internal/docker/image.go         Docker/Image          pulling, naming, removing images
--   internal/docker/reconcile.go     Docker/Reconcile      environment, command and the like
--   internal/docker/labels.go        Docker/Labels
--   internal/registry/resolver.go    Registry/Resolver     `Parse`
--   internal/registry/digest.go      Registry/Digest       manifest requests and token flow
--                                    Registry/Challenge    `parseChallenge`
--   internal/registry/auth.go        Registry/Auth         `LoadAuth` and the stores it asks
--   internal/metrics/metrics.go      Metrics               the recording methods
--                                    Metrics/Collectors    `New` and its collectors
--   internal/config/config.go        Config                the record and its defaults
--                                    Config/Load           `Load`
--   internal/notify                  Notify                the factory, `Notify`, the log of a failure
--   internal/api/server.go           Api                   the server, its routes
--                                    Api/Handlers          the handlers
--                                    Api/Listener          `Serve`
--                                    Api/Watcher           the watcher as the server's trigger
--   internal/docker/client.go        Docker/Client         `NewClient`
--   cmd/openwatch/main.go            Command               `main`, `buildLogger`
--
-- Base holds what these share: texts, maps as association lists, numbers and errors. A function
-- of the Go code has the same name here in lower case with underscores; a long one is cut into
-- steps that are composed as its body is, each named for what it does.
--
-- World holds the program's surroundings: an outside call (daemon, registry, notifier, clock,
-- file, helper program) is recorded in a trace, and its answer is a parameter, a function of the
-- call and of all the calls before it. A program is a function from such an environment and a
-- world (trace, state store, the calls that the store has got, metrics) to an outcome and the
-- world after it. An outcome is a result, a panic, or `stuck`, which stands for a loop of the
-- model that has used up its fuel. World/Keeps has one rule for each way to build a program, for
-- what a run keeps of the world, and World/Makes those for the calls that it makes; World/Gives
-- has those for what a run returns and has called by then, World/Sound those for a run that does
-- not panic, and World/Splits those for a run that makes only some calls or is known to do
-- something else. Updater/Watcher/Reads, Bounds, Calm, Counts, Decides and Sound apply them to
-- the watcher, Registry/Digest/Lookup and Docker/Replacement/Laws to the requests and the
-- replacement of a container, which Registry/Digest/Protocol and Docker/Replacement describe by
-- data types over the answers. JSON, base64, URLs and paths are functions of the environment,
-- too, since the program takes them from libraries.
--
-- Command starts the parts in order and runs Updater/Schedule over the world; the schedule meets
-- a list of occasions, which the ticker's period or the cron expression determines. What requests
-- to the API server have made of the world by the end of `main` is a parameter there. Api is over
-- any state with the interface of Api/Trigger, which Api/Watcher fills: a goroutine that a
-- request starts is a job in that state, whose calls of the store stand between the requests,
-- and which Api/Jobs runs as `tick` or `run_trigger` of
-- Updater/Watcher. Goroutines that overlap meet in the store: State/Writes has its calls as data,
-- State/Interleave the orders in which the lock may put those of several goroutines, and
-- Api/Overlap what they come to. The outside answers that such a goroutine gets, with what the
-- others change in between, are those of its environment. The watcher's notifications are calls
-- of World; Notify is what takes them. Viper, the Prometheus registry and the trigger are records
-- of operations, with records of their laws.
--
-- Only the health wait runs on fuel, the number of its rounds. One round pauses for two seconds,
-- so that a round more than the nanoseconds of the timeout hold such pauses is enough, given a
-- clock that moves on. Where the timeout in nanoseconds does not fit in 64 bits, it is what the
-- program's multiplication leaves of it.
--
-- Conventions: a text is the list of its bytes; folding case is done on ASCII, where the Go
-- library folds Unicode letters, and white space is ASCII white space; Go's `range` over a string
-- is Base/Text/Utf8. `nil` is `none`. A nil pointer that is dereferenced is a panic; that of an
-- inspection's base is `has_base`, and each first use of the base after an inspection reads it
-- (`inspect_base`). The order in which Go traverses a map is the order of the association list.
-- Times are in nanoseconds. A duration is computed in 64 bits, as in Base/Words; any other integer
-- of Go is one without bound, since it counts seconds, bytes or events. Log lines are left out,
-- but for those of the notifier.
--
-- Not modelled: what overlapping goroutines make of the daemon, beyond the answers that each
-- gets; the redirects of the Go multiplexer and the timeouts of the HTTP library; the page of the
-- metrics; log levels and log lines. The signal handler is the end of the context. The mutexes of
-- the store and of the notifier's logger are left out, since every operation holds them
-- throughout.
pub mod Base
pub mod State
pub mod Docker
pub mod Registry
pub mod Config
pub mod Metrics
pub mod World
pub mod Updater
pub mod Api
pub mod Notify
pub mod Command
