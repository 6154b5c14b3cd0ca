-- ===== src/Notify.antt =====
-- internal/notify: notifier.go and shoutrrr.go, with the event names of internal/updater/watcher.go.
-- A notifier's sender is the shoutrrr library's: what creates one, and what its `Send` answers within
-- the timeout, are parameters. A logger is one that drops its lines or the daemon's.
pub mod Laws
pub mod Message
mod Tests
use openwatch.Base.{
  ℕ, suc, ◌+◌, ◌==◌, Bool, true, false, Option, none, some, List, [], ◌∷◌, ◌++◌, if◌then◌else◌,
  length, ltb,
}
use openwatch.Base.Text.{Text, codes, trim_space, is_empty}
use openwatch.Base.Errors.{Error, message, Result, ok, err}
use openwatch.World.{
  Event, update_started, update_success, update_failed, update_available, rollback_trigger,
  rollback_success, rollback_failed,
}

pub data Logger : Type 0 where
  nop daemon : Logger

pub data Line : Type 0 where
  notifications_disabled : Line
  -- event, container, cause, and the failed and the total services where these are given
  send_failed : Text → Text → Text → Option (ℕ × ℕ) → Line

-- What a logger writes of a line.
unfoldable pub written : Logger → Line → List Line
written Logger.nop line = []
written Logger.daemon line = line ∷ []

pub record ShoutrrrNotifier (Sender : Type 0) : Type 0 where
  pub sender : Sender
  pub log : Logger

pub data Notifier (Sender : Type 0) : Type 0 where
  noop : Notifier Sender
  shoutrrr : ShoutrrrNotifier Sender → Notifier Sender

-- What the select meets: the errors of the services, or the end of the timeout.
pub data Sent : Type 0 where
  answered : List (Option Error) → Sent
  timed_out : Sent

abbrev pub event_name : Event → Text
event_name Event.update_started = codes "UPDATE_STARTED"
event_name Event.update_success = codes "UPDATE_SUCCESS"
event_name Event.update_failed = codes "UPDATE_FAILED"
event_name Event.update_available = codes "UPDATE_AVAILABLE"
event_name Event.rollback_trigger = codes "ROLLBACK_TRIGGERED"
event_name Event.rollback_success = codes "ROLLBACK_SUCCESS"
event_name Event.rollback_failed = codes "ROLLBACK_FAILED"

abbrev pub invalid_url : Error
invalid_url = message (
    codes
      "invalid notification URL: shoutrrr could not parse it (check scheme, host, and credentials)")

-- `[OpenWatch] %s — %s\n%s`
unfoldable pub payload : Text → Text → Text → Text
payload event name details =
    codes "[OpenWatch] "
    ++ (event ++ (b' ' ∷ 0xE2 ∷ 0x80 ∷ 0x94 ∷ b' ' ∷ (name ++ (b'\n' ∷ details))))

-- The loop that counts the errors which are not nil.
unfoldable pub count_failures : List (Option Error) → ℕ
count_failures [] = 0
count_failures (none ∷ es) = count_failures es
count_failures (some e ∷ es) = suc (count_failures es)

module _ {Sender : Type 0} where
  unfoldable pub new_shoutrrr_notifier : (Text → Result Sender) → Text → Result (Notifier Sender)
  new_shoutrrr_notifier create_sender url =
      if is_empty (trim_space url) then ok noop else created (create_sender url)
    where
      created : Result Sender → Result (Notifier Sender)
      created (err e) = err invalid_url
      created (ok sender) = ok (shoutrrr (record { sender = sender; log = Logger.nop }))

  unfoldable pub set_logger : Logger → ShoutrrrNotifier Sender → ShoutrrrNotifier Sender
  set_logger log n = record n { log = log }

  -- With the lines that it writes.
  unfoldable pub new : (Text → Result Sender) → Text → Logger → Result (Notifier Sender) × List Line
  new create_sender url log = (
    with_logger (new_shoutrrr_notifier create_sender url),
    if is_empty (trim_space url) then written log notifications_disabled else [],
  )
    where
      with_logger : Result (Notifier Sender) → Result (Notifier Sender)
      with_logger (err e) = err e
      with_logger (ok noop) = ok noop
      with_logger (ok (shoutrrr n)) = ok (shoutrrr (set_logger log n))

  unfoldable pub log_failure : ShoutrrrNotifier Sender → Text → Text → Text → ℕ → ℕ → List Line
  log_failure n event name cause failed total =
      written n.log
        (send_failed event name cause (if ltb 0 total then some (failed, total) else none))

  -- The select of `Notify`, once the message is on its way.
  unfoldable pub settle : ShoutrrrNotifier Sender → Text → Text → Sent → Option Error × List Line
  settle n event name (answered errs) =
      let failures = count_failures errs in
      if failures == 0 then (none, []) else (
        some (message (codes "notification send failed")),
        log_failure n event name (codes "shoutrrr send returned errors") failures (length errs),
      )
  settle n event name timed_out = (
    some (message (codes "notification send timed out")),
    log_failure n event name (codes "shoutrrr send timed out") 0 0,
  )

  -- With the lines that it writes; `send` is the shoutrrr library's.
  unfoldable pub notify :
      (Sender → Text → Sent) → Notifier Sender → Text → Text → Text → Option Error × List Line
  notify send noop event name details = (none, [])
  notify send (shoutrrr n) event name details =
      settle n event name (send n.sender (payload event name details))
