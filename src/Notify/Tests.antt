-- ===== src/Notify/Tests.antt =====
-- The theorems on the notifier at concrete inputs.
use openwatch.Base.{◌≡◌, ◌↔◌, refl, none, some, List, [], ◌∷◌, Option, Bool, true, false}
use openwatch.Base.Text.{Text, codes}
use openwatch.Base.Errors.{message, Result, ok}
use openwatch.Notify.{
  Logger, ShoutrrrNotifier, Notifier, shoutrrr, Sent, answered, new, notify, event_name, payload,
}
use openwatch.Notify.Laws.{
  IsDelivered, Reports, bare, Comes, notify-Reports, notify_discreet, new-Comes,
}
use openwatch.Notify.Message.{read_payload, read_payload-payload}
use openwatch.World.{Event}

-- A sender is its URL; a service that cannot be reached says so with it.
abbrev unreachable : Text → Text → Sent
unreachable url text = answered (none ∷ some (message url) ∷ [])

abbrev to_chat : ShoutrrrNotifier Text
to_chat = record { sender = codes "chat://token@host"; log = Logger.daemon }

abbrev to_mail : ShoutrrrNotifier Text
to_mail = record { sender = codes "mail://password@host"; log = Logger.daemon }

abbrev create : Text → Result Text
create url = ok url

notify-Reports_example :
    ((notify unreachable
          (shoutrrr to_chat)
          (codes "UPDATE_FAILED")
          (codes "web")
          (codes "no space")).0
        ≡ none
      ↔ IsDelivered (
          unreachable to_chat.sender
            (payload (codes "UPDATE_FAILED") (codes "web") (codes "no space"))))
    × Reports to_chat.log (codes "UPDATE_FAILED") (codes "web") (
        notify unreachable
          (shoutrrr to_chat)
          (codes "UPDATE_FAILED")
          (codes "web")
          (codes "no space"))
notify-Reports_example =
    notify-Reports unreachable to_chat (codes "UPDATE_FAILED") (codes "web") (codes "no space")

notify_discreet_example :
    notify unreachable (shoutrrr to_chat) (codes "UPDATE_FAILED") (codes "web") (codes "no space")
    ≡ notify unreachable (shoutrrr to_mail) (codes "UPDATE_FAILED") (codes "web") (codes "timeout")
unfolding bare openwatch.Notify.Laws.pattern_of
notify_discreet_example =
    notify_discreet unreachable unreachable to_chat to_mail (codes "UPDATE_FAILED") (codes "web")
      (codes "no space") (codes "timeout") refl refl

new-Comes_example :
    Comes create
      (codes "chat://token@host")
      Logger.daemon
      (new create (codes "chat://token@host") Logger.daemon)
new-Comes_example = new-Comes create (codes "chat://token@host") Logger.daemon

read_payload-payload_example :
    read_payload (payload (event_name Event.update_failed) (codes "web") (codes "no space"))
    ≡ some (Event.update_failed, (codes "web", codes "no space"))
unfolding openwatch.Base.Text.has_byte
read_payload-payload_example =
    read_payload-payload Event.update_failed (codes "web") (codes "no space") refl
