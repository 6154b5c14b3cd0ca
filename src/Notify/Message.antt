-- ===== src/Notify/Message.antt =====
-- internal/notify/shoutrrr.go: what a message tells of its event.
use openwatch.Base.{
  ℕ, suc, ◌≡◌, refl, Option, none, some, ◌∷◌, ◌++◌, if◌then◌else◌, take, drop, take-length-append,
  drop-suc-length-append,
}
use openwatch.Base.Text.{Text, codes, text_eq, index, has_byte}
use openwatch.Base.Text.Cut.{Lacks, index-append}
use openwatch.Notify.{event_name, payload}
use openwatch.World.{Event}

-- The event of a name.
abbrev event_of : Text → Option Event
event_of t =
    if text_eq t (codes "UPDATE_STARTED")
    then some Event.update_started
    else if text_eq t (codes "UPDATE_SUCCESS")
    then some Event.update_success
    else if text_eq t (codes "UPDATE_FAILED")
    then some Event.update_failed
    else if text_eq t (codes "UPDATE_AVAILABLE")
    then some Event.update_available
    else if text_eq t (codes "ROLLBACK_TRIGGERED")
    then some Event.rollback_trigger
    else if text_eq t (codes "ROLLBACK_SUCCESS")
    then some Event.rollback_success
    else if text_eq t (codes "ROLLBACK_FAILED")
    then some Event.rollback_failed
    else none

-- The text before the first `c`, and the text after it.
abbrev cut : ℕ → Text → Option (Text × Text)
cut c s = split (index c s) s
  where
    split : Option ℕ → Text → Option (Text × Text)
    split none s = none
    split (some i) s = some (take i s, drop (suc i) s)

-- The name and the details, after the dash.
abbrev read_rest : Event → Option (Text × Text) → Option (Event × (Text × Text))
read_rest e none = none
read_rest e (some (name, details)) = some (e, (name, details))

abbrev read_event : Option Event → Text → Option (Event × (Text × Text))
read_event none s = none
read_event (some e) s = read_rest e (cut b'\n' (drop 4 s))

-- The event, the container and the details of a message.
unfoldable pub read_payload : Text → Option (Event × (Text × Text))
read_payload s = after (cut b' ' (drop 12 s))
  where
    after : Option (Text × Text) → Option (Event × (Text × Text))
    after none = none
    after (some (event, rest)) = read_event (event_of event) rest

cut-append : (c : ℕ) (s t : Text) → Lacks c s → cut c (s ++ c ∷ t) ≡ some (s, t)
cut-append c s t h =
    rw (index-append c s t h, take-length-append s (c ∷ t), drop-suc-length-append s c t) refl

event_name-Lacks : (e : Event) → Lacks b' ' (event_name e)
unfolding has_byte
event_name-Lacks Event.update_started = refl
event_name-Lacks Event.update_success = refl
event_name-Lacks Event.update_failed = refl
event_name-Lacks Event.update_available = refl
event_name-Lacks Event.rollback_trigger = refl
event_name-Lacks Event.rollback_success = refl
event_name-Lacks Event.rollback_failed = refl

event_of_name : (e : Event) → event_of (event_name e) ≡ some e
unfolding text_eq
event_of_name Event.update_started = refl
event_of_name Event.update_success = refl
event_of_name Event.update_failed = refl
event_of_name Event.update_available = refl
event_of_name Event.rollback_trigger = refl
event_of_name Event.rollback_success = refl
event_of_name Event.rollback_failed = refl

-- The event, the container's name and the details can be read back from a message, where the name
-- has no line feed.
pub read_payload-payload :
    (e : Event) (name details : Text)
    → Lacks b'\n' name
    → read_payload (payload (event_name e) name details) ≡ some (e, (name, details))
unfolding read_payload payload
read_payload-payload e name details h =
    rw
      (
        cut-append b' ' (event_name e) _ (event_name-Lacks e),
        event_of_name e,
        cut-append b'\n' name details h,
      )
      refl
