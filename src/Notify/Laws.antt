-- ===== src/Notify/Laws.antt =====
-- internal/notify/shoutrrr.go: what a notifier returns and writes.
use openwatch.Base.{
  ℕ, ◌≡◌, ◌↔◌, ◌<◌, ◌≤◌, refl, Bool, true, false, Option, none, some, List, [], ◌∷◌, if◌then◌else◌,
  length, ltb, arith, Bool-cases, inl, inr, All, ◌==◌,
}
use openwatch.Base.Text.{Text, trim_space, is_empty}
use openwatch.Base.Errors.{Error, Result, ok, err}
use openwatch.Notify.{
  Logger, Line, send_failed, notifications_disabled, written, ShoutrrrNotifier, Notifier, noop,
  shoutrrr, Sent, answered, timed_out, invalid_url, payload, count_failures, new_shoutrrr_notifier,
  set_logger, new, log_failure, settle, notify,
}

-- What is left of an answer when the texts of the errors are taken away.
abbrev failed : Option Error → Bool
failed none = false
failed (some e) = true

unfoldable pub pattern_of : List (Option Error) → List Bool
pattern_of [] = []
pattern_of (e ∷ es) = failed e ∷ pattern_of es

unfoldable pub bare : Sent → Option (List Bool)
bare (answered es) = some (pattern_of es)
bare timed_out = none

count_failures-pattern :
    (es es' : List (Option Error))
    → pattern_of es ≡ pattern_of es'
    → (count_failures es ≡ count_failures es') × (length es ≡ length es')
unfolding pattern_of count_failures
count_failures-pattern [] [] h = (refl, refl)
count_failures-pattern [] (e ∷ es) h = cc
count_failures-pattern (e ∷ es) [] h = cc
count_failures-pattern (none ∷ es) (none ∷ es') h =
    let p : pattern_of es ≡ pattern_of es' = cc in
    let q = count_failures-pattern es es' p in (q.0, rw q.1 refl)
count_failures-pattern (none ∷ es) (some e ∷ es') h = cc
count_failures-pattern (some e ∷ es) (none ∷ es') h = cc
count_failures-pattern (some e ∷ es) (some e' ∷ es') h =
    let p : pattern_of es ≡ pattern_of es' = cc in
    let q = count_failures-pattern es es' p in (rw q.0 refl, rw q.1 refl)

-- All services took the message in time.
unfoldable pub IsDelivered : Sent → Type 0
IsDelivered (answered es) = All (λ e. e ≡ none) es
IsDelivered timed_out = ⊥

count_failures-zero : (es : List (Option Error)) → count_failures es ≡ 0 → All (λ e. e ≡ none) es
unfolding count_failures
count_failures-zero [] h = tt
count_failures-zero (none ∷ es) h = (refl, count_failures-zero es h)
count_failures-zero (some e ∷ es) h = absurd (omega (arith, h))

count_failures-delivered :
    (es : List (Option Error)) → All (λ e. e ≡ none) es → count_failures es ≡ 0
unfolding count_failures
count_failures-delivered [] h = refl
count_failures-delivered (none ∷ es) h = count_failures-delivered es h.1
count_failures-delivered (some e ∷ es) h = cc (h.0)

count_failures-le : (es : List (Option Error)) → count_failures es ≤ length es
unfolding count_failures
count_failures-le [] = omega arith
count_failures-le (none ∷ es) = omega (arith, count_failures-le es)
count_failures-le (some e ∷ es) = omega (arith, count_failures-le es)

-- The line of a failure: its event and container, and services of which some failed.
unfoldable pub IsAccount : Text → Text → Line → Type 0
IsAccount event name notifications_disabled = ⊥
IsAccount event name (send_failed ev c cause none) = (ev ≡ event) × (c ≡ name)
IsAccount event name (send_failed ev c cause (some (f, t))) =
    (ev ≡ event) × ((c ≡ name) × ((0 < f) × (f ≤ t)))

-- An error and a line to the log, or neither.
unfoldable pub Reports : Logger → Text → Text → Option Error × List Line → Type 0
Reports log event name (none, ls) = ls ≡ []
Reports Logger.nop event name (some e, ls) = ls ≡ []
Reports Logger.daemon event name (some e, []) = ⊥
Reports Logger.daemon event name (some e, l ∷ ls) = IsAccount event name l × (ls ≡ [])

written-Reports :
    (log : Logger) (event name : Text) (e : Error) (l : Line)
    → IsAccount event name l
    → Reports log event name (some e, written log l)
unfolding Reports written
written-Reports Logger.nop event name e l h = refl
written-Reports Logger.daemon event name e l h = (h, refl)

is_zero : (n : ℕ) → (n == 0) ≡ true → n ≡ 0
is_zero n e = ground arith

is_positive : (n : ℕ) → (n == 0) ≡ false → 0 < n
is_positive n e = ground arith

failures-IsAccount :
    (event name cause : Text) (f t : ℕ)
    → 0 < f
    → f ≤ t
    → IsAccount event name (send_failed event name cause (if ltb 0 t then some (f, t) else none))
unfolding IsAccount
failures-IsAccount event name cause f t h k = elim (Bool-cases (ltb 0 t)) [
  | inl e ↦ rw e (refl, (refl, (h, k)))
  | inr e ↦ rw e (refl, refl)
]

module _ {Sender : Type 0} where
  settle-Reports :
      (n : ShoutrrrNotifier Sender) (event name : Text) (s : Sent)
      → Reports n.log event name (settle n event name s)
  unfolding settle log_failure
  settle-Reports n event name (answered es) = elim (Bool-cases (count_failures es == 0)) [
    | inl e ↦ rw e (unfold Reports in refl)
    | inr e ↦ rw e (
        written-Reports n.log event name _ _ (
          failures-IsAccount event name _ (count_failures es) (length es) (is_positive _ e)
            (count_failures-le es)))
  ]
  settle-Reports n event name timed_out =
      written-Reports n.log event name _ _ (unfold IsAccount in (refl, refl))

  settle_delivers :
      (n : ShoutrrrNotifier Sender) (event name : Text) (s : Sent)
      → ((settle n event name s).0 ≡ none → IsDelivered s)
        × (IsDelivered s → (settle n event name s).0 ≡ none)
  unfolding settle IsDelivered
  settle_delivers n event name (answered es) = elim (Bool-cases (count_failures es == 0)) [
    | inl e ↦ rw e (λ _. count_failures-zero es (is_zero _ e), λ _. refl)
    | inr e ↦
        rw e (λ h. cc, λ h. absurd (omega (arith, is_positive _ e, count_failures-delivered es h)))
  ]
  settle_delivers n event name timed_out = (λ h. cc, λ h. absurd h)

  -- Notify returns nil exactly when the send is answered in time and no service fails. With nil it
  -- writes nothing; with an error and the daemon's logger it writes one line, about that event and
  -- container, whose failed services, where given, are at least one and at most the services.
  pub notify-Reports :
      (send : Sender → Text → Sent) (n : ShoutrrrNotifier Sender) (event name details : Text)
      → ((notify send (shoutrrr n) event name details).0 ≡ none
          ↔ IsDelivered (send n.sender (payload event name details)))
        × Reports n.log event name (notify send (shoutrrr n) event name details)
  unfolding notify
  notify-Reports send n event name details =
      (settle_delivers n event name _, settle-Reports n event name _)

  settle_discreet :
      (n n' : ShoutrrrNotifier Sender) (event name : Text) (s s' : Sent)
      → n.log ≡ n'.log
      → bare s ≡ bare s'
      → settle n event name s ≡ settle n' event name s'
  unfolding settle bare log_failure
  settle_discreet n n' event name (answered es) (answered es') l h =
      let p : pattern_of es ≡ pattern_of es' = cc in
      let c = count_failures-pattern es es' p in rw (l, c.0, c.1) refl
  settle_discreet n n' event name (answered es) timed_out l h = cc
  settle_discreet n n' event name timed_out (answered es) l h = cc
  settle_discreet n n' event name timed_out timed_out l h = rw l refl

  -- What Notify returns and what it writes to the log depend on the sender only through the
  -- pattern of its answer: two notifiers with the same logger, whatever their senders and the
  -- details of the event, whose sends both run out of time or are answered with errors at the same
  -- places, return and write the same.
  pub notify_discreet :
      (send send' : Sender → Text → Sent) (n n' : ShoutrrrNotifier Sender)
      (event name details details' : Text)
      → n.log ≡ n'.log
      → bare (send n.sender (payload event name details))
        ≡ bare (send' n'.sender (payload event name details'))
      → notify send (shoutrrr n) event name details ≡ notify send' (shoutrrr n') event name details'
  unfolding notify
  notify_discreet send send' n n' event name details details' l h =
      settle_discreet n n' event name _ _ l h

unfoldable pub Fails : {Sender : Type 0} → Result Sender → Type 0
Fails (err e) = Unit {0}
Fails (ok s) = ⊥

-- What each result of `New` comes from.
module _ {Sender : Type 0} (create_sender : Text → Result Sender) (url : Text) (log : Logger) where
  unfoldable pub Comes : Result (Notifier Sender) × List Line → Type 0
  Comes (err e, ls) =
      (e ≡ invalid_url)
      × ((ls ≡ []) × ((is_empty (trim_space url) ≡ false) × Fails (create_sender url)))
  Comes (ok noop, ls) =
      (is_empty (trim_space url) ≡ true) × (ls ≡ written log notifications_disabled)
  Comes (ok (shoutrrr n), ls) =
      (n.log ≡ log)
      × ((ls ≡ []) × ((is_empty (trim_space url) ≡ false) × (create_sender url ≡ ok n.sender)))

  given-Comes :
      (r : Result Sender)
      → create_sender url ≡ r
      → is_empty (trim_space url) ≡ false
      → Comes (new create_sender url log)
  unfolding new new_shoutrrr_notifier set_logger Comes Fails
  given-Comes (err e) h b = rw (b, h) (refl, (refl, (b, rw h tt)))
  given-Comes (ok s) h b = rw (b, h) (refl, (refl, (b, h)))

  blank-Comes : is_empty (trim_space url) ≡ true → Comes (new create_sender url log)
  unfolding new new_shoutrrr_notifier Comes
  blank-Comes b = rw b (b, refl)

  -- New gives the error of an invalid URL, which is one constant, only for a URL that is not blank
  -- and that no sender could be created from; the notifier that does nothing only for a blank URL,
  -- with a line to the log; and otherwise a notifier with the sender created from the URL and the
  -- given logger.
  pub new-Comes : Comes (new create_sender url log)
  new-Comes = elim (Bool-cases (is_empty (trim_space url))) [
    | inl b ↦ blank-Comes b
    | inr b ↦ given-Comes (create_sender url) refl b
  ]

-- The error of `New` is the one constant.
pub new_error :
    {Sender : Type 0} (create_sender : Text → Result Sender) (url : Text) (log : Logger) (e : Error)
    → (new create_sender url log).0 ≡ err e
    → e ≡ invalid_url
unfolding Comes
new_error {Sender = Sender} create_sender url log e h =
    from_pair (new create_sender url log).0 (new create_sender url log).1 h
      (new-Comes create_sender url log)
  where
    from_pair :
        (r : Result (Notifier Sender)) (ls : List Line)
        → r ≡ err e
        → Comes create_sender url log (r, ls)
        → e ≡ invalid_url
    from_pair (err e') ls h c = cc (h, c.0)
    from_pair (ok n) ls h c = cc h
