-- ===== src/Api/Listener.antt =====
-- internal/api/server.go: `Serve`, by what its two waits bring. A result `none` is Go's nil error.
use openwatch.Base.{Bool, Option, none, some, if◌then◌else◌}
use openwatch.Base.Errors.{Error, Result, ok, err}

-- What ends the select: the context, with the result of the shutdown that follows, or the server's
-- own end, with the error of `s.srv.Serve`.
pub data Ending : Type 0 where
  context_done : Option Error → Ending
  server_ended : Option Error → Ending

-- The goroutine's error; `is_closed` is `errors.Is(err, http.ErrServerClosed)`.
unfoldable pub crash_of : (Error → Bool) → Option Error → Option Error
crash_of is_closed none = none
crash_of is_closed (some e) = if is_closed e then none else some e

unfoldable pub end_of : (Error → Bool) → Ending → Option Error
unfolding crash_of
end_of is_closed (context_done shutdown) = none
end_of is_closed (server_ended e) = crash_of is_closed e

-- From the result of `net.Listen`.
unfoldable pub serve : (Error → Bool) → Result (Unit {0}) → Ending → Option Error
unfolding end_of
serve is_closed (err e) ending = some e
serve is_closed (ok listening) ending = end_of is_closed ending
