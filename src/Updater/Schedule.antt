-- ===== src/Updater/Schedule.antt =====
-- internal/updater/watcher.go: `Run`, by the occasions that its select meets: a firing of the ticker
-- or of the cron schedule, or the end of the context. Scheduled ticks run one after another here;
-- what ticks that overlap make of the store is the matter of Api/Overlap.
pub mod Interval
pub mod Laws
use openwatch.Base.{
  ℕ, ◌*◌, Bool, not, Option, none, some, List, [], ◌∷◌, ◌++◌, if◌then◌else◌, ◌||◌, ◌==◌,
}
use openwatch.Base.Text.{Text, codes, trim_space, is_empty}
use openwatch.Base.Numbers.{ℤ, pos, non_positive}
use openwatch.Base.Words.{second, seconds_duration}
use openwatch.Base.Errors.{Error, wrap, Result, ok, err}
use openwatch.Config.{Config}
use openwatch.Updater.Watcher.{tick}
use openwatch.World.{M, pure, ◌>>=◌, ◌>>◌, if_ok}

-- 24 hours, in nanoseconds.
abbrev pub default_interval : ℤ
default_interval = pos (86400 * second)

-- The ticker's period.
unfoldable pub interval_of : ℤ → ℤ
interval_of seconds =
    let interval = seconds_duration seconds in
    if non_positive interval then default_interval else interval

pub data Occasion : Type 0 where
  due stop : Occasion

-- `running` is a loop that still waits when the occasions are over.
pub data Run : Type 0 where
  running : Run
  returned : Option Error → Run

-- What the select meets, by the ticker's period or the cron expression; `parse` and `add_func` are
-- the cron library's.
pub record Scheduler : Type 0 where
  pub ticker : ℤ → List Occasion
  pub cron : Text → List Occasion
  pub parse : Text → Result (Unit {0})
  pub add_func : Text → Result (Unit {0})

-- The loop over the select.
unfoldable pub run_ticks : ℕ → Config → List Occasion → M Run
run_ticks fuel cfg [] = pure running
run_ticks fuel cfg (stop ∷ os) = pure (returned none)
run_ticks fuel cfg (due ∷ os) = do tick fuel cfg; run_ticks fuel cfg os

unfoldable pub run_interval : Scheduler → ℕ → Config → M Run
run_interval sch fuel cfg = run_ticks fuel cfg (sch.ticker (interval_of cfg.interval))

unfoldable pub run_cron : Scheduler → ℕ → Config → Text → M Run
run_cron sch fuel cfg schedule =
    if_ok (sch.add_func schedule) (λ e. pure (returned (some (wrap (codes "register cron job") e))))
      λ _. run_ticks fuel cfg (sch.cron schedule)

-- `%q` of a text of printable ASCII.
escaped : Text → Text
escaped [] = []
escaped (c ∷ s) =
    let rest = escaped s in if c == b'"' || c == b'\\' then b'\\' ∷ c ∷ rest else c ∷ rest

unfoldable pub quoted : Text → Text
unfolding escaped
quoted s = b'"' ∷ (escaped s ++ b'"' ∷ [])

unfoldable pub run : Scheduler → ℕ → Config → M Run
run sch fuel cfg =
    let schedule = trim_space cfg.schedule in
    if not (is_empty schedule)
    then if_ok (sch.parse schedule)
        (λ e.
          pure (returned (some (wrap (codes "invalid OPENWATCH_SCHEDULE " ++ quoted schedule) e))))
        (λ _. run_cron sch fuel cfg schedule)
    else run_interval sch fuel cfg
