-- ===== src/State/Writes.antt =====
-- internal/updater/state.go: the calls of the methods that write.
use openwatch.Base.{List, [], ◌∷◌}
use openwatch.Base.Text.{Text}
use openwatch.Base.Assoc.{Assoc}
use openwatch.State.{
  Time, ContainerStatus, StateStore, mark_checked, mark_updating, mark_updated, prune,
}

-- A call of a method that writes, with the clock's reading. The lock makes every concurrent run
-- a sequence of such calls.
pub data Write : Type 0 where
  checked : Text → Text → ContainerStatus → Time → Write
  began : Text → Text → Time → Write
  ended : Text → Text → Time → Write
  pruned : Assoc (Unit {0}) → Write

unfoldable pub perform : Write → StateStore → StateStore
perform (checked n i st t) s = mark_checked n i st t s
perform (began n i t) s = mark_updating n i t s
perform (ended n i t) s = mark_updated n i t s
perform (pruned keep) s = prune keep s

-- A run of calls, the latest first.
unfoldable pub apply : List Write → StateStore → StateStore
apply [] s = s
apply (c ∷ calls) s = perform c (apply calls s)
