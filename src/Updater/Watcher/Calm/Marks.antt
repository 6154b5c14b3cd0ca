-- ===== src/Updater/Watcher/Calm/Marks.antt =====
-- internal/updater: what the watcher notes of a container.
use openwatch.Base.{◌≢◌}
use openwatch.Base.Text.{Text}
use openwatch.Docker.{Container}
use openwatch.State.{ContainerStatus, unknown, up_to_date, updating}
use openwatch.Updater.Health.Laws.{SteadyClock}
use openwatch.Updater.Marks.{note_checked, note_updating, note_updated, note_failed, count_update}
use openwatch.Updater.Watcher.OnStore.{Keeps-update_metrics}
use openwatch.World.{World, update_store}
use openwatch.World.Keeps.{Keeps, Leaves}
use openwatch.Updater.Watcher.Calm.{Marking, Leads, Closes, Closes-right}

module _ {I : World → Type 0} {J : Text → World → Type 0} (law : Marking I J) where
  pub Closes-note_checked :
      (c : Container) (st : ContainerStatus) → st ≢ updating → Closes I J c.name (note_checked c st)
  unfolding note_checked update_store Leads
  Closes-note_checked c st ne = record { at = λ env e w h. law.checks c.name c.image st env w ne h }

  pub Closes-note_updated : (c : Container) → Closes I J c.name (note_updated c)
  unfolding note_updated update_store Leads
  Closes-note_updated c = record { at = λ env e w h. law.ends c.name c.image env w h }

  pub Keeps-note_updating : (c : Container) → Keeps SteadyClock ⊥ (J c.name) (note_updating c)
  unfolding note_updating update_store Leaves
  Keeps-note_updating c = record { at = λ env e w h. law.begins c.name c.image env w h }

  pub Closes-note_unknown : (c : Container) → Closes I J c.name (note_checked c unknown)
  Closes-note_unknown c = Closes-note_checked c unknown (λ e. cc)

  pub Closes-note_current : (c : Container) → Closes I J c.name (note_checked c up_to_date)
  Closes-note_current c = Closes-note_checked c up_to_date (λ e. cc)

  pub Closes-note_failed : (c : Container) → Closes I J c.name (note_failed c)
  unfolding note_failed count_update
  Closes-note_failed c =
      Closes-right _ _ (Keeps-update_metrics (law.about_open c.name) _) (λ _. Closes-note_unknown c)
