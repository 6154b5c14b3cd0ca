-- ===== src/Metrics/Collectors.antt =====
-- internal/metrics/metrics.go: `New`. The Prometheus registry is a parameter, and the buckets of the
-- histogram, which are that library's, are left out.
use openwatch.Base.{◌≡◌, refl, false, List, [], ◌∷◌, All}
use openwatch.Base.Text.{Text, codes, text_eq}
use openwatch.Base.Errors.{Result, ok, err}
use openwatch.Metrics.{Metrics}

pub data Kind : Type 0 where
  counter gauge histogram : Kind

pub record Collector : Type 0 where
  pub kind : Kind
  pub name : Text
  pub help : Text
  pub labels : List Text

abbrev pub updates_total : Collector
updates_total = record {
  kind = Kind.counter;
  name = codes "openwatch_updates_total";
  help = codes "Count of update attempts, labelled by container name and outcome.";
  labels = codes "container" ∷ codes "status" ∷ [];
}

abbrev pub rollbacks_total : Collector
rollbacks_total = record {
  kind = Kind.counter;
  name = codes "openwatch_rollbacks_total";
  help = codes "Count of rollback attempts, labelled by container name and outcome.";
  labels = codes "container" ∷ codes "status" ∷ [];
}

abbrev pub containers_monitored : Collector
containers_monitored = record {
  kind = Kind.gauge;
  name = codes "openwatch_containers_monitored";
  help = codes "Number of containers inspected during the most recent tick.";
  labels = [];
}

abbrev pub update_duration : Collector
update_duration = record {
  kind = Kind.histogram;
  name = codes "openwatch_update_duration_seconds";
  help =
      codes
        "Wall-clock duration of a successful update, measured from pull start to container start.";
  labels = codes "container" ∷ [];
}

abbrev pub collectors : List Collector
collectors = updates_total ∷ rollbacks_total ∷ containers_monitored ∷ update_duration ∷ []

pub record Registry (R : Type 0) : Type 0 where
  pub new_registry : R
  pub register : R → Collector → Result R

abbrev pub no_observations : Metrics
no_observations = record { updates = []; rollbacks = []; containers_monitored = 0; durations = [] }

module _ {R : Type 0} (lib : Registry R) where
  -- The loop over the collectors.
  unfoldable pub register_all : List Collector → R → Result R
  register_all [] reg = ok reg
  register_all (c ∷ cs) reg = elim (lib.register reg c) [ err e ↦ err e | ok r ↦ register_all cs r ]

  -- The registry, and metrics with nothing observed.
  unfoldable pub new : Result (R × Metrics)
  new = bundled (register_all collectors lib.new_registry)
    where
      bundled : Result R → Result (R × Metrics)
      bundled (err e) = err e
      bundled (ok reg) = ok (reg, no_observations)

-- A registry by the names that it holds: it takes every collector of a new name.
pub record IsRegistry {R : Type 0} (lib : Registry R) : Type 0 where
  pub names : R → List Text
  pub starts : names lib.new_registry ≡ []
  pub takes :
      (reg : R) (c : Collector)
      → All (λ n. text_eq n c.name ≡ false) (names reg)
      → (r : R) × (lib.register reg c ≡ ok r) × (names r ≡ c.name ∷ names reg)

abbrev pub names_of : List Text
names_of =
    update_duration.name ∷ containers_monitored.name ∷ rollbacks_total.name ∷ updates_total.name
    ∷ []

-- With a registry that takes every collector of a new name, New succeeds, with nothing observed
-- and exactly the four collectors registered.
pub new-registers :
    {R : Type 0} (lib : Registry R) (law : IsRegistry lib)
    → (r : R) × (new lib ≡ ok (r, no_observations)) × (law.names r ≡ names_of)
unfolding new register_all text_eq
new-registers lib law =
    let (r1, e1, n1) = law.takes lib.new_registry updates_total (rw law.starts tt) in
    let (r2, e2, n2) = law.takes r1 rollbacks_total (rw (n1, law.starts) (refl, tt)) in
    let (r3, e3, n3) =
      law.takes r2 containers_monitored (rw (n2, n1, law.starts) (refl, (refl, tt))) in
    let (r4, e4, n4) =
      law.takes r3 update_duration (rw (n3, n2, n1, law.starts) (refl, (refl, (refl, tt)))) in
    (r4, rw (e1, e2, e3, e4) refl, rw (n4, n3, n2, n1, law.starts) refl)
