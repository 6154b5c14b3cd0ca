-- ===== src/Docker/Reconcile/Tests.antt =====
-- The cases of reconcile_test.go.
use openwatch.Base.{◌≡◌, refl, List, [], ◌∷◌}
use openwatch.Base.Text.{Text, codes}
use openwatch.Docker.Reconcile.{reconcile_env, reconcile_slice}
use openwatch.Docker.Reconcile.Entries.{effective, override}
use openwatch.Docker.Reconcile.Laws.{or_else, effective-reconcile_env}

calls : Unit {0}
unfolding reconcile_env reconcile_slice openwatch.Base.Text.text_eq openwatch.Base.Text.index
    openwatch.Base.Assoc.lookup openwatch.Base.Assoc.insert
calls = tt

abbrev path : Text
path = codes "PATH=/usr/bin"

overridden_in_place :
    reconcile_env
      (path ∷ codes "V=custom" ∷ [])
      (path ∷ codes "V=v1" ∷ [])
      (path ∷ codes "V=v2" ∷ [])
    ≡ path ∷ codes "V=custom" ∷ []
unfolding calls
overridden_in_place = refl

inherited_is_bumped :
    reconcile_env
      (path ∷ codes "V=v1" ∷ codes "EXTRA=yes" ∷ [])
      (path ∷ codes "V=v1" ∷ [])
      (path ∷ codes "V=v2" ∷ [])
    ≡ path ∷ codes "V=v2" ∷ codes "EXTRA=yes" ∷ []
unfolding calls
inherited_is_bumped = refl

dropped_but_overridden :
    reconcile_env
      (path ∷ codes "LEGACY=mine" ∷ [])
      (path ∷ codes "LEGACY=1" ∷ [])
      (path ∷ codes "BARE" ∷ [])
    ≡ path ∷ codes "BARE" ∷ codes "LEGACY=mine" ∷ []
unfolding calls
dropped_but_overridden = refl

effective-reconcile_env_example :
    effective
      (codes "V")
      (reconcile_env (codes "V=mine" ∷ []) (codes "V=v1" ∷ []) (codes "V=v2" ∷ []))
    ≡ or_else
        (override (codes "V") (codes "V=v1" ∷ []) (codes "V=mine" ∷ []))
        (effective (codes "V") (codes "V=v2" ∷ []))
effective-reconcile_env_example =
    effective-reconcile_env (codes "V") (codes "V=mine" ∷ []) (codes "V=v1" ∷ [])
      (codes "V=v2" ∷ [])
