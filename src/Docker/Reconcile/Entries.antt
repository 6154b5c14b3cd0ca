-- ===== src/Docker/Reconcile/Entries.antt =====
-- What the loops of `reconcileEnv` do to one key.
use openwatch.Base.{
  ℕ, ◌≡◌, refl, ap, ◌∙◌, inl, inr, Bool, false, ◌||◌, Option, none, some, List, [], ◌∷◌, ◌++◌,
  arith, if◌then◌else◌, Bool-cases, Option-cases, All, All-append, take, take-length-append,
  drop-suc-length-append,
}
use openwatch.Base.Text.{Text, text_eq, index}
use openwatch.Base.Text.Equality.{eq_of_text_eq, text_eq_refl}
use openwatch.Base.Text.Cut.{Lacks, index-append, index-eq-some}
use openwatch.Base.Assoc.{Assoc, lookup, insert, has_key}
use openwatch.Base.Assoc.Laws.{lookup-insert}
use openwatch.Docker.Reconcile.{
  split_env_entry, env_to_map_from, env_to_map, is_inherited, UserEnv, add_user, user_entry,
  bind_entry, cut_at, user_env_from, join_env,
}

-- The value that Docker gives to a key: the last entry wins.
unfoldable pub effective : Text → List Text → Option Text
unfolding env_to_map
effective k env = lookup k (env_to_map env)

abbrev pub pick_pair : Text → Option Text → Option (Text × Text) → Option Text
pick_pair k o none = o
pick_pair k o (some (j, v)) = if text_eq j k then some v else o

-- What one entry makes of the value of a key.
unfoldable pub pick : Text → Text → Option Text → Option Text
pick k entry o = pick_pair k o (split_env_entry entry)

unfoldable pub value_from : Text → Option Text → List Text → Option Text
value_from k o [] = o
value_from k o (e ∷ env) = value_from k (pick k e o) env

abbrev pub override_pair : Text → Option Text → Option Text → Option (Text × Text) → Option Text
override_pair k old o none = o
override_pair k old o (some (j, v)) =
    if text_eq j k then (if is_inherited old v then o else some v) else o

-- As `pick`, for an entry of the container: it counts unless the old image has that value.
unfoldable pub pick_override : Text → Option Text → Text → Option Text → Option Text
pick_override k old entry o = override_pair k old o (split_env_entry entry)

unfoldable pub override_from : Text → Option Text → Option Text → List Text → Option Text
unfolding pick_override
override_from k old o [] = o
override_from k old o (e ∷ env) = override_from k old (pick_override k old e o) env

-- The last value of a key in the container's entries that is not the old image's value.
unfoldable pub override : Text → List Text → List Text → Option Text
unfolding override_from
override k old_image container = override_from k (effective k old_image) none container

pub lookup-bind_entry :
    (k : Text) (m : Assoc Text) (p : Option (Text × Text))
    → lookup k (bind_entry m p) ≡ pick_pair k (lookup k m) p
lookup-bind_entry k m none = refl
lookup-bind_entry k m (some (j, v)) = lookup-insert j k v m

pub lookup-env_to_map_from :
    (k : Text) (m : Assoc Text) (env : List Text)
    → lookup k (env_to_map_from m env) ≡ value_from k (lookup k m) env
unfolding env_to_map_from value_from pick
lookup-env_to_map_from k m [] = refl
lookup-env_to_map_from k m (e ∷ env) =
    lookup-env_to_map_from k (bind_entry m (split_env_entry e)) env
    ∙ ap (λ o. value_from k o env) (lookup-bind_entry k m (split_env_entry e))

pub effective-value : (k : Text) (env : List Text) → effective k env ≡ value_from k none env
unfolding effective env_to_map
effective-value k env = lookup-env_to_map_from k [] env ∙ (unfold lookup in refl)

pub value_from-append :
    (k : Text) (o : Option Text) (xs : List Text) (e : Text)
    → value_from k o (xs ++ e ∷ []) ≡ pick k e (value_from k o xs)
unfolding value_from
value_from-append k o [] e = refl
value_from-append k o (x ∷ xs) e = value_from-append k (pick k x o) xs e

pub cut_at-Lacks :
    (e k v : Text) (o : Option ℕ) → index b'=' e ≡ o → cut_at e o ≡ some (k, v) → Lacks b'=' k
cut_at-Lacks e k v none p h = cc
cut_at-Lacks e k v (some i) p h =
    let same : take i e ≡ k = cc in rw same at ((index-eq-some b'=' e i p).1)

pub split-Lacks : (e k v : Text) → split_env_entry e ≡ some (k, v) → Lacks b'=' k
unfolding split_env_entry
split-Lacks e k v h = cut_at-Lacks e k v (index b'=' e) refl h

pub split-join : (k v : Text) → Lacks b'=' k → split_env_entry (join_env k v) ≡ some (k, v)
unfolding split_env_entry
split-join k v h =
    rw (index-append b'=' k v h)
      (rw (take-length-append k (b'=' ∷ v), drop-suc-length-append k b'=' v))

pub pick-join :
    (k j v : Text) (o : Option Text)
    → Lacks b'=' j
    → pick k (join_env j v) o ≡ (if text_eq j k then some v else o)
unfolding pick
pick-join k j v o h = ap (pick_pair k o) (split-join j v h)

pub lookup-user_entry :
    (k : Text) (old : Assoc Text) (u : UserEnv) (p : Option (Text × Text))
    → lookup k (user_entry old u p).kv ≡ override_pair k (lookup k old) (lookup k u.kv) p
unfolding user_entry add_user
lookup-user_entry k old u none = refl
lookup-user_entry k old u (some (j, v)) = elim (Bool-cases (text_eq j k)) [
  | inl e ↦ rw (eq_of_text_eq j k e) (ground (arith, lookup-insert k k v u.kv, text_eq_refl k))
  | inr e ↦ ground (arith, lookup-insert j k v u.kv)
]

pub lookup-user_env_from :
    (k : Text) (old : Assoc Text) (u : UserEnv) (env : List Text)
    → lookup k (user_env_from old u env).kv ≡ override_from k (lookup k old) (lookup k u.kv) env
unfolding user_env_from override_from pick_override
lookup-user_env_from k old u [] = refl
lookup-user_env_from k old u (e ∷ env) =
    lookup-user_env_from k old (user_entry old u (split_env_entry e)) env
    ∙ ap (λ o. override_from k (lookup k old) o env) (lookup-user_entry k old u (split_env_entry e))

-- The key stands in the list.
unfoldable pub listed : Text → List Text → Bool
listed k [] = false
listed k (j ∷ js) = text_eq j k || listed k js

pub listed-append :
    (k j : Text) (js : List Text) → listed k (js ++ j ∷ []) ≡ (text_eq j k || listed k js)
unfolding listed
listed-append k j [] = refl
listed-append k j (i ∷ js) = ground (arith, listed-append k j js)

-- `userOrder` lists exactly the keys of `userKV`, and they hold no "=".
pub record IsOrderOf (u : UserEnv) : Type 0 where
  pub lists : (k : Text) → listed k u.order ≡ has_key k u.kv
  pub clean : All (Lacks b'=') u.order

pub has_key-insert :
    (k j v : Text) (m : Assoc Text) → has_key j (insert k v m) ≡ (text_eq k j || has_key j m)
unfolding has_key
has_key-insert k j v m = ground (arith, lookup-insert k j v m)

pub add_user-IsOrderOf :
    (k v : Text) (u : UserEnv) → Lacks b'=' k → IsOrderOf u → IsOrderOf (add_user k v u)
unfolding add_user
add_user-IsOrderOf k v u h o = elim (Bool-cases (has_key k u.kv)) [
  | inl e ↦ record {
    lists = λ j.
        rw (e, has_key-insert k j v u.kv, o.lists j)
          (elim (Bool-cases (text_eq k j)) [
            | inl p ↦ rw (p, ← eq_of_text_eq k j p) e
            | inr p ↦ rw p
          ]);
    clean = rw e o.clean;
  }
  | inr e ↦ record {
    lists = λ j. rw (e, has_key-insert k j v u.kv, listed-append j k u.order, o.lists j);
    clean = rw e (All-append (Lacks b'=') u.order (k ∷ []) o.clean (h, tt));
  }
]

pub user_entry-IsOrderOf :
    (old : Assoc Text) (u : UserEnv) (e : Text)
    → IsOrderOf u
    → IsOrderOf (user_entry old u (split_env_entry e))
unfolding user_entry
user_entry-IsOrderOf old u e h = elim (Option-cases (split_env_entry e)) [
  | inl p ↦ rw p h
  | inr ((k, v), p) ↦ rw p (elim (Bool-cases (is_inherited (lookup k old) v)) [
    | inl q ↦ rw q h
    | inr q ↦ rw q (add_user-IsOrderOf k v u (split-Lacks e k v p) h)
  ])
]

pub user_env_from-IsOrderOf :
    (old : Assoc Text) (u : UserEnv) (env : List Text)
    → IsOrderOf u
    → IsOrderOf (user_env_from old u env)
unfolding user_env_from
user_env_from-IsOrderOf old u [] h = h
user_env_from-IsOrderOf old u (e ∷ env) h =
    user_env_from-IsOrderOf old (user_entry old u (split_env_entry e)) env
      (user_entry-IsOrderOf old u e h)
