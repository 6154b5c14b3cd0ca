-- ===== src/Docker/Reconcile/Laws.antt =====
-- The environment that a recreated container gets, key by key.
use openwatch.Base.{
  ◌≡◌, refl, ap, ◌∙◌, inl, inr, Bool, true, false, not, ◌&&◌, ◌||◌, Option, none, some, List, [],
  ◌∷◌, ◌++◌, arith, if◌then◌else◌, Bool-cases, Option-cases, All,
}
use openwatch.Base.Text.{Text, text_eq}
use openwatch.Base.Text.Equality.{text_eq_iff}
use openwatch.Base.Text.Cut.{Lacks}
use openwatch.Base.Assoc.{Assoc, lookup, has_key}
use openwatch.Base.Assoc.Laws.{lookup-insert}
use openwatch.Docker.Reconcile.{
  split_env_entry, env_to_map, UserEnv, merge_entry, user_env_from, join_env, merge_from, flag,
  text_or_empty, append_user, reconcile_env,
}
use openwatch.Docker.Reconcile.Entries.{
  value_from, pick, override, effective, effective-value, value_from-append, split-Lacks, pick-join,
  lookup-user_env_from, listed, IsOrderOf, user_env_from-IsOrderOf,
}

abbrev sets_key : Text → Option (Text × Text) → Bool
sets_key k none = false
sets_key k (some (j, v)) = text_eq j k

-- One of the entries sets the key.
occurs : Text → List Text → Bool
occurs k [] = false
occurs k (e ∷ env) = sets_key k (split_env_entry e) || occurs k env

-- One round of the merge at a key with no override, and at a key with one.
merge_entry-none :
    (user : Assoc Text) (ov : Assoc Bool) (k e : Text) (o : Option Text)
    → lookup k user ≡ none
    → (pick k (merge_entry user ov e (split_env_entry e)).0 o ≡ pick k e o)
      × (flag (lookup k (merge_entry user ov e (split_env_entry e)).1) ≡ flag (lookup k ov))
unfolding merge_entry
merge_entry-none user ov k e o q = elim (Option-cases (split_env_entry e)) [
  | inl p ↦ rw p (refl, refl)
  | inr ((j, x), p) ↦ elim (Option-cases (lookup j user)) [
    | inl absent ↦ ground (arith, p, absent)
    | inr (y, found) ↦
        let other : text_eq j k ≡ false = ground (arith, text_eq_iff j k) in
        let same : pick k e o ≡ o = unfold pick in ground (arith, p, other) in
        ground (
          arith,
          p,
          found,
          other,
          same,
          pick-join k j y o (split-Lacks e j x p),
          lookup-insert j k true ov,
        )
  ]
]

merge_entry-some :
    (user : Assoc Text) (ov : Assoc Bool) (k e v : Text) (o : Option Text)
    → lookup k user ≡ some v
    → (pick k (merge_entry user ov e (split_env_entry e)).0 o
        ≡ (if sets_key k (split_env_entry e) then some v else o))
      × (flag (lookup k (merge_entry user ov e (split_env_entry e)).1)
          ≡ (sets_key k (split_env_entry e) || flag (lookup k ov)))
unfolding merge_entry
merge_entry-some user ov k e v o q = elim (Option-cases (split_env_entry e)) [
  | inl p ↦ unfold pick in rw p (ground (arith, p))
  | inr ((j, x), p) ↦ elim (Option-cases (lookup j user)) [
    | inl absent ↦
        let other : text_eq j k ≡ false = ground (arith, text_eq_iff j k) in
        let same : pick k e o ≡ o = unfold pick in ground (arith, p, other) in
        ground (arith, p, absent, other, same)
    | inr (y, found) ↦ ground (
      arith,
      p,
      found,
      pick-join k j y o (split-Lacks e j x p),
      lookup-insert j k true ov,
      text_eq_iff j k,
    )
  ]
]

merge_from-none :
    (user : Assoc Text) (k : Text) (out : List Text) (ov : Assoc Bool) (env : List Text)
    → lookup k user ≡ none
    → (value_from k none (merge_from user out ov env).0 ≡ value_from k (value_from k none out) env)
      × (flag (lookup k (merge_from user out ov env).1) ≡ flag (lookup k ov))
unfolding merge_from value_from
merge_from-none user k out ov [] q = (refl, refl)
merge_from-none user k out ov (e ∷ env) q =
    let (new, ov') = merge_entry user ov e (split_env_entry e) in
    let (value, mark) = merge_from-none user k (out ++ new ∷ []) ov' env q in
    let (value', mark') = merge_entry-none user ov k e (value_from k none out) q in
    (value ∙ ap (λ o. value_from k o env) (value_from-append k none out new ∙ value'), mark ∙ mark')

merge_from-some :
    (user : Assoc Text) (k v : Text) (out : List Text) (ov : Assoc Bool) (env : List Text)
    → lookup k user ≡ some v
    → (value_from k none (merge_from user out ov env).0
        ≡ (if occurs k env then some v else value_from k none out))
      × (flag (lookup k (merge_from user out ov env).1) ≡ (occurs k env || flag (lookup k ov)))
unfolding merge_from occurs
merge_from-some user k v out ov [] q = (refl, refl)
merge_from-some user k v out ov (e ∷ env) q =
    let (new, ov') = merge_entry user ov e (split_env_entry e) in
    let (value, mark) = merge_from-some user k v (out ++ new ∷ []) ov' env q in
    let (value', mark') = merge_entry-some user ov k e v (value_from k none out) q in
    (value ∙ ground (arith, value_from-append k none out new, value'), mark ∙ ground (arith, mark'))

append_user-value :
    (user : Assoc Text) (ov : Assoc Bool) (k : Text) (out order : List Text)
    → All (Lacks b'=') order
    → value_from k none (append_user user ov out order) ≡ (
        if listed k order && not (flag (lookup k ov))
        then some (text_or_empty (lookup k user))
        else value_from k none out)
unfolding append_user listed
append_user-value user ov k out [] h = refl
append_user-value user ov k out (j ∷ order) h = elim (Bool-cases (flag (lookup j ov))) [
  | inl e ↦ ground (arith, e, append_user-value user ov k out order h.1, text_eq_iff j k)
  | inr e ↦ ground (
    arith,
    e,
    append_user-value user ov k (out ++ join_env j (text_or_empty (lookup j user)) ∷ []) order h.1,
    value_from-append k none out (join_env j (text_or_empty (lookup j user))),
    pick-join k j (text_or_empty (lookup j user)) (value_from k none out) h.0,
    text_eq_iff j k,
  )
]

-- The user's value where there is one, and the new image's otherwise.
abbrev pub or_else : Option Text → Option Text → Option Text
or_else none o = o
or_else (some v) o = some v

start-IsOrderOf : IsOrderOf (record { kv = []; order = [] })
start-IsOrderOf = record { lists = λ k. unfold listed has_key lookup in refl; clean = tt }

effective-merged :
    (k : Text) (user : UserEnv) (new_image : List Text)
    → IsOrderOf user
    → let m = merge_from user.kv [] [] new_image in
      effective k (append_user user.kv m.1 m.0 user.order)
      ≡ or_else (lookup k user.kv) (effective k new_image)
effective-merged k user new_image h =
    let m = merge_from user.kv [] [] new_image in
    let tail = append_user-value user.kv m.1 k m.0 user.order h.clean in
    rw (effective-value, effective-value, tail, h.lists k)
      (elim (Option-cases (lookup k user.kv)) [
        | inl p ↦
            let (value, _) = merge_from-none user.kv k [] [] new_image p in
            unfold has_key value_from in ground (arith, p, value)
        | inr (v, p) ↦
            let (value, mark) = merge_from-some user.kv k v [] [] new_image p in
            unfold has_key value_from lookup in ground (arith, p, value, mark)
      ])

-- For every key, the value of the recreated container's environment is the user's override of the
-- old image's value if there is one, and the new image's value otherwise.
pub effective-reconcile_env :
    (k : Text) (container old_image new_image : List Text)
    → effective k (reconcile_env container old_image new_image)
      ≡ or_else (override k old_image container) (effective k new_image)
unfolding reconcile_env override
effective-reconcile_env k container old_image new_image =
    let start : UserEnv = record { kv = []; order = [] } in
    let old = env_to_map old_image in
    let user = user_env_from old start container in
    effective-merged k user new_image (user_env_from-IsOrderOf old start container start-IsOrderOf)
    ∙ ap (λ o. or_else o (effective k new_image))
        (lookup-user_env_from k old start container ∙ (unfold effective env_to_map lookup in refl))
