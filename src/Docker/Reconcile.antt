-- ===== src/Docker/Reconcile.antt =====
-- internal/docker/reconcile.go: what a recreated container keeps of its old configuration.
pub mod Entries
pub mod Laws
pub mod Tests
use openwatch.Base.{
  zero, suc, ℕ, Bool, true, false, ◌&&◌, Option, none, some, List, [], ◌∷◌, ◌++◌, ◌==◌,
  if◌then◌else◌, length, take, drop,
}
use openwatch.Base.Text.{Text, text_eq, index}
use openwatch.Base.Assoc.{Assoc, lookup, insert, has_key}

-- `entry[:i]` and `entry[i+1:]`
abbrev pub cut_at : Text → Option ℕ → Option (Text × Text)
cut_at entry none = none
cut_at entry (some i) = some (take i entry, drop (suc i) entry)

-- `none` where the entry has no "=".
unfoldable pub split_env_entry : Text → Option (Text × Text)
split_env_entry entry = cut_at entry (index b'=' entry)

abbrev pub bind_entry : Assoc Text → Option (Text × Text) → Assoc Text
bind_entry out none = out
bind_entry out (some (k, v)) = insert k v out

-- The loop of `envToMap`.
unfoldable pub env_to_map_from : Assoc Text → List Text → Assoc Text
unfolding split_env_entry
env_to_map_from out [] = out
env_to_map_from out (entry ∷ env) = env_to_map_from (bind_entry out (split_env_entry entry)) env

unfoldable pub env_to_map : List Text → Assoc Text
unfolding env_to_map_from
env_to_map env = env_to_map_from [] env

-- `oldV, inherited := oldImageKV[k]; inherited && oldV == v`
unfoldable pub is_inherited : Option Text → Text → Bool
is_inherited none v = false
is_inherited (some old) v = text_eq old v

-- `userKV` and `userOrder`.
pub record UserEnv : Type 0 where
  pub kv : Assoc Text
  pub order : List Text

-- An override: the key is listed once, where it came first, and the last value counts.
unfoldable pub add_user : Text → Text → UserEnv → UserEnv
unfolding has_key
add_user k v u = record {
  kv = insert k v u.kv;
  order = if has_key k u.kv then u.order else u.order ++ k ∷ [];
}

-- One round of the loop over the container's entries.
unfoldable pub user_entry : Assoc Text → UserEnv → Option (Text × Text) → UserEnv
unfolding add_user is_inherited
user_entry old u none = u
user_entry old u (some (k, v)) = if is_inherited (lookup k old) v then u else add_user k v u

-- The loop over the container's entries.
unfoldable pub user_env_from : Assoc Text → UserEnv → List Text → UserEnv
unfolding user_entry split_env_entry
user_env_from old u [] = u
user_env_from old u (entry ∷ env) = user_env_from old (user_entry old u (split_env_entry entry)) env

-- `k + "=" + v`
abbrev pub join_env : Text → Text → Text
join_env k v = k ++ b'=' ∷ v

-- `if v, has := userKV[k]; has { ... }`
abbrev pub override_entry : Assoc Bool → Text → Text → Option Text → Text × Assoc Bool
override_entry overridden entry k none = (entry, overridden)
override_entry overridden entry k (some v) = (join_env k v, insert k true overridden)

-- One round of the loop over the new image's entries: the entry appended, and `overridden`.
unfoldable pub merge_entry :
    Assoc Text → Assoc Bool → Text → Option (Text × Text) → Text × Assoc Bool
merge_entry user overridden entry none = (entry, overridden)
merge_entry user overridden entry (some (k, _)) = override_entry overridden entry k (lookup k user)

-- The loop over the new image's entries: `out` and `overridden`.
unfoldable pub merge_from : Assoc Text → List Text → Assoc Bool → List Text → List Text × Assoc Bool
unfolding split_env_entry merge_entry
merge_from user out overridden [] = (out, overridden)
merge_from user out overridden (entry ∷ env) =
    let (new, overridden') = merge_entry user overridden entry (split_env_entry entry) in
    merge_from user (out ++ new ∷ []) overridden' env

-- `overridden[k]`, false where the key is absent.
abbrev pub flag : Option Bool → Bool
flag none = false
flag (some b) = b

-- `userKV[k]`, "" where the key is absent.
abbrev pub text_or_empty : Option Text → Text
text_or_empty none = []
text_or_empty (some v) = v

-- The loop over `userOrder`.
unfoldable pub append_user : Assoc Text → Assoc Bool → List Text → List Text → List Text
append_user user overridden out [] = out
append_user user overridden out (k ∷ order) =
    append_user user overridden
      (if flag (lookup k overridden)
        then out
        else out ++ join_env k (text_or_empty (lookup k user)) ∷ [])
      order

unfoldable pub reconcile_env : List Text → List Text → List Text → List Text
unfolding env_to_map user_env_from merge_from append_user
reconcile_env container old_image new_image =
    let user = user_env_from (env_to_map old_image) (record { kv = []; order = [] }) container in
    let (out, overridden) = merge_from user.kv [] [] new_image in
    append_user user.kv overridden out user.order

-- The element loop of `reconcileSlice`; an index out of range cannot occur, the lengths are equal.
unfoldable pub all_equal : List Text → List Text → Bool
all_equal [] old = true
all_equal (c ∷ cs) [] = false
all_equal (c ∷ cs) (o ∷ os) = text_eq c o && all_equal cs os

unfoldable pub reconcile_slice : List Text → List Text → List Text → List Text
unfolding all_equal
reconcile_slice container old_image new_image =
    if length container == length old_image
    then (if all_equal container old_image then new_image else container)
    else container

unfoldable pub reconcile_scalar : Text → Text → Text → Text
reconcile_scalar container old_image new_image =
    if text_eq container old_image then new_image else container
