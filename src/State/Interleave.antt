-- ===== src/State/Interleave.antt =====
-- internal/updater/state.go under several goroutines: the lock makes of their calls one sequence,
-- in which each goroutine's calls stand in its own order.
use openwatch.Base.{
  ◌≡◌, refl, ◌⊎◌, inl, inr, Bool, true, false, List, [], ◌∷◌, if◌then◌else◌, Bool-cases,
}
use openwatch.Base.Text.{Text, text_eq}
use openwatch.State.{ContainerStatus, up_to_date, updating, unknown, unset}
use openwatch.State.Writes.{Write, checked, began, ended, pruned}

-- The calls of two goroutines, the latest first, in one sequence.
pub data Interleave : List Write → List Write → List Write → Type 0 where
  nil : Interleave [] [] []
  left : {c : Write} {xs ys zs : List Write} → Interleave xs ys zs → Interleave (c ∷ xs) ys (c ∷ zs)
  right :
      {c : Write} {xs ys zs : List Write} → Interleave xs ys zs → Interleave xs (c ∷ ys) (c ∷ zs)

abbrev pub is_updating : ContainerStatus → Bool
is_updating up_to_date = false
is_updating updating = true
is_updating unknown = false
is_updating unset = false

-- What a call says of a name by itself, and otherwise the rest of the calls.
abbrev pub says : Text → Write → Bool → Bool
says n (checked m i st t) rest = if text_eq m n then is_updating st else rest
says n (began m i t) rest = if text_eq m n then true else rest
says n (ended m i t) rest = if text_eq m n then false else rest
says n (pruned keep) rest = rest

-- The latest call on the name has put it at `updating`.
unfoldable pub is_open : Text → List Write → Bool
is_open n [] = false
is_open n (c ∷ calls) = says n c (is_open n calls)

unfoldable pub IsClosed : List Write → Type 0
IsClosed calls = (n : Text) → is_open n calls ≡ false

-- Where neither goroutine leaves a name open, the sequence does not either.
says-either :
    (n : Text) (c : Write) (a b r : Bool)
    → (r ≡ true → (a ≡ true) ⊎ (b ≡ true))
    → says n c r ≡ true
    → (says n c a ≡ true) ⊎ (b ≡ true)
says-either n (checked m i st t) a b r f h = elim (Bool-cases (text_eq m n)) [
  | inl e ↦ inl (rw e (rw e at h))
  | inr e ↦ elim (f (rw e at h)) [ inl p ↦ inl (rw e p) | inr p ↦ inr p ]
]
says-either n (began m i t) a b r f h = elim (Bool-cases (text_eq m n)) [
  | inl e ↦ inl (rw e refl)
  | inr e ↦ elim (f (rw e at h)) [ inl p ↦ inl (rw e p) | inr p ↦ inr p ]
]
says-either n (ended m i t) a b r f h = elim (Bool-cases (text_eq m n)) [
  | inl e ↦ cc (rw e at h)
  | inr e ↦ elim (f (rw e at h)) [ inl p ↦ inl (rw e p) | inr p ↦ inr p ]
]
says-either n (pruned keep) a b r f h = f h

is_open-Interleave :
    {xs ys zs : List Write} (n : Text)
    → Interleave xs ys zs
    → is_open n zs ≡ true
    → (is_open n xs ≡ true) ⊎ (is_open n ys ≡ true)
unfolding is_open
is_open-Interleave n nil h = inl h
is_open-Interleave n (left {c = c} {xs = xs} {ys = ys} {zs = zs} t) h =
    says-either n c (is_open n xs) (is_open n ys) (is_open n zs) (is_open-Interleave n t) h
is_open-Interleave n (right {c = c} {xs = xs} {ys = ys} {zs = zs} t) h = swap (
    says-either n c (is_open n ys) (is_open n xs) (is_open n zs)
      (λ p. swap (is_open-Interleave n t p)) h)
  where
    swap : {A B : Type 0} → A ⊎ B → B ⊎ A
    swap (inl a) = inr a
    swap (inr b) = inl b

pub Interleave-IsClosed :
    {xs ys zs : List Write} → Interleave xs ys zs → IsClosed xs → IsClosed ys → IsClosed zs
unfolding IsClosed
Interleave-IsClosed {zs = zs} t hx hy = λ n. elim (Bool-cases (is_open n zs)) [
  | inr e ↦ e
  | inl e ↦ elim (is_open-Interleave n t e) [ inl p ↦ cc (p, hx n) | inr p ↦ cc (p, hy n) ]
]
