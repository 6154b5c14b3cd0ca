-- ===== src/Base/Text/Equality.antt =====
-- Equality and the order of texts.
use openwatch.Base.{◌≡◌, refl, ◌≢◌, ◌↔◌, inl, inr, true, false, [], ◌∷◌, arith, Bool-cases}
use openwatch.Base.Text.{Text, text_eq, text_lt}

pub eq_of_text_eq : (s t : Text) → text_eq s t ≡ true → s ≡ t
unfolding text_eq
eq_of_text_eq [] [] h = refl
eq_of_text_eq [] (b ∷ t) h = cc
eq_of_text_eq (a ∷ s) [] h = cc
eq_of_text_eq (a ∷ s) (b ∷ t) h = ground (arith, eq_of_text_eq s t)

pub text_eq_refl : (s : Text) → text_eq s s ≡ true
unfolding text_eq
text_eq_refl [] = refl
text_eq_refl (a ∷ s) = ground (arith, text_eq_refl s)

pub text_eq_iff : (s t : Text) → (text_eq s t ≡ true) ↔ (s ≡ t)
text_eq_iff s t = (eq_of_text_eq s t, λ e. rw e (text_eq_refl t))

pub text_ne : (s t : Text) → s ≢ t → text_eq s t ≡ false
text_ne s t h = elim (Bool-cases (text_eq s t)) [
  | inl e ↦ absurd (h (eq_of_text_eq s t e))
  | inr e ↦ e
]

pub ne_of_text_eq : (s t : Text) → text_eq s t ≡ false → s ≢ t
ne_of_text_eq s t h e = cc (h, (text_eq_iff s t).1 e)

pub text_eq_sym : (s t : Text) → text_eq s t ≡ text_eq t s
unfolding text_eq
text_eq_sym [] [] = refl
text_eq_sym [] (b ∷ t) = refl
text_eq_sym (a ∷ s) [] = refl
text_eq_sym (a ∷ s) (b ∷ t) = ground (arith, text_eq_sym s t)

pub text_lt_irrefl : (s : Text) → text_lt s s ≡ false
unfolding text_lt
text_lt_irrefl [] = refl
text_lt_irrefl (a ∷ s) = ground (arith, text_lt_irrefl s)

pub text_lt_trans : (s t u : Text) → text_lt s t ≡ true → text_lt t u ≡ true → text_lt s u ≡ true
unfolding text_lt
text_lt_trans s [] u h k = cc
text_lt_trans s (b ∷ t) [] h k = cc
text_lt_trans [] (b ∷ t) (c ∷ u) h k = refl
text_lt_trans (a ∷ s) (b ∷ t) (c ∷ u) h k = ground (arith, text_lt_trans s t u)

-- Two different texts are ordered one way.
pub text_lt_total : (s t : Text) → text_lt s t ≡ false → text_lt t s ≡ false → s ≡ t
unfolding text_lt
text_lt_total [] [] h k = refl
text_lt_total [] (b ∷ t) h k = cc
text_lt_total (a ∷ s) [] h k = cc
text_lt_total (a ∷ s) (b ∷ t) h k = ground (arith, text_lt_total s t)

pub text_lt_asym : (s t : Text) → text_lt s t ≡ true → text_lt t s ≡ false
unfolding text_lt
text_lt_asym s [] h = cc
text_lt_asym [] (b ∷ t) h = refl
text_lt_asym (a ∷ s) (b ∷ t) h = ground (arith, text_lt_asym s t)

-- "Not below" is transitive.
pub text_nlt_trans :
    (x y z : Text) → text_lt x y ≡ false → text_lt y z ≡ false → text_lt x z ≡ false
text_nlt_trans x y z h k = elim (Bool-cases (text_lt x z)) [
  | inr e ↦ e
  | inl below ↦ elim (Bool-cases (text_lt z y)) [
    | inl e ↦ cc (text_lt_trans x z y below e, h)
    | inr e ↦ cc (below, h, text_lt_total y z k e)
  ]
]
