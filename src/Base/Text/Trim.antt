-- ===== src/Base/Text/Trim.antt =====
-- Trimming a text that has nothing to trim, or quotes alone.
use mathlib.Core.List.{reverse, reverse-reverse, reverse-cons}
use openwatch.Base.{
  ℕ, ◌≡◌, refl, sym, ap, ◌∙◌, Bool, true, false, [], ◌∷◌, ◌++◌, ◌==◌, All, All-append, arith,
}
use openwatch.Base.Text.{Text, has_byte, trim_left, trim_func, trim_byte}
use openwatch.Base.Text.Cut.{Lacks}

reverse-snoc : (s : Text) (z : ℕ) → reverse (s ++ z ∷ []) ≡ z ∷ reverse s
reverse-snoc [] z = refl
reverse-snoc (a ∷ s) z =
    reverse-cons a (s ++ z ∷ [])
    ∙ ap (λ t. t ++ a ∷ []) (reverse-snoc s z)
    ∙ ap (λ t. z ∷ t) (sym (reverse-cons a s))

module _ (p : ℕ → Bool) where
  abbrev pub IsClear : Text → Type 0
  IsClear = All (λ a. p a ≡ false)

  pub IsClear-reverse : (s : Text) → IsClear s → IsClear (reverse s)
  IsClear-reverse [] h = tt
  IsClear-reverse (a ∷ s) h =
      rw (reverse-cons a s) (All-append _ (reverse s) (a ∷ []) (IsClear-reverse s h.1) (h.0, tt))

  pub trim_left-clear : (s : Text) → IsClear s → trim_left p s ≡ s
  unfolding trim_left
  trim_left-clear [] h = refl
  trim_left-clear (a ∷ s) h = rw (h.0) refl

  pub trim_func-clear : (s : Text) → IsClear s → trim_func p s ≡ s
  unfolding trim_func
  trim_func-clear s h =
      rw (trim_left-clear s h, trim_left-clear (reverse s) (IsClear-reverse s h))
        (reverse-reverse s)

  -- Neither the first byte nor the last is trimmed.
  pub trim_func-ends :
      (a : ℕ) (s : Text) (z : ℕ)
      → p a ≡ false
      → p z ≡ false
      → trim_func p (a ∷ (s ++ z ∷ [])) ≡ a ∷ (s ++ z ∷ [])
  unfolding trim_func trim_left
  trim_func-ends a s z h k =
      ap (λ t. reverse (trim_left p (reverse t))) first
      ∙ ap (λ t. reverse (trim_left p t)) (reverse-snoc (a ∷ s) z)
      ∙ ap reverse last
      ∙ ap reverse (sym (reverse-snoc (a ∷ s) z))
      ∙ reverse-reverse (a ∷ (s ++ z ∷ []))
    where
      first : trim_left p (a ∷ (s ++ z ∷ [])) ≡ a ∷ (s ++ z ∷ [])
      first = rw h refl

      last : trim_left p (z ∷ reverse (a ∷ s)) ≡ z ∷ reverse (a ∷ s)
      last = rw k refl

pub Lacks-IsClear : (c : ℕ) (s : Text) → Lacks c s → IsClear (λ a. a == c) s
unfolding has_byte
Lacks-IsClear c [] h = tt
Lacks-IsClear c (a ∷ s) h = (ground arith, Lacks-IsClear c s (ground arith))

eq_self : (c : ℕ) → (c == c) ≡ true
eq_self c = ground arith

module _ (c : ℕ) where
  abbrev is_c : ℕ → Bool
  is_c a = a == c

  trim_front : (s : Text) → trim_left is_c (c ∷ s) ≡ trim_left is_c s
  unfolding trim_left
  trim_front s = rw (eq_self c) refl

  trim_back : (s : Text) → IsClear is_c s → reverse (trim_left is_c (reverse (s ++ c ∷ []))) ≡ s
  trim_back s h =
      ap (λ t. reverse (trim_left is_c t)) (reverse-snoc s c)
      ∙ ap reverse (trim_front (reverse s))
      ∙ ap reverse (trim_left-clear is_c (reverse s) (IsClear-reverse is_c s h))
      ∙ reverse-reverse s

  -- A byte around a text that lacks it is trimmed.
  pub trim_byte-around : (s : Text) → Lacks c s → trim_byte c (c ∷ (s ++ c ∷ [])) ≡ s
  unfolding trim_byte trim_func
  trim_byte-around [] h =
      ap (λ t. reverse (trim_left is_c (reverse t))) (trim_front (c ∷ []) ∙ trim_front [])
  trim_byte-around (a ∷ s) h =
      let clear = Lacks-IsClear c (a ∷ s) h in
      ap (λ t. reverse (trim_left is_c (reverse t))) (trim_front (a ∷ (s ++ c ∷ [])) ∙ kept clear)
      ∙ trim_back (a ∷ s) clear
    where
      kept : IsClear is_c (a ∷ s) → trim_left is_c (a ∷ (s ++ c ∷ [])) ≡ a ∷ (s ++ c ∷ [])
      kept clear = unfold trim_left in rw (clear.0) refl
