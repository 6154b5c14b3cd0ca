-- ===== src/Base/Text/Utf8.antt =====
-- Go's `range` over a string, and the bytes of the runes that it gives: a byte that is no part of a
-- UTF-8 encoding counts as U+FFFD.
use openwatch.Base.{
  ℕ, zero, suc, ◌≡◌, ◌<◌, ◌≤◌, refl, sym, ap, ◌∙◌, inl, inr, Bool, true, false, ◌&&◌, Option, none,
  some, [], ◌∷◌, ◌++◌, ◌==◌, leb, arith, if◌then◌else◌, Bool-cases, Option-cases,
}
use openwatch.Base.Text.{Text, has_byte}
use openwatch.Base.Text.Cut.{Lacks}
use openwatch.Base.Text.Trim.{IsClear}

abbrev pub is_between : ℕ → ℕ → ℕ → Bool
is_between lo hi c = leb lo c && leb c hi

-- The text starts with that many bytes that continue an encoding.
unfoldable pub continues : ℕ → Text → Bool
continues zero s = true
continues (suc k) [] = false
continues (suc k) (b ∷ s) = is_between 128 191 b && continues k s

unfoldable pub starts_in : ℕ → ℕ → Text → Bool
starts_in lo hi [] = false
starts_in lo hi (b ∷ s) = is_between lo hi b

-- What a first byte tells: with `long n lo hi` there follow n + 1 bytes, the first of them from lo
-- to hi.
pub data Lead : Type 0 where
  invalid single : Lead
  long : ℕ → ℕ → ℕ → Lead

unfoldable pub lead : ℕ → Lead
lead a =
    if leb a 127
    then single
    else if is_between 194 223 a
    then long 0 128 191
    else if a == 224
    then long 1 160 191
    else if a == 237
    then long 1 128 159
    else if is_between 225 239 a
    then long 1 128 191
    else if a == 240
    then long 2 144 191
    else if a == 244
    then long 2 128 143
    else if is_between 241 243 a
    then long 2 128 191
    else invalid

-- The number of bytes that belong to the rune, behind its first; `none` for no rune.
unfoldable pub tail_of : Lead → Text → Option ℕ
tail_of invalid s = none
tail_of single s = some 0
tail_of (long n lo hi) s = if starts_in lo hi s && continues (suc n) s then some (suc n) else none

-- With the first bytes the rest of a rune.
unfoldable pub repaired_from : ℕ → Text → Text
repaired_from k [] = []
repaired_from (suc k) (a ∷ s) = a ∷ repaired_from k s
repaired_from zero (a ∷ s) = elim (tail_of (lead a) s) [
  | some k ↦ a ∷ repaired_from k s
  | none ↦ 239 ∷ 191 ∷ 189 ∷ repaired_from zero s
]

-- `for _, r := range s { b.WriteRune(r) }`
unfoldable pub repaired : Text → Text
repaired = repaired_from zero

-- Texts that are encodings of runes, by their bytes.
pub data IsUtf8 : Text → Type 0 where
  nil : IsUtf8 []
  one : (a : ℕ) (s : Text) → a < 128 → IsUtf8 s → IsUtf8 (a ∷ s)
  two :
      (a b : ℕ) (s : Text)
      → is_between 194 223 a ≡ true
      → is_between 128 191 b ≡ true
      → IsUtf8 s
      → IsUtf8 (a ∷ b ∷ s)
  three :
      (a b c : ℕ) (s : Text)
      → is_between 224 239 a ≡ true
      → is_between 128 191 b ≡ true
      → is_between 128 191 c ≡ true
      → (a ≡ 224 → 160 ≤ b)
      → (a ≡ 237 → b < 160)
      → IsUtf8 s
      → IsUtf8 (a ∷ b ∷ c ∷ s)
  four :
      (a b c d : ℕ) (s : Text)
      → is_between 240 244 a ≡ true
      → is_between 128 191 b ≡ true
      → is_between 128 191 c ≡ true
      → is_between 128 191 d ≡ true
      → (a ≡ 240 → 144 ≤ b)
      → (a ≡ 244 → b < 144)
      → IsUtf8 s
      → IsUtf8 (a ∷ b ∷ c ∷ d ∷ s)

lead_ascii : (a : ℕ) → a < 128 → lead a ≡ single
unfolding lead
lead_ascii a h = ground (arith, h)

tail_continues : (l : Lead) (s : Text) (k : ℕ) → tail_of l s ≡ some k → continues k s ≡ true
unfolding tail_of continues
tail_continues invalid s k h = cc h
tail_continues single s k h = ground (arith, h)
tail_continues (long n lo hi) s k h = elim (Bool-cases (starts_in lo hi s)) [
  | inr e ↦ cc (h, e)
  | inl e ↦ elim (Bool-cases (continues (suc n) s)) [ inl c ↦ cc (h, e, c) | inr c ↦ cc (h, e, c) ]
]

-- What comes of a rune, whose tail is known.
repaired_of :
    (a : ℕ) (s : Text) (k : ℕ)
    → tail_of (lead a) s ≡ some k
    → repaired (a ∷ s) ≡ a ∷ repaired_from k s
unfolding repaired repaired_from
repaired_of a s k e = ap rune e
  where
    rune : Option ℕ → Text
    rune (some k) = a ∷ repaired_from k s
    rune none = 239 ∷ 191 ∷ 189 ∷ repaired_from zero s

lost_of :
    (a : ℕ) (s : Text) → tail_of (lead a) s ≡ none → repaired (a ∷ s) ≡ 239 ∷ 191 ∷ 189 ∷ repaired s
unfolding repaired repaired_from
lost_of a s e = ap rune e
  where
    rune : Option ℕ → Text
    rune (some k) = a ∷ repaired_from k s
    rune none = 239 ∷ 191 ∷ 189 ∷ repaired_from zero s

module _ (a : ℕ) (ascii : a < 128) where
  continues_same : (k : ℕ) (s t : Text) → continues k (s ++ a ∷ t) ≡ continues k s
  unfolding continues
  continues_same zero s t = refl
  continues_same (suc k) [] t = ground (arith, ascii)
  continues_same (suc k) (b ∷ s) t = ap (λ r. is_between 128 191 b && r) (continues_same k s t)

  tail_same : (l : Lead) (s t : Text) → tail_of l (s ++ a ∷ t) ≡ tail_of l s
  unfolding tail_of starts_in continues
  tail_same invalid s t = refl
  tail_same single s t = refl
  tail_same (long n lo hi) [] t =
      rw (continues_same (suc n) [] t) (none_of (starts_in lo hi (a ∷ t)))
    where
      none_of : (b : Bool) → (if b && false then some (suc n) else none) ≡ none
      none_of true = refl
      none_of false = refl
  tail_same (long n lo hi) (b ∷ s) t = rw (continues_same (suc n) (b ∷ s) t) refl

  -- A byte of ASCII parts a text in two that are read each by itself.
  repaired_from-append :
      (k : ℕ) (s t : Text)
      → continues k s ≡ true
      → repaired_from k (s ++ a ∷ t) ≡ repaired_from k s ++ a ∷ repaired t
  unfolding repaired_from repaired continues tail_of
  repaired_from-append zero [] t h = repaired_of a t 0 single_tail
    where
      single_tail : tail_of (lead a) t ≡ some 0
      single_tail = ap (λ l. tail_of l t) (lead_ascii a ascii)
  repaired_from-append (suc k) [] t h = cc h
  repaired_from-append (suc k) (b ∷ s) t h =
      ap (λ r. b ∷ r) (repaired_from-append k s t (ground (arith, h)))
  repaired_from-append zero (b ∷ s) t h = elim (Option-cases (tail_of (lead b) s)) [
    | inl p ↦
        lost_of b (s ++ a ∷ t) (tail_same (lead b) s t ∙ p)
        ∙ ap (λ r. 239 ∷ 191 ∷ 189 ∷ r) (repaired_from-append zero s t refl)
        ∙ ap (λ r. r ++ a ∷ repaired t) (sym (lost_of b s p))
    | inr (k, p) ↦
        repaired_of b (s ++ a ∷ t) k (tail_same (lead b) s t ∙ p)
        ∙ ap (λ r. b ∷ r) (repaired_from-append k s t (tail_continues (lead b) s k p))
        ∙ ap (λ r. r ++ a ∷ repaired t) (sym (repaired_of b s k p))
  ]

  pub repaired-append : (s t : Text) → repaired (s ++ a ∷ t) ≡ repaired s ++ a ∷ repaired t
  unfolding repaired
  repaired-append s t = repaired_from-append zero s t (unfold continues in refl)

  repaired_from-Lacks : (k : ℕ) (s : Text) → Lacks a s → Lacks a (repaired_from k s)
  unfolding has_byte repaired_from
  repaired_from-Lacks k [] h = refl
  repaired_from-Lacks (suc k) (b ∷ s) h = ground (arith, repaired_from-Lacks k s)
  repaired_from-Lacks zero (b ∷ s) h = elim (Option-cases (tail_of (lead b) s)) [
    | inl p ↦ rw (p, repaired_from) (ground (arith, ascii, repaired_from-Lacks zero s))
    | inr (k, p) ↦ rw (p, repaired_from) (ground (arith, repaired_from-Lacks k s))
  ]

  pub repaired-Lacks : (s : Text) → Lacks a s → Lacks a (repaired s)
  unfolding repaired
  repaired-Lacks s h = repaired_from-Lacks zero s h

abbrev pub is_high : ℕ → Bool
is_high a = leb 128 a

pub repaired_ascii : (a : ℕ) (s : Text) → a < 128 → repaired (a ∷ s) ≡ a ∷ repaired s
unfolding repaired repaired_from
repaired_ascii a s h = repaired_from-append a h zero [] s (unfold continues in refl)

-- A text of ASCII in front is read as it is.
pub repaired-clear : (s t : Text) → IsClear is_high s → repaired (s ++ t) ≡ s ++ repaired t
repaired-clear [] t h = refl
repaired-clear (a ∷ s) t h =
    repaired_ascii a (s ++ t) (ground (arith, h.0)) ∙ ap (λ r. a ∷ r) (repaired-clear s t h.1)

-- An encoding of runes stays as it is.
pub repaired-IsUtf8 : (s : Text) → IsUtf8 s → repaired s ≡ s
unfolding repaired repaired_from lead tail_of starts_in continues
repaired-IsUtf8 _ nil = refl
repaired-IsUtf8 _ (one a s h k) = repaired_ascii a s h ∙ ap (λ r. a ∷ r) (repaired-IsUtf8 s k)
repaired-IsUtf8 _ (two a b s h i k) =
    repaired_of a (b ∷ s) 1 (ground (arith, h, i)) ∙ ap (λ r. a ∷ b ∷ r) (repaired-IsUtf8 s k)
repaired-IsUtf8 _ (three a b c s h i j lo hi k) =
    repaired_of a (b ∷ c ∷ s) 2 (ground (arith, h, i, j, lo, hi))
    ∙ ap (λ r. a ∷ b ∷ c ∷ r) (repaired-IsUtf8 s k)
repaired-IsUtf8 _ (four a b c d s h i j l lo hi k) =
    repaired_of a (b ∷ c ∷ d ∷ s) 3 (ground (arith, h, i, j, l, lo, hi))
    ∙ ap (λ r. a ∷ b ∷ c ∷ d ∷ r) (repaired-IsUtf8 s k)
