-- ===== src/Base/Text/Cut.antt =====
-- Where a byte stands in a text, and the two sides of it.
use openwatch.Base.{
  ℕ, zero, suc, ◌≡◌, refl, true, false, none, some, [], ◌∷◌, ◌++◌, arith, length, take, drop,
}
use openwatch.Base.Text.{Text, index, last_index, has_byte}

-- `c` does not stand in the text.
abbrev pub Lacks : ℕ → Text → Type 0
Lacks c s = has_byte c s ≡ false

pub index-Lacks : (c : ℕ) (s : Text) → Lacks c s → index c s ≡ none
unfolding index has_byte
index-Lacks c [] h = refl
index-Lacks c (a ∷ s) h = ground (arith, index-Lacks c s)

pub index-append : (c : ℕ) (s t : Text) → Lacks c s → index c (s ++ c ∷ t) ≡ some (length s)
unfolding index has_byte
index-append c [] t h = ground arith
index-append c (a ∷ s) t h = ground (arith, index-append c s t)

pub last_index-Lacks : (c : ℕ) (s : Text) → Lacks c s → last_index c s ≡ none
unfolding last_index has_byte
last_index-Lacks c [] h = refl
last_index-Lacks c (a ∷ s) h = ground (arith, last_index-Lacks c s)

pub last_index-append :
    (c : ℕ) (s t : Text) → Lacks c t → last_index c (s ++ c ∷ t) ≡ some (length s)
unfolding last_index has_byte
last_index-append c [] t h = ground (arith, last_index-Lacks c t)
last_index-append c (a ∷ s) t h = ground (arith, last_index-append c s t)

pub has_byte-append_self : (c : ℕ) (s t : Text) → has_byte c (s ++ c ∷ t) ≡ true
unfolding has_byte
has_byte-append_self c [] t = ground arith
has_byte-append_self c (a ∷ s) t = ground (arith, has_byte-append_self c s t)

pub Lacks-append : (c : ℕ) (s t : Text) → Lacks c s → Lacks c t → Lacks c (s ++ t)
unfolding has_byte
Lacks-append c [] t h k = k
Lacks-append c (a ∷ s) t h k = ground (arith, Lacks-append c s t)

-- The byte that was found parts the text in two, and does not stand in the first.
pub index-eq-some :
    (c : ℕ) (s : Text) (i : ℕ)
    → index c s ≡ some i
    → (s ≡ take i s ++ c ∷ drop (suc i) s) × Lacks c (take i s)
unfolding index has_byte
index-eq-some c [] i h = cc
index-eq-some c (a ∷ s) zero h = ground arith
index-eq-some c (a ∷ s) (suc i) h = ground (arith, index-eq-some c s i)
