-- ===== src/Base/Text.antt =====
-- Go strings as byte sequences, with the functions of Go's `strings` package that the program
-- calls. Case folding and white space are those of ASCII.
pub mod Equality
pub mod Cut
pub mod Trim
pub mod Utf8
use Prim.Native.Nat.{ℕ, zero, suc, ◌+◌, ◌-◌, ◌<◌, ◌≤◌}
use Prim.Native.Char.{code}
use Prim.Native.String.{String}
use mathlib.Core.Path.{◌≡◌, refl, ap, ap₂}
use mathlib.Core.Logic.{◌↔◌, ◌≢◌}
use mathlib.Core.Bool.{Bool, true, false, not, ◌&&◌, ◌||◌}
use mathlib.Core.Option
use mathlib.Core.Option.{Option, none, some}
use mathlib.Core.List.{List, [], ◌∷◌, ◌++◌, map, reverse}
use native.Mathlib.Omega.{arith}
use openwatch.Base.Tests.{leb, ltb, ◌==◌, if◌then◌else◌, ==_iff}
use openwatch.Base.Lists.{length, take, drop, All}

abbrev pub Text : Type 0
Text = List ℕ

-- The bytes of an ASCII literal.
abbrev pub codes : String → Text
codes String.[] = []
codes (String.◌∷◌ c s) = code c ∷ codes s

-- `a == b` on strings.
unfoldable pub text_eq : Text → Text → Bool
text_eq [] [] = true
text_eq (a ∷ s) (b ∷ t) = (a == b) && text_eq s t
text_eq _ _ = false

-- `a < b` on strings: bytewise, a proper prefix first.
unfoldable pub text_lt : Text → Text → Bool
text_lt s [] = false
text_lt [] (b ∷ t) = true
text_lt (a ∷ s) (b ∷ t) = if a == b then text_lt s t else ltb a b

-- `strings.Index(s, c)` for a single byte `c`; -1 is `none`.
unfoldable pub index : ℕ → Text → Option ℕ
index c [] = none
index c (a ∷ s) = if a == c then some 0 else Option.map suc (index c s)

-- `strings.LastIndex(s, c)` for a single byte `c`.
unfoldable pub last_index : ℕ → Text → Option ℕ
last_index c [] = none
last_index c (a ∷ s) = elim (last_index c s) [
  | some i ↦ some (suc i)
  | none ↦ if a == c then some 0 else none
]

-- `strings.Contains(s, c)` for a single byte `c`.
unfoldable pub has_byte : ℕ → Text → Bool
has_byte c [] = false
has_byte c (a ∷ s) = (a == c) || has_byte c s

-- `strings.HasPrefix(s, p)`.
unfoldable pub has_prefix : Text → Text → Bool
has_prefix [] s = true
has_prefix (p ∷ ps) [] = false
has_prefix (p ∷ ps) (a ∷ s) = (p == a) && has_prefix ps s

-- `strings.HasSuffix(s, p)`.
unfoldable pub has_suffix : Text → Text → Bool
unfolding has_prefix
has_suffix p s = has_prefix (reverse p) (reverse s)

-- `strings.TrimPrefix(s, p)`.
unfoldable pub trim_prefix : Text → Text → Text
unfolding has_prefix
trim_prefix p s = if has_prefix p s then drop (length p) s else s

-- `strings.Contains(s, t)`.
unfoldable pub contains : Text → Text → Bool
unfolding has_prefix
contains t [] = has_prefix t []
contains t (a ∷ s) = has_prefix t (a ∷ s) || contains t s

unfoldable pub lower : ℕ → ℕ
lower c = if leb b'A' c && leb c b'Z' then c + 32 else c

-- `strings.ToLower`.
unfoldable pub to_lower : Text → Text
unfolding lower
to_lower = map lower

-- `strings.EqualFold`.
unfoldable pub equal_fold : Text → Text → Bool
unfolding to_lower text_eq
equal_fold s t = text_eq (to_lower s) (to_lower t)

-- Tab, line feed, vertical tab, form feed, carriage return and the space.
unfoldable pub is_space : ℕ → Bool
is_space c = (leb 9 c && leb c 13) || (c == 32)

unfoldable pub trim_left : (ℕ → Bool) → Text → Text
trim_left p [] = []
trim_left p (a ∷ s) = if p a then trim_left p s else a ∷ s

-- Both ends trimmed of the bytes that satisfy `p`.
unfoldable pub trim_func : (ℕ → Bool) → Text → Text
unfolding trim_left
trim_func p s = reverse (trim_left p (reverse (trim_left p s)))

-- `strings.TrimSpace`.
unfoldable pub trim_space : Text → Text
unfolding trim_func is_space
trim_space = trim_func is_space

-- `strings.Trim(s, c)` for a cutset of one byte.
unfoldable pub trim_byte : ℕ → Text → Text
unfolding trim_func
trim_byte c = trim_func (λ a. a == c)

-- `s == ""`.
abbrev pub is_empty {ℓ} : {A : Type ℓ} → List A → Bool
is_empty [] = true
is_empty (_ ∷ _) = false
