-- ===== src/Base/Numbers.antt =====
-- Signed integers, and Go's `strconv.ParseBool`, `strconv.Atoi` and `%d`.
use openwatch.Base.{
  ℕ, zero, suc, ◌+◌, ◌-◌, ◌*◌, ◌^◌, Bool, true, false, ◌&&◌, ◌||◌, Option, none, some, List, [],
  ◌∷◌, ◌++◌, ltb, leb, ◌==◌, if◌then◌else◌,
}
use openwatch.Base.Text.{Text, codes, text_eq}
use Prim.Native.Nat.{◌/◌, ◌%◌}

-- `negsuc n` is -(n + 1).
pub data ℤ : Type 0 where
  pos : ℕ → ℤ
  negsuc : ℕ → ℤ

-- `n <= 0`
abbrev pub non_positive : ℤ → Bool
non_positive (pos zero) = true
non_positive (pos (suc n)) = false
non_positive (negsuc n) = true

-- `n >= 0`
abbrev pub non_negative : ℤ → Bool
non_negative (pos n) = true
non_negative (negsuc n) = false

one_of : Text → List Text → Bool
unfolding text_eq
one_of s [] = false
one_of s (t ∷ ts) = text_eq s t || one_of s ts

-- `strconv.ParseBool`: the twelve spellings that it accepts.
unfoldable pub parse_bool : Text → Option Bool
unfolding one_of
parse_bool s =
    if one_of s
      (codes "1" ∷ codes "t" ∷ codes "T" ∷ codes "true" ∷ codes "TRUE" ∷ codes "True" ∷ [])
    then some true
    else if one_of s
        (codes "0" ∷ codes "f" ∷ codes "F" ∷ codes "false" ∷ codes "FALSE" ∷ codes "False" ∷ [])
    then some false
    else none

digits_value : ℕ → Text → Option ℕ
digits_value acc [] = some acc
digits_value acc (c ∷ s) =
    let rest = digits_value (acc * 10 + (c - b'0')) s in
    if leb b'0' c && leb c b'9' then rest else none

unsigned : Text → Option ℕ
unfolding digits_value
unsigned [] = none
unsigned (c ∷ s) = digits_value 0 (c ∷ s)

at_most : ℕ → (ℕ → ℤ) → Option ℕ → Option ℤ
at_most bound f none = none
at_most bound f (some n) = if leb n bound then some (f n) else none

negate : ℕ → ℤ
negate zero = pos 0
negate (suc n) = negsuc n

-- `strconv.Atoi` on a 64-bit machine; any error is `none`.
unfoldable pub atoi : Text → Option ℤ
unfolding unsigned at_most negate
atoi [] = none
atoi (c ∷ s) =
    if c == b'-'
    then at_most (2 ^ 63) negate (unsigned s)
    else if c == b'+'
    then at_most (2 ^ 63 - 1) pos (unsigned s)
    else at_most (2 ^ 63 - 1) pos (unsigned (c ∷ s))

-- The decimal digits of a number below `10 ^ fuel`.
show_fuel : ℕ → ℕ → Text
show_fuel zero n = []
show_fuel (suc fuel) n = elim (ltb n 10) [
  | true ↦ (n + b'0') ∷ []
  | false ↦ show_fuel fuel (n / 10) ++ (n % 10 + b'0') ∷ []
]

unfoldable pub show_nat : ℕ → Text
unfolding show_fuel
show_nat n = show_fuel (suc n) n

-- `fmt.Sprintf("%d", n)`
unfoldable pub show_int : ℤ → Text
unfolding show_nat
show_int (pos n) = show_nat n
show_int (negsuc n) = b'-' ∷ show_nat (suc n)
