-- ===== src/Registry/Challenge.antt =====
-- internal/registry/digest.go: `parseChallenge` and `splitOutsideQuotes`.
pub mod Split
pub mod RoundTrip
mod Tests
use openwatch.Base.{
  suc, ℕ, Bool, false, not, ◌&&◌, ◌||◌, Option, none, some, List, [], ◌∷◌, ◌++◌, ◌==◌,
  if◌then◌else◌, take, drop,
}
use openwatch.Base.Text.{Text, index, trim_space, trim_byte, is_empty}
use openwatch.Base.Text.Utf8.{repaired}
use openwatch.Base.Assoc.{Assoc, insert}

-- The loop's `out`, `b` and `inQuotes`.
pub record Splitter : Type 0 where
  pub out : List Text
  pub current : Text
  pub in_quotes : Bool

unfoldable pub split_step : ℕ → ℕ → Splitter → Splitter
split_step sep r s =
    if r == b'"'
    then record s { in_quotes = not s.in_quotes; current = s.current ++ r ∷ [] }
    else if (r == sep) && not s.in_quotes
    then record s { out = s.out ++ s.current ∷ []; current = [] }
    else record s { current = s.current ++ r ∷ [] }

unfoldable pub split_loop : ℕ → Splitter → Text → Splitter
split_loop sep s [] = s
split_loop sep s (r ∷ rest) = split_loop sep (split_step sep r s) rest

abbrev pub finish : Splitter → List Text
finish s = if is_empty s.current then s.out else s.out ++ s.current ∷ []

-- The loop ranges over runes and writes them out again. It is modelled on the bytes that are written,
-- `repaired s`: the quote and the separator are ASCII, and no byte of a longer rune is one of them.
unfoldable pub split_outside_quotes : Text → ℕ → List Text
split_outside_quotes s sep =
    finish (split_loop sep (record { out = []; current = []; in_quotes = false }) (repaired s))

-- `strings.IndexAny(s, " \t")`
unfoldable pub index_blank : Text → Option ℕ
index_blank [] = none
index_blank (c ∷ s) =
    if (c == 32) || (c == 9) then some 0 else mathlib.Core.Option.map suc (index_blank s)

abbrev pub after_scheme : Text → Option ℕ → Text
after_scheme rest none = rest
after_scheme rest (some i) = drop (suc i) rest

abbrev pub set_param : Text → Option ℕ → Assoc Text → Assoc Text
set_param pair none params = params
set_param pair (some eq) params =
    insert (trim_space (take eq pair)) (trim_byte b'"' (trim_space (drop (suc eq) pair))) params

unfoldable pub set_params : List Text → Assoc Text → Assoc Text
set_params [] params = params
set_params (pair ∷ pairs) params =
    let trimmed = trim_space pair in
    set_params pairs (set_param trimmed (index b'=' trimmed) params)

unfoldable pub parse_challenge : Text → Assoc Text
parse_challenge challenge =
    let rest = trim_space challenge in
    set_params (split_outside_quotes (after_scheme rest (index_blank rest)) b',') []
