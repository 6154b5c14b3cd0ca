-- ===== src/Registry/Challenge/RoundTrip.antt =====
-- internal/registry/digest.go: `parseChallenge` on a challenge as a registry writes it.
use mathlib.Core.List.{append_assoc}
use openwatch.Base.{
  false, Bool-cases, inl, inr, take, drop, length, take-length-append, drop-suc-length-append, suc,
  ◌≡◌, refl, sym, ap, ◌∙◌, Option, none, some, [], ◌∷◌, ◌++◌, All, if◌then◌else◌, map,
}
use openwatch.Base.Text.{Text, codes, text_eq, index, is_space, trim_space, trim_func, trim_byte}
use openwatch.Base.Text.Cut.{index-append}
use openwatch.Base.Text.Trim.{trim_func-clear, trim_func-ends, trim_byte-around}
use openwatch.Base.Assoc.{Assoc, lookup, insert}
use openwatch.Base.Assoc.Laws.{lookup-insert}
use openwatch.Base.Text.Utf8.{IsUtf8, repaired-IsUtf8}
use openwatch.Registry.Challenge.{
  split_loop, finish, split_outside_quotes, index_blank, after_scheme, set_param, set_params,
  parse_challenge,
}
use openwatch.Registry.Challenge.Split.{
  repaired_param, repaired_param-IsParam, repaired-print_params, print_param, print_params,
  print_challenge, IsParam, split_params,
}

-- A printed parameter has no white space at its ends.
trim_param : (p : Text × Text) → IsParam p → trim_space (print_param p) ≡ print_param p
unfolding trim_space
trim_param ([], value) h =
    trim_func-ends is_space b'=' (b'"' ∷ value) b'"' (unfold is_space in refl)
      (unfold is_space in refl)
trim_param (a ∷ key, value) (kq, kc, ke, (ks, ka), vq) =
    let joined = append_assoc key (b'=' ∷ b'"' ∷ value) (b'"' ∷ []) in
    ap (λ t. trim_func is_space (a ∷ t)) (sym joined)
    ∙ trim_func-ends is_space a (key ++ b'=' ∷ b'"' ∷ value) b'"' (ks.0) (unfold is_space in refl)
    ∙ ap (λ t. a ∷ t) joined

quoted_clear :
    (value : Text) → trim_space (b'"' ∷ (value ++ b'"' ∷ [])) ≡ b'"' ∷ (value ++ b'"' ∷ [])
unfolding trim_space
quoted_clear value =
    trim_func-ends is_space b'"' value b'"' (unfold is_space in refl) (unfold is_space in refl)

set_printed :
    (p : Text × Text) (m : Assoc Text)
    → IsParam p
    → set_param (print_param p) (index b'=' (print_param p)) m ≡ insert p.0 p.1 m
set_printed (key, value) m (kq, kc, ke, (ks, ka), vq) =
    ap (λ i. set_param (print_param (key, value)) i m)
      (index-append b'=' key (b'"' ∷ (value ++ b'"' ∷ [])) ke)
    ∙ ap
        (λ k.
          insert k
            (trim_byte b'"' (trim_space (drop (suc (length key)) (print_param (key, value))))) m)
        kept
    ∙ ap (λ v. insert key v m) read
  where
    kept : trim_space (take (length key) (print_param (key, value))) ≡ key
    kept =
        ap trim_space (take-length-append key (b'=' ∷ b'"' ∷ (value ++ b'"' ∷ [])))
        ∙ (unfold trim_space in trim_func-clear is_space key ks)

    read : trim_byte b'"' (trim_space (drop (suc (length key)) (print_param (key, value)))) ≡ value
    read =
        ap (λ t. trim_byte b'"' (trim_space t))
          (drop-suc-length-append key b'=' (b'"' ∷ (value ++ b'"' ∷ [])))
        ∙ ap (trim_byte b'"') (quoted_clear value)
        ∙ trim_byte-around b'"' value vq

abbrev inserted : Assoc Text → Assoc Text → Assoc Text
inserted [] m = m
inserted ((k, v) ∷ ps) m = inserted ps (insert k v m)

set_rows : (ps m : Assoc Text) → All IsParam ps → set_params (map print_param ps) m ≡ inserted ps m
unfolding set_params
set_rows [] m h = refl
set_rows (p ∷ ps) m h =
    ap (λ t. set_params (map print_param ps) (set_param t (index b'=' t) m)) (trim_param p h.0)
    ∙ ap (set_params (map print_param ps)) (set_printed p m h.0)
    ∙ set_rows ps (insert p.0 p.1 m) h.1

-- The value of a key that is listed last.
unfoldable pub last_value : Text → Assoc Text → Option Text
last_value n [] = none
last_value n ((k, v) ∷ ps) =
    let rest = last_value n ps in
    elim rest [ some w ↦ some w | none ↦ if text_eq k n then some v else none ]

abbrev or_else : Option Text → Option Text → Option Text
or_else none b = b
or_else (some a) b = some a

or_else-none : (o : Option Text) → or_else o none ≡ o
or_else-none none = refl
or_else-none (some w) = refl

lookup-inserted :
    (n : Text) (ps m : Assoc Text)
    → lookup n (inserted ps m) ≡ or_else (last_value n ps) (lookup n m)
unfolding last_value
lookup-inserted n [] m = refl
lookup-inserted n ((k, v) ∷ ps) m =
    lookup-inserted n ps (insert k v m)
    ∙ ap (or_else (last_value n ps)) (lookup-insert k n v m)
    ∙ later (last_value n ps)
  where
    later :
        (o : Option Text)
        → or_else o (if text_eq k n then some v else lookup n m)
          ≡ or_else
              (elim o [ some w ↦ some w | none ↦ if text_eq k n then some v else none ])
              (lookup n m)
    later (some w) = refl
    later none = elim (Bool-cases (text_eq k n)) [ inl e ↦ rw e refl | inr e ↦ rw e refl ]

-- A printed challenge ends with a quote.
ends_quoted :
    (p : Text × Text) (ps : Assoc Text) → (s : Text) × (print_params (p ∷ ps) ≡ s ++ b'"' ∷ [])
unfolding print_params
ends_quoted (key, value) [] =
    (key ++ (b'=' ∷ b'"' ∷ value), sym (append_assoc key (b'=' ∷ b'"' ∷ value) (b'"' ∷ [])))
ends_quoted p (q ∷ ps) =
    let (s, e) = ends_quoted q ps in
    (
      print_param p ++ (b',' ∷ s),
      ap (λ t. print_param p ++ (b',' ∷ t)) e
          ∙ sym (append_assoc (print_param p) (b',' ∷ s) (b'"' ∷ [])),
    )

trim_challenge :
    (p : Text × Text) (ps : Assoc Text)
    → trim_space (print_challenge (p ∷ ps)) ≡ print_challenge (p ∷ ps)
unfolding trim_space print_challenge
trim_challenge p ps =
    let (s, e) = ends_quoted p ps in
    ap (λ t. trim_func is_space (codes "Bearer " ++ t)) e
    ∙ trim_func-ends is_space b'B' (codes "earer " ++ s) b'"' (unfold is_space in refl)
        (unfold is_space in refl)
    ∙ ap (λ t. codes "Bearer " ++ t) (sym e)

pieces :
    (p : Text × Text) (ps : Assoc Text)
    → All IsParam (p ∷ ps)
    → split_outside_quotes
        (after_scheme (print_challenge (p ∷ ps)) (index_blank (print_challenge (p ∷ ps))))
        b','
      ≡ map print_param (map repaired_param (p ∷ ps))
unfolding split_outside_quotes print_challenge index_blank
pieces p ps h =
    ap (λ t. finish (split_loop b',' (record { out = []; current = []; in_quotes = false }) t))
      (repaired-print_params (p ∷ ps) h)
    ∙ split_params (repaired_param p) (map repaired_param ps) [] (repaired_param-IsParam (p ∷ ps) h)

-- Of any bytes in the values, with U+FFFD for those that are no UTF-8.
pub lookup-parse_repaired :
    (p : Text × Text) (ps : Assoc Text) (n : Text)
    → All IsParam (p ∷ ps)
    → lookup n (parse_challenge (print_challenge (p ∷ ps)))
      ≡ last_value n (map repaired_param (p ∷ ps))
unfolding parse_challenge lookup
lookup-parse_repaired p ps n h =
    ap (λ t. lookup n (set_params (split_outside_quotes (after_scheme t (index_blank t)) b',') []))
      (trim_challenge p ps)
    ∙ ap (λ t. lookup n (set_params t [])) (pieces p ps h)
    ∙ ap (lookup n) (set_rows (map repaired_param (p ∷ ps)) [] (repaired_param-IsParam (p ∷ ps) h))
    ∙ lookup-inserted n (map repaired_param (p ∷ ps)) []
    ∙ or_else-none (last_value n (map repaired_param (p ∷ ps)))

-- The values of these parameters are UTF-8.
abbrev pub AreUtf8 : Assoc Text → Type 0
AreUtf8 = All (λ p. IsUtf8 p.1)

repaired_params : (ps : Assoc Text) → AreUtf8 ps → map repaired_param ps ≡ ps
repaired_params [] h = refl
repaired_params ((k, v) ∷ ps) h = rw (repaired-IsUtf8 v h.0, repaired_params ps h.1) refl

-- Parsing a challenge that is written out as a list of one or more parameters, key="value" with
-- commas between them, gives for every name the value that is listed last for it, or none. The
-- keys are ASCII without quotes, commas, equality signs and white space, and the values UTF-8
-- without quotes; a value may have commas.
pub lookup-parse_challenge :
    (p : Text × Text) (ps : Assoc Text) (n : Text)
    → All IsParam (p ∷ ps)
    → AreUtf8 (p ∷ ps)
    → lookup n (parse_challenge (print_challenge (p ∷ ps))) ≡ last_value n (p ∷ ps)
lookup-parse_challenge p ps n h u =
    lookup-parse_repaired p ps n h ∙ ap (last_value n) (repaired_params (p ∷ ps) u)
