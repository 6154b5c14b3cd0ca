-- ===== src/Registry/Challenge/Split.antt =====
-- internal/registry/digest.go: `splitOutsideQuotes` on parameters as a registry writes them.
use mathlib.Core.List.{append-nil, append_assoc}
use openwatch.Base.{
  arith, Bool-cases, inl, inr, ℕ, ◌≡◌, refl, sym, ap, ◌∙◌, Bool, true, false, List, [], ◌∷◌, ◌++◌,
  ◌==◌, All, map,
}
use openwatch.Base.Text.{Text, codes, is_space, is_empty}
use openwatch.Base.Text.Cut.{Lacks}
use openwatch.Base.Text.Trim.{Lacks-IsClear, IsClear}
use openwatch.Base.Text.Utf8.{
  repaired, repaired_from, repaired_ascii, is_high, repaired-append, repaired-clear, repaired-Lacks,
}
use openwatch.Base.Assoc.{Assoc}
use openwatch.Registry.Challenge.{Splitter, split_step, split_loop, finish}

-- `key="value"`
abbrev pub print_param : Text × Text → Text
print_param (key, value) = key ++ (b'=' ∷ b'"' ∷ (value ++ b'"' ∷ []))

unfoldable pub print_params : Assoc Text → Text
print_params [] = []
print_params (p ∷ []) = print_param p
print_params (p ∷ q ∷ ps) = print_param p ++ (b',' ∷ print_params (q ∷ ps))

unfoldable pub print_challenge : Assoc Text → Text
print_challenge ps = codes "Bearer " ++ print_params ps

-- A key of ASCII without quotes, commas, equality signs and white space, and a value without quotes.
abbrev pub IsParam : Text × Text → Type 0
IsParam (key, value) =
    Lacks b'"' key
    × Lacks b',' key
    × Lacks b'=' key
    × (IsClear is_space key × IsClear is_high key)
    × Lacks b'"' value

abbrev in_state : List Text → Text → Bool → Splitter
in_state out cur quoted = record { out = out; current = cur; in_quotes = quoted }

abbrev is_quote : ℕ → Bool
is_quote a = a == b'"'

abbrev is_comma : ℕ → Bool
is_comma a = a == b','

module _ (a : ℕ) (out : List Text) (cur : Text) (not_quote : is_quote a ≡ false) where
  step_plain :
      is_comma a ≡ false
      → split_step b',' a (in_state out cur false) ≡ in_state out (cur ++ a ∷ []) false
  unfolding split_step
  step_plain h = rw (not_quote, h) refl

  step_quoted : split_step b',' a (in_state out cur true) ≡ in_state out (cur ++ a ∷ []) true
  unfolding split_step
  step_quoted = elim (Bool-cases (is_comma a)) [
    | inl c ↦ rw (not_quote, c) refl
    | inr c ↦ rw (not_quote, c) refl
  ]

split_plain :
    (t : Text) (out : List Text) (cur rest : Text)
    → IsClear is_quote t
    → IsClear is_comma t
    → split_loop b',' (in_state out cur false) (t ++ rest)
      ≡ split_loop b',' (in_state out (cur ++ t) false) rest
unfolding split_loop
split_plain [] out cur rest h k =
    ap (λ c. split_loop b',' (in_state out c false) rest) (sym (append-nil cur))
split_plain (a ∷ t) out cur rest h k =
    ap (λ s. split_loop b',' s (t ++ rest)) (step_plain a out cur h.0 k.0)
    ∙ split_plain t out (cur ++ a ∷ []) rest h.1 k.1
    ∙ ap (λ c. split_loop b',' (in_state out c false) rest) (append_assoc cur (a ∷ []) t)

split_quoted :
    (t : Text) (out : List Text) (cur rest : Text)
    → IsClear is_quote t
    → split_loop b',' (in_state out cur true) (t ++ rest)
      ≡ split_loop b',' (in_state out (cur ++ t) true) rest
unfolding split_loop
split_quoted [] out cur rest h =
    ap (λ c. split_loop b',' (in_state out c true) rest) (sym (append-nil cur))
split_quoted (a ∷ t) out cur rest h =
    ap (λ s. split_loop b',' s (t ++ rest)) (step_quoted a out cur h.0)
    ∙ split_quoted t out (cur ++ a ∷ []) rest h.1
    ∙ ap (λ c. split_loop b',' (in_state out c true) rest) (append_assoc cur (a ∷ []) t)

-- A printed parameter is kept together, commas in its value and all.
split_param :
    (p : Text × Text) (out : List Text) (rest : Text)
    → IsParam p
    → split_loop b',' (in_state out [] false) (print_param p ++ rest)
      ≡ split_loop b',' (in_state out (print_param p) false) rest
unfolding split_loop split_step
split_param (key, value) out rest (kq, kc, ke, ks, vq) =
    ap (λ t. split_loop b',' (in_state out [] false) t)
      (append_assoc key (b'=' ∷ b'"' ∷ (value ++ b'"' ∷ [])) rest
        ∙ ap (λ t. key ++ (b'=' ∷ b'"' ∷ t)) (append_assoc value (b'"' ∷ []) rest))
    ∙ split_plain key out [] (b'=' ∷ b'"' ∷ (value ++ b'"' ∷ rest)) (Lacks-IsClear b'"' key kq)
        (Lacks-IsClear b',' key kc)
    ∙ split_quoted value out (key ++ b'=' ∷ [] ++ b'"' ∷ []) (b'"' ∷ rest)
        (Lacks-IsClear b'"' value vq)
    ∙ ap (λ c. split_loop b',' (in_state out c false) rest)
        (append_assoc (key ++ b'=' ∷ [] ++ b'"' ∷ []) value (b'"' ∷ [])
          ∙ append_assoc (key ++ b'=' ∷ []) (b'"' ∷ []) (value ++ b'"' ∷ [])
          ∙ append_assoc key (b'=' ∷ []) (b'"' ∷ (value ++ b'"' ∷ [])))

print_param-nonempty : (p : Text × Text) → is_empty (print_param p) ≡ false
print_param-nonempty ([], value) = refl
print_param-nonempty (a ∷ key, value) = refl

pub split_params :
    (p : Text × Text) (ps : Assoc Text) (out : List Text)
    → All IsParam (p ∷ ps)
    → finish (split_loop b',' (in_state out [] false) (print_params (p ∷ ps)))
      ≡ out ++ map print_param (p ∷ ps)
unfolding print_params split_loop split_step
split_params p [] out h =
    ap (λ t. finish (split_loop b',' (in_state out [] false) t)) (sym (append-nil (print_param p)))
    ∙ ap finish (split_param p out [] h.0)
    ∙ rw (print_param-nonempty p) refl
split_params p (q ∷ ps) out h =
    ap finish (split_param p out (b',' ∷ print_params (q ∷ ps)) h.0)
    ∙ split_params q ps (out ++ print_param p ∷ []) h.1
    ∙ append_assoc out (print_param p ∷ []) (map print_param (q ∷ ps))

-- The parameters as the loop reads them: a byte of a value that is no UTF-8 is U+FFFD.
abbrev pub repaired_param : Text × Text → Text × Text
repaired_param (key, value) = (key, repaired value)

pub repaired_param-IsParam :
    (ps : Assoc Text) → All IsParam ps → All IsParam (map repaired_param ps)
repaired_param-IsParam [] h = tt
repaired_param-IsParam ((key, value) ∷ ps) ((kq, kc, ke, ks, vq), hs) =
    ((kq, kc, ke, ks, repaired-Lacks b'"' (omega arith) value vq), repaired_param-IsParam ps hs)

-- A printed parameter with an end, and what follows, are read each by itself.
repaired-print_param :
    (p : Text × Text) (rest : Text)
    → IsParam p
    → repaired (print_param p ++ rest) ≡ print_param (repaired_param p) ++ repaired rest
repaired-print_param (key, value) rest (kq, kc, ke, (ks, ka), vq) =
    ap repaired (
      append_assoc key (b'=' ∷ b'"' ∷ (value ++ b'"' ∷ [])) rest
      ∙ ap (λ t. key ++ (b'=' ∷ b'"' ∷ t)) (append_assoc value (b'"' ∷ []) rest))
    ∙ repaired-clear key (b'=' ∷ b'"' ∷ (value ++ b'"' ∷ rest)) ka
    ∙ ap (λ t. key ++ t)
        (repaired_ascii b'=' _ (omega arith)
          ∙ ap (λ t. b'=' ∷ t)
              (repaired_ascii b'"' _ (omega arith)
                ∙ ap (λ t. b'"' ∷ t) (repaired-append b'"' (omega arith) value rest)))
    ∙ sym (
        append_assoc key (b'=' ∷ b'"' ∷ (repaired value ++ b'"' ∷ [])) (repaired rest)
        ∙ ap (λ t. key ++ (b'=' ∷ b'"' ∷ t))
            (append_assoc (repaired value) (b'"' ∷ []) (repaired rest)))

pub repaired-print_params :
    (ps : Assoc Text)
    → All IsParam ps
    → repaired (print_params ps) ≡ print_params (map repaired_param ps)
unfolding print_params repaired repaired_from
repaired-print_params [] h = refl
repaired-print_params (p ∷ []) h =
    ap repaired (sym (append-nil (print_param p)))
    ∙ repaired-print_param p [] h.0
    ∙ append-nil (print_param (repaired_param p))
repaired-print_params (p ∷ q ∷ ps) h =
    repaired-print_param p (b',' ∷ print_params (q ∷ ps)) h.0
    ∙ ap (λ t. print_param (repaired_param p) ++ t)
        (repaired_ascii b',' _ (omega arith)
          ∙ ap (λ t. b',' ∷ t) (repaired-print_params (q ∷ ps) h.1))
