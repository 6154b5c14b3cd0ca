-- ===== src/Base/Assoc/Laws.antt =====
-- The laws of maps.
use openwatch.Base.{
  ◌≡◌, refl, sym, ◌≢◌, inl, inr, none, some, [], ◌∷◌, arith, if◌then◌else◌, Bool-cases, All,
}
use openwatch.Base.Text.{Text, text_eq}
use openwatch.Base.Text.Equality.{text_eq_iff, text_eq_refl, text_ne, ne_of_text_eq}
use openwatch.Base.Assoc.{Assoc, lookup, insert, keys, HasDistinctKeys}

module _ {ℓ} {V : Type ℓ} where
  pub lookup-insert :
      (k j : Text) (v : V) (m : Assoc V)
      → lookup j (insert k v m) ≡ (if text_eq k j then some v else lookup j m)
  unfolding lookup insert
  lookup-insert k j v [] = refl
  lookup-insert k j v ((i, w) ∷ m) =
      ground (arith, text_eq_iff k j, text_eq_iff i k, text_eq_iff i j, lookup-insert k j v m)

  pub lookup-insert_self : (k : Text) (v : V) (m : Assoc V) → lookup k (insert k v m) ≡ some v
  lookup-insert_self k v m = rw (lookup-insert k k v m, text_eq_refl k)

  pub lookup-insert_ne :
      (k j : Text) (v : V) (m : Assoc V) → k ≢ j → lookup j (insert k v m) ≡ lookup j m
  lookup-insert_ne k j v m h = rw (lookup-insert k j v m, text_ne k j h)

  keys-insert_ne :
      (j k : Text) (v : V) (m : Assoc V)
      → j ≢ k
      → All (λ i. j ≢ i) (keys m)
      → All (λ i. j ≢ i) (keys (insert k v m))
  unfolding insert
  keys-insert_ne j k v [] ne h = (ne, tt)
  keys-insert_ne j k v ((i, w) ∷ m) ne h = elim (Bool-cases (text_eq i k)) [
    | inl e ↦ rw e h
    | inr e ↦ rw e (h.0, keys-insert_ne j k v m ne h.1)
  ]

  pub insert-HasDistinctKeys :
      (k : Text) (v : V) (m : Assoc V) → HasDistinctKeys m → HasDistinctKeys (insert k v m)
  unfolding insert
  insert-HasDistinctKeys k v [] h = (tt, tt)
  insert-HasDistinctKeys k v ((i, w) ∷ m) h = elim (Bool-cases (text_eq i k)) [
    | inl e ↦ rw e h
    | inr e ↦
        rw e (keys-insert_ne i k v m (ne_of_text_eq i k e) h.0, insert-HasDistinctKeys k v m h.1)
  ]

  pub lookup-absent : (k : Text) (m : Assoc V) → All (λ j. k ≢ j) (keys m) → lookup k m ≡ none
  unfolding lookup
  lookup-absent k [] h = refl
  lookup-absent k ((j, v) ∷ m) h = rw (text_ne j k (λ e. h.0 (sym e))) (lookup-absent k m h.1)
