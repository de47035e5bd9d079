-- ===== src/Rates/Lookup.antt =====
-- A key of a map after an assignment.
use banco.Prelude.{String, List, [], ◌∷◌, some, true, false, ◌≡◌, refl, ◌∙◌, sym, ap, lookup}
use banco.Prelude.{str_eq, eq_iff, Bool-cases, inl, inr, if◌then◌else◌}
use banco.Rates.{insert}

apart : (k key other : String) → str_eq k key ≡ true → ¬ (key ≡ other) → str_eq k other ≡ false
apart k key other same n = elim (Bool-cases (str_eq k other)) [
  | inl also ↦ absurd (n (sym ((eq_iff k key).0 same) ∙ (eq_iff k other).0 also))
  | inr differs ↦ differs
]

module _ {ℓ} {V : Type ℓ} where
  pub lookup-insert :
      (key : String) (value : V) (m : List (String × V))
      → lookup key (insert key value m) ≡ some value
  unfolding insert
  lookup-insert key value [] = rw ((eq_iff key key).1 refl) refl
  lookup-insert key value ((k, v) ∷ rest) = elim (Bool-cases (str_eq k key)) [
    | inl same ↦ rw (same, same) refl
    | inr other ↦ rw (other, other) (lookup-insert key value rest)
  ]

  pub lookup-insert_other :
      (other key : String) (value : V) (m : List (String × V))
      → ¬ (key ≡ other)
      → lookup other (insert key value m) ≡ lookup other m
  unfolding insert
  lookup-insert_other other key value [] n =
      rw (apart key key other ((eq_iff key key).1 refl) n) refl
  lookup-insert_other other key value ((k, v) ∷ rest) n = elim (Bool-cases (str_eq k key)) [
    | inl same ↦ rw (same, apart k key other same n) refl
    | inr differs ↦ rw differs (
        ap (λ r. if str_eq k other then some v else r) (lookup-insert_other other key value rest n))
  ]
