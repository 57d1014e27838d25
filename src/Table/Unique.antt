-- ===== src/Table/Unique.antt =====
-- Conditions that at most one row meets, such as an equation with a unique column.
use coordinate.Base.{
  ◌≤◌, ◌≡◌, Bool, true, false, some, none, List, [], ◌∷◌, ◌++◌, arith, Bool-cases, inl, inr,
}
use coordinate.Table.Rows.{find?, count_where, All}
use coordinate.Table.Laws.{count-append, count_of_find?-none}

module _ {ℓ} {A : Type ℓ} (p : A → Bool) where
  -- A row that comes in where none met the condition leaves it unique.
  pub count_new-le :
      (xs : List A) (x : A)
      → (p x ≡ true → find? p xs ≡ none)
      → count_where p xs ≤ 1
      → count_where p (xs ++ x ∷ []) ≤ 1
  count_new-le xs x fresh h = elim (Bool-cases (p x)) [
    | inl e ↦ ground (arith, count-append p xs (x ∷ []), count_of_find?-none p xs (fresh e))
    | inr e ↦ ground (arith, count-append p xs (x ∷ []))
  ]

  pub All-of_count_zero : (xs : List A) → count_where p xs ≡ 0 → All (λ x. p x ≡ false) xs
  All-of_count_zero [] h = tt
  All-of_count_zero (x ∷ xs) h = elim (Bool-cases (p x)) [
    | inl e ↦ absurd (ground arith)
    | inr e ↦ (e, All-of_count_zero xs (ground arith))
  ]

-- What is found by a unique condition is the only row that meets it.
pub only_row {ℓ} :
    {A : Type ℓ} (p : A → Bool) (xs : List A) (x : A)
    → count_where p xs ≤ 1
    → find? p xs ≡ some x
    → All (λ y. p y ≡ true → y ≡ x) xs
only_row p [] x h e = tt
only_row p (y ∷ xs) x h e = elim (Bool-cases (p y)) [
  | inl t ↦ ((λ _. ground arith), others xs (All-of_count_zero p xs (ground arith)))
  | inr t ↦ ((λ u. ground arith), only_row p xs x (ground arith) (ground arith))
]
  where
    others : (zs : List _) → All (λ z. p z ≡ false) zs → All (λ z. p z ≡ true → z ≡ x) zs
    others [] a = tt
    others (z ∷ zs) a = ((λ u. ground arith), others zs a.1)
