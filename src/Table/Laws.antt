-- ===== src/Table/Laws.antt =====
-- How the statements act on conditions, counts and row predicates.
use coordinate.Base.{
  ℕ, zero, suc, ◌+◌, ◌≤◌, ◌≡◌, refl, Bool, true, none, some, List, [], ◌∷◌, ◌++◌, arith, inl, inr,
  Bool-cases,
}
use mathlib.Core.Option
use coordinate.Table.Rows.{find?, select, count_where, update, updated, length, take, All}

module _ {ℓ κ} {A : Type ℓ} (P : A → Type κ) where
  pub All-append : (xs ys : List A) → All P xs → All P ys → All P (xs ++ ys)
  All-append [] ys hx hy = hy
  All-append (x ∷ xs) ys hx hy = (hx.0, All-append xs ys hx.1 hy)

  pub All-update :
      (q : A → Bool) (f : A → A) (xs : List A)
      → ((x : A) → q x ≡ true → P x → P (f x))
      → All P xs
      → All P (update q f xs)
  All-update q f [] step h = h
  All-update q f (x ∷ xs) step h = elim (Bool-cases (q x)) [
    | inl e ↦ rw e (step x e h.0, All-update q f xs step h.1)
    | inr e ↦ rw e (h.0, All-update q f xs step h.1)
  ]

  pub All-find? : (q : A → Bool) (xs : List A) {x : A} → All P xs → find? q xs ≡ some x → P x
  All-find? q [] h e = cc
  All-find? q (y ∷ xs) {x} h e = elim (Bool-cases (q y)) [
    | inl t ↦ let p : some y ≡ some x = rw t at e in ground (arith, h.0)
    | inr t ↦ All-find? q xs h.1 (rw t at e)
  ]

  pub All-select : (q : A → Bool) (xs : List A) → All P xs → All P (select q xs)
  All-select q [] h = h
  All-select q (x ∷ xs) h = elim (Bool-cases (q x)) [
    | inl e ↦ rw e (h.0, All-select q xs h.1)
    | inr e ↦ rw e (All-select q xs h.1)
  ]

module _ {ℓ} {A : Type ℓ} where
  pub find?-holds : (p : A → Bool) (xs : List A) (x : A) → find? p xs ≡ some x → p x ≡ true
  find?-holds p [] x e = cc
  find?-holds p (y ∷ xs) x e = ground (arith, find?-holds p xs x)

  pub count-append :
      (p : A → Bool) (xs ys : List A)
      → count_where p (xs ++ ys) ≡ count_where p xs + count_where p ys
  count-append p [] ys = omega arith
  count-append p (x ∷ xs) ys = omega (arith, count-append p xs ys)

  -- What selects no row counts none.
  pub count_of_find?-none : (p : A → Bool) (xs : List A) → find? p xs ≡ none → count_where p xs ≡ 0
  count_of_find?-none p [] e = refl
  count_of_find?-none p (x ∷ xs) e = ground (arith, count_of_find?-none p xs)

  -- An UPDATE that makes no row meet the condition anew does not raise the count.
  pub count-update-le :
      (p q : A → Bool) (f : A → A) (xs : List A)
      → ((x : A) → q x ≡ true → p (f x) ≡ true → p x ≡ true)
      → count_where p (update q f xs) ≤ count_where p xs
  count-update-le p q f [] keep = omega arith
  count-update-le p q f (x ∷ xs) keep = ground (arith, keep x, count-update-le p q f xs keep)

  -- A weaker condition counts at least as many rows.
  pub count_mono :
      (p q : A → Bool) (xs : List A)
      → ((x : A) → p x ≡ true → q x ≡ true)
      → count_where p xs ≤ count_where q xs
  count_mono p q [] imp = omega arith
  count_mono p q (x ∷ xs) imp = ground (arith, imp x, count_mono p q xs imp)

  -- A lookup after an UPDATE that does not touch what the lookup compares.
  pub find?-update :
      (p q : A → Bool) (f : A → A) (xs : List A)
      → ((x : A) → p (f x) ≡ p x)
      → find? p (update q f xs) ≡ Option.map (updated q f) (find? p xs)
  find?-update p q f [] keep = refl
  find?-update p q f (x ∷ xs) keep = ground (arith, keep x, find?-update p q f xs keep)

  -- The condition for which nothing was found does not hinder a lookup of the row put behind.
  pub find?-append_new :
      (p : A → Bool) (xs : List A) (x : A)
      → find? p xs ≡ none
      → p x ≡ true
      → find? p (xs ++ x ∷ []) ≡ some x
  find?-append_new p [] x e h = rw h
  find?-append_new p (y ∷ xs) x e h = ground (arith, find?-append_new p xs x)

  pub find?-append_old :
      (p : A → Bool) (xs ys : List A) (x : A) → find? p xs ≡ some x → find? p (xs ++ ys) ≡ some x
  find?-append_old p [] ys x e = cc
  find?-append_old p (y ∷ xs) ys x e = ground (arith, find?-append_old p xs ys x)

  -- An UPDATE whose condition no row meets changes nothing.
  pub update_none :
      (q : A → Bool) (f : A → A) (xs : List A) → count_where q xs ≡ 0 → update q f xs ≡ xs
  update_none q f [] h = refl
  update_none q f (x ∷ xs) h = ground (arith, update_none q f xs)

  pub length-take-le : (n : ℕ) (xs : List A) → length (take n xs) ≤ n
  length-take-le zero xs = omega arith
  length-take-le (suc n) [] = omega arith
  length-take-le (suc n) (x ∷ xs) = omega (arith, length-take-le n xs)

  pub length-append : (xs ys : List A) → length (xs ++ ys) ≡ length xs + length ys
  length-append [] ys = omega arith
  length-append (x ∷ xs) ys = omega (arith, length-append xs ys)
