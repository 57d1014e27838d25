-- ===== src/Leases/Due.antt =====
-- Expiring by the ids of the due rows is expiring the due rows, since ids are unique.
use coordinate.Base.{
  ℕ, ◌≤◌, String, ◌≡◌, refl, ap, ◌∙◌, Bool, false, List, [], ◌∷◌, map, arith, ◌==◌, nat_dec_eq,
  string_dec_eq, inl, inr, Bool-cases, if◌then◌else◌,
}
use coordinate.Table.{select, update, exists, count_where, All, All-of_count_zero}
use coordinate.Schema.{Lease}
use coordinate.Leases.Store.{has_id, is_due}
use coordinate.Leases.Lifecycle.{expiring}

module _ {ℓ} {A : Type ℓ} (f : A → A) where
  update_cong :
      (p q : A → Bool) (xs : List A) → All (λ x. p x ≡ q x) xs → update p f xs ≡ update q f xs
  update_cong p q [] h = refl
  update_cong p q (x ∷ xs) h = ground (arith, update_cong p q xs h.1)

module _ (p : Lease → Bool) where
  -- x.lease_id IN (the ids of the selected rows)
  abbrev pub listed : List Lease → Lease → Bool
  listed rows x = exists (λ i. i == x.lease_id) (map (λ (y : Lease). y.lease_id) (select p rows))

  not_listed :
      (rows : List Lease) (x : Lease)
      → All (λ z. has_id x.lease_id z ≡ false) rows
      → listed rows x ≡ false
  not_listed [] x h = refl
  not_listed (z ∷ rows) x h = elim (Bool-cases (p z)) [
    | inl e ↦ rw e (ground (arith, h.0, not_listed rows x h.1))
    | inr e ↦ rw e (not_listed rows x h.1)
  ]

  listed_skip :
      (x : Lease) (rows zs : List Lease)
      → All (λ z. has_id x.lease_id z ≡ false) zs
      → All (λ z. listed (x ∷ rows) z ≡ listed rows z) zs
  listed_skip x rows [] h = tt
  listed_skip x rows (z ∷ zs) h = elim (Bool-cases (p x)) [
    | inl e ↦ (rw e (ground (arith, h.0)), listed_skip x rows zs h.1)
    | inr e ↦ (rw e refl, listed_skip x rows zs h.1)
  ]

  listed_self :
      (x : Lease) (rows : List Lease)
      → All (λ z. has_id x.lease_id z ≡ false) rows
      → listed (x ∷ rows) x ≡ p x
  listed_self x rows h = elim (Bool-cases (p x)) [
    | inl e ↦ rw e (ground arith)
    | inr e ↦ rw e (not_listed rows x h)
  ]

  pub update-listed :
      (f : Lease → Lease) (rows : List Lease)
      → ((i : String) → count_where (has_id i) rows ≤ 1)
      → update (listed rows) f rows ≡ update p f rows
  update-listed f [] h = refl
  update-listed f (x ∷ rows) h =
      let others = All-of_count_zero (has_id x.lease_id) rows (ground (arith, h x.lease_id)) in
      ap (λ b. (if b then f x else x) ∷ update (listed (x ∷ rows)) f rows)
        (listed_self x rows others)
      ∙ ap (λ t. (if p x then f x else x) ∷ t)
          (update_cong f (listed (x ∷ rows)) (listed rows) rows (listed_skip x rows rows others)
            ∙ update-listed f rows (λ i. ground (arith, h i)))

-- After the expiry no row is due.
pub none_due :
    (now : ℕ) (rows : List Lease) → count_where (is_due now) (update (is_due now) expiring rows) ≡ 0
none_due now [] = refl
none_due now (x ∷ rows) = ground (arith, none_due now rows)
