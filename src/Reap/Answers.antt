-- ===== src/Reap/Answers.antt =====
-- The summary of `reap_due_leases` against the answers of `_reap_one_lease` (runtime_lease.py).
use Prim.Native.Nat.{◌+◌}
use coordinate.Base.{
  ℕ, suc, String, ◌≡◌, refl, sym, ap, ◌∙◌, none, some, Option, List, [], ◌∷◌, ◌++◌, arith, ok, err,
}
use coordinate.Table.{length}
use coordinate.Schema.{Db, Lease}
use coordinate.Resources.{Platform}
use coordinate.Reap.Expire.{ReapError, ReapInput, Outcome, R, reap_one_lease}
use coordinate.Reap.Sweep.{Summary, settle, note, reap_step, reap_all}

abbrev pub Answer : Type 0
Answer = Lease × R (Option Outcome)

-- What the answers name rest reaped, rest failed, and how many are skips.
unfoldable pub reaped_of : List Answer → List Outcome
reaped_of [] = []
reaped_of ((x, ok (some o)) ∷ rest) = o ∷ reaped_of rest
reaped_of ((x, ok none) ∷ rest) = reaped_of rest
reaped_of ((x, err e) ∷ rest) = reaped_of rest

unfoldable pub failed_of : List Answer → List (String × ReapError)
failed_of [] = []
failed_of ((x, err e) ∷ rest) = (x.lease_id, e) ∷ failed_of rest
failed_of ((x, ok o) ∷ rest) = failed_of rest

unfoldable pub skipped_of : List Answer → ℕ
skipped_of [] = 0
skipped_of ((x, ok none) ∷ rest) = suc (skipped_of rest)
skipped_of ((x, ok (some o)) ∷ rest) = skipped_of rest
skipped_of ((x, err e) ∷ rest) = skipped_of rest

pub all_accounted :
    (rest : List Answer)
    → length (reaped_of rest) + length (failed_of rest) + skipped_of rest ≡ length rest
unfolding reaped_of failed_of skipped_of
all_accounted [] = omega arith
all_accounted ((x, ok (some o)) ∷ rest) = omega (arith, all_accounted rest)
all_accounted ((x, ok none) ∷ rest) = omega (arith, all_accounted rest)
all_accounted ((x, err e) ∷ rest) = omega (arith, all_accounted rest)

snoc_append {ℓ} : {A : Type ℓ} (xs ys : List A) (x : A) → ((xs ++ x ∷ []) ++ ys) ≡ (xs ++ x ∷ ys)
snoc_append [] ys x = refl
snoc_append (y ∷ xs) ys x = ap (λ zs. y ∷ zs) (snoc_append xs ys x)

append_nil {ℓ} : {A : Type ℓ} (xs : List A) → (xs ++ []) ≡ xs
append_nil [] = refl
append_nil (x ∷ xs) = ap (λ zs. x ∷ zs) (append_nil xs)

processed_note :
    (x : Lease) (a : R (Option Outcome)) (s : Summary) (rest : List Answer)
    → ((note x a s).processed ++ reaped_of rest) ≡ (s.processed ++ reaped_of ((x, a) ∷ rest))
unfolding reaped_of
processed_note x (ok (some o)) s rest = snoc_append s.processed (reaped_of rest) o
processed_note x (ok none) s rest = refl
processed_note x (err e) s rest = refl

errors_note :
    (x : Lease) (a : R (Option Outcome)) (s : Summary) (rest : List Answer)
    → ((note x a s).errors ++ failed_of rest) ≡ (s.errors ++ failed_of ((x, a) ∷ rest))
unfolding failed_of
errors_note x (ok (some o)) s rest = refl
errors_note x (ok none) s rest = refl
errors_note x (err e) s rest = snoc_append s.errors (failed_of rest) (x.lease_id, e)

module _ (lib : Platform) (input : Lease → ReapInput) (now : ℕ) where
  -- Each lease in turn, on the database that the one before left: its commit, or where it began.
  unfoldable pub answers : List Lease → Db → List Answer
  answers [] db = []
  answers (x ∷ xs) db =
      let (r, after) = reap_one_lease lib db (record (input x) { now = now }) x in
      (x, r) ∷ answers xs (settle db r after)

  pub length-answers : (xs : List Lease) (db : Db) → length (answers xs db) ≡ length xs
  unfolding answers
  length-answers [] db = refl
  length-answers (x ∷ xs) db = ap suc (length-answers xs _)

  pub reap_all-answers :
      (xs : List Lease) (s : Summary) (db : Db)
      → ((reap_all lib input now xs (s, db)).0.processed
          ≡ (s.processed ++ reaped_of (answers xs db)))
        × ((reap_all lib input now xs (s, db)).0.errors ≡ (s.errors ++ failed_of (answers xs db)))
  unfolding answers reap_all reap_step reaped_of failed_of
  reap_all-answers [] s db = (sym (append_nil s.processed), sym (append_nil s.errors))
  reap_all-answers (x ∷ xs) s db =
      let (r, after) = reap_one_lease lib db (record (input x) { now = now }) x in
      let (done, failed) = reap_all-answers xs (note x r s) (settle db r after) in
      (
        done ∙ processed_note x r s (answers xs (settle db r after)),
        failed ∙ errors_note x r s (answers xs (settle db r after)),
      )
