-- ===== src/Reap/Sweep.antt =====
-- `reap_due_leases` and `_reap_due_leases_in_transaction`: the due leases in the order of their
-- expiry, up to the batch size, each reaped with or without a transaction of its own.
use coordinate.Base.{
  ℕ, String, Option, none, some, List, [], ◌∷◌, ◌++◌, leb, if◌then◌else◌, Result, ok, err, ◌>>=◌,
  ◌>>◌,
}
use coordinate.Table.{select, take, length}
use coordinate.Schema.{Db, Lease}
use coordinate.Resources.{Platform}
use coordinate.Leases.Checks.{LeaseError}
use coordinate.Leases.Store.{is_due, validate_all}
use coordinate.Reap.Expire.{ReapError, ReapInput, Outcome, reap_one_lease}

abbrev pub lease_reap_batch_size : ℕ
lease_reap_batch_size = 100

-- ORDER BY expires_at ASC; rows that expire together stay in the order of their rowid.
unfoldable pub place : Lease → List Lease → List Lease
place x [] = x ∷ []
place x (y ∷ ys) = if leb x.expires_at y.expires_at then x ∷ y ∷ ys else y ∷ place x ys

unfoldable pub by_expiry : List Lease → List Lease
unfolding place
by_expiry [] = []
by_expiry (x ∷ xs) = place x (by_expiry xs)

pub record Summary : Type 0 where
  pub processed : List Outcome
  pub errors : List (String × ReapError)

abbrev pub nothing_yet : Summary
nothing_yet = record { processed = []; errors = [] }

-- The answer for one lease goes into the summary; a skip does not.
abbrev pub note : Lease → Result ReapError (Option Outcome) → Summary → Summary
note x (ok none) s = s
note x (ok (some o)) s = record s { processed = s.processed ++ o ∷ [] }
note x (err e) s = record s { errors = s.errors ++ (x.lease_id, e) ∷ [] }

-- commit, or rollback to where the transaction began
abbrev pub settle : Db → Result ReapError (Option Outcome) → Db → Db
settle before (ok _) after = after
settle before (err _) after = before

pub record Reaped : Type 0 where
  pub reaped_count : ℕ
  pub due_found : ℕ
  pub summary : Summary

-- `input` gives the ids and the clock of the events of one lease; the time of the sweep is one.
module _ (lib : Platform) (input : Lease → ReapInput) (now : ℕ) where
  unfoldable pub find_due_active_leases : Db → ℕ → Result LeaseError (List Lease)
  unfolding by_expiry
  find_due_active_leases db limit = do
    let due = take limit (by_expiry (select (is_due now) db.leases))
    validate_all lib due
    ok due

  -- The body of the loop, in a transaction of its own.
  unfoldable pub reap_step : Lease → Summary × Db → Summary × Db
  reap_step x (s, db) =
      let (r, after) = reap_one_lease lib db (record (input x) { now = now }) x in
      (note x r s, settle db r after)

  unfoldable pub reap_all : List Lease → Summary × Db → Summary × Db
  unfolding reap_step
  reap_all [] st = st
  reap_all (x ∷ xs) st = reap_all xs (reap_step x st)

  -- Inside the caller's transaction an error leaves what was written before it.
  unfoldable pub reap_step_inside : Lease → Summary × Db → Summary × Db
  reap_step_inside x (s, db) =
      let (r, after) = reap_one_lease lib db (record (input x) { now = now }) x in
      (note x r s, after)

  unfoldable pub reap_all_inside : List Lease → Summary × Db → Summary × Db
  unfolding reap_step_inside
  reap_all_inside [] st = st
  reap_all_inside (x ∷ xs) st = reap_all_inside xs (reap_step_inside x st)

  abbrev pub report : List Lease → Summary × Db → Reaped × Db
  report due (s, db) =
      (record { reaped_count = length s.processed; due_found = length due; summary = s }, db)

  unfoldable pub reap_due_leases : Db → ℕ → Result LeaseError (Reaped × Db)
  reap_due_leases db batch_size = do
    due ← find_due_active_leases db batch_size
    ok (report due (reap_all due (nothing_yet, db)))

  unfoldable pub reap_due_leases_in_transaction : Db → ℕ → Result LeaseError (Reaped × Db)
  reap_due_leases_in_transaction db batch_size = do
    due ← find_due_active_leases db batch_size
    ok (report due (reap_all_inside due (nothing_yet, db)))
