-- ===== src/Reap/Exact.antt =====
-- `reap_exact_lease` of src/coordinate/runtime_lease.py: one lease by its id, in a transaction of its
-- own, which an error rolls back.
use coordinate.Base.{
  ℕ, String, not, ◌≡◌, sym, ap, ◌∙◌, Result, ok, err, ◌>>=◌, ◌>>◌, >>=-eq-ok, guard, require, leb,
  ◌==◌, string_dec_eq, arith, some, ==_sound, guard-eq-ok, subst,
}
use coordinate.Text.{is_empty, strip, char_count, has_control}
use coordinate.Json.{Json, text}
use coordinate.Table.{find?}
use coordinate.Schema.{Db, Lease, Job}
use coordinate.Resources.{Platform}
use coordinate.Leases.Store.{has_id}
use coordinate.Reap.Expire.{
  ReapError, ReapInput, Outcome, require_active_lease_for_reap, expire_revalidated_lease,
}
use coordinate.Reap.Pairing.{Paired, require_active-Due, expire_revalidated-Paired}

pub data ExactError : Type 0 where
  id_invalid time_invalid not_there other_job : ExactError
  reap_failed : ReapError → ExactError

abbrev R : Type 0 → Type 0
R A = Result ExactError A

-- The argument `now`, or the reading of the clock in its place.
pub data Moment : Type 0 where
  at : ℕ → Moment
  not_timestamp : Moment

abbrev pub max_id_len : ℕ
max_id_len = 128

unfoldable pub validate_id : Json → R String
validate_id (text s) = do
  guard (not (is_empty s)) id_invalid
  guard (s == strip s) id_invalid
  guard (leb (char_count s) max_id_len) id_invalid
  guard (not (has_control s)) id_invalid
  ok s
validate_id _ = err id_invalid

unfoldable pub validate_utc_timestamp : Moment → R ℕ
validate_utc_timestamp (at n) = ok n
validate_utc_timestamp not_timestamp = err time_invalid

abbrev pub from_reap : {A : Type 0} → Result ReapError A → R A
from_reap (ok a) = ok a
from_reap (err e) = err (reap_failed e)

-- commit, or rollback
abbrev pub committed : Result ReapError Outcome × Db → R (Outcome × Db)
committed (ok o, after) = ok (o, after)
committed (err e, after) = err (reap_failed e)

-- The tuple that the row is tested against.
abbrev pub named : String → String → Lease → Lease
named lease_id job_id x = record x { lease_id = lease_id; job_id = job_id }

validate_id-same : (s t : String) → validate_id (text s) ≡ ok t → t ≡ s
unfolding validate_id
validate_id-same s t h = ground arith

from_reap-ok : {A : Type 0} (m : Result ReapError A) (a : A) → from_reap m ≡ ok a → m ≡ ok a
from_reap-ok (ok b) a h = ground arith
from_reap-ok (err e) a h = ground arith

committed-ok :
    (m : Result ReapError Outcome × Db) (o : Outcome) (after : Db)
    → committed m ≡ ok (o, after)
    → m ≡ (ok o, after)
committed-ok (ok b, db) o after h = ground arith
committed-ok (err e, db) o after h = ground arith

module _ (lib : Platform) where
  -- Inside the transaction.
  unfoldable pub reap_named : Db → ReapInput → ℕ → String → String → R (Outcome × Db)
  reap_named db i now lease_id job_id = do
    seen ← require (find? (has_id lease_id) db.leases) not_there
    guard (seen.job_id == job_id) other_job
    x ← from_reap (require_active_lease_for_reap lib db now (named lease_id job_id seen))
    committed (expire_revalidated_lease db (record i { now = now }) x)

  unfoldable pub reap_exact_lease : Db → ReapInput → Moment → Json → Json → R (Outcome × Db)
  reap_exact_lease db i moment raw_lease raw_job = do
    lease_id ← validate_id raw_lease
    job_id ← validate_id raw_job
    _ ← validate_id (text i.actor)
    now ← validate_utc_timestamp moment
    reap_named db i now lease_id job_id

  exact-reap_named :
      (db : Db) (i : ReapInput) (now : ℕ) (lease_id job_id : String) (r : Outcome × Db)
      → reap_exact_lease db i (at now) (text lease_id) (text job_id) ≡ ok r
      → reap_named db i now lease_id job_id ≡ ok r
  unfolding reap_exact_lease validate_utc_timestamp
  exact-reap_named db i now lease_id job_id r h =
      let (a, a_ok, h₁) = >>=-eq-ok (validate_id (text lease_id)) _ h in
      let (b, b_ok, h₂) = >>=-eq-ok (validate_id (text job_id)) _ h₁ in
      ground (arith, validate_id-same lease_id a a_ok, validate_id-same job_id b b_ok, h₂)

  -- A call that succeeds has reaped the lease of the given id for the given job: the row was active
  -- and due at the given time, its job was running in the same attempt, and these two rows, with the
  -- other rows of that attempt, are all that it writes in the tables of leases and jobs.
  pub reap_exact-Paired :
      (db : Db) (i : ReapInput) (now : ℕ) (lease_id job_id : String) (o : Outcome) (after : Db)
      → reap_exact_lease db i (at now) (text lease_id) (text job_id) ≡ ok (o, after)
      → (x : Lease) × (j : Job) × (find? (has_id lease_id) db.leases ≡ some x)
        × (x.job_id ≡ job_id)
        × Paired db now (named lease_id job_id x) x j after
  unfolding reap_named
  reap_exact-Paired db i now lease_id job_id o after h =
      let inside = exact-reap_named db i now lease_id job_id (o, after) h in
      let (seen, looked, h₁) =
        >>=-eq-ok (require (find? (has_id lease_id) db.leases) not_there) _ inside in
      let (_, mine, h₂) = >>=-eq-ok (guard (seen.job_id == job_id) other_job) _ h₁ in
      let (x, valid, h₃) =
        >>=-eq-ok
          (from_reap (require_active_lease_for_reap lib db now (named lease_id job_id seen))) _
          h₂ in
      let revalidated =
        from_reap-ok (require_active_lease_for_reap lib db now (named lease_id job_id seen)) x
          valid in
      let (found, live, due) =
        require_active-Due lib db now (named lease_id job_id seen) x revalidated in
      let done = committed-ok (expire_revalidated_lease db (record i { now = now }) x) o after h₃ in
      let (j, paired) =
        expire_revalidated-Paired db (record i { now = now }) (named lease_id job_id seen) x o after
          found live due done in
      let same : seen ≡ x = ground arith in
      let for_job = ==_sound seen.job_id job_id (guard-eq-ok (seen.job_id == job_id) _ mine) in
      (
        x,
        j,
        found,
        ap (λ (y : Lease). y.job_id) (sym same) ∙ for_job,
        subst (λ (y : Lease). Paired db now (named lease_id job_id y) x j after) same paired,
      )
