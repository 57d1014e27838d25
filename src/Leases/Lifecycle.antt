-- ===== src/Leases/Lifecycle.antt =====
-- Renewal, release and expiry of one lease, and the expiry of all due leases.
use coordinate.Base.{
  ℕ, String, not, Option, none, some, List, map, leb, ◌==◌, nat_dec_eq, string_dec_eq,
  if◌then◌else◌, ok, err, ◌>>=◌, ◌>>◌, guard, require,
}
use coordinate.Json.{Json}
use coordinate.Table.{find?, select, update, exists}
use coordinate.Schema.{Db, Lease, LeaseStatus, active, released, expired, is_active}
use coordinate.Resources.{Platform}
use coordinate.Leases.Checks.{
  R, validate_ttl, validate_attempt_token, validate_lease_id, validate_release_reason, not_found,
  job_mismatch, token_mismatch, agent_mismatch, not_active, lease_expired, lease_released,
  renewal_not_later, other_reason,
}
use coordinate.Leases.Store.{has_id, is_due, validate_stored_resource, validate_all, update_lease}
use coordinate.Leases.Reserve.{compute_expires}

-- The tuple that names one lease exactly.
pub record Holder : Type 0 where
  pub lease_id : Json
  pub job_id : String
  pub attempt_token : Json
  pub agent_id : String

abbrev pub renewal : ℕ → ℕ → Lease → Lease
renewal now expires x = record x { renewed_at = now; expires_at = expires }

abbrev pub releasing : ℕ → String → Lease → Lease
releasing now reason x = record x {
  status = released;
  released_at = some now;
  release_reason = some reason;
}

abbrev pub expiring : Lease → Lease
expiring x = record x { status = expired }

-- The part of `release_attempt_lease` and `expire_attempt_lease` that reads the status.
pub data Verdict : Type 0 where
  settled write : Verdict

unfoldable pub release_verdict : LeaseStatus → Option String → String → R Verdict
release_verdict active stored reason = ok write
release_verdict released none reason = err other_reason
release_verdict released (some s) reason = if s == reason then ok settled else err other_reason
release_verdict expired stored reason = err lease_expired

unfoldable pub expire_verdict : LeaseStatus → R Verdict
expire_verdict active = ok write
expire_verdict expired = ok settled
expire_verdict released = err lease_released

module _ (lib : Platform) where
  -- The row that the tuple names, with its stored resource validated.
  unfoldable pub locate : List Lease → Holder → String → ℕ → R Lease
  locate rows h lease_id token = do
    x ← require (find? (has_id lease_id) rows) not_found
    validate_stored_resource lib x
    guard (x.job_id == h.job_id) job_mismatch
    guard (x.attempt_token == token) token_mismatch
    guard (x.agent_id == h.agent_id) agent_mismatch
    ok x

  unfoldable pub require_active_unexpired_lease : Db → ℕ → Holder → R Lease
  require_active_unexpired_lease db now h = do
    lease_id ← validate_lease_id h.lease_id
    token ← validate_attempt_token h.attempt_token
    x ← locate db.leases h lease_id token
    guard (is_active x.status) not_active
    guard (not (leb x.expires_at now)) lease_expired
    ok x

  -- The clock is read for the test of expiry and again for the renewal.
  unfoldable pub renew_attempt_lease : Db → ℕ → ℕ → Holder → Json → R (Lease × Db)
  renew_attempt_lease db test_now now h ttl_seconds = do
    ttl ← validate_ttl ttl_seconds
    x ← require_active_unexpired_lease db test_now h
    let new_expires = compute_expires now ttl
    guard (not (leb new_expires x.expires_at)) renewal_not_later
    rows ← update_lease db.leases x.lease_id (renewal now new_expires)
    ok (renewal now new_expires x, record db { leases = rows })

  unfoldable pub finish_release : Db → ℕ → String → Lease → Verdict → R (Lease × Db)
  finish_release db now reason x settled = ok (x, db)
  finish_release db now reason x write = do
    rows ← update_lease db.leases x.lease_id (releasing now reason)
    ok (releasing now reason x, record db { leases = rows })

  unfoldable pub release_attempt_lease : Db → ℕ → Holder → Json → R (Lease × Db)
  unfolding finish_release
  release_attempt_lease db now h raw_reason = do
    lease_id ← validate_lease_id h.lease_id
    reason ← validate_release_reason raw_reason
    token ← validate_attempt_token h.attempt_token
    x ← locate db.leases h lease_id token
    verdict ← release_verdict x.status x.release_reason reason
    finish_release db now reason x verdict

  unfoldable pub finish_expiry : Db → Lease → Verdict → R (Lease × Db)
  finish_expiry db x settled = ok (x, db)
  finish_expiry db x write = do
    rows ← update_lease db.leases x.lease_id expiring
    ok (expiring x, record db { leases = rows })

  unfoldable pub expire_attempt_lease : Db → Holder → R (Lease × Db)
  unfolding finish_expiry
  expire_attempt_lease db h = do
    lease_id ← validate_lease_id h.lease_id
    token ← validate_attempt_token h.attempt_token
    x ← locate db.leases h lease_id token
    verdict ← expire_verdict x.status
    finish_expiry db x verdict

  -- The rows whose id is among the selected ones.
  unfoldable pub expire_due_attempt_leases : Db → ℕ → R (List String × Db)
  expire_due_attempt_leases db now = do
    let due = select (is_due now) db.leases
    validate_all lib due
    let ids = map (λ (x : Lease). x.lease_id) due
    let rows = update (λ x. exists (λ i. i == x.lease_id) ids) expiring db.leases
    ok (ids, record db { leases = rows })
