-- ===== src/Leases/Store.antt =====
-- The queries on `execution_attempt_leases`, and its writes with the constraints of the table.
use coordinate.Base.{
  ℕ, String, Bool, true, not, ◌&&◌, Option, none, some, List, [], ◌∷◌, ◌++◌, ltb, leb, ◌==◌,
  nat_dec_eq, string_dec_eq, ok, ◌>>◌, guard,
}
use text.Mathlib.Text.{starts_with}
use coordinate.Text.{char_count}
use coordinate.Table.{find?, select, exists, update, length, is_some}
use coordinate.Schema.{Lease, LeaseStatus, released, is_active}
use coordinate.Resources.{Platform, validate_resource_key_matches}
use coordinate.Leases.Checks.{
  R, tampered, unique_lease_id, unique_attempt, unique_active_resource, check_failed, wrap,
}

abbrev pub has_id : String → Lease → Bool
has_id lease_id x = x.lease_id == lease_id

abbrev pub of_attempt : String → ℕ → Lease → Bool
of_attempt job_id token x = x.job_id == job_id && x.attempt_token == token

-- resource_key = ? AND status = 'active'
abbrev pub holds : String → Lease → Bool
holds key x = x.resource_key == key && is_active x.status

-- agent_id = ? AND status = 'active' AND expires_at > ?
abbrev pub occupies : String → ℕ → Lease → Bool
occupies agent now x = x.agent_id == agent && (is_active x.status && ltb now x.expires_at)

-- status = 'active' AND expires_at <= ?
abbrev pub is_due : ℕ → Lease → Bool
is_due now x = is_active x.status && leb x.expires_at now

module _ (lib : Platform) where
  unfoldable pub validate_stored_resource : Lease → R Unit
  validate_stored_resource x =
      wrap tampered (
        validate_resource_key_matches lib x.resource_kind x.host_id x.normalized_path
          x.resource_key)

  -- for row in rows: _validate_stored_resource(row)
  unfoldable pub validate_all : List Lease → R Unit
  validate_all [] = ok tt
  validate_all (x ∷ xs) = do validate_stored_resource x; validate_all xs

  unfoldable pub count_active_leases_for_agent : List Lease → String → ℕ → R ℕ
  count_active_leases_for_agent leases agent now = do
    let rows = select (occupies agent now) leases
    validate_all rows
    ok (length rows)

  unfoldable pub find_active_resource_lease : List Lease → String → R (Option Lease)
  find_active_resource_lease leases key = do
    let rows = select (holds key) leases
    validate_all rows
    ok (find? (holds key) leases)

-- CHECK (status != 'released' OR (released_at IS NOT NULL AND release_reason IS NOT NULL))
-- CHECK (status = 'released' OR (released_at IS NULL AND release_reason IS NULL))
release_check : LeaseStatus → Option ℕ → Option String → Bool
release_check released at reason = is_some at && is_some reason
release_check _ at reason = not (is_some at) && not (is_some reason)

-- CHECK (released_at IS NULL OR released_at >= acquired_at)
released_after : Option ℕ → ℕ → Bool
released_after none acquired = true
released_after (some t) acquired = leb acquired t

-- CHECK (release_reason IS NULL OR length(release_reason) BETWEEN 1 AND 256)
reason_check : Option String → Bool
reason_check none = true
reason_check (some s) = leb 1 (char_count s) && leb (char_count s) 256

-- GLOB 'sha256:*' AND length(...) = 71
digest_check : String → Bool
digest_check s = starts_with s "sha256:" && char_count s == 71

-- The CHECK clauses of the table.
unfoldable pub row_checks : Lease → Bool
unfolding release_check released_after reason_check digest_check
row_checks x =
    (leb 1 x.attempt_token && (leb 1 (char_count x.host_id) && leb (char_count x.host_id) 64))
    && (x.resource_kind == "worktree" && digest_check x.resource_key)
    && (leb 1 (char_count x.normalized_path) && leb (char_count x.normalized_path) 4096)
    && digest_check x.capacity_policy_id
    && (leb 1 x.max_concurrent_jobs && leb x.max_concurrent_jobs 32)
    && (leb x.acquired_at x.renewed_at && leb x.renewed_at x.expires_at)
    && release_check x.status x.released_at x.release_reason
    && released_after x.released_at x.acquired_at
    && reason_check x.release_reason

-- INSERT of an active row: the primary key, UNIQUE(job_id, attempt_token), the partial unique index
-- on the resource of active rows, and the CHECK clauses.
unfoldable pub insert_lease : List Lease → Lease → R (List Lease)
insert_lease rows x = do
  guard (not (is_some (find? (has_id x.lease_id) rows))) unique_lease_id
  guard (not (is_some (find? (of_attempt x.job_id x.attempt_token) rows))) unique_attempt
  guard (not (is_some (find? (holds x.resource_key) rows))) unique_active_resource
  guard (row_checks x) check_failed
  ok (rows ++ x ∷ [])

-- UPDATE ... SET f WHERE lease_id = ?, for an f that makes no row active.
unfoldable pub update_lease : List Lease → String → (Lease → Lease) → R (List Lease)
update_lease rows lease_id f = do
  guard (not (exists (λ x. has_id lease_id x && not (row_checks (f x))) rows)) check_failed
  ok (update (has_id lease_id) f rows)
