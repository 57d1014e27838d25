-- ===== src/Reap/Expire.antt =====
-- `_require_active_lease_for_reap`, `_expire_revalidated_lease` and `_reap_one_lease`.
-- What a failing call has written stays in the caller's transaction until it is rolled back, so the
-- database comes back beside the error too.
use Prim.Native.String.{◌++◌ as ◌⧺◌}
use coordinate.Base.{
  ℕ, String, Bool, true, false, ◌&&◌, Option, none, some, leb, ◌==◌, nat_dec_eq, string_dec_eq,
  if◌then◌else◌, Result, ok, err, ◌>>=◌, ◌>>◌, guard, require,
}
use coordinate.Json.{Json, null, bool, int, text, obj, Fields, end, field}
use coordinate.Table.{find?, update}
use coordinate.Schema.{Db, Lease, Job, JobStatus, running, timed_out, is_active, expired}
use coordinate.Resources.{Platform}
use coordinate.Leases.Checks.{LeaseError}
use coordinate.Leases.Store.{has_id, validate_stored_resource, update_lease}
use coordinate.Events.Log.{DbError, NewEvent, append_event}

-- `RuntimeLeaseError` by its condition, and `LeaseError` for the races that the caller skips.
pub data ReapError : Type 0 where
  lease_missing snapshot_invalid job_differs token_differs agent_differs : ReapError
  no_longer_active no_longer_due : ReapError
  job_missing inconsistent cas_failed check_refused : ReapError
  log_failed : DbError → ReapError

-- What `except LeaseError` catches.
abbrev pub is_benign : ReapError → Bool
is_benign no_longer_active = true
is_benign no_longer_due = true
is_benign _ = false

abbrev pub R : Type 0 → Type 0
R A = Result ReapError A

-- The clock and the ids of the two new events.
pub record ReapInput : Type 0 where
  pub actor : String
  pub now : ℕ
  pub lease_event_id : String
  pub job_event_id : String
  pub log_now : ℕ

pub record Outcome : Type 0 where
  pub lease_id : String
  pub job_id : String
  pub attempt_token : ℕ
  pub agent_id : String

abbrev pub lease_default_ttl_seconds : ℕ
lease_default_ttl_seconds = 120

-- SET status = 'expired', renewed_at = expires_at
abbrev pub reaping : Lease → Lease
reaping x = record x { status = expired; renewed_at = x.expires_at }

abbrev pub is_running : JobStatus → Bool
is_running running = true
is_running _ = false

-- id = ? AND status = 'running' AND attempt_count = ?
abbrev pub is_attempt : String → ℕ → Job → Bool
is_attempt job_id token j = j.id == job_id && (is_running j.status && j.attempt_count == token)

-- job["last_activity_at"] or now, as a number
abbrev pub or_now : Option ℕ → ℕ → ℕ
or_now none now = now
or_now (some t) now = t

abbrev pub or_empty : Option String → String
or_empty none = ""
or_empty (some s) = s

-- `_job_progress`
abbrev pub job_progress : Option Fields → Fields
job_progress none = end
job_progress (some p) = p

abbrev pub timeout_result : ℕ → Job → Fields
timeout_result now j = field "kind" (text "execution_lease_expired") (
    field "configured_budget_seconds" (int lease_default_ttl_seconds) (
      field "last_activity_at" (int (or_now j.last_activity_at now)) (
        field "session_id" (text (or_empty j.terminal_session_id)) (
          field "progress" (obj (job_progress j.progress))
            (field "resume_allowed" (bool true) end)))))

-- UPDATE jobs SET status = 'timed_out', ..., recoverable = 1
abbrev pub timing_out : ℕ → Fields → Job → Job
timing_out now timeout j = record j {
  status = timed_out;
  result = some (
      field "response_text" (text "Lease expired; job is recoverable.")
        (field "timeout" (obj timeout) end));
  completed_at = some now;
  last_activity_at = some now;
  recoverable = true;
  updated_at = now;
}

abbrev pub optional : Option String → Json
optional none = null
optional (some s) = text s

abbrev pub lease_event : ReapInput → Lease → Job → NewEvent
lease_event i x j = record {
  event_type = "execution_lease.expired";
  actor = i.actor;
  workspace_id = some j.workspace_id;
  target = some x.agent_id;
  task_id = j.task_id;
  causation_id = none;
  idempotency_key = some ("runtime:lease:" ⧺ (x.lease_id ⧺ ":expired"));
  payload = field "lease_id" (text x.lease_id) (
      field "job_id" (text x.job_id) (
        field "attempt_token" (int x.attempt_token) (
          field "expires_at" (int x.expires_at)
            (field "reaped_at" (int i.now) (field "resource_key" (text x.resource_key) end)))));
}

abbrev pub timeout_event : ReapInput → Lease → Job → NewEvent
timeout_event i x j = record {
  event_type = "job.timed_out";
  actor = i.actor;
  workspace_id = some j.workspace_id;
  target = some x.agent_id;
  task_id = j.task_id;
  causation_id = none;
  idempotency_key = some ("runtime:job:" ⧺ (x.job_id ⧺ ":timed_out:lease_expired"));
  payload = field "job_id" (text x.job_id) (
      field "agent_id" (text x.agent_id) (
        field "status" (text "timed_out") (
          field "reason" (text "execution_lease_expired") (
            field "lease_id" (text x.lease_id)
              (field "timeout" (obj (timeout_result i.now j)) end)))));
}

-- The two events, in this order.
unfoldable pub log_expiry : Db → ReapInput → Lease → Job → R Outcome × Db
log_expiry db i x j = elim (append_event db i.log_now i.lease_event_id (lease_event i x j)) [
  | err e ↦ (err (log_failed e), db)
  | ok (_, db₁) ↦ elim (append_event db₁ i.log_now i.job_event_id (timeout_event i x j)) [
    | err e ↦ (err (log_failed e), db₁)
    | ok (_, db₂) ↦ (
      ok (record {
        lease_id = x.lease_id;
        job_id = x.job_id;
        attempt_token = x.attempt_token;
        agent_id = x.agent_id;
      }),
      db₂,
    )
  ]
]

-- job["status"] == "running" and the attempt and the agent are those of the lease
abbrev pub is_consistent : Lease → Job → Bool
is_consistent x j =
    is_running j.status && (j.attempt_count == x.attempt_token && j.assigned_agent == x.agent_id)

-- The job's row, then the events. Its `rowcount` is 0 if no row is the running attempt.
unfoldable pub time_out_job : Db → ReapInput → Lease → Job → R Outcome × Db
unfolding log_expiry
time_out_job db i x j = elim (find? (is_attempt x.job_id x.attempt_token) db.jobs) [
  | none ↦ (err cas_failed, db)
  | some _ ↦
      log_expiry
        (record db {
          jobs =
              update (is_attempt x.job_id x.attempt_token)
                (timing_out i.now (timeout_result i.now j)) db.jobs;
        })
        i x j
]

unfoldable pub expire_revalidated_lease : Db → ReapInput → Lease → R Outcome × Db
unfolding time_out_job
expire_revalidated_lease db i x = elim (find? (λ (j : Job). j.id == x.job_id) db.jobs) [
  | none ↦ (err job_missing, db)
  | some j ↦
      if is_consistent x j
      then elim (update_lease db.leases x.lease_id reaping) [
        | err _ ↦ (err check_refused, db)
        | ok rows ↦ time_out_job (record db { leases = rows }) i x j
      ]
      else (err inconsistent, db)
]

abbrev pub snapshot_valid : Result LeaseError (Unit {0}) → R Unit
snapshot_valid (ok _) = ok tt
snapshot_valid (err _) = err snapshot_invalid

module _ (lib : Platform) where
  unfoldable pub require_active_lease_for_reap : Db → ℕ → Lease → R Lease
  require_active_lease_for_reap db now seen = do
    x ← require (find? (has_id seen.lease_id) db.leases) lease_missing
    snapshot_valid (validate_stored_resource lib x)
    guard (x.job_id == seen.job_id) job_differs
    guard (x.attempt_token == seen.attempt_token) token_differs
    guard (x.agent_id == seen.agent_id) agent_differs
    guard (is_active x.status) no_longer_active
    guard (leb x.expires_at now) no_longer_due
    ok x

  -- A benign race is a skip, which is `none`.
  unfoldable pub reap_one_lease : Db → ReapInput → Lease → R (Option Outcome) × Db
  reap_one_lease db i seen = elim (require_active_lease_for_reap db i.now seen) [
    | err e ↦ if is_benign e then (ok none, db) else (err e, db)
    | ok x ↦ let (r, after) = expire_revalidated_lease db i x in ((r >>= λ o. ok (some o)), after)
  ]
