-- ===== src/Leases/Reserve.antt =====
-- `reserve_attempt_lease`: the job's authority, the replay of a reservation, the conflicts over the
-- resource and the capacity, and the new row.
use coordinate.Base.{
  ℕ, ◌+◌, String, Bool, true, false, not, ◌&&◌, Option, none, some, ltb, leb, ◌==◌, nat_dec_eq,
  string_dec_eq, if◌then◌else◌, ok, err, ◌>>=◌, ◌>>◌, guard, require,
}
use coordinate.Text.{is_empty}
use coordinate.Json.{Json, null, obj, Fields, get}
use coordinate.Table.{find?, exists}
use coordinate.Schema.{
  RunnerProfile, Db, Job, Lease, Policy, LeaseStatus, active, Column, malformed, decoded,
}
use coordinate.Resources.{Platform, build_worktree_resource, compute_resource_key}
use coordinate.Leases.Checks.{
  R, wrap, validate_ttl, validate_attempt_token, job_not_found, job_without_runner,
  job_attempt_mismatch, job_agent_mismatch, job_runner_mismatch, payload_malformed,
  payload_not_object, context_required, context_invalid, no_policy, resource_invalid,
  context_path_invalid, path_mismatch, replay_conflict, blocked_by_due, resource_held,
  capacity_exhausted, agent_missing, runner_missing,
}
use coordinate.Leases.Store.{
  of_attempt, validate_stored_resource, count_active_leases_for_agent, find_active_resource_lease,
  insert_lease,
}

-- The keyword arguments of the call.
pub record Request : Type 0 where
  pub job_id : String
  pub attempt_token : Json
  pub agent_id : String
  pub runner_profile_id : String
  pub host_id : String
  pub worktree_path : String
  pub ttl_seconds : Json

-- What the job and its context settle.
pub record Standing : Type 0 where
  pub ttl_seconds : ℕ
  pub attempt_token : ℕ
  pub worktree_path : String

-- What the checks before the first look at the leases settle.
pub record Grant : Type 0 where
  pub job_id : String
  pub attempt_token : ℕ
  pub agent_id : String
  pub runner_profile_id : String
  pub host_id : String
  pub resource_key : String
  pub normalized_path : String
  pub capacity_policy_id : String
  pub max_concurrent_jobs : ℕ
  pub ttl_seconds : ℕ

-- The returned dictionary.
pub record Receipt : Type 0 where
  pub lease_id : String
  pub job_id : String
  pub attempt_token : ℕ
  pub agent_id : String
  pub resource_key : String
  pub status : LeaseStatus
  pub expires_at : ℕ
  pub acquired_at : ℕ
  pub replayed : Bool

-- `utc_now`, each time that the call reads the clock, and the new `uuid4`.
pub record Reading : Type 0 where
  pub now : ℕ
  pub count_now : ℕ
  pub uuid : String

-- `_compute_expires`, in seconds.
abbrev pub compute_expires : ℕ → ℕ → ℕ
compute_expires acquired ttl = acquired + ttl

-- json.loads(job["payload_json"]), and the type of what it gives
unfoldable pub payload_object : Column → R Fields
payload_object malformed = err payload_malformed
payload_object (decoded (obj fields)) = ok fields
payload_object (decoded _) = err payload_not_object

-- `payload.get("execution_context")`, for which a JSON null is as good as nothing
unfoldable pub execution_context : Option Json → R Json
execution_context none = err context_required
execution_context (some null) = err context_required
execution_context (some json) = ok json

-- `_immutable_lease_fields_match`
unfoldable pub immutable_fields_match : Lease → Grant → Bool
immutable_fields_match x g =
    x.agent_id == g.agent_id
    && x.runner_profile_id == g.runner_profile_id
    && x.host_id == g.host_id
    && x.resource_key == g.resource_key
    && x.capacity_policy_id == g.capacity_policy_id
    && x.max_concurrent_jobs == g.max_concurrent_jobs

-- Whether another active lease holds the resource, and how.
unfoldable pub no_conflict : ℕ → Option Lease → R Unit
no_conflict now none = ok tt
no_conflict now (some x) =
    if leb x.expires_at now then err (blocked_by_due x.lease_id) else err (resource_held x.lease_id)

abbrev pub new_lease : Reading → Grant → Lease
new_lease clock g = record {
  lease_id = clock.uuid;
  job_id = g.job_id;
  attempt_token = g.attempt_token;
  agent_id = g.agent_id;
  runner_profile_id = g.runner_profile_id;
  host_id = g.host_id;
  resource_kind = "worktree";
  resource_key = g.resource_key;
  normalized_path = g.normalized_path;
  capacity_policy_id = g.capacity_policy_id;
  max_concurrent_jobs = g.max_concurrent_jobs;
  status = active;
  acquired_at = clock.now;
  renewed_at = clock.now;
  expires_at = compute_expires clock.now g.ttl_seconds;
  released_at = none;
  release_reason = none;
}

abbrev pub receipt : Lease → Bool → Receipt
receipt x replayed = record {
  lease_id = x.lease_id;
  job_id = x.job_id;
  attempt_token = x.attempt_token;
  agent_id = x.agent_id;
  resource_key = x.resource_key;
  status = x.status;
  expires_at = x.expires_at;
  acquired_at = x.acquired_at;
  replayed = replayed;
}

-- `validate_execution_context_snapshot`, which gives the snapshot's worktree path: from the JSON
-- value, the job, its workspace, the agent and the host.
abbrev pub SnapshotCheck : Type 0
SnapshotCheck = Json → String → String → String → String → Option String

module _ (lib : Platform) where
  -- An earlier reservation of the same attempt.
  unfoldable pub replay : Db → Grant → Lease → R (Receipt × Db)
  replay db g existing = do
    validate_stored_resource lib existing
    guard (immutable_fields_match existing g) replay_conflict
    ok (receipt existing true, db)

  unfoldable pub acquire : Db → Reading → Grant → R (Receipt × Db)
  acquire db clock g = do
    held ← find_active_resource_lease lib db.leases g.resource_key
    no_conflict clock.now held
    count ← count_active_leases_for_agent lib db.leases g.agent_id clock.count_now
    guard (ltb count g.max_concurrent_jobs) capacity_exhausted
    guard (exists (λ a. a == g.agent_id) db.agents) agent_missing
    guard (exists (λ (p : RunnerProfile). p.id == g.runner_profile_id) db.runner_profiles)
        runner_missing
    rows ← insert_lease db.leases (new_lease clock g)
    ok (receipt (new_lease clock g) false, record db { leases = rows })

  unfoldable pub admit : Db → Reading → Grant → R (Receipt × Db)
  admit db clock g = elim (find? (of_attempt g.job_id g.attempt_token) db.leases) [
    | some existing ↦ replay db g existing
    | none ↦ acquire db clock g
  ]

module _ (lib : Platform) (snapshot : SnapshotCheck) where
  -- The arguments, the job's claim to the attempt and its execution context.
  unfoldable pub check_job : Db → Request → R Standing
  check_job db r = do
    ttl ← validate_ttl r.ttl_seconds
    token ← validate_attempt_token r.attempt_token
    job ← require (find? (λ (j : Job). j.id == r.job_id) db.jobs) job_not_found
    guard (not (is_empty job.runner_profile_id)) job_without_runner
    guard (job.attempt_count == token) job_attempt_mismatch
    guard (job.assigned_agent == r.agent_id) job_agent_mismatch
    guard (job.runner_profile_id == r.runner_profile_id) job_runner_mismatch
    payload ← payload_object job.payload
    context ← execution_context (get payload "execution_context")
    path ← require (snapshot context r.job_id job.workspace_id r.agent_id r.host_id) context_invalid
    ok (record { ttl_seconds = ttl; attempt_token = token; worktree_path = path })

  -- The capacity policy and the resource, which must be that of the context.
  unfoldable pub check_resource : Db → Request → Standing → R Grant
  check_resource db r s = do
    policy ← require (find? (λ (p : Policy). p.agent_id == r.agent_id) db.policies) no_policy
    resource ← wrap resource_invalid (build_worktree_resource lib r.host_id r.worktree_path)
    expected ← wrap context_path_invalid (build_worktree_resource lib r.host_id s.worktree_path)
    guard (resource.normalized_path == expected.normalized_path) path_mismatch
    ok (record {
      job_id = r.job_id;
      attempt_token = s.attempt_token;
      agent_id = r.agent_id;
      runner_profile_id = r.runner_profile_id;
      host_id = r.host_id;
      resource_key = compute_resource_key lib resource;
      normalized_path = resource.normalized_path;
      capacity_policy_id = policy.capacity_policy_id;
      max_concurrent_jobs = policy.max_concurrent_jobs;
      ttl_seconds = s.ttl_seconds;
    })

  unfoldable pub authorize : Db → Request → R Grant
  authorize db r = do s ← check_job db r; check_resource db r s

  unfoldable pub reserve_attempt_lease : Db → Reading → Request → R (Receipt × Db)
  reserve_attempt_lease db clock r = do g ← authorize db r; admit lib db clock g
