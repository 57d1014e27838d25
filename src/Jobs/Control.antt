-- ===== src/Jobs/Control.antt =====
-- `cancel_job` and `retry_job` (jobs.py).
use Prim.Native.String.{◌++◌ as ◌⧺◌}
use Prim.Native.Char.{Char, code}
use package.text.Mathlib.Text.{starts_with}
use coordinate.Base.{
  ℕ, String, Bool, true, false, not, ◌&&◌, ◌||◌, Option, none, some, ◌==◌, nat_dec_eq,
  string_dec_eq, if◌then◌else◌, ok, err, ◌>>=◌, ◌>>◌, guard,
}
use coordinate.Text.{is_empty}
use coordinate.Json.{Json, null, int, text, obj, Fields, end, field, get, pop, put}
use coordinate.Table.{find?}
use coordinate.Schema.{
  Db, Job, Lease, JobStatus, done, failed, cancelled, Workspace, Column, malformed, decoded,
  is_active,
}
use coordinate.Resources.{Platform}
use coordinate.Leases.Lifecycle.{Holder, release_attempt_lease}
use coordinate.Events.Log.{NewEvent, AppendEventResult, append_event}
use coordinate.Jobs.Errors.{
  J, job_error, completed, not_retryable, payload_malformed, payload_not_object,
  routed_resubmission, from_lease, from_db,
}
use coordinate.Jobs.Repository.{
  PathResolver, NewJob, get_job, create_job, mark_job_cancelled, status_text, optional,
}

-- The readings of the clock, and the id of the new event.
pub record CancelInput : Type 0 where
  pub actor : String
  pub reason : Option String
  pub release_now : ℕ
  pub now : ℕ
  pub event_now : ℕ
  pub event_id : String

-- status in {"done", "failed"}
abbrev pub is_completed : JobStatus → Bool
is_completed done = true
is_completed failed = true
is_completed _ = false

-- job_id = ? AND attempt_token = ? AND status = 'active'
abbrev pub held_for : String → ℕ → Lease → Bool
held_for job_id token x = x.job_id == job_id && (x.attempt_token == token && is_active x.status)

abbrev pub holder_of : Lease → Holder
holder_of x = record {
  lease_id = text x.lease_id;
  job_id = x.job_id;
  attempt_token = int x.attempt_token;
  agent_id = x.agent_id;
}

abbrev pub cancel_event : CancelInput → String → Job → NewEvent
cancel_event i id j = record {
  event_type = "job.cancelled";
  actor = i.actor;
  workspace_id = some j.workspace_id;
  target = none;
  task_id = j.task_id;
  causation_id = none;
  idempotency_key = some ("job:" ⧺ (id ⧺ ":cancelled"));
  payload = field "job_id" (text id) (
      field "status" (text "cancelled") (
        field "previous_status" (text (status_text j.status))
          (field "reason" (optional i.reason) end)));
}

pub record CancelJobResult : Type 0 where
  pub job : Job
  pub event : AppendEventResult

module _ (lib : Platform) where
  unfoldable pub release_held : Db → ℕ → Option Lease → J Db
  release_held db now none = ok db
  release_held db now (some x) = do
    (_, after) ← from_lease (release_attempt_lease lib db now (holder_of x) (text "job_cancelled"))
    ok after

  -- In one transaction, `with conn`: an error leaves the database as it was.
  unfoldable pub cancel_job : Db → CancelInput → String → J (CancelJobResult × Db)
  cancel_job db i id = do
    job ← get_job db id
    guard (not (is_completed job.status)) (job_error (completed job.status))
    freed ← release_held db i.release_now (find? (held_for id job.attempt_count) db.leases)
    (row, marked) ← mark_job_cancelled freed i.now id i.reason
    (event, after) ← from_db (append_event marked i.event_now i.event_id (cancel_event i id job))
    ok (record { job = row; event = event }, after)

-- status not in {"failed", "cancelled"}
abbrev pub is_retryable : JobStatus → Bool
is_retryable failed = true
is_retryable cancelled = true
is_retryable _ = false

-- `_job_payload`
unfoldable pub job_payload : Column → J Fields
job_payload malformed = err payload_malformed
job_payload (decoded (obj p)) = ok p
job_payload (decoded _) = err (job_error payload_not_object)

-- payload.get(k) is not None
abbrev pub has_value : Option Json → Bool
has_value none = false
has_value (some null) = false
has_value (some _) = true

-- `is_routed_job` of executor_routing.py
unfoldable pub is_routed_job : Fields → Bool
is_routed_job p = has_value (get p "routing_request") || has_value (get p "routing_decision")

abbrev pub with_reason : Option String → Fields → Fields
with_reason none p = p
with_reason (some r) p = if is_empty r then p else put p "retry_reason" (text r)

abbrev pub retry_payload : String → Option String → Fields → Fields
retry_payload id reason p =
    with_reason reason
      (put (pop (pop p "result_path") "execution_context") "retry_of_job_id" (text id))

-- path.replace("\\", "/"), for a separator that is given as a `Char`
normalize_separators : String → String
normalize_separators String.[] = String.[]
normalize_separators (String.◌∷◌ c s) =
    let rest = normalize_separators s in if code c == 92 then "/" ⧺ rest else String.◌∷◌ c rest

-- s.rstrip("/")
keep_slash : Char → String → String
keep_slash c String.[] = if code c == b'/' then String.[] else String.◌∷◌ c String.[]
keep_slash c (String.◌∷◌ d s) = String.◌∷◌ c (String.◌∷◌ d s)

rstrip_slash : String → String
unfolding keep_slash
rstrip_slash String.[] = String.[]
rstrip_slash (String.◌∷◌ c s) = keep_slash c (rstrip_slash s)

-- `classify_worktree_raw_path` of execution_resources.py, as `== "host_native"`
unfoldable pub is_host_native : String → String → Bool
unfolding normalize_separators rstrip_slash
is_host_native control_root raw_path =
    let control = rstrip_slash (normalize_separators control_root) in
    let raw = normalize_separators raw_path in
    not (raw == control || starts_with raw (control ⧺ "/"))

-- Whether the stored path is kept verbatim.
abbrev pub is_authoritative : Option Workspace → Option String → Bool
is_authoritative (some w) (some path) = if is_empty path then false else is_host_native w.path path
is_authoritative _ _ = false

pub record RetryInput : Type 0 where
  pub actor : String
  pub reason : Option String
  pub now : ℕ
  pub new_id : String
  pub event_now : ℕ
  pub event_id : String

abbrev pub retry_event : RetryInput → Job → Job → NewEvent
retry_event i source retry = record {
  event_type = "job.retry_requested";
  actor = i.actor;
  workspace_id = some source.workspace_id;
  target = none;
  task_id = source.task_id;
  causation_id = none;
  idempotency_key = none;
  payload = field "source_job_id" (text source.id) (
      field "retry_job_id" (text retry.id) (
        field "source_status" (text (status_text source.status)) (
          field "runner_profile_id" (text source.runner_profile_id)
            (field "reason" (optional i.reason) end))));
}

abbrev pub retry_arguments : Db → RetryInput → Job → Fields → NewJob
retry_arguments db i source p = record {
  workspace_id = source.workspace_id;
  task_id = source.task_id;
  runner_profile_id = source.runner_profile_id;
  assigned_agent = none;
  prompt_path = source.prompt_path;
  branch = source.branch;
  worktree_path = source.worktree_path;
  terminal_session_id = none;
  logs_path = none;
  timeout_seconds = source.timeout_seconds;
  payload = retry_payload source.id i.reason p;
  authoritative_worktree_path =
      is_authoritative (find? (λ (w : Workspace). w.id == source.workspace_id) db.workspaces)
        source.worktree_path;
}

pub record RetryJobResult : Type 0 where
  pub source_job : Job
  pub retry_job : Job
  pub event : AppendEventResult

-- The new job is committed before its event is appended.
unfoldable pub retry_job : PathResolver → Db → RetryInput → String → J (RetryJobResult × Db)
retry_job absolute_path db i id = do
  source ← get_job db id
  guard (is_retryable source.status) (job_error (not_retryable source.status))
  payload ← job_payload source.payload
  guard (not (is_routed_job payload)) (job_error routed_resubmission)
  (retry, created) ←
      create_job absolute_path db i.now i.new_id (retry_arguments db i source payload)
  (event, after) ←
      from_db (append_event created i.event_now i.event_id (retry_event i source retry))
  ok (record { source_job = source; retry_job = retry; event = event }, after)
