-- ===== src/Examples/World.antt =====
-- One workspace with one agent: a running job, a cancelled one and a pending one.
use Prim.Native.Char.{code}
use coordinate.Base.{ℕ, String, some, none, [], ◌∷◌, leb, ◌&&◌, false}
use coordinate.Json.{text, int, obj, field, end}
use coordinate.Schema.{Db, Job, Lease, active, decoded, JobStatus}
use coordinate.Resources.{Platform}
use coordinate.Leases.Reserve.{Request, Reading, SnapshotCheck}

abbrev pub lib : Platform
lib = record {
  posix_normpath = λ s. s;
  nt_normpath = λ s. s;
  nfc = λ s. s;
  casefold = λ s. s;
  lower = λ s. s;
  is_alpha = λ c. leb b'a' (code c) && leb (code c) b'z';
  to_backslash = λ s. s;
  digest = λ _. "0123456789abcdef0123456789abcdef0123456789abcdef0123456789abcdef";
}

abbrev pub snapshot : SnapshotCheck
snapshot _ _ _ _ _ = some "/work/a"

abbrev pub job_row : String → JobStatus → ℕ → Job
job_row id status attempts = record {
  id = id;
  workspace_id = "w";
  task_id = none;
  runner_profile_id = "runner";
  assigned_agent = "ann";
  status = status;
  prompt_path = none;
  branch = none;
  worktree_path = some "/work/a";
  terminal_session_id = none;
  logs_path = none;
  attempt_count = attempts;
  timeout_seconds = none;
  payload = decoded (obj (field "execution_context" (text "context") end));
  result = none;
  created_at = 1;
  started_at = none;
  completed_at = none;
  last_activity_at = none;
  progress = none;
  recoverable = false;
  updated_at = 1;
}

abbrev pub busy : Job
busy = job_row "busy" JobStatus.running 1

abbrev pub dropped : Job
dropped = job_row "dropped" JobStatus.cancelled 1

abbrev pub waiting : Job
waiting = job_row "waiting" JobStatus.pending 0

abbrev pub world : Db
world = record {
  workspaces = record { id = "w"; path = "/work"; harness_root = "/work" } ∷ [];
  agents = "ann" ∷ [];
  runner_profiles =
      record {
        id = "runner";
        runner_type = "generic_subprocess";
        command = "run";
        working_directory_strategy = "workspace";
      }
      ∷ [];
  policies =
      record {
        agent_id = "ann";
        capacity_policy_id =
            "sha256:0123456789abcdef0123456789abcdef0123456789abcdef0123456789abcdef";
        max_concurrent_jobs = 1;
      }
      ∷ [];
  jobs = busy ∷ dropped ∷ waiting ∷ [];
  leases = [];
  events = [];
  deliveries = [];
  channel_bindings = [];
}

abbrev pub request : Request
request = record {
  job_id = "busy";
  attempt_token = int 1;
  agent_id = "ann";
  runner_profile_id = "runner";
  host_id = "host";
  worktree_path = "/work/a";
  ttl_seconds = int 60;
}

abbrev pub clock : Reading
clock = record { now = 100; count_now = 100; uuid = "lease" }

abbrev pub lease : Lease
lease = record {
  lease_id = "lease";
  job_id = "busy";
  attempt_token = 1;
  agent_id = "ann";
  runner_profile_id = "runner";
  host_id = "host";
  resource_kind = "worktree";
  resource_key = "sha256:0123456789abcdef0123456789abcdef0123456789abcdef0123456789abcdef";
  normalized_path = "/work/a";
  capacity_policy_id = "sha256:0123456789abcdef0123456789abcdef0123456789abcdef0123456789abcdef";
  max_concurrent_jobs = 1;
  status = active;
  acquired_at = 100;
  renewed_at = 100;
  expires_at = 160;
  released_at = none;
  release_reason = none;
}

-- The database once the lease is taken.
abbrev pub leased : Db
leased = record world { leases = lease ∷ [] }
