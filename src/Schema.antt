-- ===== src/Schema.antt =====
-- The tables of schema.py and the connection's state: one record, a field for each table.
-- Timestamps of `utc_now` have one format to the second, so their order as texts is that of the
-- seconds they stand for: a timestamp is a number of seconds, and the clock is an argument.
use coordinate.Base.{ℕ, String, Bool, true, false, Option, List}
use coordinate.Json.{Json, Fields}

pub data LeaseStatus : Type 0 where
  active released expired : LeaseStatus

abbrev pub is_active : LeaseStatus → Bool
is_active active = true
is_active _ = false

pub data JobStatus : Type 0 where
  pending running done failed cancelled timed_out : JobStatus

pub data DeliveryStatus : Type 0 where
  pending sending sent failed dead : DeliveryStatus

-- A JSON column: what `json.loads` makes of its text, if it is JSON.
pub data Column : Type 0 where
  malformed : Column
  decoded : Json → Column

-- execution_attempt_leases
pub record Lease : Type 0 where
  pub lease_id : String
  pub job_id : String
  pub attempt_token : ℕ
  pub agent_id : String
  pub runner_profile_id : String
  pub host_id : String
  pub resource_kind : String
  pub resource_key : String
  pub normalized_path : String
  pub capacity_policy_id : String
  pub max_concurrent_jobs : ℕ
  pub status : LeaseStatus
  pub acquired_at : ℕ
  pub renewed_at : ℕ
  pub expires_at : ℕ
  pub released_at : Option ℕ
  pub release_reason : Option String

-- jobs; `result_json` and `progress_json` hold what `_json_dumps` wrote, an object
pub record Job : Type 0 where
  pub id : String
  pub workspace_id : String
  pub task_id : Option String
  pub runner_profile_id : String
  pub assigned_agent : String
  pub status : JobStatus
  pub prompt_path : Option String
  pub branch : Option String
  pub worktree_path : Option String
  pub terminal_session_id : Option String
  pub logs_path : Option String
  pub attempt_count : ℕ
  pub timeout_seconds : Option ℕ
  pub payload : Column
  pub result : Option Fields
  pub created_at : ℕ
  pub started_at : Option ℕ
  pub completed_at : Option ℕ
  pub last_activity_at : Option ℕ
  pub progress : Option Fields
  pub recoverable : Bool
  pub updated_at : ℕ

-- events
pub record Event : Type 0 where
  pub id : String
  pub workspace_id : Option String
  pub event_type : String
  pub actor : String
  pub target : Option String
  pub task_id : Option String
  pub causation_id : Option String
  pub idempotency_key : String
  pub payload : Fields
  pub created_at : ℕ

-- deliveries
pub record Delivery : Type 0 where
  pub id : String
  pub event_id : Option String
  pub platform : String
  pub destination : String
  pub message_key : String
  pub status : DeliveryStatus
  pub platform_message_id : Option String
  pub attempt_count : ℕ
  pub last_error : Option String
  pub payload : Fields
  pub created_at : ℕ
  pub updated_at : ℕ

-- executor_capacity_policies
pub record Policy : Type 0 where
  pub agent_id : String
  pub capacity_policy_id : String
  pub max_concurrent_jobs : ℕ

-- workspaces
pub record Workspace : Type 0 where
  pub id : String
  pub path : String
  pub harness_root : String

-- runner_profiles
pub record RunnerProfile : Type 0 where
  pub id : String
  pub runner_type : String
  pub command : String
  pub working_directory_strategy : String

-- channel_bindings
pub record ChannelBinding : Type 0 where
  pub platform : String
  pub channel_id : String
  pub workspace_id : String
  pub bound_at : ℕ

pub record Db : Type 0 where
  pub workspaces : List Workspace
  pub agents : List String
  pub runner_profiles : List RunnerProfile
  pub policies : List Policy
  pub jobs : List Job
  pub leases : List Lease
  pub events : List Event
  pub deliveries : List Delivery
  pub channel_bindings : List ChannelBinding
