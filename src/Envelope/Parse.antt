-- ===== src/Envelope/Parse.antt =====
-- `parse_execution_lease` and `validate_execution_lease` of src/coordinate/lease_envelope.py.
use coordinate.Base.{
  ℕ, ◌-◌, String, Bool, true, false, not, ◌&&◌, Option, none, some, List, [], ◌∷◌, leb, ltb, ◌==◌,
  nat_dec_eq, string_dec_eq, Result, ok, err, ◌>>=◌, ◌>>◌, guard, require,
}
use coordinate.Json.{Json, Fields, end, field, get, int, neg, text, obj}
use coordinate.Table.{exists, is_some}
use coordinate.Resources.{
  Platform, WorktreeResource, ResourceError, build_worktree_resource, compute_resource_key,
}
use coordinate.Envelope.Fields.{
  not_an_object, wrong_keys, unsupported_version, not_a_timestamp, not_an_integer, not_worktree,
  renew_too_late, expires_too_early, ttl_mismatch, now_too_early, now_too_late, mismatch,
  invalid_resource, not_canonical, R, Clock, validate_required_string, validate_bounded_label,
  validate_lease_id, validate_digest, validate_timestamp, validate_path, validate_positive_int,
  validate_ttl, validate_max_concurrent_jobs,
}

pub record ExecutionLease : Type 0 where
  pub lease_id : String
  pub job_id : String
  pub attempt_token : ℕ
  pub agent_id : String
  pub runner_profile_id : String
  pub host_id : String
  pub resource_key : String
  pub normalized_path : String
  pub capacity_policy_id : String
  pub max_concurrent_jobs : ℕ
  pub acquired_at : String
  pub expires_at : String
  pub server_now : String
  pub ttl_seconds : ℕ
  pub renew_interval_seconds : ℕ

abbrev pub envelope_keys : List String
envelope_keys =
    "contract_version" ∷ "lease_id" ∷ "job_id" ∷ "attempt_token" ∷ "agent_id" ∷ "runner_profile_id"
    ∷ "host_id" ∷ "resource_kind" ∷ "resource_key" ∷ "normalized_path" ∷ "capacity_policy_id"
    ∷ "max_concurrent_jobs" ∷ "acquired_at" ∷ "expires_at" ∷ "server_now" ∷ "ttl_seconds"
    ∷ "renew_interval_seconds" ∷ []

unfoldable pub known_keys : Fields → Bool
known_keys end = true
known_keys (field k v m) = exists (λ name. name == k) envelope_keys && known_keys m

-- set(data.keys()) == _V1_ENVELOPE_KEYS
unfoldable pub has_envelope_keys : Fields → Bool
unfolding known_keys
has_envelope_keys value =
    known_keys value && not (exists (λ k. not (is_some (get value k))) envelope_keys)

abbrev pub check_version : Option Json → R (Unit {0})
check_version (some (int n)) = guard (n == 1) unsupported_version
check_version (some (neg n)) = err unsupported_version
check_version _ = err not_an_integer

abbrev pub read_time : Clock → String → R ℕ
read_time clock s = require (clock.strptime s) not_a_timestamp

-- The order of the three times, and the time to live between the first two.
unfoldable pub check_interval : Clock → ExecutionLease → R ExecutionLease
check_interval clock l = do
  acquired ← read_time clock l.acquired_at
  expires ← read_time clock l.expires_at
  now ← read_time clock l.server_now
  guard (ltb acquired expires) expires_too_early
  guard (expires - acquired == l.ttl_seconds) ttl_mismatch
  guard (leb acquired now) now_too_early
  guard (ltb now expires) now_too_late
  ok l

unfoldable pub read_fields : Clock → Fields → R ExecutionLease
read_fields clock value = do
  check_version (get value "contract_version")
  lease_id ← validate_lease_id (get value "lease_id")
  job_id ← validate_required_string (get value "job_id")
  attempt_token ← validate_positive_int (get value "attempt_token")
  agent_id ← validate_bounded_label (get value "agent_id")
  runner_profile_id ← validate_bounded_label (get value "runner_profile_id")
  host_id ← validate_bounded_label (get value "host_id")
  kind ← validate_required_string (get value "resource_kind")
  guard (kind == "worktree") not_worktree
  resource_key ← validate_digest (get value "resource_key")
  normalized_path ← validate_path (get value "normalized_path")
  capacity_policy_id ← validate_digest (get value "capacity_policy_id")
  max_concurrent_jobs ← validate_max_concurrent_jobs (get value "max_concurrent_jobs")
  acquired_at ← validate_timestamp clock (get value "acquired_at")
  expires_at ← validate_timestamp clock (get value "expires_at")
  server_now ← validate_timestamp clock (get value "server_now")
  ttl_seconds ← validate_ttl (get value "ttl_seconds")
  renew ← validate_positive_int (get value "renew_interval_seconds")
  guard (ltb renew ttl_seconds) renew_too_late
  ok (record {
    lease_id = lease_id;
    job_id = job_id;
    attempt_token = attempt_token;
    agent_id = agent_id;
    runner_profile_id = runner_profile_id;
    host_id = host_id;
    resource_key = resource_key;
    normalized_path = normalized_path;
    capacity_policy_id = capacity_policy_id;
    max_concurrent_jobs = max_concurrent_jobs;
    acquired_at = acquired_at;
    expires_at = expires_at;
    server_now = server_now;
    ttl_seconds = ttl_seconds;
    renew_interval_seconds = renew;
  })

unfoldable pub parse_execution_lease : Clock → Json → R ExecutionLease
unfolding has_envelope_keys read_fields check_interval
parse_execution_lease clock (obj value) = do
  guard (has_envelope_keys value) wrong_keys
  l ← read_fields clock value
  check_interval clock l
parse_execution_lease clock _ = err not_an_object

-- expected is not None and value != expected
abbrev pub as_expected : Option String → String → Bool
as_expected none value = true
as_expected (some expected) value = value == expected

abbrev pub token_as_expected : Option ℕ → ℕ → Bool
token_as_expected none value = true
token_as_expected (some expected) value = value == expected

abbrev pub is_value : Fields → String → String → Bool
is_value m key value = elim (get m key) [ some (text s) ↦ s == value | _ ↦ false ]

abbrev pub matches_context : Option Fields → ExecutionLease → Bool
matches_context none l = true
matches_context (some m) l =
    is_value m "job_id" l.job_id
    && is_value m "assigned_agent" l.agent_id
    && is_value m "host_id" l.host_id
    && is_value m "worktree_path" l.normalized_path

abbrev pub matches_binding : Option Fields → ExecutionLease → Bool
matches_binding none l = true
matches_binding (some m) l =
    is_value m "executor_instance_id" l.agent_id
    && is_value m "runner_profile_id" l.runner_profile_id

abbrev pub resource_of : Result ResourceError WorktreeResource → R WorktreeResource
resource_of (ok r) = ok r
resource_of (err e) = err invalid_resource

-- What the caller expects; a context or a binding is a dictionary.
pub record Expected : Type 0 where
  pub agent_id : Option String
  pub job_id : Option String
  pub attempt_token : Option ℕ
  pub execution_context : Option Fields
  pub executor_binding : Option Fields

unfoldable pub validate_execution_lease : Platform → Clock → Expected → Json → R ExecutionLease
unfolding parse_execution_lease
validate_execution_lease lib clock expected value = do
  l ← parse_execution_lease clock value
  guard (as_expected expected.agent_id l.agent_id) mismatch
  guard (as_expected expected.job_id l.job_id) mismatch
  guard (token_as_expected expected.attempt_token l.attempt_token) mismatch
  r ← resource_of (build_worktree_resource lib l.host_id l.normalized_path)
  guard (r.normalized_path == l.normalized_path) not_canonical
  guard (l.resource_key == compute_resource_key lib r) mismatch
  guard (matches_context expected.execution_context l) mismatch
  guard (matches_binding expected.executor_binding l) mismatch
  ok l
