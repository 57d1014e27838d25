-- ===== src/Examples/Granting.antt =====
-- The theorem on lease envelopes, at an envelope of one minute.
use native.Mathlib.Decide.{ℕ_discrete}
use coordinate.Base.{
  ◌≡◌, refl, true, none, some, ◌==◌, ok, string_dec_eq, nat_dec_eq, string_discrete, if◌then◌else◌,
}
use coordinate.Json.{Fields, text, int, obj, field, end}
use coordinate.Text.{is_space, strip, has_control, char_count, all_chars, any_char}
use coordinate.Resources.{
  build_worktree_resource, normalize_worktree_path, validate_host_id, compute_resource_key,
}
use coordinate.Envelope.Fields.{
  Clock, validate_lease_id, validate_positive_int, validate_bounded_label, validate_digest,
  validate_path, validate_max_concurrent_jobs, validate_timestamp, validate_ttl,
}
use coordinate.Envelope.Parse.{ExecutionLease, Expected, validate_execution_lease}
use coordinate.Envelope.Interval.{IsLive, IsKeyed, validate_execution_lease-granted}
use coordinate.Examples.World.{lib}

abbrev minute : Clock
minute = record {
  is_timestamp = λ _. true;
  strptime = λ s.
      if s == "2026-01-01T00:00:00Z"
      then some 100
      else if s == "2026-01-01T00:00:30Z"
      then some 130
      else some 160;
}

abbrev granted : ExecutionLease
granted = record {
  lease_id = "01234567-89ab-cdef-0123-456789abcdef";
  job_id = "busy";
  attempt_token = 1;
  agent_id = "ann";
  runner_profile_id = "runner";
  host_id = "h";
  resource_key = "sha256:0123456789abcdef0123456789abcdef0123456789abcdef0123456789abcdef";
  normalized_path = "/work/a";
  capacity_policy_id = "sha256:0123456789abcdef0123456789abcdef0123456789abcdef0123456789abcdef";
  max_concurrent_jobs = 2;
  acquired_at = "2026-01-01T00:00:00Z";
  expires_at = "2026-01-01T00:01:00Z";
  server_now = "2026-01-01T00:00:30Z";
  ttl_seconds = 60;
  renew_interval_seconds = 20;
}

abbrev sent : Fields
sent = field "contract_version" (int 1) (
    field "lease_id" (text granted.lease_id) (
      field "job_id" (text granted.job_id) (
        field "attempt_token" (int 1) (
          field "agent_id" (text granted.agent_id) (
            field "runner_profile_id" (text granted.runner_profile_id) (
              field "host_id" (text granted.host_id) (
                field "resource_kind" (text "worktree") (
                  field "resource_key" (text granted.resource_key) (
                    field "normalized_path" (text granted.normalized_path) (
                      field "capacity_policy_id" (text granted.capacity_policy_id) (
                        field "max_concurrent_jobs" (int 2) (
                          field "acquired_at" (text granted.acquired_at) (
                            field "expires_at" (text granted.expires_at) (
                              field "server_now" (text granted.server_now) (
                                field "ttl_seconds" (int 60)
                                  (field "renew_interval_seconds" (int 20) end))))))))))))))))

abbrev wanted : Expected
wanted = record {
  agent_id = some "ann";
  job_id = some "busy";
  attempt_token = some 1;
  execution_context = none;
  executor_binding =
      some
        (field "executor_instance_id" (text "ann") (field "runner_profile_id" (text "runner") end));
}

accepted : validate_execution_lease lib minute wanted (obj sent) ≡ ok granted
unfolding string_discrete ℕ_discrete build_worktree_resource normalize_worktree_path
    validate_host_id compute_resource_key validate_execution_lease is_space strip validate_lease_id
    validate_positive_int validate_bounded_label char_count all_chars validate_digest validate_path
    any_char validate_max_concurrent_jobs validate_timestamp validate_ttl has_control
accepted = refl

validate_execution_lease-granted_example : IsLive minute granted × IsKeyed lib granted
validate_execution_lease-granted_example =
    validate_execution_lease-granted lib minute wanted (obj sent) granted accepted
