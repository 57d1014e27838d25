-- ===== src/Examples/Runs.antt =====
-- What the lease functions and the reaper answer on the workspace, by computation.
use native.Mathlib.Decide.{ℕ_discrete}
use coordinate.Text.{
  is_space, is_control, char_count, any_char, all_chars, has_control, strip, is_blank,
}
use coordinate.Base.{ℕ, [], ◌∷◌, ◌≡◌, refl, ok, some, none, false, string_discrete, arith}
use coordinate.Json.{text, int}
use coordinate.Schema.{Lease, Db}
use coordinate.Resources.{
  build_worktree_resource, normalize_worktree_path, validate_host_id, compute_resource_key,
  validate_resource_key_matches,
}
use coordinate.Leases.Checks.{
  validate_ttl, validate_attempt_token, validate_lease_id, validate_release_reason,
}
use coordinate.Leases.Store.{
  insert_lease, count_active_leases_for_agent, find_active_resource_lease, validate_all,
  validate_stored_resource, row_checks, update_lease,
}
use coordinate.Leases.Reserve.{
  receipt, reserve_attempt_lease, authorize, check_job, check_resource, admit, acquire,
  payload_object, execution_context, no_conflict,
}
use coordinate.Leases.Lifecycle.{
  Holder, renewal, releasing, expiring, release_verdict, expire_verdict, locate,
  require_active_unexpired_lease, renew_attempt_lease, finish_release, release_attempt_lease,
  finish_expiry, expire_attempt_lease, expire_due_attempt_leases,
}
use coordinate.Leases.Steps.{IsIndexed}
use coordinate.Events.Log.{append_event}
use coordinate.Reap.Expire.{
  ReapInput, Outcome, log_expiry, time_out_job, expire_revalidated_lease,
  require_active_lease_for_reap, reap_one_lease,
}
use coordinate.Reap.Sweep.{
  Reaped, place, by_expiry, find_due_active_leases, reap_step, reap_all, reap_due_leases,
}
use coordinate.Reap.Exact.{at, reap_exact_lease, reap_named, validate_id, validate_utc_timestamp}
use coordinate.Examples.World.{lib, snapshot, world, clock, request, lease, leased}

pub no_leases-IsIndexed : IsIndexed []
no_leases-IsIndexed = record {
  one_id = λ i. omega arith;
  one_attempt = λ j t. omega arith;
  one_holder = λ k. omega arith;
}

pub reserved :
    reserve_attempt_lease lib snapshot world clock request ≡ ok (receipt lease false, leased)
unfolding is_space is_control char_count any_char all_chars has_control strip is_blank
    string_discrete ℕ_discrete build_worktree_resource normalize_worktree_path validate_host_id
    compute_resource_key validate_resource_key_matches validate_ttl validate_attempt_token
    validate_lease_id validate_release_reason insert_lease count_active_leases_for_agent
    find_active_resource_lease validate_all validate_stored_resource row_checks update_lease
    reserve_attempt_lease authorize check_job check_resource admit acquire payload_object
    execution_context no_conflict
reserved = refl

pub lease_valid : validate_stored_resource lib lease ≡ ok tt
unfolding is_space is_control char_count any_char all_chars has_control strip is_blank
    string_discrete ℕ_discrete build_worktree_resource normalize_worktree_path validate_host_id
    compute_resource_key validate_resource_key_matches validate_ttl validate_attempt_token
    validate_lease_id validate_release_reason insert_lease count_active_leases_for_agent
    find_active_resource_lease validate_all validate_stored_resource row_checks update_lease
lease_valid = refl

abbrev pub holder : Holder
holder = record {
  lease_id = text "lease";
  job_id = "busy";
  attempt_token = int 1;
  agent_id = "ann";
}

abbrev pub renewed : Db
renewed = record world { leases = renewal 130 190 lease ∷ [] }

pub renews :
    renew_attempt_lease lib leased 120 130 holder (int 60) ≡ ok (renewal 130 190 lease, renewed)
unfolding is_space is_control char_count any_char all_chars has_control strip is_blank
    string_discrete ℕ_discrete build_worktree_resource normalize_worktree_path validate_host_id
    compute_resource_key validate_resource_key_matches validate_ttl validate_attempt_token
    validate_lease_id validate_release_reason insert_lease count_active_leases_for_agent
    find_active_resource_lease validate_all validate_stored_resource row_checks update_lease
    release_verdict expire_verdict locate require_active_unexpired_lease renew_attempt_lease
    finish_release release_attempt_lease finish_expiry expire_attempt_lease
    expire_due_attempt_leases
renews = refl

abbrev pub ended : Lease
ended = releasing 140 "done" lease

abbrev pub freed : Db
freed = record world { leases = ended ∷ [] }

pub releases : release_attempt_lease lib leased 140 holder (text "done") ≡ ok (ended, freed)
unfolding is_space is_control char_count any_char all_chars has_control strip is_blank
    string_discrete ℕ_discrete build_worktree_resource normalize_worktree_path validate_host_id
    compute_resource_key validate_resource_key_matches validate_ttl validate_attempt_token
    validate_lease_id validate_release_reason insert_lease count_active_leases_for_agent
    find_active_resource_lease validate_all validate_stored_resource row_checks update_lease
    release_verdict expire_verdict locate require_active_unexpired_lease renew_attempt_lease
    finish_release release_attempt_lease finish_expiry expire_attempt_lease
    expire_due_attempt_leases
releases = refl

pub releases_again : release_attempt_lease lib freed 150 holder (text "done") ≡ ok (ended, freed)
unfolding is_space is_control char_count any_char all_chars has_control strip is_blank
    string_discrete ℕ_discrete build_worktree_resource normalize_worktree_path validate_host_id
    compute_resource_key validate_resource_key_matches validate_ttl validate_attempt_token
    validate_lease_id validate_release_reason insert_lease count_active_leases_for_agent
    find_active_resource_lease validate_all validate_stored_resource row_checks update_lease
    release_verdict expire_verdict locate require_active_unexpired_lease renew_attempt_lease
    finish_release release_attempt_lease finish_expiry expire_attempt_lease
    expire_due_attempt_leases
releases_again = refl

pub valid_reason : validate_release_reason (text "done") ≡ ok "done"
unfolding is_space is_control char_count any_char all_chars has_control strip is_blank
    string_discrete ℕ_discrete build_worktree_resource normalize_worktree_path validate_host_id
    compute_resource_key validate_resource_key_matches validate_ttl validate_attempt_token
    validate_lease_id validate_release_reason insert_lease count_active_leases_for_agent
    find_active_resource_lease validate_all validate_stored_resource row_checks update_lease
valid_reason = refl

pub valid_other : validate_release_reason (text "lost it") ≡ ok "lost it"
unfolding is_space is_control char_count any_char all_chars has_control strip is_blank
    string_discrete ℕ_discrete build_worktree_resource normalize_worktree_path validate_host_id
    compute_resource_key validate_resource_key_matches validate_ttl validate_attempt_token
    validate_lease_id validate_release_reason insert_lease count_active_leases_for_agent
    find_active_resource_lease validate_all validate_stored_resource row_checks update_lease
valid_other = refl

pub valid_ttl : validate_ttl (int 60) ≡ ok 60
unfolding is_space is_control char_count any_char all_chars has_control strip is_blank
    string_discrete ℕ_discrete build_worktree_resource normalize_worktree_path validate_host_id
    compute_resource_key validate_resource_key_matches validate_ttl validate_attempt_token
    validate_lease_id validate_release_reason insert_lease count_active_leases_for_agent
    find_active_resource_lease validate_all validate_stored_resource row_checks update_lease
valid_ttl = refl

abbrev pub swept : Db
swept = record world { leases = expiring lease ∷ [] }

pub sweeps : expire_due_attempt_leases lib leased 200 ≡ ok ("lease" ∷ [], swept)
unfolding is_space is_control char_count any_char all_chars has_control strip is_blank
    string_discrete ℕ_discrete build_worktree_resource normalize_worktree_path validate_host_id
    compute_resource_key validate_resource_key_matches validate_ttl validate_attempt_token
    validate_lease_id validate_release_reason insert_lease count_active_leases_for_agent
    find_active_resource_lease validate_all validate_stored_resource row_checks update_lease
    release_verdict expire_verdict locate require_active_unexpired_lease renew_attempt_lease
    finish_release release_attempt_lease finish_expiry expire_attempt_lease
    expire_due_attempt_leases
sweeps = refl

abbrev pub input : ℕ → Lease → ReapInput
input now x = record {
  actor = "reaper";
  now = now;
  lease_event_id = "event 1";
  job_event_id = "event 2";
  log_now = now;
}

abbrev pub outcome : Outcome
outcome = record { lease_id = "lease"; job_id = "busy"; attempt_token = 1; agent_id = "ann" }

-- The database once the lease is reaped.
abbrev pub reaped : Db
reaped = (reap_one_lease lib leased (input 200 lease) lease).1

pub reaps : reap_one_lease lib leased (input 200 lease) lease ≡ (ok (some outcome), reaped)
unfolding is_space is_control char_count any_char all_chars has_control strip is_blank
    string_discrete ℕ_discrete build_worktree_resource normalize_worktree_path validate_host_id
    compute_resource_key validate_resource_key_matches validate_ttl validate_attempt_token
    validate_lease_id validate_release_reason insert_lease count_active_leases_for_agent
    find_active_resource_lease validate_all validate_stored_resource row_checks update_lease
    append_event log_expiry time_out_job expire_revalidated_lease require_active_lease_for_reap
    reap_one_lease
reaps = refl

-- At an earlier time the lease is no longer due.
skips : reap_one_lease lib leased (input 120 lease) lease ≡ (ok none, leased)
unfolding is_space is_control char_count any_char all_chars has_control strip is_blank
    string_discrete ℕ_discrete build_worktree_resource normalize_worktree_path validate_host_id
    compute_resource_key validate_resource_key_matches validate_ttl validate_attempt_token
    validate_lease_id validate_release_reason insert_lease count_active_leases_for_agent
    find_active_resource_lease validate_all validate_stored_resource row_checks update_lease
    append_event log_expiry time_out_job expire_revalidated_lease require_active_lease_for_reap
    reap_one_lease
skips = refl

abbrev pub figures : Reaped
figures = record {
  reaped_count = 1;
  due_found = 1;
  summary = record { processed = outcome ∷ []; errors = [] };
}

pub reaps_all : reap_due_leases lib (input 200) 200 leased 100 ≡ ok (figures, reaped)
unfolding is_space is_control char_count any_char all_chars has_control strip is_blank
    string_discrete ℕ_discrete build_worktree_resource normalize_worktree_path validate_host_id
    compute_resource_key validate_resource_key_matches validate_ttl validate_attempt_token
    validate_lease_id validate_release_reason insert_lease count_active_leases_for_agent
    find_active_resource_lease validate_all validate_stored_resource row_checks update_lease
    append_event log_expiry time_out_job expire_revalidated_lease require_active_lease_for_reap
    reap_one_lease place by_expiry find_due_active_leases reap_step reap_all reap_due_leases
reaps_all = refl

pub reaps_exact :
    reap_exact_lease lib leased (input 200 lease) (at 200) (text "lease") (text "busy")
    ≡ ok (outcome, reaped)
unfolding is_space is_control char_count any_char all_chars has_control strip is_blank
    string_discrete ℕ_discrete build_worktree_resource normalize_worktree_path validate_host_id
    compute_resource_key validate_resource_key_matches validate_ttl validate_attempt_token
    validate_lease_id validate_release_reason insert_lease count_active_leases_for_agent
    find_active_resource_lease validate_all validate_stored_resource row_checks update_lease
    append_event log_expiry time_out_job expire_revalidated_lease require_active_lease_for_reap
    reap_one_lease reap_exact_lease reap_named validate_id validate_utc_timestamp
reaps_exact = refl
