-- ===== src/Examples/Running.antt =====
-- The theorems on events and jobs, at the workspace's three jobs.
use native.Mathlib.Decide.{ℕ_discrete}
use coordinate.Base.{
  ◌≤◌, ◌≡◌, ◌⊎◌, refl, ok, err, some, none, true, false, [], ◌∷◌, ◌++◌, string_dec_eq, nat_dec_eq,
  string_discrete, arith,
}
use coordinate.Json.{Fields, end, get, obj}
use coordinate.Table.{find?, count_where}
use coordinate.Schema.{Db, decoded, pending, cancelled}
use coordinate.Events.Log.{NewEvent, AppendEventResult, append_event, event_row}
use coordinate.Events.Idempotency.{append_event_again}
use coordinate.Jobs.Repository.{
  PathResolver, is_job, succeeded, completing, mark_job_completed, get_job, mark_job_cancelled,
  cancel_row, create_job, update_jobs,
}
use coordinate.Jobs.Control.{
  CancelInput, CancelJobResult, cancel_job, release_held, held_for, is_completed, RetryInput,
  RetryJobResult, retry_job, is_retryable, job_payload, is_routed_job, is_host_native,
}
use coordinate.Jobs.Completion.{Completed, complete-Completed}
use coordinate.Jobs.Cancellation.{cancel_job-frees}
use coordinate.Jobs.Retrial.{retry_job-adds}
use coordinate.Jobs.Errors.{J}
use coordinate.Text.{
  is_space, is_control, char_count, any_char, all_chars, has_control, strip, is_blank,
}
use coordinate.Resources.{normalize_worktree_path, validate_host_id, validate_resource_key_matches}
use coordinate.Leases.Checks.{validate_attempt_token, validate_lease_id, validate_release_reason}
use coordinate.Leases.Store.{validate_stored_resource, row_checks, update_lease}
use coordinate.Leases.Lifecycle.{locate, release_verdict, finish_release, release_attempt_lease}
use coordinate.Examples.World.{lib, world, leased, busy}
use coordinate.Examples.Reserving.{leased-IsIndexed}

abbrev note : NewEvent
note = record {
  event_type = "note";
  actor = "ann";
  workspace_id = some "w";
  target = none;
  task_id = none;
  causation_id = none;
  idempotency_key = some "key";
  payload = end;
}

abbrev noted : Db
noted = record world { events = event_row 5 "e1" note ∷ [] }

abbrev first_time : AppendEventResult
first_time = record { row = event_row 5 "e1" note; created = true }

notes : append_event world 5 "e1" note ≡ ok (first_time, noted)
unfolding append_event string_discrete
notes = refl

append_event_again_example :
    append_event noted 9 "e2" note
    ≡ ok (record { row = event_row 5 "e1" note; created = false }, noted)
append_event_again_example =
    append_event_again world 5 9 "e1" "e2" note note first_time noted notes refl

abbrev pub resolver : PathResolver
resolver base path = path

abbrev completed : Db
completed = update_jobs world (λ j. is_job "busy" j) (completing 50 succeeded end)

pub one_busy : count_where (is_job "busy") world.jobs ≤ 1
unfolding string_discrete
one_busy = omega arith

completes :
    mark_job_completed world 50 "busy" succeeded end
    ≡ ok (completing 50 succeeded end busy, completed)
unfolding mark_job_completed get_job string_discrete
completes = refl

complete-Completed_example :
    Completed world 50 "busy" succeeded end (completing 50 succeeded end busy) completed
    ⊎ ((find? (is_job "busy") world.jobs ≡ some (completing 50 succeeded end busy))
        × ((completing 50 succeeded end busy).status ≡ cancelled)
        × (completed ≡ world))
complete-Completed_example =
    complete-Completed world 50 "busy" succeeded end (completing 50 succeeded end busy) completed
      one_busy completes

abbrev cancelling_of : CancelInput
cancelling_of = record {
  actor = "ann";
  reason = none;
  release_now = 120;
  now = 121;
  event_now = 122;
  event_id = "e3";
}

abbrev unwrapped : J (CancelJobResult × Db) → CancelJobResult × Db → CancelJobResult × Db
unwrapped (ok x) d = x
unwrapped (err e) d = d

abbrev no_cancel : CancelJobResult × Db
no_cancel = (record { job = busy; event = first_time }, world)

abbrev cancelled_busy : CancelJobResult
cancelled_busy = (unwrapped (cancel_job lib leased cancelling_of "busy") no_cancel).0

abbrev after_cancel : Db
after_cancel = (unwrapped (cancel_job lib leased cancelling_of "busy") no_cancel).1

cancels : cancel_job lib leased cancelling_of "busy" ≡ ok (cancelled_busy, after_cancel)
unfolding is_space is_control char_count any_char all_chars has_control strip is_blank
    string_discrete ℕ_discrete normalize_worktree_path validate_host_id
    validate_resource_key_matches validate_attempt_token validate_lease_id validate_release_reason
    validate_stored_resource row_checks update_lease locate release_verdict finish_release
    release_attempt_lease cancel_job release_held get_job mark_job_cancelled cancel_row append_event
cancels = refl

cancel_job-frees_example :
    (is_completed busy.status ≡ false)
    × (cancelled_busy.job.status ≡ cancelled)
    × (find? (is_job "busy") after_cancel.jobs ≡ some cancelled_busy.job)
    × (find? (held_for "busy" 1) after_cancel.leases ≡ none)
unfolding string_discrete
cancel_job-frees_example =
    cancel_job-frees lib leased cancelling_of "busy" busy cancelled_busy after_cancel
      leased-IsIndexed refl cancels

abbrev retrying : RetryInput
retrying = record {
  actor = "ann";
  reason = some "again";
  now = 130;
  new_id = "second";
  event_now = 130;
  event_id = "e4";
}

abbrev retried_or : J (RetryJobResult × Db) → RetryJobResult × Db
retried_or (ok x) = x
retried_or (err e) = (record { source_job = busy; retry_job = busy; event = first_time }, world)

abbrev retried : RetryJobResult
retried = (retried_or (retry_job resolver world retrying "dropped")).0

abbrev after_retry : Db
after_retry = (retried_or (retry_job resolver world retrying "dropped")).1

retries : retry_job resolver world retrying "dropped" ≡ ok (retried, after_retry)
unfolding string_discrete ℕ_discrete retry_job get_job create_job job_payload is_routed_job
    is_host_native append_event
retries = refl

retry_job-adds_example :
    (find? (is_job "dropped") world.jobs ≡ some retried.source_job)
    × (is_retryable retried.source_job.status ≡ true)
    × (after_retry.jobs ≡ world.jobs ++ retried.retry_job ∷ [])
    × (after_retry.leases ≡ world.leases)
    × (retried.retry_job.id ≡ "second")
    × (retried.retry_job.status ≡ pending)
    × (retried.retry_job.attempt_count ≡ 0)
    × ((p : Fields) × (retried.retry_job.payload ≡ decoded (obj p))
        × (get p "result_path" ≡ none)
        × (get p "execution_context" ≡ none))
retry_job-adds_example =
    retry_job-adds resolver world retrying "dropped" retried after_retry retries
