-- ===== src/Jobs/Errors.antt =====
-- The exceptions of the job modules, by class: `except JobError` catches the first alone.
use coordinate.Base.{Bool, true, false, Result, ok, err}
use coordinate.Schema.{JobStatus}
use coordinate.Leases.Checks.{LeaseError}
use coordinate.Events.Log.{DbError}

pub data JobProblem : Type 0 where
  not_pending completed not_retryable : JobStatus → JobProblem
  unknown_workspace unknown_runner unsupported_runner : JobProblem
  no_worktree cwd_missing payload_not_object result_is_directory : JobProblem
  routed_resubmission limit_too_small : JobProblem

pub data JobFailure : Type 0 where
  job_error : JobProblem → JobFailure
  -- `ValueError`, of `json.loads` too
  unknown_workspace_value unknown_runner_value payload_malformed bad_completion not_running
        not_cancellable :
      JobFailure
  lease_error : LeaseError → JobFailure
  db_error : DbError → JobFailure
  -- an exception of `subprocess.run` other than `TimeoutExpired`, or of the write of the log file
  process_error : JobFailure
  -- an exception of the reading of the result file that `_read_agent_response` does not catch
  result_unreadable : JobFailure

abbrev pub is_job_error : JobFailure → Bool
is_job_error (job_error _) = true
is_job_error _ = false

abbrev pub J : Type 0 → Type 0
J A = Result JobFailure A

abbrev pub from_lease : {A : Type 0} → Result LeaseError A → J A
from_lease (ok a) = ok a
from_lease (err e) = err (lease_error e)

abbrev pub from_db : {A : Type 0} → Result DbError A → J A
from_db (ok a) = ok a
from_db (err e) = err (db_error e)
