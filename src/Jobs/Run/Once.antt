-- ===== src/Jobs/Run/Once.antt =====
-- `run_job` (jobs.py). The process is a parameter: how it ended, what it left in the result file,
-- and what the other connections made of the database while it ran. A function returns its database
-- beside its outcome: what was committed before an exception stays.
use coordinate.Base.{
  ℕ, zero, suc, String, Bool, true, false, not, ◌&&◌, ◌||◌, Option, none, some, ◌==◌, string_dec_eq,
  if◌then◌else◌, ok, err, ◌>>=◌, ◌>>◌, guard, require,
}
use coordinate.Json.{Json, null, bool, int, neg, text, Fields, end, field, get, put}
use coordinate.Table.{find?}
use coordinate.Schema.{Db, Job, cancelled, Workspace, RunnerProfile}
use coordinate.Events.Log.{NewEvent, AppendEventResult, append_event}
use coordinate.Jobs.Errors.{
  J, job_error, not_pending, unknown_workspace, unknown_runner, unsupported_runner,
  result_is_directory, process_error, from_db,
}
use coordinate.Jobs.Repository.{
  PathResolver, get_job, is_pending, mark_job_started, mark_job_completed, Ending, succeeded,
  unsuccessful, ending_status, status_text,
}
use coordinate.Jobs.Control.{job_payload}
use coordinate.Jobs.Run.Response.{
  ResultFile, Reading, no_response, response, response_error, merge, read_agent_response,
}
use coordinate.Jobs.Run.Paths.{
  Files, given, resolve_cwd, log_path_of, configured_path, result_path_of,
}

-- A return code that is not negative, a signal (n for the code -(n + 1)), `TimeoutExpired`, or
-- another exception, which may also come from the write of the log file.
pub data Process : Type 0 where
  exited killed : ℕ → Process
  timeout_expired : Process
  raised : Process

pub record RunInput : Type 0 where
  pub files : Files
  pub start_now : ℕ
  pub started_event_id : String
  pub meanwhile : Db → Db
  pub process : Process
  pub result_file : ResultFile
  pub end_now : ℕ
  pub final_event_id : String

pub record RunJobResult : Type 0 where
  pub job : Job
  pub log_path : String

-- What the checks before the start have found.
pub record Prepared : Type 0 where
  pub job : Job
  pub workspace : Workspace
  pub runner : RunnerProfile
  pub log_path : String
  pub result_path : String

abbrev pub event_of : Prepared → String → Fields → NewEvent
event_of p event_type payload = record {
  event_type = event_type;
  actor = "runner";
  workspace_id = some p.workspace.id;
  target = none;
  task_id = p.job.task_id;
  causation_id = none;
  idempotency_key = none;
  payload = payload;
}

abbrev pub started_payload : Prepared → Fields
started_payload p =
    field "job_id" (text p.job.id)
      (field "runner_profile_id" (text p.runner.id) (field "command" (text p.runner.command) end))

abbrev pub seconds : Option ℕ → Json
seconds none = null
seconds (some n) = int n

-- The last keys of both results.
abbrev pub result_paths : Prepared → String → Fields
result_paths p event_id =
    field "event_id" (text event_id)
      (field "logs_path" (text p.log_path) (field "result_path" (text p.result_path) end))

abbrev pub exit_result : Prepared → String → Json → Fields
exit_result p event_id code =
    field "exit_code" code (field "timeout" (bool false) (result_paths p event_id))

abbrev pub timeout_result : Prepared → String → Fields
timeout_result p event_id = field "exit_code" null (
    field "timeout" (bool true) (
      field "timeout_seconds" (seconds p.job.timeout_seconds)
        (field "failure_reason" (text "timeout") (result_paths p event_id))))

abbrev pub process_outcome : Prepared → String → Process → J (Ending × Fields)
process_outcome p event_id (exited zero) = ok (succeeded, exit_result p event_id (int 0))
process_outcome p event_id (exited (suc n)) =
    ok (unsuccessful, exit_result p event_id (int (suc n)))
process_outcome p event_id (killed n) = ok (unsuccessful, exit_result p event_id (neg n))
process_outcome p event_id timeout_expired = ok (unsuccessful, timeout_result p event_id)
process_outcome p event_id raised = err process_error

-- response.get("agent_status") in {"blocked", "failed", "declined"}
abbrev pub is_refusal : Option Json → Bool
is_refusal (some (text s)) = s == "blocked" || s == "failed" || s == "declined"
is_refusal _ = false

unfoldable pub with_response : Reading → Ending × Fields → Ending × Fields
unfolding merge
with_response no_response (e, result) = (e, result)
with_response (response r) (e, result) =
    ((if is_refusal (get r "agent_status") then unsuccessful else e), merge result r)
with_response (response_error m) (e, result) =
    (unsuccessful, put result "agent_response_error" (text m))

abbrev pub final_event_type : Ending → String
final_event_type succeeded = "job.completed"
final_event_type unsuccessful = "job.failed"

abbrev pub final_payload : Prepared → Ending → Fields → Fields
final_payload p e result =
    merge
      (field "job_id" (text p.job.id) (field "status" (text (status_text (ending_status e))) end))
      result

-- The statements after a commit: an exception keeps the database that it left.
abbrev pub and_then : {A B : Type 0} → J A × Db → (A → Db → J B × Db) → J B × Db
and_then (ok a, db) f = f a db
and_then (err e, db) f = (err e, db)

module _ (absolute_path : PathResolver) (str_of : Json → String) where
  -- Up to `_build_env`: nothing is written to the database. The command and the environment that
  -- are rendered here only reach the process.
  unfoldable pub prepare : Db → RunInput → String → J Prepared
  prepare db i id = do
    job ← get_job db id
    guard (is_pending job.status) (job_error (not_pending job.status))
    workspace ←
        require (find? (λ (w : Workspace). w.id == job.workspace_id) db.workspaces)
          (job_error unknown_workspace)
    runner ←
        require (find? (λ (r : RunnerProfile). r.id == job.runner_profile_id) db.runner_profiles)
          (job_error unknown_runner)
    guard (runner.runner_type == "generic_subprocess") (job_error unsupported_runner)
    _ ← resolve_cwd i.files workspace.path job.worktree_path runner.working_directory_strategy
    payload ← job_payload job.payload
    let log_path = log_path_of i.files workspace.path id (given job.logs_path)
    let result_path =
        result_path_of i.files workspace.path id
          (configured_path str_of (get payload "result_path"))
    guard (not (i.files.exists result_path && i.files.is_dir result_path))
        (job_error result_is_directory)
    ok (record {
      job = job;
      workspace = workspace;
      runner = runner;
      log_path = log_path;
      result_path = result_path;
    })

  -- The second commit: the event. An error leaves the first.
  abbrev pub log_event : Db → ℕ → String → NewEvent → J AppendEventResult × Db
  log_event db now event_id e = elim (append_event db now event_id e) [
    | ok (r, after) ↦ (ok r, after)
    | err x ↦ (from_db (err x), db)
  ]

  unfoldable pub start : Db → RunInput → Prepared → J String × Db
  start db i p = elim (mark_job_started absolute_path db i.start_now p.job.id p.log_path) [
    | err e ↦ (err e, db)
    | ok (_, marked) ↦
        and_then
          (log_event marked i.start_now i.started_event_id
            (event_of p "job.started" (started_payload p)))
          (λ r after. (ok r.row.id, after))
  ]

  -- After `mark_job_completed`: a job that was cancelled in the meantime gets no event.
  unfoldable pub announce : Db → RunInput → Prepared → Ending → Fields → Job → J RunJobResult × Db
  announce db i p e result job = elim job.status [
    | cancelled ↦ (ok (record { job = job; log_path = p.log_path }), db)
    | _ ↦
        and_then
          (log_event db i.end_now i.final_event_id
            (event_of p (final_event_type e) (final_payload p e result)))
          (λ _ after. (ok (record { job = job; log_path = p.log_path }), after))
  ]

  unfoldable pub finish : Db → RunInput → Prepared → Ending × Fields → J RunJobResult × Db
  finish db i p (e, result) = elim (mark_job_completed db i.end_now p.job.id e result) [
    | err x ↦ (err x, db)
    | ok (job, after) ↦ announce after i p e result job
  ]

  -- From the process's end on the database that the others have left.
  unfoldable pub conclude : Db → RunInput → Prepared → String → J RunJobResult × Db
  conclude db i p event_id = elim (process_outcome p event_id i.process) [
    | err x ↦ (err x, db)
    | ok o ↦ elim (read_agent_response str_of p.result_path i.result_file) [
      | err x ↦ (err x, db)
      | ok reading ↦ finish db i p (with_response reading o)
    ]
  ]

  unfoldable pub run_job : Db → RunInput → String → J RunJobResult × Db
  run_job db i id = elim (prepare db i id) [
    | err e ↦ (err e, db)
    | ok p ↦ and_then (start db i p) (λ event_id after. conclude (i.meanwhile after) i p event_id)
  ]
