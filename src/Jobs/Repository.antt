-- ===== src/Jobs/Repository.antt =====
-- The rows of `jobs` (job_repository.py). `absolute_path` stands for `Path.expanduser` and
-- `Path.resolve` on the control host, from a base and a path.
use coordinate.Base.{
  ℕ, suc, String, Bool, true, false, not, ◌&&◌, Option, none, some, List, [], ◌∷◌, ◌++◌, leb, ◌==◌,
  nat_dec_eq, string_dec_eq, if◌then◌else◌, ok, err, ◌>>=◌, ◌>>◌, guard, require,
}
use coordinate.Text.{is_empty}
use coordinate.Json.{Json, null, bool, text, obj, Fields, end, put}
use coordinate.Table.{find?, select, update, exists, is_some}
use coordinate.Schema.{
  Db, Job, JobStatus, pending, running, done, failed, cancelled, timed_out, Workspace,
  RunnerProfile, decoded,
}
use coordinate.Events.Log.{integrity, key_error}
use coordinate.Jobs.Errors.{
  J, db_error, unknown_workspace_value, unknown_runner_value, not_running, not_cancellable,
}

abbrev pub PathResolver : Type 0
PathResolver = Option String → String → String

abbrev pub is_job : String → Job → Bool
is_job id j = j.id == id

-- The arguments of `create_job`; the id is `job_id or uuid4()`.
pub record NewJob : Type 0 where
  pub workspace_id : String
  pub task_id : Option String
  pub runner_profile_id : String
  pub assigned_agent : Option String
  pub prompt_path : Option String
  pub branch : Option String
  pub worktree_path : Option String
  pub terminal_session_id : Option String
  pub logs_path : Option String
  pub timeout_seconds : Option ℕ
  pub payload : Fields
  pub authoritative_worktree_path : Bool

-- x or d, for a text
abbrev pub or_else : Option String → String → String
or_else none d = d
or_else (some s) d = if is_empty s then d else s

-- f(x) if x else None
abbrev pub if_given : (String → String) → Option String → Option String
if_given f none = none
if_given f (some s) = if is_empty s then none else some (f s)

unfoldable pub get_job : Db → String → J Job
get_job db id = require (find? (is_job id) db.jobs) (db_error (key_error id))

abbrev pub new_job : PathResolver → String → ℕ → String → NewJob → Job
new_job absolute_path workspace_path now id n = record {
  id = id;
  workspace_id = n.workspace_id;
  task_id = n.task_id;
  runner_profile_id = n.runner_profile_id;
  assigned_agent = or_else n.assigned_agent n.runner_profile_id;
  status = pending;
  prompt_path = if_given (absolute_path (some workspace_path)) n.prompt_path;
  branch = n.branch;
  worktree_path =
      if_given
        (λ p. if n.authoritative_worktree_path then p else absolute_path (some workspace_path) p)
        n.worktree_path;
  terminal_session_id = n.terminal_session_id;
  logs_path = if_given (absolute_path (some workspace_path)) n.logs_path;
  attempt_count = 0;
  timeout_seconds = n.timeout_seconds;
  payload = decoded (obj n.payload);
  result = none;
  created_at = now;
  started_at = none;
  completed_at = none;
  last_activity_at = none;
  progress = none;
  recoverable = false;
  updated_at = now;
}

unfoldable pub create_job : PathResolver → Db → ℕ → String → NewJob → J (Job × Db)
create_job absolute_path db now id n = do
  workspace ←
      require (find? (λ (w : Workspace). w.id == n.workspace_id) db.workspaces)
        unknown_workspace_value
  guard (exists (λ (p : RunnerProfile). p.id == n.runner_profile_id) db.runner_profiles)
      unknown_runner_value
  guard (not (is_some (find? (is_job id) db.jobs))) (db_error integrity)
  let job = new_job absolute_path workspace.path now id n
  ok (job, record db { jobs = db.jobs ++ job ∷ [] })

abbrev pub is_pending : JobStatus → Bool
is_pending pending = true
is_pending _ = false

abbrev pub is_running : JobStatus → Bool
is_running running = true
is_running _ = false

-- `list_jobs(status="pending")`, ORDER BY created_at, id; `before` is the order of the ids.
abbrev pub earlier : (String → String → Bool) → Job → Job → Bool
earlier before a b =
    if leb b.created_at a.created_at
    then (if leb a.created_at b.created_at then before a.id b.id else false)
    else true

unfoldable pub place : (String → String → Bool) → Job → List Job → List Job
place before x [] = x ∷ []
place before x (y ∷ ys) = if earlier before y x then y ∷ place before x ys else x ∷ y ∷ ys

unfoldable pub sorted : (String → String → Bool) → List Job → List Job
unfolding place
sorted before [] = []
sorted before (x ∷ xs) = place before x (sorted before xs)

-- WHERE workspace_id = ?, if one is given
abbrev pub in_workspace : Option String → Job → Bool
in_workspace none j = true
in_workspace (some w) j = if is_empty w then true else j.workspace_id == w

unfoldable pub list_pending_jobs : (String → String → Bool) → Db → Option String → List Job
unfolding sorted
list_pending_jobs before db workspace_id =
    sorted before (select (λ j. in_workspace workspace_id j && is_pending j.status) db.jobs)

-- UPDATE jobs SET f WHERE p, as an assignment to the table
abbrev pub update_jobs : Db → (Job → Bool) → (Job → Job) → Db
update_jobs db p f = record db { jobs = update p f db.jobs }

abbrev pub starting : PathResolver → ℕ → String → ℕ → Job → Job
starting absolute_path now logs_path attempts j = record j {
  status = running;
  attempt_count = suc attempts;
  logs_path = some (absolute_path none logs_path);
  started_at = some now;
  updated_at = now;
}

unfoldable pub mark_job_started : PathResolver → Db → ℕ → String → String → J (Job × Db)
unfolding get_job
mark_job_started absolute_path db now id logs_path = do
  job ← get_job db id
  let after = update_jobs db (is_job id) (starting absolute_path now logs_path job.attempt_count)
  row ← get_job after id
  ok (row, after)

-- The two statuses that a run may end with.
pub data Ending : Type 0 where
  succeeded unsuccessful : Ending

abbrev pub ending_status : Ending → JobStatus
ending_status succeeded = done
ending_status unsuccessful = failed

abbrev pub completing : ℕ → Ending → Fields → Job → Job
completing now e result j = record j {
  status = ending_status e;
  result = some result;
  completed_at = some now;
  updated_at = now;
}

-- cursor.rowcount == 0: the job is no longer running
abbrev pub not_completed : Job → Db → J (Job × Db)
not_completed j db = elim j.status [ cancelled ↦ ok (j, db) | _ ↦ err not_running ]

abbrev pub is_running_job : String → Job → Bool
is_running_job id j = is_job id j && is_running j.status

unfoldable pub mark_job_completed : Db → ℕ → String → Ending → Fields → J (Job × Db)
unfolding get_job
mark_job_completed db now id e result = do
  let after = update_jobs db (is_running_job id) (completing now e result)
  job ← get_job after id
  if is_some (find? (is_running_job id) db.jobs) then ok (job, after) else not_completed job db

abbrev pub status_text : JobStatus → String
status_text pending = "pending"
status_text running = "running"
status_text done = "done"
status_text failed = "failed"
status_text cancelled = "cancelled"
status_text timed_out = "timed_out"

abbrev pub optional : Option String → Json
optional none = null
optional (some s) = text s

abbrev pub result_or_empty : Option Fields → Fields
result_or_empty none = end
result_or_empty (some r) = r

abbrev pub cancelling : ℕ → Option String → Job → Job → Job
cancelling now reason seen j = record j {
  status = cancelled;
  result = some (
      put
        (put (put (result_or_empty seen.result) "cancelled" (bool true)) "cancel_reason"
          (optional reason))
        "previous_status" (text (status_text seen.status)));
  completed_at = some now;
  updated_at = now;
}

-- What `mark_job_cancelled` does with a job of each status.
unfoldable pub cancel_row : Db → ℕ → Option String → Job → JobStatus → J (Job × Db)
unfolding get_job
cancel_row db now reason job cancelled = ok (job, db)
cancel_row db now reason job done = err not_cancellable
cancel_row db now reason job failed = err not_cancellable
cancel_row db now reason job _ = do
  let after = update_jobs db (is_job job.id) (cancelling now reason job)
  row ← get_job after job.id
  ok (row, after)

unfoldable pub mark_job_cancelled : Db → ℕ → String → Option String → J (Job × Db)
unfolding get_job cancel_row
mark_job_cancelled db now id reason = do
  job ← get_job db id
  cancel_row db now reason job job.status
