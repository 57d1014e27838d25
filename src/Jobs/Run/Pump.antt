-- ===== src/Jobs/Run/Pump.antt =====
-- `pump_jobs` (jobs.py): at most `limit` of the pending jobs, each run in turn. A `JobError` is noted
-- and the loop goes on, another exception ends it.
use coordinate.Base.{ℕ, suc, String, Bool, List, [], ◌∷◌, Option, leb, if◌then◌else◌, ok, err}
use coordinate.Json.{Json}
use coordinate.Table.{length, take}
use coordinate.Schema.{Db, Job, JobStatus, done, failed}
use coordinate.Jobs.Errors.{J, JobProblem, job_error, limit_too_small}
use coordinate.Jobs.Repository.{PathResolver, list_pending_jobs}
use coordinate.Jobs.Run.Once.{RunInput, RunJobResult, run_job}

pub record Pumped : Type 0 where
  pub done_count : ℕ
  pub failed_count : ℕ
  pub errors : List (String × JobProblem)
  pub jobs : List RunJobResult

pub record PumpJobsResult : Type 0 where
  pub processed : ℕ
  pub done_count : ℕ
  pub failed_count : ℕ
  pub errors : ℕ
  pub jobs : List RunJobResult
  pub error_details : List (String × JobProblem)

abbrev pub none_pumped : Pumped
none_pumped = record { done_count = 0; failed_count = 0; errors = []; jobs = [] }

abbrev pub counted_status : JobStatus → Pumped → Pumped
counted_status done s = record s { done_count = suc s.done_count }
counted_status failed s = record s { failed_count = suc s.failed_count }
counted_status _ s = s

-- What one result adds to the lists and counts.
unfoldable pub counted : RunJobResult → Pumped → Pumped
counted r s = let t = counted_status r.job.status s in record t { jobs = r ∷ t.jobs }

abbrev pub noted : String × JobProblem → J Pumped × Db → J Pumped × Db
noted e (ok s, db) = (ok (record s { errors = e ∷ s.errors }), db)
noted e (err x, db) = (err x, db)

abbrev pub listed : RunJobResult → J Pumped × Db → J Pumped × Db
listed r (ok s, db) = (ok (counted r s), db)
listed r (err x, db) = (err x, db)

-- One turn of the loop: what a run's outcome adds, before the turns that follow it.
abbrev pub turn : String → J RunJobResult × Db → (Db → J Pumped × Db) → J Pumped × Db
turn id (ok r, db) rest = listed r (rest db)
turn id (err (job_error e), db) rest = noted (id, e) (rest db)
turn id (err x, db) rest = (err x, db)

abbrev pub summary : ℕ → Pumped → PumpJobsResult
summary n s = record {
  processed = n;
  done_count = s.done_count;
  failed_count = s.failed_count;
  errors = length s.errors;
  jobs = s.jobs;
  error_details = s.errors;
}

abbrev pub summarised : ℕ → J Pumped × Db → J PumpJobsResult × Db
summarised n (ok s, db) = (ok (summary n s), db)
summarised n (err x, db) = (err x, db)

module _ (absolute_path : PathResolver) (str_of : Json → String) (inputs : Job → RunInput) where
  -- The rest of the loop; its lists and counts are put together from behind.
  unfoldable pub pump_loop : Db → List Job → J Pumped × Db
  unfolding counted
  pump_loop db [] = (ok none_pumped, db)
  pump_loop db (job ∷ pending) =
      turn job.id (run_job absolute_path str_of db (inputs job) job.id)
        (λ after. pump_loop after pending)

  -- A negative limit is 0 here: both are refused.
  unfoldable pub pump_jobs :
      (String → String → Bool) → Db → Option String → ℕ → J PumpJobsResult × Db
  unfolding pump_loop
  pump_jobs before db workspace_id limit =
      let pending = take limit (list_pending_jobs before db workspace_id) in
      if leb 1 limit
      then summarised (length pending) (pump_loop db pending)
      else (err (job_error limit_too_small), db)
