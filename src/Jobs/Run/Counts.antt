-- ===== src/Jobs/Run/Counts.antt =====
-- The figures of a pump (`pump_jobs` of jobs.py).
use Prim.Native.Nat.{◌+◌}
use coordinate.Base.{
  ℕ, suc, String, Bool, ◌≡◌, ◌≤◌, refl, Option, arith, ok, err, List, [], ◌∷◌, inl, inr, Bool-cases,
  leb, subst,
}
use coordinate.Json.{Json}
use coordinate.Table.{length, take, length-take-le}
use coordinate.Schema.{Db, Job}
use coordinate.Jobs.Errors.{J, JobProblem, job_error}
use coordinate.Jobs.Repository.{PathResolver, list_pending_jobs}
use coordinate.Jobs.Run.Once.{RunInput, RunJobResult, run_job}
use coordinate.Jobs.Run.Pump.{
  Pumped, PumpJobsResult, counted, turn, summary, summarised, listed, noted, pump_loop, pump_jobs,
}

-- Each job of the queue is in one of the two lists; only listed jobs are counted.
record Accounts (n : ℕ) (s : Pumped) : Type 0 where
  all_seen : length s.jobs + length s.errors ≡ n
  counted_listed : s.done_count + s.failed_count ≤ length s.jobs

counted-Accounts :
    (n : ℕ) (r : RunJobResult) (s : Pumped) → Accounts n s → Accounts (suc n) (counted r s)
unfolding counted
counted-Accounts n r s a = record { all_seen = ground arith; counted_listed = ground arith }

noted-Accounts :
    (n : ℕ) (e : String × JobProblem) (s : Pumped)
    → Accounts n s
    → Accounts (suc n) (record s { errors = e ∷ s.errors })
noted-Accounts n e s a = record { all_seen = ground arith; counted_listed = ground arith }

listed_turn :
    (r : RunJobResult) (m : J Pumped × Db) (n : ℕ) (s : Pumped) (db' : Db)
    → ((t : Pumped) (after : Db) → m ≡ (ok t, after) → Accounts n t)
    → listed r m ≡ (ok s, db')
    → Accounts (suc n) s
listed_turn r (ok t, db) n s db' inner h =
    subst (Accounts (suc n)) (ground arith) (counted-Accounts n r t (inner t db refl))
listed_turn r (err x, db) n s db' inner h = absurd (ground arith)

noted_turn :
    (e : String × JobProblem) (m : J Pumped × Db) (n : ℕ) (s : Pumped) (db' : Db)
    → ((t : Pumped) (after : Db) → m ≡ (ok t, after) → Accounts n t)
    → noted e m ≡ (ok s, db')
    → Accounts (suc n) s
noted_turn e (ok t, db) n s db' inner h =
    subst (Accounts (suc n)) (ground arith) (noted-Accounts n e t (inner t db refl))
noted_turn e (err x, db) n s db' inner h = absurd (ground arith)

turn-Accounts :
    (id : String) (o : J RunJobResult × Db) (rest : Db → J Pumped × Db) (n : ℕ) (s : Pumped)
    (db' : Db)
    → ((db : Db) (t : Pumped) (after : Db) → rest db ≡ (ok t, after) → Accounts n t)
    → turn id o rest ≡ (ok s, db')
    → Accounts (suc n) s
turn-Accounts id (ok r, db) rest n s db' inner h = listed_turn r (rest db) n s db' (inner db) h
turn-Accounts id (err (job_error e), db) rest n s db' inner h =
    noted_turn (id, e) (rest db) n s db' (inner db) h
turn-Accounts id (err x, db) rest n s db' inner h = absurd (ground arith)

summarised-counts :
    (n : ℕ) (m : J Pumped × Db) (s : PumpJobsResult) (db' : Db)
    → ((t : Pumped) (after : Db) → m ≡ (ok t, after) → Accounts n t)
    → summarised n m ≡ (ok s, db')
    → (s.processed ≡ n)
      × (length s.jobs + s.errors ≡ s.processed)
      × (length s.error_details ≡ s.errors)
      × (s.done_count + s.failed_count ≤ length s.jobs)
summarised-counts n (ok t, db) s db' inner h =
    let a = inner t db refl in
    let same : summary n t ≡ s = ground arith in
    subst
      (λ (x : PumpJobsResult).
        (x.processed ≡ n)
        × (length x.jobs + x.errors ≡ x.processed)
        × (length x.error_details ≡ x.errors)
        × (x.done_count + x.failed_count ≤ length x.jobs))
      same (refl, a.all_seen, refl, a.counted_listed)
summarised-counts n (err x, db) s db' inner h = absurd (ground arith)

module _ (absolute_path : PathResolver) (str_of : Json → String) (inputs : Job → RunInput) where
  pump_loop-Accounts :
      (db : Db) (queue : List Job) (s : Pumped) (db' : Db)
      → pump_loop absolute_path str_of inputs db queue ≡ (ok s, db')
      → Accounts (length queue) s
  unfolding pump_loop
  pump_loop-Accounts db [] s db' h = record {
    all_seen = ground arith;
    counted_listed = ground arith;
  }
  pump_loop-Accounts db (job ∷ queue) s db' h =
      turn-Accounts job.id (run_job absolute_path str_of db (inputs job) job.id)
        (λ after. pump_loop absolute_path str_of inputs after queue) (length queue) s db'
        (λ after t end e. pump_loop-Accounts after queue t end e) h

  -- A pump that ends without another exception has processed at most `limit` jobs; each is a result or
  -- an error, as the lists are as long as the figures say, and no more are done or failed than there
  -- are results.
  pub pump_jobs-counts :
      (before : String → String → Bool) (db : Db) (workspace_id : Option String) (limit : ℕ)
      (s : PumpJobsResult) (db' : Db)
      → pump_jobs absolute_path str_of inputs before db workspace_id limit ≡ (ok s, db')
      → (s.processed ≤ limit)
        × (length s.jobs + s.errors ≡ s.processed)
        × (length s.error_details ≡ s.errors)
        × (s.done_count + s.failed_count ≤ length s.jobs)
  unfolding pump_jobs
  pump_jobs-counts before db workspace_id limit s db' h = elim (Bool-cases (leb 1 limit)) [
    | inr small ↦ absurd (ground arith)
    | inl enough ↦
        let queue = take limit (list_pending_jobs before db workspace_id) in
        let loop = pump_loop absolute_path str_of inputs db queue in
        let (n, all, errs, some_of) =
          summarised-counts (length queue) loop s db'
            (λ t after e. pump_loop-Accounts db queue t after e) (ground arith) in
        let short = length-take-le limit (list_pending_jobs before db workspace_id) in
        (ground arith, all, errs, some_of)
  ]
