-- ===== src/Jobs/Run/Verdict.antt =====
-- How a run ends (`run_job` of jobs.py): what a cancellation during the process does to it, and what
-- "done" says.
use coordinate.Base.{
  zero, suc, ◌>>◌, ◌⊎◌, String, ◌≡◌, ◌≢◌, ◌≤◌, inl, inr, refl, sym, ap, ◌∙◌, true, false, some,
  arith, ok, err, Result-cases, nat_dec_eq, string_dec_eq,
}
use coordinate.Json.{Json, obj, Fields, get}
use coordinate.Table.{find?, count_where}
use coordinate.Schema.{Db, Job, done, cancelled}
use coordinate.Jobs.Errors.{J, process_error, result_unreadable}
use coordinate.Jobs.Repository.{
  PathResolver, is_job, is_running, Ending, succeeded, unsuccessful, ending_status,
  mark_job_completed,
}
use coordinate.Jobs.Completion.{complete_cancelled, complete-Completed}
use coordinate.Jobs.Run.Response.{
  Reading, ResultFile, absent, unreadable, blank, undecodable, contents, no_response, response,
  response_error, read_agent_response,
}
use coordinate.Jobs.Run.Once.{
  RunInput, RunJobResult, Prepared, Process, exited, killed, timeout_expired, raised,
  process_outcome, with_response, is_refusal, finish, announce, conclude,
}

-- `run_job` counts the run as a success.
pub record IsSuccess (reading : Reading) (process : Process) : Type 0 where
  pub exit_zero : process ≡ exited 0
  pub no_error : (m : String) → reading ≢ response_error m
  pub no_refusal : (r : Fields) → reading ≡ response r → is_refusal (get r "agent_status") ≡ false

exit-success :
    (p : Prepared) (event_id : String) (process : Process) (result : Fields)
    → process_outcome p event_id process ≡ ok (succeeded, result)
    → process ≡ exited 0
exit-success p event_id (exited zero) result h = refl
exit-success p event_id process result h = ground arith

response-IsSuccess :
    (reading : Reading) (process : Process) (e : Ending) (before result : Fields)
    → (e ≡ succeeded → process ≡ exited 0)
    → with_response reading (e, before) ≡ (succeeded, result)
    → IsSuccess reading process
unfolding with_response
response-IsSuccess no_response process e before result zero_exit h = record {
  exit_zero = zero_exit (ground arith);
  no_error = λ m x. cc;
  no_refusal = λ r x. cc;
}
response-IsSuccess (response r) process e before result zero_exit h = record {
  exit_zero = zero_exit (ground arith);
  no_error = λ m x. cc;
  no_refusal = λ q x. ground arith;
}
response-IsSuccess (response_error m) process e before result zero_exit h = absurd (ground arith)

ending_done : (e : Ending) → ending_status e ≡ done → e ≡ succeeded
ending_done succeeded h = refl
ending_done unsuccessful h = cc

-- Why a run ends without an answer after the process.
abbrev ended : Process → J (Unit {0})
ended raised = err process_error
ended _ = ok tt

abbrev readable : ResultFile → J (Unit {0})
readable unreadable = err result_unreadable
readable _ = ok tt

-- What a run answers whose job is cancelled.
abbrev pub cancelled_reply : Prepared → Process → ResultFile → Job → J RunJobResult
cancelled_reply p process file j = do
  ended process
  readable file
  ok (record { job = j; log_path = p.log_path })

ended-cases :
    (p : Prepared) (event_id : String) (process : Process)
    → ((e : Ending) × (result : Fields) × (process_outcome p event_id process ≡ ok (e, result))
        × (ended process ≡ ok tt))
      ⊎ ((process_outcome p event_id process ≡ err process_error)
          × (ended process ≡ err process_error))
ended-cases p event_id (exited zero) = inl (_, _, refl, refl)
ended-cases p event_id (exited (suc n)) = inl (_, _, refl, refl)
ended-cases p event_id (killed n) = inl (_, _, refl, refl)
ended-cases p event_id timeout_expired = inl (_, _, refl, refl)
ended-cases p event_id raised = inr (refl, refl)

readable-cases :
    (str_of : Json → String) (path : String) (file : ResultFile)
    → ((reading : Reading) × (read_agent_response str_of path file ≡ ok reading)
        × (readable file ≡ ok tt))
      ⊎ ((read_agent_response str_of path file ≡ err result_unreadable)
          × (readable file ≡ err result_unreadable))
unfolding read_agent_response
readable-cases str_of path absent = inl (_, refl, refl)
readable-cases str_of path unreadable = inr (refl, refl)
readable-cases str_of path blank = inl (_, refl, refl)
readable-cases str_of path (undecodable e) = inl (_, refl, refl)
readable-cases str_of path (contents (obj value)) = inl (_, refl, refl)
readable-cases str_of path (contents json) = ground arith

module _ (absolute_path : PathResolver) (str_of : Json → String) where
  -- A job that another connection cancelled while the process ran stays as it is: from the end of the
  -- process on the run writes nothing, whatever the process and the agent answered. It answers the
  -- cancelled row, unless the process or its log file raises an exception other than the timeout, or
  -- the result file cannot be read; these exceptions it passes on. The condition is that ids are
  -- unique.
  pub conclude_cancelled :
      (db : Db) (i : RunInput) (p : Prepared) (event_id : String) (j : Job)
      → count_where (is_job p.job.id) db.jobs ≤ 1
      → find? (is_job p.job.id) db.jobs ≡ some j
      → j.status ≡ cancelled
      → conclude absolute_path str_of db i p event_id
        ≡ (cancelled_reply p i.process i.result_file j, db)
  unfolding conclude finish announce
  conclude_cancelled db i p event_id j one found stopped = elim (ended-cases p event_id i.process) [
    | inr (broke, is) ↦ ground (arith, broke, is)
    | inl (e, result, went, is) ↦ elim (readable-cases str_of p.result_path i.result_file) [
      | inr (broke, not) ↦ ground (arith, went, is, broke, not)
      | inl (reading, reads, fine) ↦
          let m = with_response reading (e, result) in
          ground (
            arith,
            went,
            is,
            reads,
            fine,
            complete_cancelled db i.end_now p.job.id m.0 m.1 j one found stopped,
          )
    ]
  ]

  announce-reply :
      (db : Db) (i : RunInput) (p : Prepared) (e : Ending) (result : Fields) (job : Job)
      (r : RunJobResult) (db' : Db)
      → announce absolute_path str_of db i p e result job ≡ (ok r, db')
      → r.job ≡ job
  unfolding announce
  announce-reply db i p e result job r db' h = ground arith

  -- A run that completes its job as done was told so, and found it running.
  finish-done :
      (db : Db) (i : RunInput) (p : Prepared) (e : Ending) (result : Fields) (r : RunJobResult)
      (db' : Db)
      → count_where (is_job p.job.id) db.jobs ≤ 1
      → finish absolute_path str_of db i p (e, result) ≡ (ok r, db')
      → r.job.status ≡ done
      → (e ≡ succeeded)
        × ((j : Job) × (find? (is_job p.job.id) db.jobs ≡ some j) × (is_running j.status ≡ true))
  unfolding finish
  finish-done db i p e result r db' one h is_done =
      elim (Result-cases (mark_job_completed db i.end_now p.job.id e result)) [
        | inr (x, refused) ↦ absurd (ground (arith, refused))
        | inl ((job, after), marks) ↦
            let says : announce absolute_path str_of after i p e result job ≡ (ok r, db') =
              ground (arith, marks) in
            let same = announce-reply after i p e result job r db' says in
            elim (complete-Completed db i.end_now p.job.id e result job after one marks) [
              | inr (_, went, _) ↦ absurd (ground arith)
              | inl c ↦
                  let ends : ending_status e ≡ done =
                    ap (λ (x : Job). x.status) (sym c.reply ∙ sym same) ∙ is_done in
                  (ending_done e ends, (c.was, c.found, c.was_running))
            ]
      ]

  -- Where ids are unique, a run that answers a job that is done has found the job still
  -- running at the process's end; the process exited with 0, the agent's answer is no error,
  -- and it has no refusing status.
  pub conclude-IsSuccess :
      (db : Db) (i : RunInput) (p : Prepared) (event_id : String) (r : RunJobResult) (db' : Db)
      → count_where (is_job p.job.id) db.jobs ≤ 1
      → conclude absolute_path str_of db i p event_id ≡ (ok r, db')
      → r.job.status ≡ done
      → (reading : Reading) × (read_agent_response str_of p.result_path i.result_file ≡ ok reading)
        × IsSuccess reading i.process
        × ((j : Job) × (find? (is_job p.job.id) db.jobs ≡ some j) × (is_running j.status ≡ true))
  unfolding conclude finish
  conclude-IsSuccess db i p event_id r db' one h is_done = elim (ended-cases p event_id i.process) [
    | inr (broke, _) ↦ absurd (ground (arith, broke))
    | inl (e, before, is, _) ↦ elim (readable-cases str_of p.result_path i.result_file) [
      | inr (broke, _) ↦ absurd (ground (arith, is, broke))
      | inl (reading, reads, _) ↦
          let m = with_response reading (e, before) in
          let finishes : finish absolute_path str_of db i p m ≡ (ok r, db') =
            ground (arith, is, reads) in
          let (done_before, was) = finish-done db i p m.0 m.1 r db' one finishes is_done in
          (
            reading,
            reads,
            response-IsSuccess reading i.process e before m.1
                (λ s.
                  exit-success p event_id i.process before
                    (is ∙ ap (λ (x : Ending). ok (x, before)) s))
                (ap (λ (x : Ending). (x, m.1)) done_before),
            was,
          )
    ]
  ]
