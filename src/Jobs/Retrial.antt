-- ===== src/Jobs/Retrial.antt =====
-- What a retry makes: `retry_job` (jobs.py) over the jobs, the leases and the payload.
use coordinate.Base.{
  ℕ, [], ◌∷◌, ◌++◌, String, ◌≡◌, ◌≢◌, refl, sym, ap, ◌∙◌, true, Option, some, none, arith, ok,
  nat_dec_eq, string_dec_eq, >>=-eq-ok,
}
use coordinate.Json.{Json, obj, Fields, end, field, get, put, pop}
use coordinate.Schema.{Workspace}
use coordinate.Base.{guard, require, not, guard-eq-ok, ◌==◌}
use coordinate.Jobs.Errors.{
  job_error, not_retryable, routed_resubmission, from_db, unknown_workspace_value,
}
use coordinate.Events.Log.{append_event}
use coordinate.Jobs.Repository.{NewJob}
use coordinate.Jobs.Cancellation.{append-keeps}
use coordinate.Table.{find?}
use coordinate.Schema.{Db, Job, pending, decoded}
use coordinate.Jobs.Repository.{get_job, create_job, new_job, is_job, PathResolver}
use coordinate.Jobs.Control.{
  job_payload, retry_payload, with_reason, retry_job, RetryInput, RetryJobResult, is_retryable,
  retry_arguments, retry_event, is_routed_job,
}

get-pop : (m : Fields) (k : String) → get (pop m k) k ≡ none
get-pop end k = refl
get-pop (field j v m) k = ground (arith, get-pop m k)

get-pop_other : (m : Fields) (k j : String) → get m j ≡ none → get (pop m k) j ≡ none
get-pop_other end k j h = refl
get-pop_other (field i v m) k j h = ground (arith, get-pop_other m k j)

get-put_other :
    (m : Fields) (k j : String) (v : Json) → k ≢ j → get m j ≡ none → get (put m k v) j ≡ none
get-put_other end k j v ne h = ground arith
get-put_other (field i w m) k j v ne h = ground (arith, get-put_other m k j v)

-- A key that the copy drops is not put back, unless it is one of the two that a retry sets.
dropped_key :
    (id j : String) (reason : Option String) (m : Fields)
    → "retry_of_job_id" ≢ j
    → "retry_reason" ≢ j
    → get m j ≡ none
    → get (with_reason reason (put m "retry_of_job_id" (Json.text id))) j ≡ none
dropped_key id j none m ne₁ ne₂ h = get-put_other m "retry_of_job_id" j (Json.text id) ne₁ h
dropped_key id j (some r) m ne₁ ne₂ h =
    let once = get-put_other m "retry_of_job_id" j (Json.text id) ne₁ h in
    ground (
      arith,
      get-put_other (put m "retry_of_job_id" (Json.text id)) "retry_reason" j (Json.text r) ne₂,
    )

-- The copied payload has neither the result path nor the execution context of the source job.
retry_payload-drops :
    (id : String) (reason : Option String) (p : Fields)
    → (get (retry_payload id reason p) "result_path" ≡ none)
      × (get (retry_payload id reason p) "execution_context" ≡ none)
retry_payload-drops id reason p = (
  dropped_key id "result_path" reason (pop (pop p "result_path") "execution_context") (λ e. cc)
      (λ e. cc)
      (get-pop_other (pop p "result_path") "execution_context" "result_path"
        (get-pop p "result_path")),
  dropped_key id "execution_context" reason (pop (pop p "result_path") "execution_context")
      (λ e. cc) (λ e. cc) (get-pop (pop p "result_path") "execution_context"),
)

get_job-found :
    (db : Db) (id : String) (j : Job) → get_job db id ≡ ok j → find? (is_job id) db.jobs ≡ some j
unfolding get_job
get_job-found db id j e = ground arith

module _ (absolute_path : PathResolver) where
  create_job-adds :
      (db : Db) (now : ℕ) (id : String) (n : NewJob) (job : Job) (db' : Db)
      → create_job absolute_path db now id n ≡ ok (job, db')
      → (path : String) × (job ≡ new_job absolute_path path now id n)
        × (db' ≡ record db { jobs = db.jobs ++ job ∷ [] })
  unfolding create_job
  create_job-adds db now id n job db' e =
      let (w, _, e₁) =
        >>=-eq-ok
          (require (find? (λ (w : Workspace). w.id == n.workspace_id) db.workspaces)
            unknown_workspace_value)
          _ e in
      (w.path, ground arith, ground arith)

  -- A retry that succeeds was of a failed or a cancelled job, which stays as it is. It adds
  -- one job behind the others, pending and never attempted, whose payload has neither a result
  -- path nor an execution context, and it touches no lease.
  pub retry_job-adds :
      (db : Db) (i : RetryInput) (id : String) (r : RetryJobResult) (db' : Db)
      → retry_job absolute_path db i id ≡ ok (r, db')
      → (find? (is_job id) db.jobs ≡ some r.source_job)
        × (is_retryable r.source_job.status ≡ true)
        × (db'.jobs ≡ db.jobs ++ r.retry_job ∷ [])
        × (db'.leases ≡ db.leases)
        × (r.retry_job.id ≡ i.new_id)
        × (r.retry_job.status ≡ pending)
        × (r.retry_job.attempt_count ≡ 0)
        × ((p : Fields) × (r.retry_job.payload ≡ decoded (obj p))
            × (get p "result_path" ≡ none)
            × (get p "execution_context" ≡ none))
  unfolding retry_job
  retry_job-adds db i id r db' e =
      let (source, at, e₁) = >>=-eq-ok (get_job db id) _ e in
      let (_, may, e₂) =
        >>=-eq-ok (guard (is_retryable source.status) (job_error (not_retryable source.status))) _
          e₁ in
      let (p, reads, e₃) = >>=-eq-ok (job_payload source.payload) _ e₂ in
      let (_, _, e₄) =
        >>=-eq-ok (guard (not (is_routed_job p)) (job_error routed_resubmission)) _ e₃ in
      let ((retry, created), makes, e₅) =
        >>=-eq-ok (create_job absolute_path db i.now i.new_id (retry_arguments db i source p)) _
          e₄ in
      let ((event, after), logs, e₆) =
        >>=-eq-ok
          (from_db (append_event created i.event_now i.event_id (retry_event i source retry))) _
          e₅ in
      let (path, is, rows) =
        create_job-adds db i.now i.new_id (retry_arguments db i source p) retry created makes in
      let (same_jobs, same_leases) =
        append-keeps created i.event_now i.event_id (retry_event i source retry) event after
          (ground arith) in
      let source_is : source ≡ r.source_job = ground arith in
      let retry_is : retry ≡ r.retry_job = ground arith in
      let db_is : after ≡ db' = ground arith in
      let drops = retry_payload-drops source.id i.reason p in
      let whole : r.retry_job
          ≡ new_job absolute_path path i.now i.new_id (retry_arguments db i source p) =
        sym retry_is ∙ is in
      (
        get_job-found db id source at ∙ ap some source_is,
        ap (λ (j : Job). is_retryable j.status) (sym source_is)
            ∙ guard-eq-ok (is_retryable source.status) _ may,
        ap (λ (d : Db). d.jobs) (sym db_is)
            ∙ same_jobs
            ∙ ap (λ (d : Db). d.jobs) rows
            ∙ ap (λ (j : Job). db.jobs ++ j ∷ []) retry_is,
        ap (λ (d : Db). d.leases) (sym db_is) ∙ same_leases ∙ ap (λ (d : Db). d.leases) rows,
        ap (λ (j : Job). j.id) whole,
        ap (λ (j : Job). j.status) whole,
        ap (λ (j : Job). j.attempt_count) whole,
        (retry_payload source.id i.reason p, ap (λ (j : Job). j.payload) whole, drops.0, drops.1),
      )
