-- ===== src/Jobs/Cancellation.antt =====
-- What a cancelled job leaves: `cancel_job` (jobs.py) over the leases, the jobs and the events.
use coordinate.Base.{
  ℕ, Bool, String, ◌≡◌, refl, false, some, none, arith, inl, inr, ok, nat_dec_eq, string_dec_eq,
  >>=-eq-ok, ap, ◌∙◌, sym, subst, Option, ==_sound, ==_refl, guard, not,
}
use coordinate.Table.{find?, find?-holds, find?-update}
use coordinate.Schema.{Db, Job, JobStatus, done, failed, cancelled}
use coordinate.Resources.{Platform}
use coordinate.Events.Log.{NewEvent, AppendEventResult, append_event}
use coordinate.Jobs.Errors.{from_db, job_error, completed, JobFailure}
use coordinate.Jobs.Control.{cancel_event}
use coordinate.Leases.Steps.{IsIndexed}
use coordinate.Jobs.Repository.{get_job, is_job, cancel_row, mark_job_cancelled, cancelling}
use coordinate.Jobs.Control.{
  held_for, release_held, cancel_job, CancelInput, CancelJobResult, is_completed,
}
use coordinate.Events.Idempotency.{append_event-cases}
use coordinate.Jobs.Freeing.{release_held-frees, release_held-jobs}

-- A job row after `mark_job_cancelled`: cancelled, in its table under its id, all leases as before.
record Marked (db : Db) (id : String) (row : Job) (db' : Db) : Type 0 where
  stored : find? (is_job id) db'.jobs ≡ some row
  now_cancelled : row.status ≡ cancelled
  same_leases : db'.leases ≡ db.leases

cancel_row-Marked :
    (db : Db) (now : ℕ) (id : String) (reason : Option String) (j : Job) (s : JobStatus) (row : Job)
    (db' : Db)
    → find? (is_job id) db.jobs ≡ some j
    → j.status ≡ s
    → cancel_row db now reason j s ≡ ok (row, db')
    → Marked db id row db'
unfolding cancel_row get_job
cancel_row-Marked db now id reason j cancelled row db' found is e = record {
  stored = ground arith;
  now_cancelled = ground arith;
  same_leases = ground arith;
}
cancel_row-Marked db now id reason j done row db' found is e = absurd (ground arith)
cancel_row-Marked db now id reason j failed row db' found is e = absurd (ground arith)
cancel_row-Marked db now id reason j s row db' found is e =
    let named = ==_sound j.id id (find?-holds (is_job id) db.jobs j found) in
    let moved =
      find?-update (is_job id) (is_job j.id) (cancelling now reason j) db.jobs (λ x. refl) in
    let self = ==_refl j.id in
    record {
      stored = ground (arith, moved, self);
      now_cancelled = ground (arith, moved, self);
      same_leases = ground (arith, moved);
    }

mark_job_cancelled-Marked :
    (db : Db) (now : ℕ) (id : String) (reason : Option String) (j row : Job) (db' : Db)
    → find? (is_job id) db.jobs ≡ some j
    → mark_job_cancelled db now id reason ≡ ok (row, db')
    → Marked db id row db'
unfolding mark_job_cancelled get_job
mark_job_cancelled-Marked db now id reason j row db' found e =
    cancel_row-Marked db now id reason j j.status row db' found refl (ground (arith, found))

guard-false : (b : Bool) (p : JobFailure) {u : Unit {0}} → guard (not b) p ≡ ok u → b ≡ false
guard-false b p e = ground arith

-- An event touches neither the jobs nor the leases.
pub append-keeps :
    (db : Db) (now : ℕ) (event_id : String) (e : NewEvent) (r : AppendEventResult) (db' : Db)
    → append_event db now event_id e ≡ ok (r, db')
    → (db'.jobs ≡ db.jobs) × (db'.leases ≡ db.leases)
append-keeps db now event_id e r db' h = elim (append_event-cases db now event_id e r db' h) [
  | inl (_, _, rows) ↦ (ap (λ (d : Db). d.jobs) rows, ap (λ (d : Db). d.leases) rows)
  | inr (_, _, same) ↦ (ap (λ (d : Db). d.jobs) same, ap (λ (d : Db). d.leases) same)
]

module _ (lib : Platform) where
  -- If a job is found and the cancellation succeeds on a table of leases with its unique indexes, the
  -- job was neither done nor failed, the row it answers is cancelled and the one stored under the id,
  -- and no active lease of the job's attempt is left.
  pub cancel_job-frees :
      (db : Db) (i : CancelInput) (id : String) (j : Job) (r : CancelJobResult) (db' : Db)
      → IsIndexed db.leases
      → find? (is_job id) db.jobs ≡ some j
      → cancel_job lib db i id ≡ ok (r, db')
      → (is_completed j.status ≡ false)
        × (r.job.status ≡ cancelled)
        × (find? (is_job id) db'.jobs ≡ some r.job)
        × (find? (held_for id j.attempt_count) db'.leases ≡ none)
  unfolding cancel_job get_job
  cancel_job-frees db i id j r db' h found e =
      let (j', at, e₁) = >>=-eq-ok (get_job db id) _ e in
      let same : j' ≡ j = ground arith in
      let (_, open_still, e₂) =
        >>=-eq-ok (guard (not (is_completed j'.status)) (job_error (completed j'.status))) _ e₁ in
      let (freed, dropped, e₃) =
        >>=-eq-ok
          (release_held lib db i.release_now (find? (held_for id j'.attempt_count) db.leases)) _
          e₂ in
      let ((row, marked), cancels, e₄) =
        >>=-eq-ok (mark_job_cancelled freed i.now id i.reason) _ e₃ in
      let ((event, after), logs, e₅) =
        >>=-eq-ok (from_db (append_event marked i.event_now i.event_id (cancel_event i id j'))) _
          e₄ in
      let (same_jobs, same_rows) =
        append-keeps marked i.event_now i.event_id (cancel_event i id j') event after
          (ground arith) in
      let jobs_kept =
        release_held-jobs lib db freed i.release_now
          (find? (held_for id j'.attempt_count) db.leases) dropped in
      let m =
        mark_job_cancelled-Marked freed i.now id i.reason j row marked
          (ap (find? (is_job id)) jobs_kept ∙ found) cancels in
      let free = release_held-frees lib db freed i.release_now id j'.attempt_count h dropped in
      let row_is : row ≡ r.job = ground arith in
      let db_is : after ≡ db' = ground arith in
      (
        ap (λ (x : Job). is_completed x.status) (sym same)
            ∙ guard-false (is_completed j'.status) _ open_still,
        ap (λ (x : Job). x.status) (sym row_is) ∙ m.now_cancelled,
        ap (λ (d : Db). find? (is_job id) d.jobs) (sym db_is)
            ∙ ap (find? (is_job id)) same_jobs
            ∙ m.stored
            ∙ ap some row_is,
        ap (λ (d : Db). find? (held_for id j.attempt_count) d.leases) (sym db_is)
            ∙ ap (find? (held_for id j.attempt_count)) (same_rows ∙ m.same_leases)
            ∙ subst (λ (x : Job). find? (held_for id x.attempt_count) freed.leases ≡ none) same
                free,
      )
