-- ===== src/Jobs/Completion.antt =====
-- What `mark_job_completed` (job_repository.py) does with a job of each status.
use coordinate.Base.{
  ℕ, List, [], ◌∷◌, ap, ◌∙◌, Bool, String, ◌≡◌, ◌≤◌, refl, true, false, some, none, arith, inl, inr,
  ok, ◌⊎◌, nat_dec_eq, string_dec_eq, Bool-cases, Option-cases,
}
use coordinate.Json.{Fields}
use coordinate.Table.{find?, count_where, find?-update, find?-holds, update_none, count_mono}
use coordinate.Schema.{Db, Job, cancelled}
use coordinate.Jobs.Repository.{
  Ending, get_job, is_job, is_running_job, completing, not_completed, mark_job_completed,
  update_jobs, is_running,
}

-- A row that is not running, alone under its id, leaves no running row under it.
none_running :
    (id : String) (rows : List Job) (j : Job)
    → count_where (is_job id) rows ≤ 1
    → find? (is_job id) rows ≡ some j
    → is_running j.status ≡ false
    → count_where (is_running_job id) rows ≡ 0
none_running id [] j one found e = refl
none_running id (x ∷ rows) j one found e = elim (Bool-cases (is_job id x)) [
  | inl t ↦
      let others = count_mono (is_running_job id) (is_job id) rows (λ y r. ground arith) in
      let same : x ≡ j = ground arith in
      let idle : is_running x.status ≡ false = ap (λ (y : Job). is_running y.status) same ∙ e in
      ground (arith, others, idle)
  | inr t ↦ ground (arith, none_running id rows j (ground arith) (ground arith) e)
]

find?_of_count_zero :
    (p : Job → Bool) (rows : List Job) → count_where p rows ≡ 0 → find? p rows ≡ none
find?_of_count_zero p [] h = refl
find?_of_count_zero p (x ∷ rows) h = ground (arith, find?_of_count_zero p rows)

running_found :
    (id : String) (rows : List Job) (j : Job)
    → find? (is_job id) rows ≡ some j
    → is_running j.status ≡ true
    → find? (is_running_job id) rows ≡ some j
running_found id [] j found e = cc
running_found id (x ∷ rows) j found e = elim (Bool-cases (is_job id x)) [
  | inl t ↦
      let same : x ≡ j = ground arith in
      let live : is_running x.status ≡ true = ap (λ (y : Job). is_running y.status) same ∙ e in
      ground arith
  | inr t ↦ ground (arith, running_found id rows j)
]

-- A cancelled job is answered as it is, and nothing is written.
pub complete_cancelled :
    (db : Db) (now : ℕ) (id : String) (e : Ending) (result : Fields) (j : Job)
    → count_where (is_job id) db.jobs ≤ 1
    → find? (is_job id) db.jobs ≡ some j
    → j.status ≡ cancelled
    → mark_job_completed db now id e result ≡ ok (j, db)
unfolding mark_job_completed get_job
complete_cancelled db now id e result j one found ended =
    let idle : is_running j.status ≡ false = rw ended refl in
    let zero_running = none_running id db.jobs j one found idle in
    let same = update_none (is_running_job id) (completing now e result) db.jobs zero_running in
    let missing = find?_of_count_zero (is_running_job id) db.jobs zero_running in
    rw (same, found, missing, ended) refl

-- What a successful call found and left.
pub record Completed (db : Db) (now : ℕ) (id : String) (e : Ending) (result : Fields) (y : Job)
    (db' : Db) : Type 0 where
  pub was : Job
  pub found : find? (is_job id) db.jobs ≡ some was
  pub was_running : is_running was.status ≡ true
  pub reply : y ≡ completing now e result was
  pub rows : db' ≡ update_jobs db (is_running_job id) (completing now e result)

not_completed-cancelled :
    (j : Job) (db : Db) (y : Job) (db' : Db)
    → not_completed j db ≡ ok (y, db')
    → (j ≡ y) × (y.status ≡ cancelled) × (db' ≡ db)
not_completed-cancelled j db y db' e = (ground arith, ground arith, ground arith)

-- Where ids are unique, a call that succeeds either found the job running and ended it, or found it
-- cancelled, answers that row as it was found and changes nothing.
pub complete-Completed :
    (db : Db) (now : ℕ) (id : String) (e : Ending) (result : Fields) (y : Job) (db' : Db)
    → count_where (is_job id) db.jobs ≤ 1
    → mark_job_completed db now id e result ≡ ok (y, db')
    → Completed db now id e result y db'
      ⊎ ((find? (is_job id) db.jobs ≡ some y) × (y.status ≡ cancelled) × (db' ≡ db))
unfolding mark_job_completed get_job
complete-Completed db now id e result y db' one h =
    let moved =
      find?-update (is_job id) (is_running_job id) (completing now e result) db.jobs (λ x. refl) in
    elim (Option-cases (find? (is_job id) db.jobs)) [
      | inl none_found ↦ absurd (ground (arith, moved))
      | inr (j, found) ↦ elim (Bool-cases (is_running j.status)) [
        | inl live ↦
            let seen = running_found id db.jobs j found live in
            let named = find?-holds (is_job id) db.jobs j found in
            inl (record {
              was = j;
              found = found;
              was_running = live;
              reply = ground (arith, moved, seen, named);
              rows = ground (arith, moved, seen, named);
            })
        | inr idle ↦
            let same =
              update_none (is_running_job id) (completing now e result) db.jobs
                (none_running id db.jobs j one found idle) in
            let missing =
              find?_of_count_zero (is_running_job id) db.jobs
                (none_running id db.jobs j one found idle) in
            let left : not_completed j db ≡ ok (y, db') = ground (arith, same, missing) in
            let (is, ended, kept) = not_completed-cancelled j db y db' left in
            inr (found ∙ ap some is, ended, kept)
      ]
    ]
