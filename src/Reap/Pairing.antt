-- ===== src/Reap/Pairing.antt =====
-- A reaped lease and its job change together, and nothing else of the two tables does.
use coordinate.Base.{
  ℕ, ◌≤◌, String, ◌≡◌, sym, ap, ◌∙◌, true, inl, inr, none, some, ◌==◌, nat_dec_eq, string_dec_eq,
  ok, arith, Option-cases, Result-cases, Bool-cases,
}
use coordinate.Table.{find?, update}
use coordinate.Schema.{Db, Lease, Job, is_active}
use coordinate.Resources.{Platform}
use coordinate.Leases.Store.{has_id, update_lease}
use coordinate.Leases.Outcomes.{update_lease-eq-ok}
use coordinate.Events.Log.{append_event, NewEvent, AppendEventResult}
use coordinate.Events.Idempotency.{append_event-cases}
use coordinate.Reap.Expire.{
  ReapInput, Outcome, reaping, timing_out, timeout_result, is_attempt, is_consistent, log_expiry,
  time_out_job, expire_revalidated_lease, require_active_lease_for_reap, reap_one_lease,
  lease_event, timeout_event,
}

-- Only the event log differs.
pub record SameTables (db after : Db) : Type 0 where
  pub jobs : after.jobs ≡ db.jobs
  pub leases : after.leases ≡ db.leases

-- The two rows of one reaped attempt.
pub record Paired (db : Db) (now : ℕ) (seen : Lease) (x : Lease) (j : Job) (after : Db)
    : Type 0 where
  pub found : find? (has_id seen.lease_id) db.leases ≡ some x
  pub was_active : is_active x.status ≡ true
  pub was_due : x.expires_at ≤ now
  pub job : find? (λ (j : Job). j.id == x.job_id) db.jobs ≡ some j
  pub consistent : is_consistent x j ≡ true
  pub lease_rows : after.leases ≡ update (has_id x.lease_id) reaping db.leases
  pub job_rows :
      after.jobs
      ≡ update (is_attempt x.job_id x.attempt_token) (timing_out now (timeout_result now j)) db.jobs

append_event-SameTables :
    (db : Db) (now : ℕ) (id : String) (e : NewEvent) (r : AppendEventResult) (after : Db)
    → append_event db now id e ≡ ok (r, after)
    → SameTables db after
append_event-SameTables db now id e r after h = elim (append_event-cases db now id e r after h) [
  | inl (_, _, rows) ↦ record {
    jobs = ap (λ (d : Db). d.jobs) rows;
    leases = ap (λ (d : Db). d.leases) rows;
  }
  | inr (_, _, same) ↦ record {
    jobs = ap (λ (d : Db). d.jobs) same;
    leases = ap (λ (d : Db). d.leases) same;
  }
]

log_expiry-SameTables :
    (db : Db) (i : ReapInput) (x : Lease) (j : Job) (o : Outcome) (after : Db)
    → log_expiry db i x j ≡ (ok o, after)
    → SameTables db after
unfolding log_expiry
log_expiry-SameTables db i x j o after h =
    elim (Result-cases (append_event db i.log_now i.lease_event_id (lease_event i x j))) [
      | inr (e, refused) ↦ absurd (ground (arith, refused))
      | inl ((r, db₁), first) ↦
          elim (Result-cases (append_event db₁ i.log_now i.job_event_id (timeout_event i x j))) [
            | inr (e, refused) ↦ absurd (ground (arith, first, refused))
            | inl ((r', db₂), second) ↦
                let one = append_event-SameTables db i.log_now i.lease_event_id _ r db₁ first in
                let two = append_event-SameTables db₁ i.log_now i.job_event_id _ r' db₂ second in
                let last : db₂ ≡ after = ground (arith, first, second) in
                record {
                  jobs = sym (ap (λ (d : Db). d.jobs) last) ∙ two.jobs ∙ one.jobs;
                  leases = sym (ap (λ (d : Db). d.leases) last) ∙ two.leases ∙ one.leases;
                }
          ]
    ]

module _ (lib : Platform) where
  pub require_active-Due :
      (db : Db) (now : ℕ) (seen x : Lease)
      → require_active_lease_for_reap lib db now seen ≡ ok x
      → (find? (has_id seen.lease_id) db.leases ≡ some x)
        × (is_active x.status ≡ true)
        × (x.expires_at ≤ now)
  unfolding require_active_lease_for_reap
  require_active-Due db now seen x h = ground arith

-- A job that is timed out, with the row that was found.
time_out_job-rows :
    (db : Db) (i : ReapInput) (x : Lease) (j : Job) (o : Outcome) (after : Db)
    → time_out_job db i x j ≡ (ok o, after)
    → (after.leases ≡ db.leases)
      × (after.jobs
          ≡ update
              (is_attempt x.job_id x.attempt_token)
              (timing_out i.now (timeout_result i.now j))
              db.jobs)
unfolding time_out_job
time_out_job-rows db i x j o after h =
    elim (Option-cases (find? (is_attempt x.job_id x.attempt_token) db.jobs)) [
      | inl none_running ↦ absurd (ground (arith, none_running))
      | inr (k, one) ↦
          let logged =
            log_expiry-SameTables
              (record db {
                jobs =
                    update (is_attempt x.job_id x.attempt_token)
                      (timing_out i.now (timeout_result i.now j)) db.jobs;
              })
              i x j o after (ground (arith, one)) in
          (logged.leases, logged.jobs)
    ]

pub expire_revalidated-Paired :
    (db : Db) (i : ReapInput) (seen x : Lease) (o : Outcome) (after : Db)
    → find? (has_id seen.lease_id) db.leases ≡ some x
    → is_active x.status ≡ true
    → x.expires_at ≤ i.now
    → expire_revalidated_lease db i x ≡ (ok o, after)
    → (j : Job) × Paired db i.now seen x j after
unfolding expire_revalidated_lease
expire_revalidated-Paired db i seen x o after found live due h =
    elim (Option-cases (find? (λ (j : Job). j.id == x.job_id) db.jobs)) [
      | inl missing ↦ absurd (ground (arith, missing))
      | inr (j, job) ↦ elim (Bool-cases (is_consistent x j)) [
        | inr no_match ↦ absurd (ground (arith, job, no_match))
        | inl match ↦ elim (Result-cases (update_lease db.leases x.lease_id reaping)) [
          | inr (e, refused) ↦ absurd (ground (arith, job, match, refused))
          | inl (rows, wrote) ↦
              let timed =
                time_out_job-rows (record db { leases = rows }) i x j o after
                  (ground (arith, job, match, wrote)) in
              (
                j,
                record {
                  found = found;
                  was_active = live;
                  was_due = due;
                  job = job;
                  consistent = match;
                  lease_rows = timed.0 ∙ update_lease-eq-ok db.leases x.lease_id reaping rows wrote;
                  job_rows = timed.1;
                },
              )
        ]
      ]
    ]

module _ (lib : Platform) where
  -- A call that reaps has found the lease active and due with its job running in the same attempt
  -- for the same agent; it expires that lease row, marks the rows of that running attempt timed out
  -- and recoverable, and writes no other lease and no other job.
  pub reap_one-Paired :
      (db : Db) (i : ReapInput) (seen : Lease) (o : Outcome) (after : Db)
      → reap_one_lease lib db i seen ≡ (ok (some o), after)
      → (x : Lease) × (j : Job) × Paired db i.now seen x j after
  unfolding reap_one_lease
  reap_one-Paired db i seen o after h =
      elim (Result-cases (require_active_lease_for_reap lib db i.now seen)) [
        | inr (e, refused) ↦ absurd (ground (arith, refused))
        | inl (x, valid) ↦
            let (found, live, due) = require_active-Due lib db i.now seen x valid in
            elim (Result-cases (expire_revalidated_lease db i x).0) [
              | inr (e, failed) ↦ absurd (ground (arith, valid, failed))
              | inl (o', done) ↦
                  let (j, paired) =
                    expire_revalidated-Paired db i seen x o' after found live due
                      (ground (arith, valid, done)) in
                  (x, j, paired)
            ]
      ]

  -- A call that skips its lease leaves the database as it was.
  pub reap_one-skip :
      (db : Db) (i : ReapInput) (seen : Lease) (after : Db)
      → reap_one_lease lib db i seen ≡ (ok none, after)
      → after ≡ db
  unfolding reap_one_lease
  reap_one-skip db i seen after h =
      elim (Result-cases (require_active_lease_for_reap lib db i.now seen)) [
        | inr (e, refused) ↦ ground (arith, refused)
        | inl (x, valid) ↦ elim (Result-cases (expire_revalidated_lease db i x).0) [
          | inr (e, failed) ↦ absurd (ground (arith, valid, failed))
          | inl (o', done) ↦ absurd (ground (arith, valid, done))
        ]
      ]
