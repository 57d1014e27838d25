-- ===== src/Reap/Effects.antt =====
-- What the loop of the reaper keeps, over any list of leases and any errors on the way.
use coordinate.Base.{
  ℕ, String, ◌≡◌, refl, sym, subst, ap, ◌∙◌, Bool, true, false, ◌⊎◌, inl, inr, none, some, List, [],
  ◌∷◌, ◌==◌, nat_dec_eq, string_dec_eq, arith, Result-cases, ==_sound,
}
use coordinate.Table.{find?, update, find?-holds, find?-update, only_row}
use coordinate.Schema.{Db, Lease, Job}
use coordinate.Resources.{Platform}
use coordinate.Leases.Store.{has_id}
use coordinate.Leases.Steps.{
  IsFinishing, IsIndexed, Step, stay, write, Steps, here, next, Step-IsIndexed,
}
use coordinate.Leases.Calls.{only_active}
use coordinate.Reap.Expire.{
  ReapInput, reaping, timing_out, timeout_result, is_attempt, is_running, reap_one_lease,
}
use coordinate.Reap.Sweep.{Summary, reap_step, reap_all}
use coordinate.Reap.Pairing.{Paired, reap_one-Paired, reap_one-skip}

reaping-IsFinishing : IsFinishing reaping
reaping-IsFinishing = record {
  same_id = λ x. refl;
  same_job = λ x. refl;
  same_token = λ x. refl;
  same_key = λ x. refl;
  no_revival = λ x e. cc;
}

prepend : {a b c : List Lease} → Step a b → Steps b c → Steps a c
prepend one here = next here one
prepend one (next s st) = next (prepend one s) st

-- An UPDATE of running jobs does not touch a job that is not running.
idle_kept :
    (jobs : List Job) (id : String) (j : Job) (q : Job → Bool) (f : Job → Job)
    → ((k : Job) → q k ≡ true → is_running k.status ≡ true)
    → ((k : Job) → (f k).id ≡ k.id)
    → find? (λ (k : Job). k.id == id) jobs ≡ some j
    → is_running j.status ≡ false
    → find? (λ (k : Job). k.id == id) (update q f jobs) ≡ some j
idle_kept jobs id j q f running same found idle = ground (
  arith,
  find?-update (λ (k : Job). k.id == id) q f jobs (λ k. ground (arith, same k)),
  found,
  running j,
)

module _ (lib : Platform) (input : Lease → ReapInput) (now : ℕ) where
  -- One round leaves the database alone, or reaps one lease with its job.
  pub reap_step-cases :
      (x : Lease) (s : Summary) (db : Db)
      → ((reap_step lib input now x (s, db)).1 ≡ db)
        ⊎ ((y : Lease) × (j : Job) × Paired db now x y j (reap_step lib input now x (s, db)).1)
  unfolding reap_step
  reap_step-cases x s db =
      let i = record (input x) { now = now } in
      elim (Result-cases (reap_one_lease lib db i x).0) [
        | inr (e, failed) ↦ inl (ground (arith, failed))
        | inl (none, skipped) ↦ inl (
            ground (
              arith,
              skipped,
              reap_one-skip lib db i x (reap_one_lease lib db i x).1 (ground (arith, skipped)),
            ))
        | inl (some o, reaped) ↦
            let (y, j, paired) =
              reap_one-Paired lib db i x o (reap_one_lease lib db i x).1 (ground (arith, reaped)) in
            inr (y, j, subst (λ d. Paired db now x y j d) (ground (arith, reaped)) paired)
      ]

  Paired-Step :
      (db : Db) (seen x : Lease) (j : Job) (after : Db)
      → IsIndexed db.leases
      → Paired db now seen x j after
      → Step db.leases after.leases
  Paired-Step db seen x j after h p =
      let same =
        ==_sound x.lease_id seen.lease_id
          (find?-holds (has_id seen.lease_id) db.leases x p.found) in
      write (has_id x.lease_id) reaping reaping-IsFinishing
        (only_active x (has_id x.lease_id) db.leases p.was_active (
          only_row (has_id x.lease_id) db.leases x (h.one_id x.lease_id)
            (subst (λ i. find? (has_id i) db.leases ≡ some x) (sym same) p.found)))
        p.lease_rows

  reap_step-Step :
      (x : Lease) (s : Summary) (db : Db)
      → IsIndexed db.leases
      → Step db.leases (reap_step lib input now x (s, db)).1.leases
  reap_step-Step x s db h = elim (reap_step-cases x s db) [
    | inl same ↦ stay (ap (λ (d : Db). d.leases) same)
    | inr (y, j, paired) ↦ Paired-Step db x y j _ h paired
  ]

  -- The whole loop is a sequence of steps of the lease table.
  pub reap_all-Steps :
      (due : List Lease) (s : Summary) (db : Db)
      → IsIndexed db.leases
      → Steps db.leases (reap_all lib input now due (s, db)).1.leases
  unfolding reap_all
  reap_all-Steps [] s db h = here
  reap_all-Steps (x ∷ due) s db h =
      let one = reap_step-Step x s db h in
      let rest =
        reap_all-Steps due (reap_step lib input now x (s, db)).0
          (reap_step lib input now x (s, db)).1 (Step-IsIndexed one h) in
      prepend one rest

  -- A job that is not running is found as it was after the loop.
  pub reap_all-job :
      (due : List Lease) (s : Summary) (db : Db) (id : String) (j : Job)
      → find? (λ (k : Job). k.id == id) db.jobs ≡ some j
      → is_running j.status ≡ false
      → find? (λ (k : Job). k.id == id) (reap_all lib input now due (s, db)).1.jobs ≡ some j
  unfolding reap_all
  reap_all-job [] s db id j found idle = found
  reap_all-job (x ∷ due) s db id j found idle =
      reap_all-job due (reap_step lib input now x (s, db)).0 (reap_step lib input now x (s, db)).1
        id j
        (elim (reap_step-cases x s db) [
          | inl same ↦ ap (λ (d : Db). find? (λ (k : Job). k.id == id) d.jobs) same ∙ found
          | inr (y, k, paired) ↦
              ap (find? (λ (k : Job). k.id == id)) paired.job_rows
              ∙ idle_kept db.jobs id j (is_attempt y.job_id y.attempt_token)
                  (timing_out now (timeout_result now k)) (λ z e. ground arith) (λ z. refl) found
                  idle
        ])
        idle
