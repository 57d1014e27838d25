-- ===== src/Reap/Report.antt =====
-- The answer of `reap_due_leases`.
use Prim.Native.Nat.{◌+◌}
use coordinate.Base.{
  ℕ, ◌≤◌, String, ◌≡◌, refl, ◌∙◌, subst, sym, false, some, List, ok, arith, ◌==◌, string_dec_eq,
}
use coordinate.Table.{find?, select, length, take, length-take-le}
use coordinate.Schema.{Db, Lease, Job}
use coordinate.Resources.{Platform}
use coordinate.Leases.Store.{is_due}
use coordinate.Leases.Steps.{IsIndexed, Steps-IsIndexed}
use coordinate.Reap.Expire.{ReapInput, is_running}
use coordinate.Reap.Sweep.{
  Reaped, nothing_yet, report, reap_all, by_expiry, find_due_active_leases, reap_due_leases,
}
use coordinate.Reap.Effects.{reap_all-Steps, reap_all-job}
use coordinate.Reap.Answers.{
  reaped_of, failed_of, skipped_of, all_accounted, answers, length-answers, reap_all-answers,
}

module _ (lib : Platform) (input : Lease → ReapInput) (now : ℕ) where
  abbrev batch : Db → ℕ → List Lease
  batch db limit = take limit (by_expiry (select (is_due now) db.leases))

  reap_due-loop :
      (db : Db) (limit : ℕ) (r : Reaped) (after : Db)
      → reap_due_leases lib input now db limit ≡ ok (r, after)
      → (r, after)
        ≡ report lib input now
            (batch db limit)
            (reap_all lib input now (batch db limit) (nothing_yet, db))
  unfolding reap_due_leases find_due_active_leases
  reap_due-loop db limit r after h = ground arith

  -- When the reaper answers, it has taken no more leases than its batch size, the due ones by their
  -- expiry. Its summary lists in this order each that the call for one lease reaped, and each that
  -- it failed for with the error, where every call starts from what the one before left, a failed
  -- one nothing. The reaped, the failed and the skipped leases are all that it took.
  pub reap_due_counts :
      (db : Db) (limit : ℕ) (r : Reaped) (after : Db)
      → reap_due_leases lib input now db limit ≡ ok (r, after)
      → (r.due_found ≤ limit)
        × (r.summary.processed ≡ reaped_of (answers lib input now (batch db limit) db))
        × (r.summary.errors ≡ failed_of (answers lib input now (batch db limit) db))
        × (r.reaped_count ≡ length r.summary.processed)
        × (r.reaped_count
              + length r.summary.errors
              + skipped_of (answers lib input now (batch db limit) db)
            ≡ r.due_found)
  reap_due_counts db limit r after h =
      let due = batch db limit in
      let all = answers lib input now due db in
      let (done, failed) = reap_all-answers lib input now due nothing_yet db in
      subst
        (λ (p : Reaped × Db).
          (p.0.due_found ≤ limit)
          × (p.0.summary.processed ≡ reaped_of all)
          × (p.0.summary.errors ≡ failed_of all)
          × (p.0.reaped_count ≡ length p.0.summary.processed)
          × (p.0.reaped_count + length p.0.summary.errors + skipped_of all ≡ p.0.due_found))
        (sym (reap_due-loop db limit r after h))
        (
          length-take-le limit _,
          done,
          failed,
          refl,
          rw (done, failed) (all_accounted all ∙ length-answers lib input now due db),
        )

  -- When the reaper answers on a lease table with its unique indexes, it keeps them, and a job
  -- that is not running is found as it was, whatever failed for single leases on the way.
  pub reap_due_keeps :
      (db : Db) (limit : ℕ) (r : Reaped) (after : Db) (id : String) (j : Job)
      → reap_due_leases lib input now db limit ≡ ok (r, after)
      → IsIndexed db.leases
      → find? (λ (k : Job). k.id == id) db.jobs ≡ some j
      → is_running j.status ≡ false
      → IsIndexed after.leases × (find? (λ (k : Job). k.id == id) after.jobs ≡ some j)
  reap_due_keeps db limit r after id j h indexed found idle =
      let due = batch db limit in
      let same = reap_due-loop db limit r after h in
      subst
        (λ (p : Reaped × Db).
          IsIndexed p.1.leases × (find? (λ (k : Job). k.id == id) p.1.jobs ≡ some j))
        (sym same)
        (
          Steps-IsIndexed (reap_all-Steps lib input now due nothing_yet db indexed) indexed,
          reap_all-job lib input now due nothing_yet db id j found idle,
        )
