-- ===== src/Examples/Reaping.antt =====
-- The theorems on the reaper, at the workspace's lease after its expiry.
use coordinate.Base.{◌+◌, ◌≤◌, ◌≡◌, refl, some, List, ◌==◌, string_dec_eq, string_discrete}
use coordinate.Table.{find?, length, take, select}
use coordinate.Schema.{Lease, Job}
use coordinate.Leases.Steps.{IsIndexed}
use coordinate.Reap.Pairing.{Paired, reap_one-Paired}
use coordinate.Reap.Exact.{named, reap_exact-Paired}
use coordinate.Leases.Store.{has_id, is_due}
use coordinate.Reap.Sweep.{by_expiry}
use coordinate.Reap.Answers.{reaped_of, failed_of, skipped_of, answers}
use coordinate.Reap.Report.{reap_due_counts, reap_due_keeps}
use coordinate.Examples.World.{lib, lease, leased, dropped}
use coordinate.Examples.Runs.{input, outcome, reaped, reaps, reaps_exact, figures, reaps_all}
use coordinate.Examples.Reserving.{leased-IsIndexed}

reap_one-Paired_example : (x : Lease) × (j : Job) × Paired leased 200 lease x j reaped
reap_one-Paired_example = reap_one-Paired lib leased (input 200 lease) lease outcome reaped reaps

abbrev taken : List Lease
taken = take 100 (by_expiry (select (is_due 200) leased.leases))

reap_due_counts_example :
    (figures.due_found ≤ 100)
    × (figures.summary.processed ≡ reaped_of (answers lib (input 200) 200 taken leased))
    × (figures.summary.errors ≡ failed_of (answers lib (input 200) 200 taken leased))
    × (figures.reaped_count ≡ length figures.summary.processed)
    × (figures.reaped_count
          + length figures.summary.errors
          + skipped_of (answers lib (input 200) 200 taken leased)
        ≡ figures.due_found)
reap_due_counts_example = reap_due_counts lib (input 200) 200 leased 100 figures reaped reaps_all

reap_due_keeps_example :
    IsIndexed reaped.leases × (find? (λ (k : Job). k.id == "dropped") reaped.jobs ≡ some dropped)
unfolding string_discrete
reap_due_keeps_example =
    reap_due_keeps lib (input 200) 200 leased 100 figures reaped "dropped" dropped reaps_all
      leased-IsIndexed refl refl

reap_exact-Paired_example :
    (x : Lease) × (j : Job) × (find? (has_id "lease") leased.leases ≡ some x)
    × (x.job_id ≡ "busy")
    × Paired leased 200 (named "lease" "busy" x) x j reaped
reap_exact-Paired_example =
    reap_exact-Paired lib leased (input 200 lease) 200 "lease" "busy" outcome reaped reaps_exact
