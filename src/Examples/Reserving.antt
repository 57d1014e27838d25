-- ===== src/Examples/Reserving.antt =====
-- The theorems on reservations and on sequences of calls, at the workspace's lease.
use coordinate.Base.{
  ◌+◌, ◌≤◌, ◌≡◌, ◌≢◌, refl, ok, err, some, none, true, false, [], ◌∷◌, ◌++◌, ◌==◌, string_dec_eq,
  nat_dec_eq, string_discrete,
}
use coordinate.Table.{find?, select, length, update}
use coordinate.Schema.{Policy, Lease}
use coordinate.Json.{text}
use coordinate.Leases.Checks.{unique_lease_id, unique_attempt, unique_active_resource}
use coordinate.Leases.Store.{has_id, occupies, is_due}
use coordinate.Leases.Reserve.{Reading, reserve_attempt_lease, receipt}
use coordinate.Leases.Lifecycle.{expiring}
use coordinate.Leases.Steps.{IsIndexed}
use coordinate.Leases.Calls.{
  Calls, none_yet, and_then, reserving, dropping, sweep, Calls-IsIndexed, Calls-frozen,
}
use coordinate.Leases.Requested.{IsRequested}
use coordinate.Leases.Reservation.{reserve_capacity, reserve_new_row, reserve_replay}
use coordinate.Leases.Constraints.{reserve-ne_unique}
use coordinate.Examples.World.{lib, snapshot, world, clock, request, lease, leased}
use coordinate.Examples.Runs.{
  no_leases-IsIndexed, reserved, lease_valid, holder, ended, freed, releases, releases_again, swept,
  sweeps,
}

pub taken : Calls lib snapshot world leased
taken = and_then none_yet (reserving clock request (receipt lease false) reserved)

given_back : Calls lib snapshot leased freed
given_back = and_then none_yet (dropping 140 holder (text "done") ended releases)

Calls-IsIndexed_example : IsIndexed leased.leases
Calls-IsIndexed_example = Calls-IsIndexed lib snapshot taken no_leases-IsIndexed

pub leased-IsIndexed : IsIndexed leased.leases
leased-IsIndexed = Calls-IsIndexed lib snapshot taken no_leases-IsIndexed

freed-IsIndexed : IsIndexed freed.leases
freed-IsIndexed = Calls-IsIndexed lib snapshot given_back leased-IsIndexed

-- A later call that answers from the released row.
released_again : Calls lib snapshot freed freed
released_again = and_then none_yet (dropping 150 holder (text "done") ended releases_again)

Calls-frozen_example : find? (has_id "lease") freed.leases ≡ some ended
unfolding string_discrete
Calls-frozen_example =
    Calls-frozen lib snapshot ended "lease" released_again freed-IsIndexed refl refl

sweep_example : swept ≡ record leased { leases = update (is_due 200) expiring leased.leases }
sweep_example = sweep lib leased 200 ("lease" ∷ []) swept leased-IsIndexed sweeps

reserve_capacity_example :
    (p : Policy) × (find? (λ (p : Policy). p.agent_id == "ann") world.policies ≡ some p)
    × (length (select (occupies "ann" 100) leased.leases) ≤ p.max_concurrent_jobs)
reserve_capacity_example =
    reserve_capacity lib snapshot world clock request (receipt lease false) leased reserved refl

reserve_new_row_example :
    (x : Lease) × (leased ≡ record world { leases = world.leases ++ x ∷ [] })
    × (find? (has_id "lease") world.leases ≡ none)
    × (find? (has_id "lease") leased.leases ≡ some x)
    × (receipt lease false ≡ receipt x false)
    × IsRequested lib world clock request x
    × (100 + 30 ≤ x.expires_at)
    × (x.expires_at ≤ 100 + 600)
reserve_new_row_example =
    reserve_new_row lib snapshot world clock request (receipt lease false) leased reserved refl

abbrev later : Reading
later = record { now = 130; count_now = 130; uuid = "another" }

reserve_replay_example :
    reserve_attempt_lease lib snapshot leased later request ≡ ok (receipt lease true, leased)
unfolding string_discrete
reserve_replay_example =
    reserve_replay lib snapshot world clock later request (receipt lease false) leased lease
      reserved refl refl lease_valid

reserve-ne_unique_example :
    (reserve_attempt_lease lib snapshot world clock request ≢ err unique_lease_id)
    × (reserve_attempt_lease lib snapshot world clock request ≢ err unique_attempt)
    × (reserve_attempt_lease lib snapshot world clock request ≢ err unique_active_resource)
reserve-ne_unique_example = reserve-ne_unique lib snapshot world clock request refl
