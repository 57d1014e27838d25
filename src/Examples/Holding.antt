-- ===== src/Examples/Holding.antt =====
-- The theorems on renewal and release, at the workspace's lease.
use coordinate.Base.{ℕ, String, ap, arith, ◌<◌, ◌≡◌, ◌≢◌, ok, err}
use coordinate.Text.{char_count}
use coordinate.Json.{text, int}
use coordinate.Schema.{Lease}
use coordinate.Leases.Checks.{other_reason, not_active, lease_released, validate_ttl}
use coordinate.Leases.Reserve.{compute_expires}
use coordinate.Leases.Lifecycle.{
  renewal, renew_attempt_lease, release_attempt_lease, expire_attempt_lease,
}
use coordinate.Leases.Outcomes.{Replaced, renew-Replaced}
use coordinate.Leases.Release.{release_again, release_other_reason, release_ends}
use coordinate.Examples.World.{lib, lease, leased}
use coordinate.Examples.Runs.{
  holder, ended, freed, releases, renewed, renews, valid_reason, valid_other, valid_ttl,
}

renew-Replaced_example :
    (x : Lease) × (n : ℕ) × (validate_ttl (int 60) ≡ ok n)
    × (renewal 130 190 lease ≡ renewal 130 (compute_expires 130 n) x)
    × (120 < x.expires_at)
    × (x.expires_at < compute_expires 130 n)
    × Replaced leased x (renewal 130 (compute_expires 130 n)) renewed
renew-Replaced_example =
    renew-Replaced lib leased 120 130 holder (int 60) (renewal 130 190 lease) renewed renews

release_again_example : release_attempt_lease lib freed 150 holder (text "done") ≡ ok (ended, freed)
release_again_example = release_again lib leased 140 150 holder (text "done") ended freed releases

reasons_differ : ◌≢◌ {A = String} "done" "lost it"
unfolding char_count
reasons_differ e = let h : 4 ≡ 7 = ap char_count e in omega (arith, h)

release_other_reason_example :
    release_attempt_lease lib freed 150 holder (text "lost it") ≡ err other_reason
release_other_reason_example =
    release_other_reason lib leased 140 150 holder (text "done") (text "lost it") "done" "lost it"
      ended freed releases valid_reason valid_other reasons_differ

release_ends_example :
    (renew_attempt_lease lib freed 145 150 holder (int 60) ≡ err not_active)
    × (expire_attempt_lease lib freed holder ≡ err lease_released)
release_ends_example =
    release_ends lib leased 140 145 150 holder (text "done") (int 60) 60 ended freed releases
      valid_ttl
