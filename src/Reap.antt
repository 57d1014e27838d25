-- ===== src/Reap.antt =====
-- The reaper of due leases (src/coordinate/runtime_lease.py): it expires a lease and makes the job
-- of the same attempt recoverable, in one transaction.
pub mod Expire
pub mod Sweep
pub mod Pairing
pub mod Exact
pub mod Effects
pub mod Answers
pub mod Report
