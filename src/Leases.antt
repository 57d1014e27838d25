-- ===== src/Leases.antt =====
-- Execution attempt leases (src/coordinate/execution_leases.py): one row for each attempt of a job
-- that a runtime agent claimed, which holds a worktree and one slot of the agent's capacity.
-- Each function gets the database and the clock, and returns its result with the database after
-- it; an error carries no database, since the caller that owns the transaction rolls it back.
pub mod Checks
pub mod Store
pub mod Reserve
pub mod Lifecycle
pub mod Moves
pub mod Steps
pub mod Outcomes
pub mod Due
pub mod Calls
pub mod Release
pub mod Requested
pub mod Reservation
pub mod Constraints
