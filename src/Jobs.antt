-- ===== src/Jobs.antt =====
-- Jobs: their table (src/coordinate/job_repository.py), and cancelling, retrying, running and
-- pumping them (src/coordinate/jobs.py).
pub mod Errors
pub mod Repository
pub mod Control
pub mod Completion
pub mod Freeing
pub mod Cancellation
pub mod Retrial
pub mod Run
