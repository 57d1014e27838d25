-- ===== src/Jobs/Run.antt =====
-- `run_job` and `pump_jobs` (jobs.py): the agent's answer, one run, and the loop over the queue.
pub mod Response
pub mod Paths
pub mod Once
pub mod Pump
pub mod Verdict
pub mod Counts
