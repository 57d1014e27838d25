-- ===== src/Dependencies.antt =====
-- Updating the dependencies of a task in the checklist (src/coordinate/task_dependencies.py).
pub mod Checklist
pub mod Update
pub mod Combined
pub mod Member
pub mod Idle
pub mod Desired
pub mod Converge
pub mod Applied
pub mod Outcome
pub mod Recovery
pub mod Refusal
