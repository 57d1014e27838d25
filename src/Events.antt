-- ===== src/Events.antt =====
-- The append-only event log (`append_event` of src/coordinate/db.py).
pub mod Log
pub mod Idempotency
pub use Log.*
