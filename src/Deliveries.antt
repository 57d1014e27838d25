-- ===== src/Deliveries.antt =====
-- The outbox: rows of `deliveries`, the generic transport and the one-shot channel messages
-- (src/coordinate/db.py and src/coordinate/bus.py).
pub mod Ledger
pub mod Bus
pub mod Channel
pub mod Moves
pub mod Writes
pub mod Recovery
pub mod Requests
pub mod Receipts
pub mod Steps
pub mod Once
pub mod Sends
pub mod Pumps
pub mod Failing
pub mod Figures
pub mod Pumped
pub mod Worker
pub mod Working
