-- ===== src/Envelope.antt =====
-- The strict envelope of a lease for the agent's side (src/coordinate/lease_envelope.py).
pub mod Fields
pub mod Parse
pub mod Interval
