-- ===== src/Channels.antt =====
-- Which workspace a chat channel belongs to (src/coordinate/db.py, the channel bindings).
pub mod Names
pub mod Binding
pub mod Replay
pub mod Releasing
pub mod Historic
