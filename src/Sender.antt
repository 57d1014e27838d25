-- ===== src/Sender.antt =====
-- One-shot channel messages from the client's request to the receipt
-- (src/coordinate/channel_delivery.py).
pub mod Input
pub mod Receipt
pub mod Send
pub mod Claiming
pub mod Posting
