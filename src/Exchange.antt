-- ===== src/Exchange.antt =====
-- The two programs together: what one sends, the other reads.
pub mod Requests
pub mod Replies
pub mod Transfers
pub mod Session
