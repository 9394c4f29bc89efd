-- ===== src/Session.antt =====
-- daemon/src/session.rs: one connection's conversation with the daemon.
pub mod Frames
pub mod Framing
pub mod Parts
pub mod Chunks
pub mod Drafts
pub mod Pages
pub mod Conversation
