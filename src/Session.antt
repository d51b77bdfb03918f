-- ===== src/Session.antt =====
-- src/session/: the window policy of a session.
pub mod Message
pub mod Estimate
pub mod Turns
pub mod Rotation
pub mod Externalize
pub mod Deduplicate
pub mod Contents
pub mod Epoch
