-- ===== src/FeedTokens.antt =====
-- What the operations of src/store/mod.rs on private feed tokens keep true.
pub mod OneLive
pub mod Replacing
pub mod Rotation
mod Tests
