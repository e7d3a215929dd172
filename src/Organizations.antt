-- ===== src/Organizations.antt =====
-- What the operations of src/store/mod.rs on organizations keep true, and whom they let act.
pub mod Owners
pub mod Changes
pub mod History
pub mod Authority
mod Tests
