-- ===== src/Issues.antt =====
-- What the operations of src/store/mod.rs on issues do, and whom they let act.
pub mod States
pub mod Numbers
mod Tests
