-- ===== src/Identity.antt =====
-- What the operations of src/store/mod.rs on accounts, keys and logins keep true of the database.
pub mod Reach
pub mod Frame
pub mod LiveKeys
pub mod HasKey
pub mod LoginTables
pub mod Consumes
pub mod Replay
pub mod AccountRows
pub mod Unique
pub mod Invitations
pub mod Sessions
pub mod Suspension
mod Tests
