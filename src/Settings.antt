-- ===== src/Settings.antt =====
-- Theorems on the changes of repositories, over the calls of Calls.
pub mod Calls
pub mod Effects
pub mod Slugs
pub mod Archived
pub mod RoundTrip
pub mod Renamed
mod Tests
