-- ===== src/Git.antt =====
-- Theorems on Git intents and pull requests, over the calls of Calls.
pub mod Calls
pub mod Frame
pub mod IntentEffects
pub mod Life
pub mod Finish
pub mod Outbox
pub mod PullEffects
pub mod Merged
pub mod Closed
pub mod Openings
mod Tests
