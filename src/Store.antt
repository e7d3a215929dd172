-- ===== src/Store.antt =====
-- src/store/mod.rs: the metadata store, one child for each part of it.
pub mod Error
pub mod Schema
pub mod Common
pub mod Accounts
pub mod Keys
pub mod Login
pub mod Organizations
pub mod FeedTokens
pub mod Repositories
pub mod Access
pub mod Events
pub mod Issues
pub mod PushEvents
pub mod GitIntents
pub mod Merges
pub mod PullRequests
pub mod Settings
