-- ===== src/Store/Settings.antt =====
-- src/store/mod.rs: the changes of a repository, from create_repository to
-- unarchive_repository_for_owner. Identifiers of events are arguments: `draw n` is the n-th drawn.
mod Create
mod Administration
mod Maintainers
mod DefaultBranch
unfoldable pub use Create.*
unfoldable pub use Administration.*
unfoldable pub use Maintainers.*
unfoldable pub use DefaultBranch.*
