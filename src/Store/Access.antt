-- ===== src/Store/Access.antt =====
-- src/store/mod.rs: the access to a repository that issues, pull requests and settings ask for.
use tit.Prelude.{
  String, ℕ, Bool, false, ◌&&◌, ◌||◌, Option, none, some, ◌==◌, str_eq, is_some, if◌then◌else◌,
}
use tit.Prelude.Tables.{find}
use tit.Store.Error.{Result, ok, repository_not_found, ok_or, ◌>>=◌}
use tit.Store.Schema.{Database, Account, is_active}
use tit.Store.Repositories.{
  RepositoryRecord, owner_namespace, repository_row, joined_role, find_actor, repository_from_row,
}

pub record RepositoryIssueAccess : Type 0 where
  pub repository : RepositoryRecord
  pub active_actor_id : Option ℕ
  pub role : Option String

abbrev pub can_read : RepositoryIssueAccess → Bool
can_read access =
    str_eq access.repository.state "active"
    && (str_eq access.repository.visibility "public" || is_some access.role)

abbrev pub is_author : Option ℕ → ℕ → Bool
is_author none author = false
is_author (some id) author = id == author

-- `matches!(role, Some("owner" | "maintainer" | "writer"))`
abbrev pub writer_role : Option String → Bool
writer_role none = false
writer_role (some role) = str_eq role "owner" || str_eq role "maintainer" || str_eq role "writer"

abbrev pub can_write_issue : RepositoryIssueAccess → ℕ → Bool
can_write_issue access author =
    can_read access && (is_author access.active_actor_id author || writer_role access.role)

-- `CASE WHEN actor.state = 'active' THEN actor.id END`
abbrev pub active_id : Option Account → Option ℕ
active_id none = none
active_id (some a) = if is_active a.state then some a.id else none

unfoldable pub repository_issue_access :
    Database → String → String → Option String → Result RepositoryIssueAccess
repository_issue_access db owner_slug slug actor = do
  r ←
      ok_or (find (repository_row owner_slug slug db.namespaces) db.repositories)
        (repository_not_found owner_slug slug)
  namespace ←
      ok_or (find (owner_namespace owner_slug r.owner_namespace_id) db.namespaces)
        (repository_not_found owner_slug slug)
  ok (record {
    repository = repository_from_row namespace r;
    active_actor_id = active_id (find_actor db actor);
    role = joined_role db (find_actor db actor) namespace r;
  })

-- `matches!(role, Some("owner" | "maintainer"))`
abbrev pub maintainer_role : Option String → Bool
maintainer_role none = false
maintainer_role (some role) = str_eq role "owner" || str_eq role "maintainer"

abbrev pub can_maintain : RepositoryIssueAccess → Bool
can_maintain access = can_read access && maintainer_role access.role

abbrev pub can_write_repository : RepositoryIssueAccess → Bool
can_write_repository access = can_read access && writer_role access.role
