-- ===== src/Store/Settings/Administration.antt =====
-- src/store/mod.rs: the changes of a repository that the command line asks for, rename_repository to
-- remove_repository_collaborator, and those that an owner's page asks for,
-- rename_repository_for_owner and unarchive_repository_for_owner. `Ok(_) => unreachable!` after an
-- UPDATE of more rows than one is not reached, by the UNIQUE constraint on owner and slug.
use Prim.Native.String.{◌++◌ as append}
use tit.Prelude.{
  String, ℕ, Bool, true, ◌&&◌, ◌||◌, not, none, some, ◌∷◌, ◌==◌, leb, str_eq, is_none, is_some,
  if◌then◌else◌,
}
use tit.Prelude.Tables.{find, update_where, delete_where}
use tit.Store.Error.{
  StoreError, Result, ok, err, sqlite, organization_denied, pull_request_denied, repository_exists,
  collaborator_not_found, invalid_repository_visibility, invalid_collaborator_role,
  owner_collaborator, guard, ok_or, ◌>>=◌, ◌>>◌,
}
use tit.Store.Schema.{Database, Time, Namespace, Repository}
use tit.Store.Common.{named, named_active}
use tit.Store.Keys.{equals_id}
use tit.Store.Organizations.{authorize_namespace_maintainer}
use tit.Store.Repositories.{collaborator_of}
use tit.Store.Settings.Create.{
  active_namespace_id, owned_as, owned_in, repository_state_error, path_text, settings_event,
}

-- Another row has the owner and the new slug, where a row is renamed at all.
abbrev pub renamed_onto : ℕ → String → String → Repository → Bool
renamed_onto owner_id old_slug new_slug r =
    owned_as owner_id new_slug r && not (owned_in owner_id old_slug "active" r)

-- The UPDATE of the slug, and the `match` on its result.
unfoldable pub update_slug : ℕ → String → String → String → Database → Result Database
update_slug owner_id owner old_slug new_slug db = do
  guard (is_some (find (owned_in owner_id old_slug "active") db.repositories))
      (repository_state_error db owner_id owner old_slug)
  guard (is_none (find (renamed_onto owner_id old_slug new_slug) db.repositories))
      (repository_exists owner new_slug)
  ok (record db {
    repositories =
        update_where (owned_in owner_id old_slug "active") (λ r. record r { slug = new_slug })
          db.repositories;
  })

abbrev rename_text : String → String → String → String
rename_text owner old_slug new_slug = append (path_text owner old_slug) (append "->" new_slug)

unfoldable pub rename_repository :
    String → String → String → Time → String → String → Database → Result Database
rename_repository owner old_slug new_slug changed_at actor correlation_id db = do
  owner_id ← active_namespace_id db owner
  renamed ← update_slug owner_id owner old_slug new_slug db
  ok (
      settings_event "repository.rename" actor (rename_text owner old_slug new_slug) correlation_id
        changed_at renamed)

-- An UPDATE of the repositories with the owner, the slug and the state; `valid` is the CHECK on
-- a row that it changes.
unfoldable pub update_repository :
    ℕ
    → String
    → String
    → String
    → (Repository → Bool)
    → (Repository → Repository)
    → Database
    → Result Database
update_repository owner_id owner slug state valid change db = do
  guard (is_some (find (owned_in owner_id slug state) db.repositories))
      (repository_state_error db owner_id owner slug)
  guard (is_none (find (λ r. owned_in owner_id slug state r && not (valid r)) db.repositories))
      sqlite
  ok (record db {
    repositories = update_where (owned_in owner_id slug state) change db.repositories;
  })

abbrev pub archived_by : Time → Repository → Repository
archived_by now r = record r { state = "archived"; archived_at = some now }

unfoldable pub archive_repository :
    String → String → Time → String → String → Database → Result Database
archive_repository owner slug archived_at actor correlation_id db = do
  owner_id ← active_namespace_id db owner
  updated ←
      update_repository owner_id owner slug "active" (λ r. leb r.created_at archived_at)
        (archived_by archived_at) db
  ok (
      settings_event "repository.archive" actor (path_text owner slug) correlation_id archived_at
        updated)

abbrev pub is_visibility : String → Bool
is_visibility visibility = str_eq visibility "public" || str_eq visibility "private"

abbrev any_row : Repository → Bool
any_row r = true

unfoldable pub set_repository_visibility :
    String → String → String → Time → String → String → Database → Result Database
set_repository_visibility owner slug visibility changed_at actor correlation_id db = do
  guard (is_visibility visibility) invalid_repository_visibility
  owner_id ← active_namespace_id db owner
  updated ←
      update_repository owner_id owner slug "active" any_row
        (λ r. record r { visibility = visibility }) db
  ok (
      settings_event "repository.visibility" actor
        (append (path_text owner slug) (append ":" visibility)) correlation_id changed_at updated)

abbrev pub is_collaborator_role : String → Bool
is_collaborator_role role = str_eq role "maintainer" || str_eq role "writer" || str_eq role "reader"

-- INSERT INTO repository_collaborator … ON CONFLICT … DO UPDATE SET role = excluded.role
unfoldable pub upsert_collaborator : String → ℕ → String → Time → Database → Database
upsert_collaborator repository_id account_id role now db = record db {
  repository_collaborators =
      if is_some (find (collaborator_of repository_id account_id) db.repository_collaborators)
      then update_where (collaborator_of repository_id account_id) (λ c. record c { role = role })
          db.repository_collaborators
      else record {
        repository_id = repository_id;
        account_id = account_id;
        role = role;
        created_at = now;
      }
        ∷ db.repository_collaborators;
}

-- namespace_account_id
abbrev pub is_account_of : Database → ℕ → ℕ → Bool
is_account_of db owner_id account_id =
    is_some (
      find (λ (n : Namespace). n.id == owner_id && equals_id n.account_id account_id) db.namespaces)

unfoldable pub set_repository_collaborator :
    String → String → String → String → Time → String → String → Database → Result Database
set_repository_collaborator owner slug username role changed_at actor correlation_id db = do
  guard (is_collaborator_role role) invalid_collaborator_role
  owner_id ← active_namespace_id db owner
  repository ←
      ok_or (find (owned_in owner_id slug "active") db.repositories)
        (repository_state_error db owner_id owner slug)
  collaborator ← ok_or (find (named_active username) db.accounts) (collaborator_not_found username)
  guard (not (is_account_of db owner_id collaborator.id)) owner_collaborator
  ok (
      settings_event "collaborator.set" actor
        (append (path_text owner slug) (append ":" (append username (append ":" role))))
        correlation_id changed_at
        (upsert_collaborator repository.id collaborator.id role changed_at db))

unfoldable pub delete_collaborator : String → ℕ → String → Database → Result Database
delete_collaborator repository_id account_id username db =
    guard (is_some (find (collaborator_of repository_id account_id) db.repository_collaborators))
      (collaborator_not_found username)
    >> ok (record db {
      repository_collaborators =
          delete_where (collaborator_of repository_id account_id) db.repository_collaborators;
    })

unfoldable pub remove_repository_collaborator :
    String → String → String → Time → String → String → Database → Result Database
remove_repository_collaborator owner slug username changed_at actor correlation_id db = do
  owner_id ← active_namespace_id db owner
  repository ←
      ok_or (find (owned_in owner_id slug "active") db.repositories)
        (repository_state_error db owner_id owner slug)
  collaborator ← ok_or (find (named username) db.accounts) (collaborator_not_found username)
  guard (not (is_account_of db owner_id collaborator.id)) owner_collaborator
  removed ← delete_collaborator repository.id collaborator.id username db
  ok (
      settings_event "collaborator.remove" actor
        (append (path_text owner slug) (append ":" username)) correlation_id changed_at removed)

-- `map_err` of OrganizationDenied to PullRequestDenied.
abbrev page_error : StoreError → StoreError
page_error organization_denied = pull_request_denied
page_error e = e

abbrev pub map_page_error : Result (Unit {0}) → Result (Unit {0})
map_page_error (ok u) = ok u
map_page_error (err e) = err (page_error e)

unfoldable pub rename_repository_for_owner :
    String → String → String → String → Time → String → Database → Result Database
rename_repository_for_owner owner old_slug new_slug actor changed_at correlation_id db = do
  owner_id ← active_namespace_id db owner
  map_page_error (authorize_namespace_maintainer db owner_id actor)
  renamed ← update_slug owner_id owner old_slug new_slug db
  ok (
      settings_event "repository.rename" actor (rename_text owner old_slug new_slug) correlation_id
        changed_at renamed)

unfoldable pub unarchive_repository_for_owner :
    String → String → String → Time → String → Database → Result Database
unarchive_repository_for_owner owner slug actor changed_at correlation_id db = do
  owner_id ← active_namespace_id db owner
  map_page_error (authorize_namespace_maintainer db owner_id actor)
  updated ←
      update_repository owner_id owner slug "archived" any_row
        (λ r. record r { state = "active"; archived_at = none }) db
  ok (
      settings_event "repository.unarchive" actor (path_text owner slug) correlation_id changed_at
        updated)
