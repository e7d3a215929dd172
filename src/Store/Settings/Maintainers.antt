-- ===== src/Store/Settings/Maintainers.antt =====
-- src/store/mod.rs: what the settings page changes for a maintainer, update_repository_settings,
-- update_repository_collaborator and archive_repository_for_actor; and watches, watch and set_watch.
use Prim.Native.String.{◌++◌ as append}
use tit.Prelude.{
  String, ℕ, Bool, true, ◌&&◌, not, Option, none, some, List, ◌∷◌, ◌==◌, leb, str_eq, is_none,
  is_some, if◌then◌else◌,
}
use tit.Prelude.Tables.{find, update_where, delete_where}
use tit.Store.Error.{
  Result, ok, sqlite, pull_request_denied, collaborator_not_found, invalid_repository_visibility,
  invalid_collaborator_role, owner_collaborator, watch_denied, guard, ok_or, on_row, ◌>>=◌, ◌>>◌,
}
use tit.Store.Schema.{Database, Time, RepositoryProfile, Watch}
use tit.Store.Common.{named_active}
use tit.Store.Repositories.{RepositoryRecord}
use tit.Store.Access.{can_read, can_maintain, repository_issue_access}
use tit.Store.Settings.Create.{path_text, settings_event, with_repository_id}
use tit.Store.Settings.Administration.{
  is_visibility, is_collaborator_role, upsert_collaborator, delete_collaborator, archived_by,
}

abbrev profile_of : String → RepositoryProfile → Bool
profile_of repository_id p = str_eq p.repository_id repository_id

-- INSERT INTO repository_profile … ON CONFLICT … DO UPDATE SET description
unfoldable pub upsert_profile : String → String → List RepositoryProfile → List RepositoryProfile
upsert_profile repository_id description profiles =
    if is_some (find (profile_of repository_id) profiles)
    then update_where (profile_of repository_id) (λ p. record p { description = description })
        profiles
    else record { repository_id = repository_id; description = description } ∷ profiles

pub record RepositorySettingsUpdate : Type 0 where
  pub owner : String
  pub slug : String
  pub actor : String
  pub description : String
  pub visibility : String
  pub changed_at : Time
  pub correlation_id : String

unfoldable pub update_repository_settings : RepositorySettingsUpdate → Database → Result Database
update_repository_settings u db = do
  guard (is_visibility u.visibility) invalid_repository_visibility
  access ← repository_issue_access db u.owner u.slug (some u.actor)
  guard (can_maintain access) pull_request_denied
  ok (
      settings_event "repository.settings" u.actor (path_text u.owner u.slug) u.correlation_id
        u.changed_at
        (record db {
          repository_profiles =
              upsert_profile access.repository.id u.description db.repository_profiles;
          repositories =
              update_where (with_repository_id access.repository.id)
                (λ r. record r { visibility = u.visibility }) db.repositories;
        }))

pub record RepositoryCollaboratorUpdate : Type 0 where
  pub owner : String
  pub slug : String
  pub actor : String
  pub username : String
  pub role : Option String
  pub changed_at : Time
  pub correlation_id : String

abbrev is_role_or_none : Option String → Bool
is_role_or_none none = true
is_role_or_none (some role) = is_collaborator_role role

unfoldable pub change_collaborator :
    String → ℕ → String → Option String → Time → Database → Result Database
change_collaborator repository_id account_id username none now db =
    delete_collaborator repository_id account_id username db
change_collaborator repository_id account_id username (some role) now db =
    ok (upsert_collaborator repository_id account_id role now db)

unfoldable pub update_repository_collaborator :
    RepositoryCollaboratorUpdate → Database → Result Database
update_repository_collaborator u db = do
  guard (is_role_or_none u.role) invalid_collaborator_role
  access ← repository_issue_access db u.owner u.slug (some u.actor)
  guard (can_maintain access) pull_request_denied
  collaborator ←
      ok_or (find (named_active u.username) db.accounts) (collaborator_not_found u.username)
  guard (not (str_eq u.username u.owner)) owner_collaborator
  changed ←
      change_collaborator access.repository.id collaborator.id u.username u.role u.changed_at db
  ok (
      settings_event (if is_some u.role then "collaborator.set" else "collaborator.remove") u.actor
        (append (path_text u.owner u.slug) (append ":" u.username)) u.correlation_id u.changed_at
        changed)

unfoldable pub archive_repository_for_actor :
    String → String → String → Time → String → Database → Result Database
archive_repository_for_actor owner slug actor changed_at correlation_id db = do
  access ← repository_issue_access db owner slug (some actor)
  guard (can_maintain access) pull_request_denied
  guard (leb access.repository.created_at changed_at) sqlite
  ok (
      settings_event "repository.archive" actor (path_text owner slug) correlation_id changed_at
        (record db {
          repositories =
              update_where (with_repository_id access.repository.id) (archived_by changed_at)
                db.repositories;
        }))

abbrev pub watch_of : String → ℕ → Watch → Bool
watch_of repository_id account_id w =
    str_eq w.repository_id repository_id && w.account_id == account_id

unfoldable pub watch :
    Database → String → String → Option String → Result (RepositoryRecord × Option Watch)
watch db owner repository actor = do
  access ← repository_issue_access db owner repository actor
  guard (can_read access) watch_denied
  ok (
    access.repository,
    elim access.active_actor_id [
      | none ↦ none
      | some actor_id ↦ find (watch_of access.repository.id actor_id) db.watches
    ],
  )

-- INSERT INTO watch … ON CONFLICT … DO UPDATE SET updated_at, with UNIQUE (id) and the CHECK on the
-- times of the row.
unfoldable pub upsert_watch : String → String → ℕ → Time → Database → Result Database
upsert_watch id repository_id account_id now db =
    on_row (find (watch_of repository_id account_id) db.watches)
      (guard (is_none (find (λ w. str_eq w.id id) db.watches)) sqlite
        >> ok (record db {
          watches =
              record {
                id = id;
                repository_id = repository_id;
                account_id = account_id;
                created_at = now;
                updated_at = now;
              }
              ∷ db.watches;
        }))
      (λ w.
        guard (leb w.created_at now) sqlite
        >> ok (record db {
          watches =
              update_where (watch_of repository_id account_id) (λ v. record v { updated_at = now })
                db.watches;
        }))

unfoldable pub set_watch :
    String → String → String → String → Bool → Time → Database → Result (Option Watch × Database)
set_watch id owner repository actor watching changed_at db = do
  access ← repository_issue_access db owner repository (some actor)
  actor_id ← ok_or access.active_actor_id watch_denied
  guard (can_read access) watch_denied
  if watching
      then (do
        inserted ← upsert_watch id access.repository.id actor_id changed_at db
        row ← ok_or (find (watch_of access.repository.id actor_id) inserted.watches) sqlite
        ok (some row, inserted))
      else ok (
        none,
        record db { watches = delete_where (watch_of access.repository.id actor_id) db.watches },
      )
