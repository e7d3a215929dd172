-- ===== src/Store/Repositories.antt =====
-- src/store/mod.rs: what the policy reads of a repository, repository_authorization and
-- repository_default_branch.
use tit.Prelude.{
  String, ℕ, Bool, false, ◌&&◌, ◌||◌, not, Option, none, some, List, ◌==◌, str_eq, is_some,
  if◌then◌else◌,
}
use tit.Prelude.Tables.{find}
use tit.Store.Error.{Result, ok, repository_not_found, ok_or, ◌>>=◌}
use tit.Store.Schema.{
  Database, Account, Namespace, Repository, RepositoryCollaborator, RepositoryDefaultBranch,
  OrganizationMember, Role, owner, maintainer, writer, reader, Time, is_active,
}
use tit.Store.Common.{named}
use tit.Store.Keys.{equals_id}
use tit.Store.Organizations.{member_of}

pub record RepositoryRecord : Type 0 where
  pub id : String
  pub owner_slug : String
  pub slug : String
  pub visibility : String
  pub state : String
  pub object_format : String
  pub created_at : Time
  pub archived_at : Option Time

pub record RepositoryAuthorizationRecord : Type 0 where
  pub repository : RepositoryRecord
  pub role : Option String

-- `owner.id = repository.owner_namespace_id AND owner.slug = ?1`
abbrev pub owner_namespace : String → ℕ → Namespace → Bool
owner_namespace owner_slug id n = n.id == id && str_eq n.slug owner_slug

abbrev pub repository_row : String → String → List Namespace → Repository → Bool
repository_row owner_slug slug namespaces r =
    str_eq r.slug slug
    && is_some (find (owner_namespace owner_slug r.owner_namespace_id) namespaces)

abbrev pub collaborator_of : String → ℕ → RepositoryCollaborator → Bool
collaborator_of repository_id account_id c =
    str_eq c.repository_id repository_id && c.account_id == account_id

abbrev pub role_text : Role → String
role_text owner = "owner"
role_text maintainer = "maintainer"
role_text writer = "writer"
role_text reader = "reader"

-- `organization_member.role = 'text'`, and the same of a collaborator; NULL where no row is joined.
abbrev pub member_has : Option OrganizationMember → String → Bool
member_has none text = false
member_has (some m) text = str_eq (role_text m.role) text

abbrev pub collaborator_has : Option RepositoryCollaborator → String → Bool
collaborator_has none text = false
collaborator_has (some c) text = str_eq c.role text

-- The CASE of the query for an actor that has an account.
unfoldable pub case_role :
    Account → Namespace → Option OrganizationMember → Option RepositoryCollaborator → Option String
case_role actor namespace m c =
    if not (is_active actor.state)
    then none
    else if equals_id namespace.account_id actor.id
    then some "owner"
    else if member_has m "owner"
    then some "owner"
    else if member_has m "maintainer" || collaborator_has c "maintainer"
    then some "maintainer"
    else if member_has m "writer" || collaborator_has c "writer"
    then some "writer"
    else if member_has m "reader" || collaborator_has c "reader"
    then some "reader"
    else none

-- The LEFT JOINs: without an account, every column of the actor is NULL, and so is the role.
unfoldable pub joined_role : Database → Option Account → Namespace → Repository → Option String
joined_role db none namespace r = none
joined_role db (some actor) namespace r =
    case_role actor namespace (find (member_of namespace.id actor.id) db.organization_members)
      (find (collaborator_of r.id actor.id) db.repository_collaborators)

abbrev pub find_actor : Database → Option String → Option Account
find_actor db none = none
find_actor db (some username) = find (named username) db.accounts

abbrev pub repository_from_row : Namespace → Repository → RepositoryRecord
repository_from_row namespace r = record {
  id = r.id;
  owner_slug = namespace.slug;
  slug = r.slug;
  visibility = r.visibility;
  state = r.state;
  object_format = r.object_format;
  created_at = r.created_at;
  archived_at = r.archived_at;
}

unfoldable pub repository_authorization :
    Database → String → String → Option String → Result RepositoryAuthorizationRecord
repository_authorization db owner_slug slug username = do
  r ←
      ok_or (find (repository_row owner_slug slug db.namespaces) db.repositories)
        (repository_not_found owner_slug slug)
  namespace ←
      ok_or (find (owner_namespace owner_slug r.owner_namespace_id) db.namespaces)
        (repository_not_found owner_slug slug)
  ok (record {
    repository = repository_from_row namespace r;
    role = joined_role db (find_actor db username) namespace r;
  })

unfoldable pub repository_default_branch : Database → String → String → Result String
repository_default_branch db owner_slug slug = do
  branch ←
      ok_or
        (find
          (λ (b : RepositoryDefaultBranch). is_some (
            find
              (λ r. str_eq r.id b.repository_id && repository_row owner_slug slug db.namespaces r)
              db.repositories))
          db.repository_default_branches)
        (repository_not_found owner_slug slug)
  ok branch.ref_name
