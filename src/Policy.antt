-- ===== src/Policy.antt =====
-- src/policy.rs: which operations on a repository, and which changes of a ref, an actor may make.
-- A ref name is a text here: only its equality with the default branch is asked.
pub mod Grants
pub mod Strangers
pub mod Agreement
mod Tests
use tit.Prelude.{
  String, Bool, true, false, ◌&&◌, ◌||◌, not, Option, none, some, str_eq, is_some, if◌then◌else◌,
}
use tit.Store.Error.{StoreError, Result, ok, err}
use tit.Store.Schema.{Database}
use tit.Store.Repositories.{
  RepositoryRecord, RepositoryAuthorizationRecord, repository_authorization,
  repository_default_branch,
}

pub data RefChange : Type 0 where
  create fast_forward force delete tag_update : RefChange

pub data RepositoryOperation : Type 0 where
  read write maintain : RepositoryOperation

pub data RepositoryRole : Type 0 where
  owner maintainer writer reader : RepositoryRole

pub data PolicyError : Type 0 where
  store : StoreError → PolicyError
  denied invalid_role : PolicyError

pub data Answer {ℓ} (A : Type ℓ) : Type ℓ where
  granted : A → Answer A
  refused : PolicyError → Answer A

unfoldable pub parse_role : String → Answer RepositoryRole
parse_role role =
    if str_eq role "owner"
    then granted owner
    else if str_eq role "maintainer"
    then granted maintainer
    else if str_eq role "writer"
    then granted writer
    else if str_eq role "reader"
    then granted reader
    else refused invalid_role

-- `role.as_deref().map(parse_role).transpose()`
abbrev pub transpose : Answer RepositoryRole → Answer (Option RepositoryRole)
transpose (granted r) = granted (some r)
transpose (refused e) = refused e

abbrev pub parsed_role : Option String → Answer (Option RepositoryRole)
parsed_role none = granted none
parsed_role (some role) = transpose (parse_role role)

abbrev pub writes : Option RepositoryRole → Bool
writes (some owner) = true
writes (some maintainer) = true
writes (some writer) = true
writes _ = false

abbrev pub maintains : Option RepositoryRole → Bool
maintains (some owner) = true
maintains (some maintainer) = true
maintains _ = false

abbrev pub operation_allows : RepositoryRecord → RepositoryOperation → Option RepositoryRole → Bool
operation_allows repository read role = str_eq repository.visibility "public" || is_some role
operation_allows repository write role = writes role
operation_allows repository maintain role = maintains role

abbrev pub allows_role :
    RepositoryRecord → RepositoryOperation → Answer (Option RepositoryRole) → Answer Bool
allows_role repository operation (granted role) =
    granted (operation_allows repository operation role)
allows_role repository operation (refused e) = refused e

unfoldable pub allows : RepositoryAuthorizationRecord → RepositoryOperation → Answer Bool
allows record_ operation =
    if not (str_eq record_.repository.state "active")
    then granted false
    else allows_role record_.repository operation (parsed_role record_.role)

-- `if allowed? { Ok(repository) } else { Err(Denied) }`
abbrev pub grant_if : RepositoryRecord → Answer Bool → Answer RepositoryRecord
grant_if repository (granted true) = granted repository
grant_if repository (granted false) = refused denied
grant_if repository (refused e) = refused e

abbrev pub authorize_record :
    RepositoryOperation → Result RepositoryAuthorizationRecord → Answer RepositoryRecord
authorize_record operation (ok r) = grant_if r.repository (allows r operation)
authorize_record operation (err e) = refused (store e)

unfoldable pub authorize :
    Database → Option String → String → String → RepositoryOperation → Answer RepositoryRecord
authorize db actor owner_slug slug operation =
    authorize_record operation (repository_authorization db owner_slug slug actor)

abbrev pub is_force : RefChange → Bool
is_force force = true
is_force _ = false

abbrev pub is_delete : RefChange → Bool
is_delete delete = true
is_delete _ = false

-- The condition of the code: `||` and `&&` test `allows … Maintain` only where the others leave it.
abbrev pub maintain_denies : Answer Bool → Answer Bool
maintain_denies (granted b) = granted (not b)
maintain_denies (refused e) = refused e

abbrev pub change_denied : RepositoryAuthorizationRecord → Bool → RefChange → Answer Bool
change_denied r protected change =
    if is_force change
    then granted true
    else if protected && is_delete change
    then granted true
    else if protected
    then maintain_denies (allows r maintain)
    else granted false

abbrev pub deny_if : RepositoryRecord → Answer Bool → Answer RepositoryRecord
deny_if repository (granted true) = refused denied
deny_if repository (granted false) = granted repository
deny_if repository (refused e) = refused e

abbrev pub change_branch :
    RepositoryAuthorizationRecord → String → RefChange → Result String → Answer RepositoryRecord
change_branch r ref_name change (ok default_branch) =
    deny_if r.repository (change_denied r (str_eq ref_name default_branch) change)
change_branch r ref_name change (err e) = refused (store e)

abbrev pub change_written :
    RepositoryAuthorizationRecord
    → String
    → RefChange
    → Result String
    → Answer Bool
    → Answer RepositoryRecord
change_written r ref_name change branch (granted true) = change_branch r ref_name change branch
change_written r ref_name change branch (granted false) = refused denied
change_written r ref_name change branch (refused e) = refused e

abbrev pub change_record :
    String
    → RefChange
    → Result String
    → Result RepositoryAuthorizationRecord
    → Answer RepositoryRecord
change_record ref_name change branch (ok r) =
    change_written r ref_name change branch (allows r write)
change_record ref_name change branch (err e) = refused (store e)

unfoldable pub authorize_ref_change :
    Database → String → String → String → String → RefChange → Answer RepositoryRecord
authorize_ref_change db actor owner_slug slug ref_name change =
    change_record ref_name change (repository_default_branch db owner_slug slug)
      (repository_authorization db owner_slug slug (some actor))

unfoldable pub authorize_merge : Database → String → String → String → Answer RepositoryRecord
authorize_merge db actor owner_slug slug = authorize db (some actor) owner_slug slug maintain
