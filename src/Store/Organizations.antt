-- ===== src/Store/Organizations.antt =====
-- src/store/mod.rs: organizations and their members, from create_organization to
-- remove_organization_member.
use Prim.Native.String.{◌++◌ as append}
use tit.Prelude.{
  String, ℕ, Bool, true, false, ◌&&◌, ◌||◌, Option, none, some, List, ◌∷◌, ◌==◌, str_eq, is_none,
  is_some, if◌then◌else◌, not,
}
use tit.Prelude.Tables.{find, count_where, update_where, delete_where, next_rowid}
use tit.Store.Error.{
  Result, ok, err, namespace_unavailable, namespace_not_found, organization_denied,
  organization_member_not_found, invalid_organization_role, last_organization_owner,
  account_not_found, guard, ok_or, ◌>>=◌, ◌>>◌,
}
use tit.Store.Schema.{
  Database, Namespace, NamespaceKind, Organization, OrganizationState, OrganizationMember, Role,
  owner, maintainer, writer, reader, Time, archived,
}
use tit.Store.Common.{named, active_account_id, insert_audit_event}
use tit.Store.Keys.{equals_id}

abbrev org_event : String → String → String → String → Time → Database → Database
org_event action actor target correlation_id now = insert_audit_event (record {
  action = action;
  actor = actor;
  target = target;
  outcome = "success";
  correlation_id = correlation_id;
  created_at = now;
})

unfoldable pub create_organization :
    String → String → String → String → Time → String → Database → Result Database
create_organization slug display_name description owner_name created_at correlation_id db = do
  owner_id ← active_account_id db owner_name
  guard (is_none (find (λ (n : Namespace). str_eq n.slug slug) db.namespaces))
      (namespace_unavailable slug)
  let organization_id = next_rowid (λ (n : Namespace). n.id) db.namespaces
  ok (
      org_event "organization.create" owner_name slug correlation_id created_at (record db {
        namespaces =
            record {
              id = organization_id;
              slug = slug;
              kind = NamespaceKind.organization;
              account_id = none;
              created_at = created_at;
            }
            ∷ db.namespaces;
        organizations =
            record {
              namespace_id = organization_id;
              display_name = display_name;
              description = description;
              state = OrganizationState.active;
              created_at = created_at;
            }
            ∷ db.organizations;
        organization_members =
            record {
              organization_id = organization_id;
              account_id = owner_id;
              role = owner;
              created_at = created_at;
            }
            ∷ db.organization_members;
      }))

abbrev pub is_live : OrganizationState → Bool
is_live OrganizationState.active = true
is_live archived = false

-- The namespace with the slug, joined with its organization where that is active.
abbrev pub active_organization : String → List Organization → Namespace → Bool
active_organization slug organizations n =
    str_eq n.slug slug
    && is_some (find (λ o. o.namespace_id == n.id && is_live o.state) organizations)

unfoldable pub active_organization_id : Database → String → Result ℕ
active_organization_id db slug = do
  namespace ←
      ok_or (find (active_organization slug db.organizations) db.namespaces)
        (namespace_not_found slug)
  ok namespace.id

abbrev pub is_owner : Role → Bool
is_owner owner = true
is_owner _ = false

abbrev pub is_maintainer : Role → Bool
is_maintainer owner = true
is_maintainer maintainer = true
is_maintainer _ = false

abbrev pub member_of : ℕ → ℕ → OrganizationMember → Bool
member_of organization_id account_id m =
    m.organization_id == organization_id && m.account_id == account_id

abbrev pub owns : ℕ → ℕ → OrganizationMember → Bool
owns organization_id account_id m =
    m.organization_id == organization_id && m.account_id == account_id && is_owner m.role

unfoldable pub authorize_organization_owner : Database → ℕ → String → Result (Unit {0})
authorize_organization_owner db organization_id actor =
    if str_eq actor "admin-cli" then ok tt else do
      actor_id ← active_account_id db actor
      guard (is_some (find (owns organization_id actor_id) db.organization_members))
          organization_denied

abbrev pub maintains : ℕ → ℕ → OrganizationMember → Bool
maintains organization_id account_id m =
    m.organization_id == organization_id && m.account_id == account_id && is_maintainer m.role

unfoldable pub authorize_namespace_maintainer : Database → ℕ → String → Result (Unit {0})
authorize_namespace_maintainer db namespace_id actor =
    if str_eq actor "admin-cli" then ok tt else do
      actor_id ← active_account_id db actor
      guard
          (is_some (
            find
              (λ (n : Namespace).
                n.id == namespace_id
                && (equals_id n.account_id actor_id
                    || is_some (find (maintains n.id actor_id) db.organization_members)))
              db.namespaces))
          organization_denied

-- An owner of the organization other than the account.
abbrev pub other_owner : ℕ → ℕ → OrganizationMember → Bool
other_owner organization_id account_id m =
    m.organization_id == organization_id && not (m.account_id == account_id) && is_owner m.role

abbrev pub owner_row : Option OrganizationMember → Bool
owner_row none = false
owner_row (some m) = is_owner m.role

unfoldable pub require_other_organization_owner : Database → ℕ → ℕ → Result (Unit {0})
require_other_organization_owner db organization_id account_id =
    if not (owner_row (find (member_of organization_id account_id) db.organization_members))
    then ok tt
    else guard (is_some (find (other_owner organization_id account_id) db.organization_members))
        last_organization_owner

unfoldable pub parse_role : String → Option Role
parse_role role =
    if str_eq role "owner"
    then some owner
    else if str_eq role "maintainer"
    then some maintainer
    else if str_eq role "writer"
    then some writer
    else if str_eq role "reader"
    then some reader
    else none

-- `Err(StoreError::AccountNotFound(_))` becomes `OrganizationMemberNotFound`.
abbrev as_member : String → Result ℕ → Result ℕ
as_member username (ok id) = ok id
as_member username (err (account_not_found _)) = err (organization_member_not_found username)
as_member username (err e) = err e

-- INSERT … ON CONFLICT (organization_id, account_id) DO UPDATE SET role = excluded.role
unfoldable pub upsert_member :
    ℕ → ℕ → Role → Time → List OrganizationMember → List OrganizationMember
upsert_member organization_id account_id role now members =
    if is_some (find (member_of organization_id account_id) members)
    then update_where (member_of organization_id account_id) (λ m. record m { role = role }) members
    else record {
      organization_id = organization_id;
      account_id = account_id;
      role = role;
      created_at = now;
    }
      ∷ members

unfoldable pub set_organization_member :
    String → String → String → String → Time → String → Database → Result Database
set_organization_member organization actor username role changed_at correlation_id db = do
  parsed ← ok_or (parse_role role) invalid_organization_role
  organization_id ← active_organization_id db organization
  authorize_organization_owner db organization_id actor
  account_id ← as_member username (active_account_id db username)
  (if is_owner parsed
      then ok tt
      else require_other_organization_owner db organization_id account_id)
  ok (
      org_event "organization.member.set" actor
        (append organization (append ":" (append username (append ":" role)))) correlation_id
        changed_at
        (record db {
          organization_members =
              upsert_member organization_id account_id parsed changed_at db.organization_members;
        }))

abbrev live_organization : ℕ → Organization → Bool
live_organization id o = o.namespace_id == id && is_live o.state

unfoldable pub update_organization_profile :
    String → String → String → String → Time → String → Database → Result Database
update_organization_profile organization actor display_name description changed_at correlation_id
      db =
    do
      organization_id ← active_organization_id db organization
      authorize_namespace_maintainer db organization_id actor
      guard (count_where (live_organization organization_id) db.organizations == 1)
          (namespace_not_found organization)
      ok (
          org_event "organization.profile" actor organization correlation_id changed_at (record db {
            organizations =
                update_where (live_organization organization_id)
                  (λ o. record o { display_name = display_name; description = description })
                  db.organizations;
          }))

unfoldable pub remove_organization_member :
    String → String → String → Time → String → Database → Result Database
remove_organization_member organization actor username changed_at correlation_id db = do
  organization_id ← active_organization_id db organization
  authorize_organization_owner db organization_id actor
  account ← ok_or (find (named username) db.accounts) (organization_member_not_found username)
  require_other_organization_owner db organization_id account.id
  guard (count_where (member_of organization_id account.id) db.organization_members == 1)
      (organization_member_not_found username)
  ok (
      org_event "organization.member.remove" actor (append organization (append ":" username))
        correlation_id changed_at
        (record db {
          organization_members =
              delete_where (member_of organization_id account.id) db.organization_members;
        }))
