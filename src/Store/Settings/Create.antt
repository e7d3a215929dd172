-- ===== src/Store/Settings/Create.antt =====
-- src/store/mod.rs: create_repository, and what the changes of a repository share.
use Prim.Native.String.{◌++◌ as append}
use tit.Prelude.{
  String, ℕ, ◌+◌, Bool, true, false, ◌&&◌, Option, none, some, List, [], ◌∷◌, ◌==◌, str_eq, is_none,
  is_some, if◌then◌else◌,
}
use tit.Prelude.Tables.{find}
use tit.Prelude.Bytes.{codes, starts_with}
use tit.Store.Error.{
  StoreError, Result, ok, err, namespace_not_found, repository_not_found, repository_archived,
  repository_exists, repository_identifier_collision, event_payload, panicked, guard, ok_or, ◌>>=◌,
  ◌>>◌,
}
use tit.Store.Schema.{
  Database, Bytes, Time, Account, Namespace, NamespaceKind, Organization, Repository, EventKind,
  repository_created, repository_imported, ref_created, tag_created, is_active,
}
use tit.Store.Common.{insert_audit_event}
use tit.Store.Keys.{equals_id}
use tit.Store.Organizations.{is_live, authorize_namespace_maintainer}
use tit.Store.Events.{NewDomainEvent, plain_event, repository, reference, insert_domain_event}

abbrev is_account_kind : NamespaceKind → Bool
is_account_kind NamespaceKind.account = true
is_account_kind _ = false

-- The namespace of an active account, or of an organization that is active.
abbrev pub active_namespace : String → Database → Namespace → Bool
active_namespace slug db n =
    str_eq n.slug slug
    && (if is_account_kind n.kind
        then is_some
            (find (λ (a : Account). equals_id n.account_id a.id && is_active a.state) db.accounts)
        else is_some (
            find (λ (o : Organization). o.namespace_id == n.id && is_live o.state)
              db.organizations))

unfoldable pub active_namespace_id : Database → String → Result ℕ
active_namespace_id db slug = do
  namespace ← ok_or (find (active_namespace slug db) db.namespaces) (namespace_not_found slug)
  ok namespace.id

-- `owner_namespace_id = ?1 AND slug = ?2`, and the same with a state.
abbrev pub owned_as : ℕ → String → Repository → Bool
owned_as owner_id slug r = r.owner_namespace_id == owner_id && str_eq r.slug slug

abbrev pub owned_in : ℕ → String → String → Repository → Bool
owned_in owner_id slug state r = owned_as owner_id slug r && str_eq r.state state

-- The error to return, or the panic where the repository is neither missing nor archived.
abbrev pub state_error : Option Repository → String → String → StoreError
state_error none owner slug = repository_not_found owner slug
state_error (some r) owner slug =
    if str_eq r.state "archived" then repository_archived owner slug else panicked

unfoldable pub repository_state_error : Database → ℕ → String → String → StoreError
repository_state_error db owner_id owner slug =
    state_error (find (owned_as owner_id slug) db.repositories) owner slug

abbrev pub path_text : String → String → String
path_text owner slug = append owner (append "/" slug)

abbrev pub settings_event : String → String → String → String → Time → Database → Database
settings_event action actor target correlation_id now = insert_audit_event (record {
  action = action;
  actor = actor;
  target = target;
  outcome = "success";
  correlation_id = correlation_id;
  created_at = now;
})

pub data RepositoryOrigin : Type 0 where
  created imported : RepositoryOrigin

abbrev pub event_kind : RepositoryOrigin → EventKind
event_kind created = repository_created
event_kind imported = repository_imported

abbrev pub audit_action : RepositoryOrigin → String
audit_action created = "repository.create"
audit_action imported = "repository.import"

pub record NewRepositoryReference : Type 0 where
  pub name : Bytes
  pub target : Bytes

pub record NewRepository : Type 0 where
  pub id : String
  pub owner : String
  pub slug : String
  pub object_format : String
  pub default_branch : String
  pub created_at : Time
  pub origin : RepositoryOrigin
  pub initial_references : List NewRepositoryReference
  pub actor : String
  pub correlation_id : String

unfoldable pub initial_kind : Bytes → Result EventKind
initial_kind name =
    if starts_with (codes "refs/tags/") name
    then ok tag_created
    else if starts_with (codes "refs/heads/") name
    then ok ref_created
    else err event_payload

-- The event of a ref that the repository starts with.
abbrev initial_event : NewRepository → EventKind → NewRepositoryReference → NewDomainEvent
initial_event n kind r =
    record (plain_event n.id none none n.actor n.created_at
      (reference kind r.name none (some r.target))) {
        ref_name = some r.name;
        new_target = some r.target;
      }

unfoldable pub insert_initial_events :
    (ℕ → String) → ℕ → NewRepository → List NewRepositoryReference → Database → Result Database
insert_initial_events draw n new [] db = ok db
insert_initial_events draw n new (r ∷ rs) db = do
  kind ← initial_kind r.name
  logged ← insert_domain_event (draw n) (initial_event new kind r) db
  insert_initial_events draw (n + 1) new rs logged

abbrev pub with_repository_id : String → Repository → Bool
with_repository_id id r = str_eq r.id id

-- The UNIQUE constraints of the table: the id, and the slug within the namespace.
unfoldable pub insert_repository : ℕ → NewRepository → Database → Result Database
insert_repository owner_id n db = do
  guard (is_none (find (with_repository_id n.id) db.repositories)) repository_identifier_collision
  guard (is_none (find (owned_as owner_id n.slug) db.repositories))
      (repository_exists n.owner n.slug)
  ok (record db {
    repositories =
        record {
          id = n.id;
          owner_namespace_id = owner_id;
          slug = n.slug;
          visibility = "public";
          state = "active";
          object_format = n.object_format;
          created_at = n.created_at;
          archived_at = none;
        }
        ∷ db.repositories;
  })

-- The default branch refers to the new repository, so its key is new too.
abbrev add_default_branch : String → String → Database → Database
add_default_branch repository_id ref_name db = record db {
  repository_default_branches =
      record { repository_id = repository_id; ref_name = ref_name }
      ∷ db.repository_default_branches;
}

unfoldable pub create_repository : (ℕ → String) → NewRepository → Database → Result Database
create_repository draw n db = do
  owner_id ← active_namespace_id db n.owner
  authorize_namespace_maintainer db owner_id n.actor
  inserted ← insert_repository owner_id n db
  announced ←
      insert_domain_event (draw 0)
        (plain_event n.id none none n.actor n.created_at
          (repository (event_kind n.origin) n.owner n.slug n.object_format))
        (add_default_branch n.id n.default_branch inserted)
  logged ← insert_initial_events draw 1 n n.initial_references announced
  ok (
      settings_event (audit_action n.origin) n.actor (path_text n.owner n.slug) n.correlation_id
        n.created_at logged)
