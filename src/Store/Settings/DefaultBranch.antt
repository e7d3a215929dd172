-- ===== src/Store/Settings/DefaultBranch.antt =====
-- src/store/mod.rs: the intents to change a default branch, from begin_repository_default_branch to
-- abandon_repository_default_branch.
use Prim.Native.String.{◌++◌ as append}
use tit.Prelude.{String, Bool, ◌||◌, some, ◌∷◌, ◌==◌, str_eq, is_none}
use tit.Prelude.Tables.{find, count_where, update_where, delete_where}
use tit.Store.Error.{
  Result, ok, sqlite, pull_request_denied, invalid_default_branch, default_branch_intent_state,
  guard, ok_or, ◌>>=◌, ◌>>◌,
}
use tit.Store.Schema.{Database, Time, Namespace, RepositoryDefaultBranch, DefaultBranchIntent}
use tit.Store.Access.{can_maintain, repository_issue_access}
use tit.Store.Settings.Create.{path_text, settings_event, with_repository_id}

pub record NewDefaultBranchIntent : Type 0 where
  pub id : String
  pub owner : String
  pub slug : String
  pub actor : String
  pub previous_branch : String
  pub default_branch : String
  pub changed_at : Time

abbrev pub branch_of : String → RepositoryDefaultBranch → Bool
branch_of repository_id b = str_eq b.repository_id repository_id

abbrev pub branch_intent_with : String → DefaultBranchIntent → Bool
branch_intent_with id i = str_eq i.id id

-- The UNIQUE constraints: the id, and one intent for a repository.
unfoldable pub insert_branch_intent : DefaultBranchIntent → Database → Result Database
insert_branch_intent new db =
    guard
      (is_none (
        find (λ i. str_eq i.id new.id || str_eq i.repository_id new.repository_id)
          db.default_branch_intents))
      sqlite
    >> ok (record db { default_branch_intents = new ∷ db.default_branch_intents })

unfoldable pub begin_repository_default_branch : NewDefaultBranchIntent → Database → Result Database
begin_repository_default_branch n db = do
  access ← repository_issue_access db n.owner n.slug (some n.actor)
  guard (can_maintain access) pull_request_denied
  stored ← ok_or (find (branch_of access.repository.id) db.repository_default_branches) sqlite
  guard (str_eq stored.ref_name n.previous_branch) invalid_default_branch
  insert_branch_intent
      (record {
        id = n.id;
        repository_id = access.repository.id;
        actor = n.actor;
        previous_ref_name = n.previous_branch;
        proposed_ref_name = n.default_branch;
        created_at = n.changed_at;
      })
      db

unfoldable pub complete_repository_default_branch : String → Database → Result Database
complete_repository_default_branch id db = do
  intent ←
      ok_or (find (branch_intent_with id) db.default_branch_intents)
        (default_branch_intent_state id)
  repository ←
      ok_or (find (with_repository_id intent.repository_id) db.repositories)
        (default_branch_intent_state id)
  namespace ←
      ok_or (find (λ (n : Namespace). n.id == repository.owner_namespace_id) db.namespaces)
        (default_branch_intent_state id)
  guard (count_where (branch_of repository.id) db.repository_default_branches == 1)
      invalid_default_branch
  guard (count_where (branch_intent_with id) db.default_branch_intents == 1)
      (default_branch_intent_state id)
  ok (
      settings_event "repository.default-branch" intent.actor
        (append (path_text namespace.slug repository.slug) (append ":" intent.proposed_ref_name)) id
        intent.created_at
        (record db {
          repository_default_branches =
              update_where (branch_of repository.id)
                (λ b. record b { ref_name = intent.proposed_ref_name })
                db.repository_default_branches;
          default_branch_intents = delete_where (branch_intent_with id) db.default_branch_intents;
        }))

unfoldable pub abandon_repository_default_branch : String → Database → Result Database
abandon_repository_default_branch id db =
    guard (count_where (branch_intent_with id) db.default_branch_intents == 1)
      (default_branch_intent_state id)
    >> ok (record db {
      default_branch_intents = delete_where (branch_intent_with id) db.default_branch_intents;
    })
