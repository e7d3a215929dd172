-- ===== src/Store/Merges.antt =====
-- src/store/mod.rs: the merge of a pull request as a Git operation, begin_pull_request_merge and
-- complete_pull_request_merge, and complete_git_intent, which completes it with the push.
use tit.Prelude.{
  String, ℕ, ◌-◌, Bool, false, ◌&&◌, ◌||◌, Option, none, some, List, [], ◌∷◌, ◌==◌, leb, str_eq,
  is_none, if◌then◌else◌,
}
use tit.Prelude.Tables.{find, count_where, update_where, next_rowid}
use tit.Prelude.Bytes.{codes, bytes_eq}
use tit.Store.Error.{
  Result, ok, sqlite, integrity, pull_request_hidden, pull_request_denied, pull_request_not_found,
  pull_request_state, pull_request_revision_not_found, event_payload, guard, ok_or, on_row, ◌>>=◌,
  ◌>>◌,
}
use tit.Store.Schema.{
  Database, Bytes, Time, MergeIntent, PullRequest, PullRequestRevision, completed,
}
use tit.Store.Access.{can_read, can_maintain, repository_issue_access}
use tit.Store.Events.{NewDomainEvent, pull_request_merge, insert_domain_event}
use tit.Store.PushEvents.{managed_repository_id, parse_event_refs, insert_push_events}
use tit.Store.GitIntents.{GitOperationIntent, begin_git_intent, promoted_with, move_intent}

pub record NewPullRequestMerge : Type 0 where
  pub owner : String
  pub repository : String
  pub number : ℕ
  pub revision : ℕ
  pub actor : String
  pub method : String
  pub base_ref : Bytes
  pub old_target : Bytes
  pub head_target : Bytes
  pub new_target : Bytes
  pub created_at : Time

abbrev pub pull_numbered : String → ℕ → PullRequest → Bool
pull_numbered repository_id number p = str_eq p.repository_id repository_id && p.number == number

abbrev pub pull_with : String → PullRequest → Bool
pull_with id p = str_eq p.id id

abbrev pub is_open : PullRequest → Bool
is_open p = str_eq p.state "open"

abbrev revision_in : String → PullRequestRevision → ℕ
revision_in pull_request_id r = if str_eq r.pull_request_id pull_request_id then r.number else 0

-- COALESCE(MAX(number), 0) + 1 of the revisions of a pull request; revision numbers are at least 1.
unfoldable pub next_revision : String → List PullRequestRevision → ℕ
next_revision pull_request_id revisions = next_rowid (revision_in pull_request_id) revisions

abbrev pub revision_of : String → ℕ → PullRequestRevision → Bool
revision_of pull_request_id number r =
    str_eq r.pull_request_id pull_request_id && r.number == number

-- The revision whose number is `(SELECT MAX(number) …)`.
abbrev pub latest_revision : String → List PullRequestRevision → Option PullRequestRevision
latest_revision pull_request_id revisions =
    find (revision_of pull_request_id (next_revision pull_request_id revisions - 1)) revisions

-- `refs == [(target, name)]`
abbrev is_one_ref : Bytes → Bytes → List (Bytes × Bytes) → Bool
is_one_ref id name [] = false
is_one_ref id name ((i, n) ∷ []) = bytes_eq i id && bytes_eq n name
is_one_ref id name (r ∷ s ∷ rs) = false

abbrev is_managed_as : List Bytes → String → Bool
is_managed_as path repository_id = elim (managed_repository_id path) [
  | none ↦ false
  | some id ↦ bytes_eq id (codes repository_id)
]

-- The pull request's own columns match what the merge was prepared from.
abbrev is_current : NewPullRequestMerge → PullRequest → PullRequestRevision → Bool
is_current merge p r =
    bytes_eq p.base_ref merge.base_ref
    && bytes_eq p.base_object_id merge.old_target
    && bytes_eq p.head_object_id merge.head_target
    && r.number == merge.revision

unfoldable pub insert_merge_intent : MergeIntent → Database → Result Database
insert_merge_intent m db =
    guard
      (is_none (
        find
          (λ (n : MergeIntent).
            str_eq n.intent_id m.intent_id || str_eq n.pull_request_id m.pull_request_id)
          db.merge_intents))
      sqlite
    >> ok (record db { merge_intents = m ∷ db.merge_intents })

unfoldable pub begin_pull_request_merge :
    NewPullRequestMerge → GitOperationIntent → Database → Result Database
begin_pull_request_merge merge intent db = do
  access ← repository_issue_access db merge.owner merge.repository (some merge.actor)
  guard (can_read access) pull_request_hidden
  guard (can_maintain access) pull_request_denied
  guard (is_managed_as intent.repository_path access.repository.id)
      (integrity "pull-request merge repository path does not match its repository")
  current ←
      ok_or (find (pull_numbered access.repository.id merge.number) db.pull_requests)
        (pull_request_not_found merge.owner merge.repository merge.number)
  revision ←
      ok_or (latest_revision current.id db.pull_request_revisions)
        (pull_request_not_found merge.owner merge.repository merge.number)
  guard (is_open current) pull_request_state
  guard (is_current merge current revision) pull_request_revision_not_found
  initial ← parse_event_refs intent.initial_refs
  proposed ← parse_event_refs intent.proposed_refs
  guard
      (is_one_ref merge.old_target merge.base_ref initial
        && is_one_ref merge.new_target merge.base_ref proposed)
      event_payload
  begun ← begin_git_intent intent db
  insert_merge_intent
      (record {
        intent_id = intent.id;
        repository_id = access.repository.id;
        pull_request_id = current.id;
        revision_id = revision.id;
        revision_number = merge.revision;
        method = merge.method;
        base_ref = merge.base_ref;
        old_target = merge.old_target;
        new_target = merge.new_target;
        created_at = merge.created_at;
      })
      begun

-- The rows are as they were when the merge began.
abbrev is_mergeable : MergeIntent → PullRequest → PullRequestRevision → ℕ → Bool
is_mergeable m p r latest =
    is_open p
    && bytes_eq p.base_ref m.base_ref
    && bytes_eq p.base_object_id m.old_target
    && bytes_eq p.head_object_id r.head_object_id
    && bytes_eq r.base_object_id m.old_target
    && latest == m.revision_number

-- `id = ?1 AND state = 'open'`
abbrev pub open_with : String → PullRequest → Bool
open_with id p = pull_with id p && is_open p

abbrev merged_event : MergeIntent → ℕ → String → Time → NewDomainEvent
merged_event m number actor completed_at = record {
  repository_id = m.repository_id;
  source_intent_id = some m.intent_id;
  source_ordinal = some 2;
  issue_id = none;
  pull_request_id = some m.pull_request_id;
  event =
      pull_request_merge m.pull_request_id number m.revision_number m.method m.base_ref m.old_target
        m.new_target;
  actor = actor;
  ref_name = none;
  old_target = none;
  new_target = none;
  created_at = completed_at;
}

-- The merge `m` of the pull request `p`; the UPDATE has the CHECK on the times of its row.
unfoldable pub merge_pull_request :
    String
    → MergeIntent
    → PullRequest
    → PullRequestRevision
    → String
    → Time
    → Database
    → Result Database
merge_pull_request event_id m p r actor completed_at db = do
  guard (is_mergeable m p r (next_revision p.id db.pull_request_revisions - 1)) pull_request_state
  guard (leb p.created_at completed_at) sqlite
  guard (count_where (open_with m.pull_request_id) db.pull_requests == 1) pull_request_state
  insert_domain_event event_id (merged_event m p.number actor completed_at) (record db {
    pull_requests =
        update_where (open_with m.pull_request_id)
          (λ q. record q { state = "merged"; updated_at = completed_at }) db.pull_requests;
  })

-- The JOINs find one row each, since the columns refer to the tables.
unfoldable pub complete_pull_request_merge :
    String → String → String → Time → Database → Result Database
complete_pull_request_merge event_id intent_id actor completed_at db =
    on_row (find (λ m. str_eq m.intent_id intent_id) db.merge_intents) (ok db) (λ m.
      on_row (find (pull_with m.pull_request_id) db.pull_requests) (ok db) (λ p.
        on_row (find (λ r. str_eq r.id m.revision_id) db.pull_request_revisions) (ok db)
          (λ r. merge_pull_request event_id m p r actor completed_at db)))

unfoldable pub insert_operation_event : String → Bytes → Database → Result Database
insert_operation_event intent_id payload db =
    guard (is_none (find (λ e. str_eq e.intent_id intent_id) db.git_operation_events)) sqlite
    >> ok (record db {
      git_operation_events =
          record { intent_id = intent_id; payload = payload } ∷ db.git_operation_events;
    })

-- The query has no `optional`: where no intent is promoted, the error is SQLite's.
unfoldable pub complete_git_intent : (ℕ → String) → String → String → Database → Result Database
complete_git_intent draw merge_event_id id db = do
  intent ← ok_or (find (promoted_with id) db.git_intents) sqlite
  moved ← move_intent id (promoted_with id) (λ i. record i { state = completed }) db
  recorded ← insert_operation_event id intent.event_payload moved
  pushed ←
      insert_push_events draw id intent.repository_path intent.actor intent.initial_refs
        intent.proposed_refs intent.created_at recorded
  complete_pull_request_merge merge_event_id id intent.actor intent.created_at pushed
