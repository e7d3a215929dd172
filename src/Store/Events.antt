-- ===== src/Store/Events.antt =====
-- src/store/event.rs, and insert_domain_event of src/store/mod.rs.
use tit.Prelude.{
  String, ℕ, Bool, false, ◌&&◌, ◌||◌, Option, none, some, List, [], ◌∷◌, ◌==◌, str_eq, is_none,
  if◌then◌else◌,
}
use tit.Prelude.Tables.{find, next_rowid}
use tit.Store.Error.{Result, ok, sqlite, guard, ◌>>◌}
use tit.Store.Schema.{
  Database, Time, Bytes, EventKind, repository_created, repository_imported, push, ref_created,
  ref_updated, ref_deleted, tag_created, tag_updated, tag_deleted, issue_created, issue_edited,
  issue_commented, issue_closed, issue_reopened, pull_request_created, pull_request_revised,
  pull_request_edited, pull_request_closed, pull_request_reopened, pull_request_commented,
  pull_request_line_commented, pull_request_approved, pull_request_changes_requested,
  pull_request_merged, Json, text, bytes, digits, number, null, VersionedEvent, RepositoryEvent,
}

-- `EventKind::as_str`, the column `kind`.
unfoldable pub as_str : EventKind → String
as_str repository_created = "repository-created"
as_str repository_imported = "repository-imported"
as_str push = "push"
as_str ref_created = "ref-created"
as_str ref_updated = "ref-updated"
as_str ref_deleted = "ref-deleted"
as_str tag_created = "tag-created"
as_str tag_updated = "tag-updated"
as_str tag_deleted = "tag-deleted"
as_str issue_created = "issue-created"
as_str issue_edited = "issue-edited"
as_str issue_commented = "issue-commented"
as_str issue_closed = "issue-closed"
as_str issue_reopened = "issue-reopened"
as_str pull_request_created = "pull-request-created"
as_str pull_request_revised = "pull-request-revised"
as_str pull_request_edited = "pull-request-edited"
as_str pull_request_closed = "pull-request-closed"
as_str pull_request_reopened = "pull-request-reopened"
as_str pull_request_commented = "pull-request-commented"
as_str pull_request_line_commented = "pull-request-line-commented"
as_str pull_request_approved = "pull-request-approved"
as_str pull_request_changes_requested = "pull-request-changes-requested"
as_str pull_request_merged = "pull-request-merged"

abbrev pub payload_version : ℕ
payload_version = 1

abbrev versioned : EventKind → List (String × Json) → VersionedEvent
versioned kind fields = record {
  kind = kind;
  payload = ("version", number payload_version) ∷ fields;
}

-- An optional value, which is null where it is missing.
abbrev nullable {ℓ} : {A : Type ℓ} → (A → Json) → Option A → Json
nullable f none = null
nullable f (some a) = f a

abbrev pub issue : EventKind → String → ℕ → String → String → VersionedEvent
issue kind issue_id n title body = versioned kind (
    ("issue_id", text issue_id)
    ∷ ("number", number n)
    ∷ ("title", text title)
    ∷ ("body", text body)
    ∷ [])

abbrev pub issue_comment : String → ℕ → String → String → String → VersionedEvent
issue_comment issue_id n comment_id author body = versioned issue_commented (
    ("issue_id", text issue_id)
    ∷ ("number", number n)
    ∷ ("comment_id", text comment_id)
    ∷ ("author", text author)
    ∷ ("body", text body)
    ∷ [])

abbrev pub issue_state : EventKind → String → ℕ → String → VersionedEvent
issue_state kind issue_id n state =
    versioned kind (("issue_id", text issue_id) ∷ ("number", number n) ∷ ("state", text state) ∷ [])

abbrev pub pull_request_change : EventKind → String → ℕ → String → String → String → VersionedEvent
pull_request_change kind id n title body state = versioned kind (
    ("pull_request_id", text id)
    ∷ ("number", number n)
    ∷ ("title", text title)
    ∷ ("body", text body)
    ∷ ("state", text state)
    ∷ [])

abbrev pub pull_request_merge : String → ℕ → ℕ → String → Bytes → Bytes → Bytes → VersionedEvent
pull_request_merge id n revision method base_ref old_target new_target =
    versioned pull_request_merged (
      ("pull_request_id", text id)
      ∷ ("number", number n)
      ∷ ("revision", number revision)
      ∷ ("method", text method)
      ∷ ("base_ref", bytes base_ref)
      ∷ ("old_target", bytes old_target)
      ∷ ("new_target", bytes new_target)
      ∷ [])

abbrev pub pull_request_review :
    EventKind
    → String
    → ℕ
    → String
    → ℕ
    → String
    → Option Bytes
    → Option Bytes
    → Option String
    → Option ℕ
    → VersionedEvent
pull_request_review kind id n review_id revision body commit_object_id path side line =
    versioned kind (
      ("pull_request_id", text id)
      ∷ ("number", number n)
      ∷ ("review_id", text review_id)
      ∷ ("revision", number revision)
      ∷ ("body", text body)
      ∷ ("commit_object_id", nullable bytes commit_object_id)
      ∷ ("path_hex", nullable digits path)
      ∷ ("side", nullable text side)
      ∷ ("line", nullable number line)
      ∷ [])

abbrev pub pull_request :
    EventKind → String → ℕ → ℕ → String → Bytes → Bytes → Bytes → Bytes → VersionedEvent
pull_request kind id n revision title base_ref head_ref base_object_id head_object_id =
    versioned kind (
      ("pull_request_id", text id)
      ∷ ("number", number n)
      ∷ ("revision", number revision)
      ∷ ("title", text title)
      ∷ ("base_ref", bytes base_ref)
      ∷ ("head_ref", bytes head_ref)
      ∷ ("base_object_id", bytes base_object_id)
      ∷ ("head_object_id", bytes head_object_id)
      ∷ [])

abbrev pub repository : EventKind → String → String → String → VersionedEvent
repository kind owner_slug slug object_format = versioned kind (
    ("owner", text owner_slug)
    ∷ ("repository", text slug)
    ∷ ("object_format", text object_format)
    ∷ [])

abbrev pub pushed : String → VersionedEvent
pushed operation_id = versioned push (("operation_id", text operation_id) ∷ [])

abbrev pub reference : EventKind → Bytes → Option Bytes → Option Bytes → VersionedEvent
reference kind name old_target new_target = versioned kind (
    ("name_hex", digits name)
    ∷ ("old_target", nullable bytes old_target)
    ∷ ("new_target", nullable bytes new_target)
    ∷ [])

-- `event` and the columns beside it.
pub record NewDomainEvent : Type 0 where
  pub repository_id : String
  pub source_intent_id : Option String
  pub source_ordinal : Option ℕ
  pub issue_id : Option String
  pub pull_request_id : Option String
  pub event : VersionedEvent
  pub actor : String
  pub ref_name : Option Bytes
  pub old_target : Option Bytes
  pub new_target : Option Bytes
  pub created_at : Time

-- An event of no intent and no ref.
abbrev pub plain_event :
    String → Option String → Option String → String → Time → VersionedEvent → NewDomainEvent
plain_event repository_id issue_id pull_request_id actor created_at event = record {
  repository_id = repository_id;
  source_intent_id = none;
  source_ordinal = none;
  issue_id = issue_id;
  pull_request_id = pull_request_id;
  event = event;
  actor = actor;
  ref_name = none;
  old_target = none;
  new_target = none;
  created_at = created_at;
}

-- `(SELECT COALESCE(MAX(sequence), 0) + 1 FROM repository_event WHERE repository_id = ?1)`
abbrev pub sequence_in : String → RepositoryEvent → ℕ
sequence_in repository_id e = if str_eq e.repository_id repository_id then e.sequence else 0

abbrev same_source : Option String → Option ℕ → Option String → Option ℕ → Bool
same_source (some i) (some n) (some j) (some m) = str_eq i j && n == m
same_source _ _ _ _ = false

-- UNIQUE (event_id) and UNIQUE (source_intent_id, source_ordinal); the third UNIQUE constraint, on
-- the sequence within the repository, cannot be violated.
abbrev pub event_collides : String → NewDomainEvent → RepositoryEvent → Bool
event_collides event_id new e =
    str_eq e.event_id event_id
    || same_source e.source_intent_id e.source_ordinal new.source_intent_id new.source_ordinal

unfoldable pub insert_domain_event : String → NewDomainEvent → Database → Result Database
insert_domain_event event_id e db =
    guard (is_none (find (event_collides event_id e) db.repository_events)) sqlite
    >> ok (record db {
      repository_events =
          record {
            event_id = event_id;
            repository_id = e.repository_id;
            sequence = next_rowid (sequence_in e.repository_id) db.repository_events;
            source_intent_id = e.source_intent_id;
            source_ordinal = e.source_ordinal;
            issue_id = e.issue_id;
            pull_request_id = e.pull_request_id;
            event = e.event;
            actor = e.actor;
            ref_name = e.ref_name;
            old_target = e.old_target;
            new_target = e.new_target;
            created_at = e.created_at;
          }
          ∷ db.repository_events;
    })

-- `insert_issue_event` and `insert_pull_request_event`
unfoldable pub insert_issue_event :
    String → String → String → String → Time → VersionedEvent → Database → Result Database
insert_issue_event event_id repository_id issue_id actor created_at event =
    insert_domain_event event_id
      (plain_event repository_id (some issue_id) none actor created_at event)

unfoldable pub insert_pull_request_event :
    String → String → String → String → Time → VersionedEvent → Database → Result Database
insert_pull_request_event event_id repository_id pull_request_id actor created_at event =
    insert_domain_event event_id
      (plain_event repository_id none (some pull_request_id) actor created_at event)
