-- ===== src/Store/Schema/Events.antt =====
-- The rows of repository_event, and src/store/event.rs as far as it is data: the kinds, and the JSON
-- object that serde_json writes as the payload, kept as its fields in order.
use tit.Prelude.{String, ℕ, Option, List}

-- Bytes, and texts that the source compares byte by byte: ref names, object ids, payloads.
abbrev pub Bytes : Type 0
Bytes = List ℕ

pub data EventKind : Type 0 where
  repository_created repository_imported push : EventKind
  ref_created ref_updated ref_deleted tag_created tag_updated tag_deleted : EventKind
  issue_created issue_edited issue_commented issue_closed issue_reopened : EventKind
  pull_request_created pull_request_revised pull_request_edited pull_request_closed : EventKind
  pull_request_reopened pull_request_commented pull_request_line_commented : EventKind
  pull_request_approved pull_request_changes_requested pull_request_merged : EventKind

-- `digits` is a text that encode_lower_hex writes.
pub data Json : Type 0 where
  text : String → Json
  bytes digits : Bytes → Json
  number : ℕ → Json
  null : Json

pub record VersionedEvent : Type 0 where
  pub kind : EventKind
  pub payload : List (String × Json)

pub record RepositoryEvent : Type 0 where
  pub event_id : String
  pub repository_id : String
  pub sequence : ℕ
  pub source_intent_id : Option String
  pub source_ordinal : Option ℕ
  pub issue_id : Option String
  pub pull_request_id : Option String
  pub event : VersionedEvent
  pub actor : String
  pub ref_name : Option Bytes
  pub old_target : Option Bytes
  pub new_target : Option Bytes
  pub created_at : ℕ
