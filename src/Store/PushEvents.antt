-- ===== src/Store/PushEvents.antt =====
-- src/store/mod.rs: the events that a completed push writes, insert_push_events and its helpers.
-- An event's identifier is drawn by SQLite: `draw n` is the one of the event with ordinal n.
use tit.Prelude.{
  String, ℕ, ◌+◌, Bool, true, false, ◌&&◌, ◌||◌, not, Option, none, some, List, [], ◌∷◌, all,
  length, ◌==◌, if◌then◌else◌,
}
use tit.Prelude.Tables.{find}
use tit.Prelude.Bytes.{
  codes, bytes_eq, starts_with, strip_suffix, split, split_once, is_ascii_hexdigit,
}
use tit.Store.Error.{Result, ok, err, event_payload, guard, ok_or, on_row, ◌>>=◌, ◌>>◌}
use tit.Store.Schema.{
  Database, Bytes, EventKind, ref_created, ref_updated, ref_deleted, tag_created, tag_updated,
  tag_deleted, Repository, Time,
}
use tit.Store.Common.{insert_audit_event}
use tit.Store.Events.{pushed, reference, NewDomainEvent, insert_domain_event}

abbrev last_component : List Bytes → Option Bytes
last_component [] = none
last_component (c ∷ []) = some c
last_component (c ∷ d ∷ cs) = last_component (d ∷ cs)

-- `file_name()` is the last component of the path; the path is a text, so `to_str` succeeds.
unfoldable pub managed_repository_id : List Bytes → Option Bytes
managed_repository_id repository_path = elim (last_component repository_path) [
  | none ↦ none
  | some name ↦ elim (strip_suffix (codes ".git") name) [
    | none ↦ none
    | some id ↦ if length id == 32 && all is_ascii_hexdigit id then some id else none
  ]
]

abbrev is_empty : Bytes → Bool
is_empty [] = true
is_empty (b ∷ bs) = false

-- An id that is not UTF-8 has a byte that is no digit; both are the same error.
unfoldable pub parse_event_ref : Bytes → Result (Bytes × Bytes)
parse_event_ref line = do
  fields ← ok_or (split_once b' ' line) event_payload
  guard ((length fields.0 == 40 || length fields.0 == 64) && all is_ascii_hexdigit fields.0)
      event_payload
  guard (not (is_empty fields.1)) event_payload
  ok fields

unfoldable pub parse_lines : List Bytes → Result (List (Bytes × Bytes))
parse_lines [] = ok []
parse_lines (line ∷ lines) =
    let rest = parse_lines lines in
    if is_empty line
    then rest
    else (parse_event_ref line >>= λ reference. rest >>= λ references. ok (reference ∷ references))

unfoldable pub parse_event_refs : Bytes → Result (List (Bytes × Bytes))
parse_event_refs bytes = parse_lines (split b'\n' bytes)

abbrev pub is_null_id : Bytes → Bool
is_null_id id = all (λ byte. byte == b'0') id

-- Whether the ref is a tag, or else a branch.
unfoldable pub tag_or_branch : Bytes → Result Bool
tag_or_branch name =
    if starts_with (codes "refs/tags/") name
    then ok true
    else if starts_with (codes "refs/heads/") name
    then ok false
    else err event_payload

unfoldable pub reference_kind : Bool → Bytes → Bytes → EventKind
reference_kind tag old new =
    if is_null_id old
    then (if tag then tag_created else ref_created)
    else if is_null_id new
    then (if tag then tag_deleted else ref_deleted)
    else if tag
    then tag_updated
    else ref_updated

abbrev target : Bytes → Option Bytes
target id = if is_null_id id then none else some id

-- The columns that the events of one push share.
abbrev push_event : String → String → String → Time → NewDomainEvent
push_event repository_id intent_id actor created_at = record {
  repository_id = repository_id;
  source_intent_id = some intent_id;
  source_ordinal = some 0;
  issue_id = none;
  pull_request_id = none;
  event = pushed intent_id;
  actor = actor;
  ref_name = none;
  old_target = none;
  new_target = none;
  created_at = created_at;
}

abbrev reference_event : NewDomainEvent → ℕ → Bool → Bytes → Bytes → Bytes → NewDomainEvent
reference_event push ordinal tag name old new = record push {
  source_ordinal = some ordinal;
  event = reference (reference_kind tag old new) name (target old) (target new);
  ref_name = some name;
  old_target = target old;
  new_target = target new;
}

-- The loop over the zipped refs, from the ordinal of the first of them.
unfoldable pub insert_reference_events :
    (ℕ → String)
    → NewDomainEvent
    → ℕ
    → List (Bytes × Bytes)
    → List (Bytes × Bytes)
    → Database
    → Result Database
insert_reference_events draw push ordinal [] proposed db = ok db
insert_reference_events draw push ordinal (i ∷ is) [] db = ok db
insert_reference_events draw push ordinal ((old, old_name) ∷ is) ((new, new_name) ∷ ps) db = do
  guard (bytes_eq old_name new_name && not (is_null_id old && is_null_id new)) event_payload
  tag ← tag_or_branch old_name
  logged ← insert_domain_event (draw ordinal) (reference_event push ordinal tag old_name old new) db
  insert_reference_events draw push (ordinal + 1) is ps logged

abbrev pub has_id : Bytes → Repository → Bool
has_id id r = bytes_eq (codes r.id) id

unfoldable pub managed_repository : List Bytes → List Repository → Option Repository
managed_repository repository_path repositories = elim (managed_repository_id repository_path) [
  | none ↦ none
  | some id ↦ find (has_id id) repositories
]

-- The events of a push to a repository of the table.
unfoldable pub insert_managed_push :
    (ℕ → String) → NewDomainEvent → String → Bytes → Bytes → Database → Result Database
insert_managed_push draw push intent_id initial_bytes proposed_bytes db = do
  initial ← parse_event_refs initial_bytes
  proposed ← parse_event_refs proposed_bytes
  guard (length initial == length proposed) event_payload
  pushed_db ← insert_domain_event (draw 0) push db
  logged ← insert_reference_events draw push 1 initial proposed pushed_db
  ok (
      insert_audit_event
        (record {
          action = "ref.update";
          actor = push.actor;
          target = push.repository_id;
          outcome = "success";
          correlation_id = intent_id;
          created_at = push.created_at;
        })
        logged)

-- A path that is not of a managed repository, or of one that has no row, has no events.
unfoldable pub insert_push_events :
    (ℕ → String) → String → List Bytes → String → Bytes → Bytes → Time → Database → Result Database
insert_push_events draw intent_id repository_path actor initial_bytes proposed_bytes created_at db =
    on_row (managed_repository repository_path db.repositories) (ok db) (λ r.
      insert_managed_push draw (push_event r.id intent_id actor created_at) intent_id initial_bytes
        proposed_bytes db)
