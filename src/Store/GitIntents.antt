-- ===== src/Store/GitIntents.antt =====
-- src/store/mod.rs: the intents of Git operations, from begin_git_intent to incomplete_git_intents,
-- and the merges of pull requests that they carry, begin_pull_request_merge and
-- complete_pull_request_merge. The identifiers of events are drawn by SQLite and are arguments.
use tit.Prelude.{
  String, ℕ, Bool, true, false, ◌&&◌, ◌||◌, Option, none, some, List, [], ◌∷◌, ◌==◌, ltb, str_eq,
  is_none, if◌then◌else◌,
}
use tit.Prelude.Tables.{find, count_where, update_where, delete_where}
use tit.Prelude.Bytes.{codes, bytes_leb}
use tit.Store.Error.{Result, ok, sqlite, intent_state, guard, ◌>>◌}
use tit.Store.Schema.{
  Database, Bytes, Time, GitIntent, IntentState, pending, promoted, completed, abandoned,
}

pub record GitOperationIntent : Type 0 where
  pub id : String
  pub repository_path : List Bytes
  pub actor : String
  pub initial_refs : Bytes
  pub proposed_refs : Bytes
  pub event_payload : Bytes
  pub quarantine_path : List Bytes
  pub created_at : Time

abbrev pub intent_with : String → GitIntent → Bool
intent_with id i = str_eq i.id id

abbrev pub is_pending : IntentState → Bool
is_pending pending = true
is_pending _ = false

abbrev pub is_promoted : IntentState → Bool
is_promoted promoted = true
is_promoted _ = false

abbrev pub is_completed : IntentState → Bool
is_completed completed = true
is_completed _ = false

abbrev pub is_incomplete : IntentState → Bool
is_incomplete state = is_pending state || is_promoted state

-- `id = ?1 AND state = 'pending'`, and the same of the other states.
abbrev pub pending_with : String → GitIntent → Bool
pending_with id i = intent_with id i && is_pending i.state

abbrev pub promoted_with : String → GitIntent → Bool
promoted_with id i = intent_with id i && is_promoted i.state

abbrev pub incomplete_with : String → GitIntent → Bool
incomplete_with id i = intent_with id i && is_incomplete i.state

abbrev pub require_one_intent : String → ℕ → Result (Unit {0})
require_one_intent id changed = guard (changed == 1) (intent_state id)

abbrev pub pending_intent : GitOperationIntent → GitIntent
pending_intent i = record {
  id = i.id;
  repository_path = i.repository_path;
  actor = i.actor;
  initial_refs = i.initial_refs;
  proposed_refs = i.proposed_refs;
  event_payload = i.event_payload;
  quarantine_path = i.quarantine_path;
  state = pending;
  pack_name = none;
  created_at = i.created_at;
}

unfoldable pub begin_git_intent : GitOperationIntent → Database → Result Database
begin_git_intent intent db =
    guard (is_none (find (intent_with intent.id) db.git_intents)) sqlite
    >> ok (record db { git_intents = pending_intent intent ∷ db.git_intents })

-- UPDATE git_operation_intent SET … WHERE p, which changes one row, or else is an error.
unfoldable pub move_intent :
    String → (GitIntent → Bool) → (GitIntent → GitIntent) → Database → Result Database
move_intent id p change db =
    require_one_intent id (count_where p db.git_intents)
    >> ok (record db { git_intents = update_where p change db.git_intents })

unfoldable pub mark_git_objects_promoted : String → Option String → Database → Result Database
mark_git_objects_promoted id pack_name db =
    move_intent id (pending_with id) (λ i. record i { state = promoted; pack_name = pack_name }) db

unfoldable pub abandon_git_intent : String → Database → Result Database
abandon_git_intent id db =
    move_intent id (incomplete_with id) (λ i. record i { state = abandoned })
      (record db { merge_intents = delete_where (λ m. str_eq m.intent_id id) db.merge_intents })

-- The `unwrap_or(false)` of the query.
unfoldable pub git_intent_completed : String → Database → Bool
git_intent_completed id db = elim (find (intent_with id) db.git_intents) [
  | none ↦ false
  | some i ↦ is_completed i.state
]

-- ORDER BY created_at, id
abbrev before : GitIntent → GitIntent → Bool
before i j =
    ltb i.created_at j.created_at
    || (i.created_at == j.created_at && bytes_leb (codes i.id) (codes j.id))

unfoldable pub insert_ordered : GitIntent → List GitIntent → List GitIntent
insert_ordered i [] = i ∷ []
insert_ordered i (j ∷ js) =
    let rest = insert_ordered i js in if before i j then i ∷ j ∷ js else j ∷ rest

unfoldable pub incomplete_rows : List GitIntent → List GitIntent
incomplete_rows [] = []
incomplete_rows (i ∷ is) =
    let rest = incomplete_rows is in if is_incomplete i.state then insert_ordered i rest else rest

unfoldable pub incomplete_git_intents : Database → List GitIntent
incomplete_git_intents db = incomplete_rows db.git_intents
