-- ===== src/ReceivePack/Tests.antt =====
-- The theorems on recovery and on commands at one push, with a gix that takes every id for sha1.
use tit.Prelude.{List, arith, ◌≡◌, ◌≤◌, refl, true, none, some, [], ◌∷◌, All, length}
use tit.Prelude.Bytes.{codes, bytes_eq}
use tit.Prelude.Tables.{find, count_where, update_where}
use tit.Store.Error.{◌>>◌ as then_, on_row}
use tit.Store.Schema.{Database, Bytes, GitIntent, empty, promoted}
use tit.Store.PushEvents.{managed_repository_id, managed_repository, insert_push_events, is_null_id}
use tit.Store.GitIntents.{incomplete_git_intents, incomplete_rows, insert_ordered, move_intent}
use tit.Store.Merges.{complete_git_intent, insert_operation_event, complete_pull_request_merge}
use tit.Git.Calls.{Call, run}
use tit.Git.Outbox.{IsRecorded}
use tit.Git.Finish.{IsFinished}
use tit.PacketLine.{decode, decode_loop, read_packet, read_payload}
use tit.ReceivePack.{
  received, ◌>>◌, require, present, sha1, Gix, Host, Recovered, parse_id, parse_snapshot_line,
  parse_snapshot_lines, parse_ref_snapshot, refs_match, open_bare, read_refs, settle, settled,
  recover_intent, recover_intents, recover_incomplete_pushes,
}
use tit.ReceivePack.Commands.{
  RefCommand, max_commands, before_flush, data_line, command_of, parse_command, parse_packets,
  parse_commands,
}
use tit.ReceivePack.Recovery.{
  Settles, recover_incomplete_pushes-run, recover_incomplete_pushes-finishes,
}
use tit.ReceivePack.Accepted.{IsCommand, AreApart, parse_commands-accepts}

abbrev gix : Gix Bytes
gix = record {
  from_hex = λ digits. some digits;
  kind = λ id. sha1;
  is_null = is_null_id;
  same = bytes_eq;
  is_full_name = λ name. true;
}

-- Every ref is where the push wanted it.
abbrev host : Host Bytes
host = record {
  open_path = λ path. received (record {
    is_bare = true;
    object_hash = sha1;
    find_reference = λ name. received (some (codes "bbbb"));
  });
  remove_pack = λ path name. received tt;
}

abbrev interrupted : GitIntent
interrupted = record {
  id = "g";
  repository_path = codes "repository" ∷ [];
  actor = "alice";
  initial_refs = codes "aaaa refs/heads/main";
  proposed_refs = codes "bbbb refs/heads/main";
  event_payload = [];
  quarantine_path = codes "repository" ∷ codes "objects" ∷ codes "tit-quarantine" ∷ codes "g" ∷ [];
  state = promoted;
  pack_name = none;
  created_at = 10;
}

abbrev start : Database
start = record empty { git_intents = interrupted ∷ [] }

start-IsRecorded : IsRecorded start
unfolding count_where
start-IsRecorded = record { recorded_once = λ id. ground arith; unique = λ id. ground arith }

abbrev recovered : Recovered
recovered = recover_incomplete_pushes gix host (λ i n. "e") (λ i. "f") start

recover_incomplete_pushes-run_example :
    (calls : List Call) × Settles gix host
      (λ i n. "e")
      (λ i. "f")
      (incomplete_git_intents start)
      calls
    × (recovered.database ≡ run start calls)
recover_incomplete_pushes-run_example =
    recover_incomplete_pushes-run gix host (λ i n. "e") (λ i. "f") start

recover_incomplete_pushes-finishes_example : IsFinished "g" recovered.database
unfolding recover_incomplete_pushes recover_intents recover_intent settled settle read_refs
    open_bare parse_ref_snapshot parse_snapshot_lines parse_snapshot_line parse_id refs_match
    require present ◌>>◌ incomplete_git_intents incomplete_rows insert_ordered complete_git_intent
    move_intent insert_operation_event insert_push_events managed_repository managed_repository_id
    complete_pull_request_merge on_row then_ find count_where update_where
recover_incomplete_pushes-finishes_example =
    recover_incomplete_pushes-finishes gix host (λ i n. "e") (λ i. "f") start start-IsRecorded refl
      "g" interrupted refl

abbrev command : RefCommand Bytes
command = record { old = codes "aaaa"; new = codes "bbbb"; name = codes "refs/heads/m" }

parse_commands-accepts_example :
    (1 ≤ length (command ∷ []))
    × (length (command ∷ []) ≤ max_commands)
    × All (IsCommand gix sha1) (command ∷ [])
    × AreApart gix sha1 (command ∷ [])
unfolding parse_commands parse_packets parse_command command_of data_line before_flush parse_id
    require present ◌>>◌ decode decode_loop read_packet read_payload
parse_commands-accepts_example =
    parse_commands-accepts gix sha1 (codes "001aaaaa bbbb refs/heads/m0000") (command ∷ []) refl
