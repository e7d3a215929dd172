-- ===== src/Git/Tests.antt =====
-- The theorems on Git intents and pull requests at one intent and one merged pull request.
use tit.Prelude.{
  List, arith, ◌≡◌, ◌≤◌, refl, subst, none, some, [], ◌∷◌, str_eq, eq_iff, Bool-cases, inl, inr,
}
use tit.Prelude.Bytes.{codes}
use tit.Prelude.Tables.{find, count_where}
use tit.Store.Error.{StoreError, err, intent_state, sqlite}
use tit.Store.Schema.{
  Database, GitIntent, MergeIntent, PullRequest, PullRequestRevision, empty, pending, promoted,
  completed,
}
use tit.Store.GitIntents.{intent_with, mark_git_objects_promoted, abandon_git_intent}
use tit.Store.Merges.{complete_git_intent, pull_with}
use tit.Git.Calls.{Call, promote, complete, abandon, set_pull_state, run}
use tit.Git.Life.{Lifeline, run-Lifeline}
use tit.Git.Outbox.{IsRecorded, run-IsRecorded}
use tit.Git.Merged.{IsApart, run-frozen}
use tit.Git.Closed.{IsMergeOf, complete_git_intent-closed}
use tit.Store.PullRequests.{NewPullRequestRefIntent, from_new}
use tit.Git.Openings.{IsCounted}
use tit.Git.Openings.Runs
use tit.Git.Openings.Runs.{run-IsCounted}
use tit.Git.Finish.{finished-refused}

abbrev pushed : GitIntent
pushed = record {
  id = "g";
  repository_path = codes "repository" ∷ [];
  actor = "alice";
  initial_refs = codes "aaaa refs/heads/main";
  proposed_refs = codes "bbbb refs/heads/main";
  event_payload = [];
  quarantine_path = [];
  state = pending;
  pack_name = none;
  created_at = 10;
}

abbrev done : GitIntent
done = record pushed { id = "h"; state = completed }

abbrev merged : PullRequest
merged = record {
  id = "p";
  repository_id = "r";
  number = 1;
  title = "A change";
  body = "";
  state = "merged";
  author_account_id = 1;
  base_ref = codes "refs/heads/main";
  head_ref = codes "refs/heads/change";
  base_object_id = codes "aaaa";
  head_object_id = codes "bbbb";
  created_at = 10;
  updated_at = 20;
}

abbrev start : Database
start = record empty {
  git_intents = pushed ∷ done ∷ [];
  git_operation_events = record { intent_id = "h"; payload = [] } ∷ [];
  pull_requests = merged ∷ [];
}

abbrev script : List Call
script =
    promote "g" (some "pack-1.pack")
    ∷ complete (λ n. "e") "f" "g"
    ∷ abandon "g"
    ∷ set_pull_state "e2" "team" "project" 1 "alice" "closed" 30
    ∷ []

run-Lifeline_example : Lifeline "g" start script pushed
unfolding find
run-Lifeline_example = run-Lifeline script start "g" pushed refl

start-IsRecorded : IsRecorded start
unfolding count_where
start-IsRecorded = record {
  recorded_once = λ id. ground arith;
  unique = λ id. elim (Bool-cases (str_eq "g" id)) [
    | inl e ↦
        subst (λ x. count_where (intent_with x) start.git_intents ≤ 1) ((eq_iff "g" id).0 e)
          (omega arith)
    | inr e ↦ ground (arith, e)
  ];
}

start-IsApart : IsApart start
unfolding count_where
start-IsApart = record { ids = λ id. ground arith; numbers = λ r n. ground arith }

run-IsRecorded_example : IsRecorded (run start script)
run-IsRecorded_example = run-IsRecorded script start start-IsRecorded

run-frozen_example : find (pull_with "p") (run start script).pull_requests ≡ some merged
unfolding find
run-frozen_example = run-frozen script start "p" merged start-IsApart refl refl

finished-refused_example :
    (mark_git_objects_promoted "h" none start ≡ err (intent_state "h"))
    × (abandon_git_intent "h" start ≡ err (intent_state "h"))
    × (complete_git_intent (λ n. "e") "f" "h" start ≡ err sqlite)
unfolding find
finished-refused_example =
    finished-refused start "h" done none (λ n. "e") "f" start-IsRecorded refl refl

abbrev withdrawn : PullRequest
withdrawn = record merged { state = "closed" }

abbrev prepared : MergeIntent
prepared = record {
  intent_id = "g";
  repository_id = "r";
  pull_request_id = "p";
  revision_id = "v";
  revision_number = 1;
  method = "merge";
  base_ref = codes "refs/heads/main";
  old_target = codes "aaaa";
  new_target = codes "cccc";
  created_at = 20;
}

abbrev offered : PullRequestRevision
offered = record {
  id = "v";
  pull_request_id = "p";
  number = 1;
  author_account_id = 1;
  base_object_id = codes "aaaa";
  head_object_id = codes "bbbb";
  created_at = 10;
}

-- The pull request was closed after its merge had begun and the reference had moved.
abbrev closed_meanwhile : Database
closed_meanwhile = record start {
  git_intents = record pushed { state = promoted } ∷ [];
  merge_intents = prepared ∷ [];
  pull_requests = withdrawn ∷ [];
  pull_request_revisions = offered ∷ [];
}

withdrawn-IsMergeOf : IsMergeOf "g" withdrawn closed_meanwhile
unfolding find
withdrawn-IsMergeOf = record {
  merge = prepared;
  revision = offered;
  merge_found = refl;
  pull_found = refl;
  revision_found = refl;
}

complete_git_intent-closed_example :
    (x : StoreError) × (complete_git_intent (λ n. "e") "f" "g" closed_meanwhile ≡ err x)
complete_git_intent-closed_example =
    complete_git_intent-closed (λ n. "e") "f" "g" closed_meanwhile withdrawn withdrawn-IsMergeOf
      refl

abbrev wanted : NewPullRequestRefIntent
wanted = record {
  id = "i2";
  pull_request_id = "p2";
  owner = "team";
  repository = "project";
  actor = "alice";
  title = "Another change";
  body = "";
  base_ref = codes "refs/heads/main";
  head_ref = codes "refs/heads/other";
  base_object_id = codes "aaaa";
  head_object_id = codes "dddd";
  created_at = 40;
}

-- One pull request was opened in the repository, with the number 1.
abbrev one_opened : Database
one_opened = record start {
  repository_counters =
      record { repository_id = "r"; next_issue_number = 1; next_pull_request_number = 2 } ∷ [];
  pull_request_ref_intents =
      from_new (record wanted { id = "i"; pull_request_id = "p" }) "r" 1 1 1 none "open" ∷ [];
}

one_opened-IsCounted : IsCounted one_opened
unfolding count_where find
one_opened-IsCounted = record { below = (λ o. omega arith, tt); unique = λ r n. ground arith }

run-IsCounted_example : IsCounted (
    Runs.run one_opened
      (Runs.complete_pull "v" "e" "i" ∷ Runs.open_pull wanted ∷ Runs.abandon_pull "i2" ∷ []))
run-IsCounted_example =
    run-IsCounted one_opened
      (Runs.complete_pull "v" "e" "i" ∷ Runs.open_pull wanted ∷ Runs.abandon_pull "i2" ∷ [])
      one_opened-IsCounted
