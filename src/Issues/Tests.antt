-- ===== src/Issues/Tests.antt =====
-- The theorems on issues at one public repository, whose one issue its author closes.
use tit.Prelude.{List, arith, ◌≡◌, refl, true, false, none, [], ◌∷◌, str_eq}
use tit.Prelude.Tables.{count_where, find, update_where, next_rowid}
use tit.Store.Error.{Result, ok, err, ◌>>◌}
use tit.Store.Schema.{Database, AccountState, NamespaceKind, Issue, empty}
use tit.Store.Repositories.{case_role, joined_role}
use tit.Store.Access.{RepositoryIssueAccess, can_write_issue, repository_issue_access}
use tit.Store.Events.{insert_issue_event, insert_domain_event}
use tit.Store.Issues.{
  issue_mutation_context, find_issue, update_issue, state_change, set_issue_state, create_issue,
  ensure_counter, take_number, insert_issue,
}
use tit.Identity.Reach.{after}
use tit.Issues.Numbers.{IsNumbered, Call, create, set_state, run, run-IsNumbered}
use tit.Issues.States.{InState, set_issue_state-changes}

abbrev start : Database
start = record empty {
  accounts =
      record {
        id = 1;
        username = "alice";
        is_administrator = false;
        state = AccountState.active;
        created_at = 5;
      }
      ∷ [];
  namespaces =
      record {
        id = 2;
        slug = "team";
        kind = NamespaceKind.organization;
        account_id = none;
        created_at = 6;
      }
      ∷ [];
  repositories =
      record {
        id = "r";
        owner_namespace_id = 2;
        slug = "project";
        visibility = "public";
        state = "active";
        object_format = "sha1";
        created_at = 7;
        archived_at = none;
      }
      ∷ [];
}

abbrev first_issue : Result (Issue × Database)
first_issue =
    create_issue "e1" "i1"
      (record {
        owner_slug = "team";
        repository = "project";
        actor = "alice";
        title = "It fails";
        body = "";
        created_at = 10;
      })
      start

abbrev database_of : Result (Issue × Database) → Database
database_of (ok r) = r.1
database_of (err e) = start

abbrev opened : Database
opened = database_of first_issue

abbrev closed : Database
closed = after opened (set_issue_state "e2" "team" "project" 1 "alice" "closed" 20 opened)

set_issue_state-changes_example :
    (access : RepositoryIssueAccess) × (issue : Issue) × (issue_mutation_context opened "team"
        "project" 1 "alice"
      ≡ ok (access, issue))
    × (can_write_issue access issue.author_account_id ≡ true)
    × (str_eq issue.state "closed" ≡ false)
    × InState issue.id "closed" 20 closed
unfolding set_issue_state create_issue ensure_counter take_number insert_issue
    repository_issue_access issue_mutation_context find_issue update_issue insert_issue_event
    insert_domain_event state_change case_role joined_role ◌>>◌ find update_where next_rowid
set_issue_state-changes_example =
    set_issue_state-changes "e2" "team" "project" 1 "alice" "closed" 20 opened closed refl

opened-IsNumbered : IsNumbered opened
unfolding create_issue ensure_counter take_number insert_issue repository_issue_access
    insert_issue_event insert_domain_event joined_role case_role ◌>>◌ find update_where count_where
    next_rowid
opened-IsNumbered = record { below = (omega arith, tt); unique = λ r n. ground arith }

abbrev script : List Call
script =
    create "e2" "i2" (record {
      owner_slug = "team";
      repository = "project";
      actor = "alice";
      title = "It fails again";
      body = "";
      created_at = 30;
    })
    ∷ set_state "e3" "team" "project" 2 "alice" "closed" 40
    ∷ []

run-IsNumbered_example : IsNumbered (run opened script)
run-IsNumbered_example = run-IsNumbered opened script opened-IsNumbered
