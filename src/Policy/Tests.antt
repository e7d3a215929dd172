-- ===== src/Policy/Tests.antt =====
-- The theorems on the policy at one public repository: its owner, a writer and a stranger.
use tit.Prelude.{String, ◌≡◌, ◌≢◌, ◌↔◌, refl, true, false, none, some, [], ◌∷◌}
use tit.Prelude.Tables.{find}
use tit.Store.Error.{ok, ◌>>◌}
use tit.Store.Schema.{Database, Account, AccountState, NamespaceKind, Repository, empty}
use tit.Store.Repositories.{
  RepositoryRecord, repository_authorization, repository_default_branch, case_role, joined_role,
}
use tit.Store.Access.{RepositoryIssueAccess, repository_issue_access}
use tit.Policy.{
  fast_forward, force, delete, read, write, maintain, granted, allows, parse_role, authorize,
  authorize_ref_change,
}
use tit.Policy.Grants.{authorize-monotone, authorize_ref_change-protects}
use tit.Policy.Agreement.{may, authorize-agrees}
use tit.Policy.Strangers.{authorize-strangers}

abbrev alice : Account
alice = record {
  id = 1;
  username = "alice";
  is_administrator = false;
  state = AccountState.active;
  created_at = 10;
}

abbrev project : Repository
project = record {
  id = "r";
  owner_namespace_id = 5;
  slug = "project";
  visibility = "public";
  state = "active";
  object_format = "sha1";
  created_at = 20;
  archived_at = none;
}

abbrev shown : RepositoryRecord
shown = record {
  id = "r";
  owner_slug = "alice";
  slug = "project";
  visibility = "public";
  state = "active";
  object_format = "sha1";
  created_at = 20;
  archived_at = none;
}

abbrev start : Database
start = record empty {
  accounts = alice ∷ record alice { id = 2; username = "bob" } ∷ [];
  namespaces =
      record {
        id = 5;
        slug = "alice";
        kind = NamespaceKind.account;
        account_id = some 1;
        created_at = 10;
      }
      ∷ [];
  repositories = project ∷ [];
  repository_collaborators =
      record { repository_id = "r"; account_id = 2; role = "writer"; created_at = 30 } ∷ [];
  repository_default_branches = record { repository_id = "r"; ref_name = "refs/heads/main" } ∷ [];
}

authorize-monotone_example :
    ((authorize start (some "alice") "alice" "project" maintain ≡ granted shown)
      → authorize start (some "alice") "alice" "project" write ≡ granted shown)
    × ((authorize start (some "alice") "alice" "project" write ≡ granted shown)
        → authorize start (some "alice") "alice" "project" read ≡ granted shown)
authorize-monotone_example = authorize-monotone start (some "alice") "alice" "project" shown

authorize_ref_change-protects_example :
    (authorize start (some "alice") "alice" "project" write ≡ granted shown)
    × (fast_forward ≢ force)
    × ((branch : String) × (repository_default_branch start "alice" "project" ≡ ok branch)
        × ("refs/heads/main" ≡ branch
            → (fast_forward ≢ delete)
              × (authorize start (some "alice") "alice" "project" maintain ≡ granted shown)))
unfolding authorize_ref_change repository_authorization repository_default_branch case_role
    joined_role allows parse_role ◌>>◌ find
authorize_ref_change-protects_example =
    authorize_ref_change-protects start "alice" "alice" "project" "refs/heads/main" fast_forward
      shown refl

authorize-strangers_example :
    (read ≡ read) × (shown.visibility ≡ "public") × (shown.state ≡ "active")
unfolding authorize repository_authorization case_role joined_role allows ◌>>◌ find
authorize-strangers_example = authorize-strangers start none "alice" "project" read shown refl refl

authorize-agrees_example :
    (authorize start (some "alice") "alice" "project" maintain ≡ granted shown) ↔ (
      (a : RepositoryIssueAccess) × (repository_issue_access start "alice" "project" (some "alice")
        ≡ ok a)
      × (a.repository ≡ shown)
      × (may maintain a ≡ true))
authorize-agrees_example = authorize-agrees start (some "alice") "alice" "project" maintain shown
