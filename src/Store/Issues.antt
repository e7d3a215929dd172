-- ===== src/Store/Issues.antt =====
-- src/store/mod.rs: issues, from create_issue to set_issue_state, and the access that they ask for.
-- The identifiers that SQLite draws are arguments. The CHECKs `updated_at >= created_at` and
-- `closed_at >= created_at` are tested, since the times come from the clock.
use tit.Prelude.{
  String, ℕ, ◌+◌, Bool, ◌&&◌, ◌||◌, not, Option, none, some, List, ◌∷◌, ◌==◌, leb, str_eq, is_none,
  is_some, if◌then◌else◌,
}
use tit.Prelude.Tables.{find, update_where}
use tit.Store.Error.{
  Result, ok, err, sqlite, issue_not_found, issue_hidden, issue_denied, issue_state, guard, ok_or,
  ◌>>=◌, ◌>>◌,
}
use tit.Store.Schema.{
  Database, RepositoryCounter, Issue, IssueComment, EventKind, issue_created, issue_edited,
  issue_closed, issue_reopened, Time,
}
use tit.Store.Repositories.{RepositoryRecord}
use tit.Store.Access.{RepositoryIssueAccess, can_read, can_write_issue, repository_issue_access}
use tit.Store.Events
use tit.Store.Events.{insert_issue_event}

abbrev pub numbered : String → ℕ → Issue → Bool
numbered repository_id number i = str_eq i.repository_id repository_id && i.number == number

-- The author's row is there, since `author_account_id` refers to it.
unfoldable pub find_issue : Database → RepositoryRecord → String → String → ℕ → Result Issue
find_issue db repository owner_slug slug number =
    ok_or (find (numbered repository.id number) db.issues) (issue_not_found owner_slug slug number)
    >>= λ i. ok i

unfoldable pub issue_mutation_context :
    Database → String → String → ℕ → String → Result (RepositoryIssueAccess × Issue)
issue_mutation_context db owner_slug slug number actor = do
  access ← repository_issue_access db owner_slug slug (some actor)
  guard (can_read access) issue_hidden
  guard (is_some access.active_actor_id) issue_denied
  issue ← find_issue db access.repository owner_slug slug number
  ok (access, issue)

abbrev pub with_id : String → Issue → Bool
with_id id i = str_eq i.id id

-- UPDATE issue … WHERE id = ?1, and the CHECK on its times.
unfoldable pub update_issue : Issue → (Issue → Issue) → Time → Database → Result Database
update_issue current change now db =
    guard (leb current.created_at now) sqlite
    >> ok (record db { issues = update_where (with_id current.id) change db.issues })

unfoldable pub edit_issue :
    String → String → String → ℕ → String → Time → String → String → Database → Result Database
edit_issue event_id owner_slug slug number actor changed_at title body db = do
  context ← issue_mutation_context db owner_slug slug number actor
  guard (can_write_issue context.0 context.1.author_account_id) issue_denied
  updated ←
      update_issue context.1 (λ i. record i { title = title; body = body; updated_at = changed_at })
        changed_at db
  insert_issue_event event_id context.0.repository.id context.1.id actor changed_at
      (Events.issue issue_edited context.1.id number title body) updated

unfoldable pub comment_issue :
    String
    → String
    → String
    → String
    → ℕ
    → String
    → String
    → Time
    → Database
    → Result (String × Database)
comment_issue event_id comment_id owner_slug slug number actor body created_at db = do
  context ← issue_mutation_context db owner_slug slug number actor
  actor_id ← ok_or context.0.active_actor_id issue_denied
  guard (can_read context.0) issue_denied
  guard (is_none (find (λ (c : IssueComment). str_eq c.id comment_id) db.issue_comments)) sqlite
  updated ←
      update_issue context.1 (λ i. record i { updated_at = created_at }) created_at
        (record db {
          issue_comments =
              record {
                id = comment_id;
                issue_id = context.1.id;
                author_account_id = actor_id;
                body = body;
                created_at = created_at;
              }
              ∷ db.issue_comments;
        })
  logged ←
      insert_issue_event event_id context.0.repository.id context.1.id actor created_at
        (Events.issue_comment context.1.id number comment_id actor body) updated
  ok (comment_id, logged)

-- `match state { … }`
unfoldable pub state_change : String → Time → Result (Option Time × EventKind)
state_change state changed_at =
    if str_eq state "closed"
    then ok (some changed_at, issue_closed)
    else if str_eq state "open"
    then ok (none, issue_reopened)
    else err (issue_state state)

unfoldable pub set_issue_state :
    String → String → String → ℕ → String → String → Time → Database → Result Database
set_issue_state event_id owner_slug slug number actor state changed_at db = do
  context ← issue_mutation_context db owner_slug slug number actor
  guard (can_write_issue context.0 context.1.author_account_id) issue_denied
  guard (not (str_eq context.1.state state)) (issue_state state)
  change ← state_change state changed_at
  updated ←
      update_issue context.1
        (λ i. record i { state = state; updated_at = changed_at; closed_at = change.0 }) changed_at
        db
  insert_issue_event event_id context.0.repository.id context.1.id actor changed_at
      (Events.issue_state change.1 context.1.id number state) updated

abbrev pub counter_of : String → RepositoryCounter → Bool
counter_of repository_id c = str_eq c.repository_id repository_id

-- INSERT INTO repository_counter … ON CONFLICT (repository_id) DO NOTHING
unfoldable pub ensure_counter : String → List RepositoryCounter → List RepositoryCounter
ensure_counter repository_id counters =
    if is_some (find (counter_of repository_id) counters)
    then counters
    else record {
      repository_id = repository_id;
      next_issue_number = 1;
      next_pull_request_number = 1;
    }
      ∷ counters

-- The number that the UPDATE … RETURNING next_issue_number - 1 gives, and the counters after it.
unfoldable pub take_number : String → List RepositoryCounter → Result (ℕ × List RepositoryCounter)
take_number repository_id counters = do
  counter ← ok_or (find (counter_of repository_id) counters) sqlite
  ok (
    counter.next_issue_number,
    update_where (counter_of repository_id)
        (λ c. record c { next_issue_number = c.next_issue_number + 1 }) counters,
  )

-- The UNIQUE constraints of the table: the id, and the number within the repository.
abbrev pub issue_collides : Issue → Issue → Bool
issue_collides new i = str_eq i.id new.id || numbered new.repository_id new.number i

unfoldable pub insert_issue : Issue → Database → Result Database
insert_issue new db =
    guard (is_none (find (issue_collides new) db.issues)) sqlite
    >> ok (record db { issues = new ∷ db.issues })

pub record NewIssue : Type 0 where
  pub owner_slug : String
  pub repository : String
  pub actor : String
  pub title : String
  pub body : String
  pub created_at : Time

abbrev pub opened_issue : String → String → ℕ → ℕ → NewIssue → Issue
opened_issue id repository_id number actor_id n = record {
  id = id;
  repository_id = repository_id;
  number = number;
  title = n.title;
  body = n.body;
  state = "open";
  author_account_id = actor_id;
  created_at = n.created_at;
  updated_at = n.created_at;
  closed_at = none;
}

-- The issue that is returned carries the actor's name beside this row.
unfoldable pub create_issue : String → String → NewIssue → Database → Result (Issue × Database)
create_issue event_id id n db = do
  access ← repository_issue_access db n.owner_slug n.repository (some n.actor)
  guard (can_read access) issue_hidden
  actor_id ← ok_or access.active_actor_id issue_denied
  taken ←
      take_number access.repository.id (ensure_counter access.repository.id db.repository_counters)
  let issue = opened_issue id access.repository.id taken.0 actor_id n
  inserted ← insert_issue issue (record db { repository_counters = taken.1 })
  logged ←
      insert_issue_event event_id access.repository.id id n.actor n.created_at
        (Events.issue issue_created id taken.0 n.title n.body) inserted
  ok (issue, logged)
