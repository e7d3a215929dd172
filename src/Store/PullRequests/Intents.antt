-- ===== src/Store/PullRequests/Intents.antt =====
-- src/store/mod.rs: the intents to open a pull request and to revise one, from
-- begin_pull_request_open to abandon_pull_request_ref_intent.
use tit.Prelude.{
  String, ℕ, ◌+◌, Bool, false, ◌&&◌, ◌||◌, not, Option, none, some, List, ◌∷◌, ◌==◌, leb, ltb,
  str_eq, is_none, if◌then◌else◌,
}
use tit.Prelude.Tables.{find, count_where, update_where}
use tit.Prelude.Bytes.{bytes_eq}
use tit.Store.Error.{
  Result, ok, sqlite, pull_request_hidden, pull_request_denied, pull_request_not_found,
  pull_request_state, pull_request_intent_state, guard, ok_or, ◌>>=◌, ◌>>◌,
}
use tit.Store.Schema.{
  Database, Bytes, Time, RepositoryCounter, PullRequest, PullRequestRevision, PullRequestRefIntent,
  pull_request_created, pull_request_revised,
}
use tit.Store.Access.{can_read, can_write_repository, repository_issue_access}
use tit.Store.Events.{plain_event, pull_request, insert_domain_event}
use tit.Store.Issues.{counter_of, ensure_counter}
use tit.Store.Merges.{pull_numbered, pull_with, is_open, next_revision, revision_of}

pub record NewPullRequestRefIntent : Type 0 where
  pub id : String
  pub pull_request_id : String
  pub owner : String
  pub repository : String
  pub actor : String
  pub title : String
  pub body : String
  pub base_ref : Bytes
  pub head_ref : Bytes
  pub base_object_id : Bytes
  pub head_object_id : Bytes
  pub created_at : Time

-- The number that the UPDATE … RETURNING next_pull_request_number - 1 gives, and the counters after.
unfoldable pub take_pull_number :
    String → List RepositoryCounter → Result (ℕ × List RepositoryCounter)
take_pull_number repository_id counters = do
  counter ← ok_or (find (counter_of repository_id) counters) sqlite
  ok (
    counter.next_pull_request_number,
    update_where (counter_of repository_id)
        (λ c. record c { next_pull_request_number = c.next_pull_request_number + 1 }) counters,
  )

-- `PullRequestRefIntentRecord::from_new`, which is the row too.
abbrev pub from_new :
    NewPullRequestRefIntent → String → ℕ → ℕ → ℕ → Option Bytes → String → PullRequestRefIntent
from_new n repository_id author_account_id number revision old_head operation = record {
  id = n.id;
  repository_id = repository_id;
  pull_request_id = n.pull_request_id;
  pull_request_number = number;
  revision_number = revision;
  operation = operation;
  title = n.title;
  body = n.body;
  author_account_id = author_account_id;
  actor = n.actor;
  base_ref = n.base_ref;
  head_ref = n.head_ref;
  base_object_id = n.base_object_id;
  old_head_object_id = old_head;
  head_object_id = n.head_object_id;
  state = "pending";
  created_at = n.created_at;
}

abbrev pub ref_intent_with : String → PullRequestRefIntent → Bool
ref_intent_with id i = str_eq i.id id

unfoldable pub insert_pull_request_intent : PullRequestRefIntent → Database → Result Database
insert_pull_request_intent new db =
    guard (is_none (find (ref_intent_with new.id) db.pull_request_ref_intents)) sqlite
    >> ok (record db { pull_request_ref_intents = new ∷ db.pull_request_ref_intents })

unfoldable pub begin_pull_request_open :
    NewPullRequestRefIntent → Database → Result (PullRequestRefIntent × Database)
begin_pull_request_open n db = do
  access ← repository_issue_access db n.owner n.repository (some n.actor)
  guard (can_read access) pull_request_hidden
  guard (can_write_repository access) pull_request_denied
  actor_id ← ok_or access.active_actor_id pull_request_denied
  taken ←
      take_pull_number access.repository.id
        (ensure_counter access.repository.id db.repository_counters)
  let intent = from_new n access.repository.id actor_id taken.0 1 none "open"
  inserted ← insert_pull_request_intent intent (record db { repository_counters = taken.1 })
  ok (intent, inserted)

-- The intent names the pull request as it is stored.
abbrev is_of : NewPullRequestRefIntent → PullRequest → Bool
is_of n p =
    str_eq p.id n.pull_request_id
    && str_eq p.title n.title
    && str_eq p.body n.body
    && bytes_eq p.base_ref n.base_ref
    && bytes_eq p.head_ref n.head_ref

-- The CHECK that a revision of the operation revise has a number above 1 is the last guard.
unfoldable pub begin_pull_request_revision :
    ℕ → NewPullRequestRefIntent → Database → Result (PullRequestRefIntent × Database)
begin_pull_request_revision number n db = do
  access ← repository_issue_access db n.owner n.repository (some n.actor)
  guard (can_read access) pull_request_hidden
  guard (can_write_repository access) pull_request_denied
  actor_id ← ok_or access.active_actor_id pull_request_denied
  stored ←
      ok_or (find (pull_numbered access.repository.id number) db.pull_requests)
        (pull_request_not_found n.owner n.repository number)
  guard (is_open stored) pull_request_state
  guard (is_of n stored) (pull_request_intent_state n.id)
  guard (ltb 1 (next_revision stored.id db.pull_request_revisions)) sqlite
  let intent =
      from_new n access.repository.id actor_id number
        (next_revision stored.id db.pull_request_revisions) (some stored.head_object_id) "revise"
  inserted ← insert_pull_request_intent intent db
  ok (intent, inserted)

unfoldable pub pull_request_intent : String → Database → Result PullRequestRefIntent
pull_request_intent id db =
    ok_or (find (ref_intent_with id) db.pull_request_ref_intents) (pull_request_intent_state id)

abbrev pub opened_pull : PullRequestRefIntent → PullRequest
opened_pull i = record {
  id = i.pull_request_id;
  repository_id = i.repository_id;
  number = i.pull_request_number;
  title = i.title;
  body = i.body;
  state = "open";
  author_account_id = i.author_account_id;
  base_ref = i.base_ref;
  head_ref = i.head_ref;
  base_object_id = i.base_object_id;
  head_object_id = i.head_object_id;
  created_at = i.created_at;
  updated_at = i.created_at;
}

abbrev pub pull_collides : PullRequest → PullRequest → Bool
pull_collides new p = pull_with new.id p || pull_numbered new.repository_id new.number p

unfoldable pub insert_pull_request : PullRequest → Database → Result Database
insert_pull_request new db =
    guard (is_none (find (pull_collides new) db.pull_requests)) sqlite
    >> ok (record db { pull_requests = new ∷ db.pull_requests })

-- `head_object_id = ?5`, which no row satisfies where the old head is NULL.
abbrev has_head : Option Bytes → PullRequest → Bool
has_head none p = false
has_head (some head) p = bytes_eq p.head_object_id head

abbrev pub revisable : PullRequestRefIntent → PullRequest → Bool
revisable i p = pull_with i.pull_request_id p && is_open p && has_head i.old_head_object_id p

abbrev pub revised : PullRequestRefIntent → PullRequest → PullRequest
revised i p = record p {
  base_object_id = i.base_object_id;
  head_object_id = i.head_object_id;
  updated_at = i.created_at;
}

-- The CHECK on the times of the row is tested before the count is read.
unfoldable pub revise_pull_request : PullRequestRefIntent → Database → Result Database
revise_pull_request i db = do
  guard
      (is_none (find (λ p. revisable i p && not (leb p.created_at i.created_at)) db.pull_requests))
      sqlite
  guard (count_where (revisable i) db.pull_requests == 1) (pull_request_intent_state i.id)
  ok (record db { pull_requests = update_where (revisable i) (revised i) db.pull_requests })

abbrev new_revision : String → PullRequestRefIntent → PullRequestRevision
new_revision id i = record {
  id = id;
  pull_request_id = i.pull_request_id;
  number = i.revision_number;
  author_account_id = i.author_account_id;
  base_object_id = i.base_object_id;
  head_object_id = i.head_object_id;
  created_at = i.created_at;
}

-- The UNIQUE constraints: the id, and the number within the pull request.
unfoldable pub insert_revision : PullRequestRevision → Database → Result Database
insert_revision new db =
    guard
      (is_none (
        find
          (λ (r : PullRequestRevision).
            str_eq r.id new.id || revision_of new.pull_request_id new.number r)
          db.pull_request_revisions))
      sqlite
    >> ok (record db { pull_request_revisions = new ∷ db.pull_request_revisions })

abbrev pub is_opening : PullRequestRefIntent → Bool
is_opening i = str_eq i.operation "open"

abbrev pub pending_ref_intent : String → PullRequestRefIntent → Bool
pending_ref_intent id i = ref_intent_with id i && str_eq i.state "pending"

abbrev pub finish : String → String → Database → Database
finish id state db = record db {
  pull_request_ref_intents =
      update_where (pending_ref_intent id) (λ i. record i { state = state })
        db.pull_request_ref_intents;
}

unfoldable pub complete_pull_request_ref_intent :
    String → String → String → Database → Result Database
complete_pull_request_ref_intent revision_id event_id id db = do
  intent ← pull_request_intent id db
  guard (str_eq intent.state "pending") (pull_request_intent_state id)
  changed ←
      if is_opening intent
      then insert_pull_request (opened_pull intent) db
      else revise_pull_request intent db
  revision ← insert_revision (new_revision revision_id intent) changed
  logged ←
      insert_domain_event event_id
        (plain_event intent.repository_id none (some intent.pull_request_id) intent.actor
          intent.created_at
          (pull_request (if is_opening intent then pull_request_created else pull_request_revised)
            intent.pull_request_id intent.pull_request_number intent.revision_number intent.title
            intent.base_ref intent.head_ref intent.base_object_id intent.head_object_id))
        revision
  ok (finish id "completed" logged)

unfoldable pub abandon_pull_request_ref_intent : String → Database → Result Database
abandon_pull_request_ref_intent id db =
    guard (count_where (pending_ref_intent id) db.pull_request_ref_intents == 1)
      (pull_request_intent_state id)
    >> ok (finish id "abandoned" db)
