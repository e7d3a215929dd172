-- ===== src/Store/PullRequests.antt =====
-- src/store/mod.rs: pull requests, from begin_pull_request_open to abandon_pull_request_ref_intent,
-- create_pull_request_review, edit_pull_request and set_pull_request_state. The identifiers that
-- SQLite draws are arguments. `updated_at >= created_at` is tested, since the times come from the
-- clock; of the CHECKs on texts, the one on the state of a pull request is tested too, since a caller
-- names the state.
mod Intents
mod Reviews
unfoldable pub use Intents.*
unfoldable pub use Reviews.*
use tit.Prelude.{String, ℕ, Bool, ◌&&◌, ◌||◌, not, some, ◌==◌, leb, str_eq, if◌then◌else◌}
use tit.Prelude.Tables.{find, update_where}
use tit.Store.Error.{
  Result, ok, sqlite, pull_request_not_found, pull_request_denied, pull_request_state, guard, ok_or,
  ◌>>=◌, ◌>>◌,
}
use tit.Store.Schema.{
  Database, Time, PullRequest, EventKind, pull_request_edited, pull_request_closed,
  pull_request_reopened,
}
use tit.Store.Access.{can_write_issue, repository_issue_access}
use tit.Store.Events.{pull_request_change, insert_pull_request_event}
use tit.Store.Merges.{pull_numbered, pull_with}

pub record PullRequestEdit : Type 0 where
  pub owner : String
  pub repository : String
  pub number : ℕ
  pub actor : String
  pub title : String
  pub body : String
  pub changed_at : Time

abbrev pub is_merged : PullRequest → Bool
is_merged p = str_eq p.state "merged"

-- CHECK (state IN ('open', 'closed', 'merged'))
abbrev is_state : String → Bool
is_state state = str_eq state "open" || str_eq state "closed" || str_eq state "merged"

unfoldable pub edit_pull_request : String → PullRequestEdit → Database → Result Database
edit_pull_request event_id edit db = do
  access ← repository_issue_access db edit.owner edit.repository (some edit.actor)
  current ←
      ok_or (find (pull_numbered access.repository.id edit.number) db.pull_requests)
        (pull_request_not_found edit.owner edit.repository edit.number)
  guard (can_write_issue access current.author_account_id) pull_request_denied
  guard (not (is_merged current)) pull_request_state
  guard (leb current.created_at edit.changed_at) sqlite
  insert_pull_request_event event_id access.repository.id current.id edit.actor edit.changed_at
      (pull_request_change pull_request_edited current.id edit.number edit.title edit.body
        current.state)
      (record db {
        pull_requests =
            update_where (pull_with current.id)
              (λ p. record p { title = edit.title; body = edit.body; updated_at = edit.changed_at })
              db.pull_requests;
      })

abbrev state_event : String → EventKind
state_event state = if str_eq state "closed" then pull_request_closed else pull_request_reopened

unfoldable pub set_pull_request_state :
    String → String → String → ℕ → String → String → Time → Database → Result Database
set_pull_request_state event_id owner repository number actor state changed_at db = do
  access ← repository_issue_access db owner repository (some actor)
  current ←
      ok_or (find (pull_numbered access.repository.id number) db.pull_requests)
        (pull_request_not_found owner repository number)
  guard (can_write_issue access current.author_account_id) pull_request_denied
  guard (not (is_merged current || str_eq current.state state)) pull_request_state
  guard (is_state state && leb current.created_at changed_at) sqlite
  insert_pull_request_event event_id access.repository.id current.id actor changed_at
      (pull_request_change (state_event state) current.id number current.title current.body state)
      (record db {
        pull_requests =
            update_where (pull_with current.id)
              (λ p. record p { state = state; updated_at = changed_at }) db.pull_requests;
      })
