-- ===== src/Store/PullRequests/Reviews.antt =====
-- src/store/mod.rs: reviews of pull requests, create_pull_request_review.
use tit.Prelude.{
  String, ℕ, Bool, false, ◌&&◌, ◌||◌, not, Option, none, some, ◌∷◌, leb, str_eq, is_none, is_some,
  if◌then◌else◌,
}
use tit.Prelude.Tables.{find, update_where}
use tit.Prelude.Bytes.{bytes_eq}
use tit.Store.Error.{
  Result, ok, err, sqlite, pull_request_hidden, pull_request_denied, pull_request_not_found,
  pull_request_state, pull_request_revision_not_found, pull_request_review_anchor, guard, ok_or,
  ◌>>=◌, ◌>>◌,
}
use tit.Store.Schema.{
  Database, Bytes, Time, PullRequestRevision, PullRequestReview, EventKind, pull_request_commented,
  pull_request_line_commented, pull_request_approved, pull_request_changes_requested,
}
use tit.Store.Access.{can_read, repository_issue_access}
use tit.Store.Events
use tit.Store.Events.{insert_pull_request_event}
use tit.Store.Merges.{pull_numbered, pull_with, is_open, revision_of}

pub record NewPullRequestReview : Type 0 where
  pub owner : String
  pub repository : String
  pub number : ℕ
  pub revision : ℕ
  pub actor : String
  pub kind : String
  pub body : String
  pub commit_object_id : Option Bytes
  pub path : Option Bytes
  pub side : Option String
  pub line : Option ℕ
  pub created_at : Time

abbrev is_line_comment : NewPullRequestReview → Bool
is_line_comment n = str_eq n.kind "line-comment"

-- The side's object of the revision.
unfoldable pub anchor : Option String → PullRequestRevision → Result Bytes
anchor none r = err pull_request_review_anchor
anchor (some side) r =
    if str_eq side "base"
    then ok r.base_object_id
    else if str_eq side "head"
    then ok r.head_object_id
    else err pull_request_review_anchor

abbrev is_object : Option Bytes → Bytes → Bool
is_object none id = false
is_object (some object) id = bytes_eq object id

unfoldable pub check_anchor : NewPullRequestReview → PullRequestRevision → Result (Unit {0})
check_anchor n r =
    if is_line_comment n
    then (do
      expected ← anchor n.side r
      guard (is_object n.commit_object_id expected) pull_request_review_anchor)
    else ok tt

abbrev is_empty : String → Bool
is_empty text = str_eq text ""

-- The CHECKs of the table that hold the kind against the columns beside it.
abbrev is_review : NewPullRequestReview → Bool
is_review n =
    if is_line_comment n
    then not (is_empty n.body)
      && is_some n.commit_object_id
      && is_some n.path
      && is_some n.side
      && is_some n.line
    else is_none n.commit_object_id
      && is_none n.path
      && is_none n.side
      && is_none n.line
      && (str_eq n.kind "approved"
          || ((str_eq n.kind "comment" || str_eq n.kind "changes-requested")
              && not (is_empty n.body)))

-- The last arm of the source is not reached, since the INSERT has refused such a kind.
unfoldable pub review_event : String → Result EventKind
review_event kind =
    if str_eq kind "comment"
    then ok pull_request_commented
    else if str_eq kind "line-comment"
    then ok pull_request_line_commented
    else if str_eq kind "approved"
    then ok pull_request_approved
    else if str_eq kind "changes-requested"
    then ok pull_request_changes_requested
    else err pull_request_review_anchor

unfoldable pub insert_review : PullRequestReview → Database → Result Database
insert_review new db =
    guard (is_none (find (λ r. str_eq r.id new.id) db.pull_request_reviews)) sqlite
    >> ok (record db { pull_request_reviews = new ∷ db.pull_request_reviews })

unfoldable pub create_pull_request_review :
    String → String → NewPullRequestReview → Database → Result (String × Database)
create_pull_request_review event_id id n db = do
  access ← repository_issue_access db n.owner n.repository (some n.actor)
  guard (can_read access) pull_request_hidden
  actor_id ← ok_or access.active_actor_id pull_request_denied
  current ←
      ok_or (find (pull_numbered access.repository.id n.number) db.pull_requests)
        (pull_request_not_found n.owner n.repository n.number)
  guard (is_open current) pull_request_state
  revision ←
      ok_or (find (revision_of current.id n.revision) db.pull_request_revisions)
        pull_request_revision_not_found
  check_anchor n revision
  guard (is_review n) sqlite
  inserted ←
      insert_review
        (record {
          id = id;
          pull_request_id = current.id;
          revision_id = revision.id;
          author_account_id = actor_id;
          kind = n.kind;
          body = n.body;
          commit_object_id = n.commit_object_id;
          path = n.path;
          side = n.side;
          line = n.line;
          created_at = n.created_at;
        })
        db
  guard (leb current.created_at n.created_at) sqlite
  kind ← review_event n.kind
  logged ←
      insert_pull_request_event event_id access.repository.id current.id n.actor n.created_at
        (Events.pull_request_review kind current.id n.number id n.revision n.body n.commit_object_id
          n.path n.side n.line)
        (record inserted {
          pull_requests =
              update_where (pull_with current.id) (λ p. record p { updated_at = n.created_at })
                inserted.pull_requests;
        })
  ok (id, logged)
