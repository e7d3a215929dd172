-- ===== src/Git/Calls.antt =====
-- The calls on Git intents and pull requests of src/store/mod.rs, in any order; a call that fails
-- leaves the database as it was.
use tit.Prelude.{String, ℕ, Option, List, [], ◌∷◌, refl}
use tit.Store.Error.{Result, ok, err, Ensures, Ensures-ok, Ensures-err}
use tit.Store.Schema.{Database, Time}
use tit.Store.GitIntents.{
  GitOperationIntent, begin_git_intent, mark_git_objects_promoted, abandon_git_intent,
}
use tit.Store.Merges.{NewPullRequestMerge, begin_pull_request_merge, complete_git_intent}
use tit.Store.PullRequests.{
  NewPullRequestRefIntent, NewPullRequestReview, PullRequestEdit, begin_pull_request_open,
  begin_pull_request_revision, complete_pull_request_ref_intent, abandon_pull_request_ref_intent,
  create_pull_request_review, edit_pull_request, set_pull_request_state,
}
use tit.Identity.Reach.{after}

pub data Call : Type 0 where
  begin : GitOperationIntent → Call
  begin_merge : NewPullRequestMerge → GitOperationIntent → Call
  promote : String → Option String → Call
  complete : (ℕ → String) → String → String → Call
  abandon : String → Call
  open_pull : NewPullRequestRefIntent → Call
  revise_pull : ℕ → NewPullRequestRefIntent → Call
  complete_pull : String → String → String → Call
  abandon_pull : String → Call
  review_pull : String → String → NewPullRequestReview → Call
  edit_pull : String → PullRequestEdit → Call
  set_pull_state : String → String → String → ℕ → String → String → Time → Call

abbrev pub database_of {ℓ} : {A : Type ℓ} → Result (A × Database) → Result Database
database_of (ok r) = ok r.1
database_of (err e) = err e

unfoldable pub exec : Call → Database → Result Database
exec (begin i) db = begin_git_intent i db
exec (begin_merge m i) db = begin_pull_request_merge m i db
exec (promote i p) db = mark_git_objects_promoted i p db
exec (complete d e i) db = complete_git_intent d e i db
exec (abandon i) db = abandon_git_intent i db
exec (open_pull n) db = database_of (begin_pull_request_open n db)
exec (revise_pull k n) db = database_of (begin_pull_request_revision k n db)
exec (complete_pull r e i) db = complete_pull_request_ref_intent r e i db
exec (abandon_pull i) db = abandon_pull_request_ref_intent i db
exec (review_pull e i n) db = database_of (create_pull_request_review e i n db)
exec (edit_pull e n) db = edit_pull_request e n db
exec (set_pull_state e o r n a s t) db = set_pull_request_state e o r n a s t db

unfoldable pub run : Database → List Call → Database
run db [] = db
run db (c ∷ cs) = run (after db (exec c db)) cs

pub database_of-Ensures {κ} :
    {A : Type 0} (P : Database → Type κ) (m : Result (A × Database))
    → Ensures (λ r. P r.1) m
    → Ensures P (database_of m)
database_of-Ensures P (ok r) h = Ensures-ok r.1 (h.at r refl)
database_of-Ensures P (err e) h = Ensures-err e
