-- ===== src/Git/Closed.antt =====
-- The merge that an intent carries, where the pull request is no longer open when it is completed.
use tit.Prelude.{
  String, ℕ, ◌⊎◌, sym, ◌≡◌, refl, ap, ◌∙◌, Bool, true, false, Option, some, str_eq, arith, inl, inr,
}
use mathlib.Core.Bool.{false≢true}
use tit.Prelude.Tables.{find}
use tit.Store.Error.{
  Result, StoreError, ok, err, on_row, Ensures-then, Ensures, Ensures-ok, Ensures-guard,
  Ensures-bind,
}
use tit.Store.Schema.{
  Database, Bytes, Time, GitIntent, MergeIntent, PullRequest, PullRequestRevision,
}
use tit.Store.GitIntents.{move_intent}
use tit.Store.Merges.{
  pull_with, is_open, merge_pull_request, complete_pull_request_merge, complete_git_intent,
  insert_operation_event,
}
use tit.Git.Frame.{OnlyLogs, insert_push_events-OnlyLogs}

-- The tables that the completion of a merge reads are the same.
pub record SameMerges (db db' : Database) : Type 0 where
  merges : db'.merge_intents ≡ db.merge_intents
  pulls : db'.pull_requests ≡ db.pull_requests
  revisions : db'.pull_request_revisions ≡ db.pull_request_revisions

SameMerges-trans : {a b c : Database} → SameMerges a b → SameMerges b c → SameMerges a c
SameMerges-trans f g = record {
  merges = g.merges ∙ f.merges;
  pulls = g.pulls ∙ f.pulls;
  revisions = g.revisions ∙ f.revisions;
}

OnlyLogs-SameMerges : {a b : Database} → OnlyLogs a b → SameMerges a b
OnlyLogs-SameMerges f = record {
  merges = ap {A = Database} (λ x. x.merge_intents) f.same;
  pulls = ap {A = Database} (λ x. x.pull_requests) f.same;
  revisions = ap {A = Database} (λ x. x.pull_request_revisions) f.same;
}

-- The rows of the merge: its intent, its pull request and its revision.
pub record IsMergeOf (id : String) (p : PullRequest) (db : Database) : Type 0 where
  pub merge : MergeIntent
  pub revision : PullRequestRevision
  pub merge_found : find (λ m. str_eq m.intent_id id) db.merge_intents ≡ some merge
  pub pull_found : find (pull_with merge.pull_request_id) db.pull_requests ≡ some p
  pub revision_found :
      find (λ r. str_eq r.id merge.revision_id) db.pull_request_revisions ≡ some revision

SameMerges-IsMergeOf :
    (id : String) (p : PullRequest) {db db' : Database}
    → SameMerges db db'
    → IsMergeOf id p db
    → IsMergeOf id p db'
SameMerges-IsMergeOf id p same h = record {
  merge = h.merge;
  revision = h.revision;
  merge_found = rw same.merges h.merge_found;
  pull_found = rw same.pulls h.pull_found;
  revision_found = rw same.revisions h.revision_found;
}

merge_pull_request-open :
    (e : String) (m : MergeIntent) (p : PullRequest) (r : PullRequestRevision) (a : String)
    (t : Time) (db : Database)
    → Ensures (λ _. is_open p ≡ true) (merge_pull_request e m p r a t db)
unfolding merge_pull_request
merge_pull_request-open e m p r a t db =
    Ensures-guard _ _ _ λ fits. record { at = λ _ _. ground (arith, fits) }

Ensures-on_found :
    {A B : Type 0} {P : B → Type 0} (o : Option A) (m : Result B) (f : A → Result B) {x : A}
    → o ≡ some x
    → Ensures P (f x)
    → Ensures P (on_row o m f)
unfolding on_row
Ensures-on_found o m f found h = rw found h

complete_pull_request_merge-open :
    (e id a : String) (t : Time) (db : Database) (p : PullRequest)
    → IsMergeOf id p db
    → Ensures (λ _. is_open p ≡ true) (complete_pull_request_merge e id a t db)
unfolding complete_pull_request_merge
complete_pull_request_merge-open e id a t db p h = Ensures-on_found _ _ _ h.merge_found (
    Ensures-on_found _ _ _ h.pull_found (
      Ensures-on_found _ _ _ h.revision_found
        (merge_pull_request-open e h.merge p h.revision a t db)))

move_intent-SameMerges :
    (id : String) (p : GitIntent → Bool) (change : GitIntent → GitIntent) (db : Database)
    → Ensures (SameMerges db) (move_intent id p change db)
unfolding move_intent
move_intent-SameMerges id p change db =
    Ensures-then _ _ λ _. Ensures-ok _ record { merges = refl; pulls = refl; revisions = refl }

insert_operation_event-SameMerges :
    (id : String) (payload : Bytes) (db : Database)
    → Ensures (SameMerges db) (insert_operation_event id payload db)
unfolding insert_operation_event
insert_operation_event-SameMerges id payload db =
    Ensures-guard _ _ _ λ _. Ensures-ok _ record { merges = refl; pulls = refl; revisions = refl }

complete_git_intent-Ensures :
    (draw : ℕ → String) (e id : String) (db : Database) (p : PullRequest)
    → IsMergeOf id p db
    → Ensures (λ _. is_open p ≡ true) (complete_git_intent draw e id db)
unfolding complete_git_intent
complete_git_intent-Ensures draw e id db p h = Ensures-bind _ _ λ i _. Ensures-bind _ _ λ moved e₁.
    Ensures-bind _ _ λ recorded e₂. Ensures-bind _ _ λ pushed e₃.
      let same₁ = (move_intent-SameMerges _ _ _ db).at moved e₁ in
      let same₂ = (insert_operation_event-SameMerges _ _ moved).at recorded e₂ in
      let same₃ =
        OnlyLogs-SameMerges ((insert_push_events-OnlyLogs _ _ _ _ _ _ _ recorded).at pushed e₃) in
      complete_pull_request_merge-open _ _ _ _ pushed p
        (SameMerges-IsMergeOf id p (SameMerges-trans (SameMerges-trans same₁ same₂) same₃) h)

Result-cases :
    (m : Result Database) → ((d : Database) × (m ≡ ok d)) ⊎ ((x : StoreError) × (m ≡ err x))
Result-cases (ok d) = inl (d, refl)
Result-cases (err x) = inr (x, refl)

-- Where the rows of the merge that the intent `id` carries are there, and its pull request is not
-- open, `complete_git_intent` returns an error, whatever else is stored.
pub complete_git_intent-closed :
    (draw : ℕ → String) (e id : String) (db : Database) (p : PullRequest)
    → IsMergeOf id p db
    → is_open p ≡ false
    → (x : StoreError) × (complete_git_intent draw e id db ≡ err x)
complete_git_intent-closed draw e id db p h closed =
    elim (Result-cases (complete_git_intent draw e id db)) [
      | inl (db', ran) ↦
          absurd
            (false≢true (sym closed ∙ (complete_git_intent-Ensures draw e id db p h).at db' ran))
      | inr failed ↦ failed
    ]
