-- ===== src/Git/PullEffects.antt =====
-- What each call does to the table of pull requests.
use tit.Prelude.{
  String, ℕ, ◌≡◌, refl, sym, ◌∙◌, ap, subst, Bool, true, false, not, Option, none, some, ◌∷◌,
  is_none, str_eq, eq_iff, arith, if◌then◌else◌,
}
use tit.Prelude.Tables.{find, update_where}
use tit.Store.Error.{
  Ensures, Ensures-ok, Ensures-if, Ensures-guard, Ensures-bind, Ensures-ok_or, Ensures-then,
  Ensures-on_row,
}
use tit.Store.Schema.{
  Database, Time, GitIntent, MergeIntent, PullRequest, PullRequestRevision, PullRequestRefIntent,
}
use tit.Store.GitIntents.{
  GitOperationIntent, begin_git_intent, mark_git_objects_promoted, abandon_git_intent, move_intent,
}
use tit.Store.Merges.{
  NewPullRequestMerge, begin_pull_request_merge, complete_git_intent, insert_merge_intent,
  insert_operation_event, complete_pull_request_merge, merge_pull_request, pull_with, is_open,
  open_with,
}
use tit.Store.PullRequests.{
  begin_pull_request_open, begin_pull_request_revision, complete_pull_request_ref_intent,
  abandon_pull_request_ref_intent, create_pull_request_review, edit_pull_request,
  set_pull_request_state, insert_pull_request_intent, insert_pull_request, revise_pull_request,
  NewPullRequestReview, PullRequestEdit, insert_revision, insert_review, is_opening, opened_pull,
  pull_collides, revisable, revised, is_merged,
}
use tit.Git.Calls.{
  Call, begin, begin_merge, promote, complete, abandon, open_pull, revise_pull, complete_pull,
  abandon_pull, review_pull, edit_pull, set_pull_state, exec, database_of-Ensures,
}
use tit.Git.Frame.{
  Keeps, insert_domain_event-Keeps, insert_pull_request_event-Keeps, insert_push_events-Keeps,
}

-- What names a pull request.
abbrev pub SameName : PullRequest → PullRequest → Type 0
SameName p q = (q.id ≡ p.id) × (q.repository_id ≡ p.repository_id) × (q.number ≡ p.number)

pub data PullEffect (db db' : Database) : Type 0 where
  kept : db'.pull_requests ≡ db.pull_requests → PullEffect db db'
  added :
      (p : PullRequest)
      → find (pull_collides p) db.pull_requests ≡ none
      → db'.pull_requests ≡ p ∷ db.pull_requests
      → PullEffect db db'
  open_changed :
      (t : PullRequest → Bool) (f : PullRequest → PullRequest)
      → ((p : PullRequest) → t p ≡ true → is_open p ≡ true)
      → ((p : PullRequest) → SameName p (f p))
      → db'.pull_requests ≡ update_where t f db.pull_requests
      → PullEffect db db'
  one_changed :
      (s : PullRequest → Bool) (current : PullRequest) (f : PullRequest → PullRequest)
      → find s db.pull_requests ≡ some current
      → is_merged current ≡ false
      → ((p : PullRequest) → SameName p (f p))
      → db'.pull_requests ≡ update_where (pull_with current.id) f db.pull_requests
      → PullEffect db db'

then_same : {a b c : Database} → PullEffect a b → c.pull_requests ≡ b.pull_requests → PullEffect a c
then_same (kept e) k = kept (k ∙ e)
then_same (added p f e) k = added p f (k ∙ e)
then_same (open_changed t f o n e) k = open_changed t f o n (k ∙ e)
then_same (one_changed s c f w m n e) k = one_changed s c f w m n (k ∙ e)

from_same : {a b c : Database} → b.pull_requests ≡ a.pull_requests → PullEffect b c → PullEffect a c
from_same k (kept e) = kept (e ∙ k)
from_same k (added p f e) = added p (rw (← k) f) (rw (← k) e)
from_same k (open_changed t f o n e) = open_changed t f o n (rw (← k) e)
from_same k (one_changed s c f w m n e) = one_changed s c f (rw (← k) w) m n (rw (← k) e)

none_of : {A : Type 0} (o : Option A) → is_none o ≡ true → o ≡ none
none_of none h = refl
none_of (some a) h = cc

open-not-merged : (p : PullRequest) → is_open p ≡ true → is_merged p ≡ false
open-not-merged p h =
    subst (λ s. str_eq s "merged" ≡ false) (sym ((eq_iff p.state "open").0 h)) refl

not-true : (b : Bool) → not b ≡ true → b ≡ false
not-true b h = ground (arith, h)

same_pulls : {a b : Database} → Keeps a b → b.pull_requests ≡ a.pull_requests
same_pulls k = k.pulls

insert_pull_request-effect :
    (p : PullRequest) (db : Database) → Ensures (PullEffect db) (insert_pull_request p db)
unfolding insert_pull_request
insert_pull_request-effect p db =
    Ensures-guard _ _ _ λ free. Ensures-ok _ (added p (none_of _ free) refl)

revise_pull_request-effect :
    (i : PullRequestRefIntent) (db : Database) → Ensures (PullEffect db) (revise_pull_request i db)
unfolding revise_pull_request
revise_pull_request-effect i db = Ensures-guard _ _ _ λ _. Ensures-guard _ _ _ λ _. Ensures-ok _ (
    open_changed (revisable i) (revised i) (λ p h. ground (arith, h)) (λ p. (refl, refl, refl))
      refl)

merge_pull_request-effect :
    (e : String) (m : MergeIntent) (p : PullRequest) (r : PullRequestRevision) (a : String)
    (t : Time) (db : Database)
    → Ensures (PullEffect db) (merge_pull_request e m p r a t db)
unfolding merge_pull_request
merge_pull_request-effect e m p r a t db = Ensures-guard _ _ _ λ _. Ensures-guard _ _ _ λ _.
    Ensures-guard _ _ _ λ _. record {
      at = λ x ex.
          open_changed (open_with m.pull_request_id)
            (λ q. record q { state = "merged"; updated_at = t }) (λ q h. ground (arith, h))
            (λ q. (refl, refl, refl)) (same_pulls ((insert_domain_event-Keeps _ _ _).at x ex));
    }

complete_pull_request_merge-effect :
    (e i a : String) (t : Time) (db : Database)
    → Ensures (PullEffect db) (complete_pull_request_merge e i a t db)
unfolding complete_pull_request_merge
complete_pull_request_merge-effect e i a t db =
    Ensures-on_row _ _ _ (λ _. Ensures-ok db (kept refl))
      λ m _.
        Ensures-on_row _ _ _ (λ _. Ensures-ok db (kept refl))
          λ p _.
            Ensures-on_row _ _ _ (λ _. Ensures-ok db (kept refl))
              λ r _. merge_pull_request-effect e m p r a t db

move_intent-pulls :
    (id : String) (p : GitIntent → Bool) (f : GitIntent → GitIntent) (db : Database)
    → Ensures (λ db'. db'.pull_requests ≡ db.pull_requests) (move_intent id p f db)
unfolding move_intent
move_intent-pulls id p f db = Ensures-guard _ _ _ λ _. Ensures-ok _ refl

begin_git_intent-pulls :
    (i : GitOperationIntent) (db : Database)
    → Ensures (λ db'. db'.pull_requests ≡ db.pull_requests) (begin_git_intent i db)
unfolding begin_git_intent
begin_git_intent-pulls i db = Ensures-guard _ _ _ λ _. Ensures-ok _ refl

complete_git_intent-effect :
    (draw : ℕ → String) (e id : String) (db : Database)
    → Ensures (PullEffect db) (complete_git_intent draw e id db)
unfolding complete_git_intent insert_operation_event
complete_git_intent-effect draw e id db = Ensures-ok_or _ _ _ λ i _. Ensures-bind _ _ λ db₁ e₁.
    Ensures-bind _ _ λ db₂ e₂. Ensures-bind _ _ λ db₃ e₃. record {
      at = λ db₄ e₄.
          let s₁ = (move_intent-pulls id _ _ db).at db₁ e₁ in
          let s₂ =
            (Ensures-guard {P = λ x. x.pull_requests ≡ db₁.pull_requests} _ _ _
                λ _. Ensures-ok _ refl).at
              db₂ e₂ in
          let s₃ = same_pulls ((insert_push_events-Keeps _ _ _ _ _ _ _ db₂).at db₃ e₃) in
          from_same (s₃ ∙ s₂ ∙ s₁) ((complete_pull_request_merge-effect _ _ _ _ db₃).at db₄ e₄);
    }

begin_pull_request_merge-effect :
    (m : NewPullRequestMerge) (i : GitOperationIntent) (db : Database)
    → Ensures (PullEffect db) (begin_pull_request_merge m i db)
unfolding begin_pull_request_merge insert_merge_intent
begin_pull_request_merge-effect m i db = Ensures-bind _ _ λ a _. Ensures-guard _ _ _ λ _.
    Ensures-guard _ _ _ λ _. Ensures-guard _ _ _ λ _. Ensures-ok_or _ _ _ λ p _.
      Ensures-ok_or _ _ _ λ r _. Ensures-guard _ _ _ λ _. Ensures-guard _ _ _ λ _.
        Ensures-bind _ _ λ x _. Ensures-bind _ _ λ y _. Ensures-guard _ _ _ λ _.
          Ensures-bind _ _ λ db₁ e₁.
            Ensures-guard _ _ _ λ _. Ensures-ok _ (kept ((begin_git_intent-pulls i db).at db₁ e₁))

pull_change-effect :
    (i : PullRequestRefIntent) (db : Database)
    → Ensures
        (PullEffect db)
        (if is_opening i then insert_pull_request (opened_pull i) db else revise_pull_request i db)
pull_change-effect i db =
    Ensures-if (is_opening i) _ _ (λ _. insert_pull_request-effect _ db)
      (λ _. revise_pull_request-effect i db)

review-effect :
    (e i : String) (n : NewPullRequestReview) (db : Database)
    → Ensures (λ r. PullEffect db r.1) (create_pull_request_review e i n db)
unfolding create_pull_request_review insert_review
review-effect e i n db = Ensures-bind _ _ λ a _. Ensures-guard _ _ _ λ _. Ensures-ok_or _ _ _ λ u _.
    Ensures-ok_or _ _ _ λ p found. Ensures-guard _ _ _ λ at_open. Ensures-ok_or _ _ _ λ r _.
      Ensures-then _ _ λ _. Ensures-guard _ _ _ λ _. Ensures-bind _ _ λ db₁ e₁.
        Ensures-guard _ _ _ λ _. Ensures-bind _ _ λ k _. Ensures-bind _ _ λ db₂ e₂.
          let same =
            (Ensures-guard {P = λ x. x.pull_requests ≡ db.pull_requests} _ _ _
                λ _. Ensures-ok _ refl).at
              db₁ e₁ in
          Ensures-ok _ (
            one_changed _ p (λ q. record q { updated_at = n.created_at }) found
              (open-not-merged p at_open) (λ q. (refl, refl, refl))
              (same_pulls ((insert_pull_request_event-Keeps _ _ _ _ _ _ _).at db₂ e₂)
                ∙ ap (update_where (pull_with p.id) (λ q. record q { updated_at = n.created_at }))
                    same))

edit-effect :
    (e : String) (n : PullRequestEdit) (db : Database)
    → Ensures (PullEffect db) (edit_pull_request e n db)
unfolding edit_pull_request
edit-effect e n db = Ensures-bind _ _ λ a _. Ensures-ok_or _ _ _ λ p found. Ensures-guard _ _ _ λ _.
    Ensures-guard _ _ _ λ other. Ensures-guard _ _ _ λ _. record {
      at = λ x ex.
          one_changed _ p
            (λ q. record q { title = n.title; body = n.body; updated_at = n.changed_at }) found
            (not-true _ other) (λ q. (refl, refl, refl))
            (same_pulls ((insert_pull_request_event-Keeps _ _ _ _ _ _ _).at x ex));
    }

set_state-effect :
    (e o r : String) (k : ℕ) (a s : String) (t : Time) (db : Database)
    → Ensures (PullEffect db) (set_pull_request_state e o r k a s t db)
unfolding set_pull_request_state
set_state-effect e o r k a s t db = Ensures-bind _ _ λ c _. Ensures-ok_or _ _ _ λ p found.
    Ensures-guard _ _ _ λ _. Ensures-guard _ _ _ λ other. Ensures-guard _ _ _ λ _. record {
      at = λ x ex.
          one_changed _ p (λ q. record q { state = s; updated_at = t }) found
            (ground (arith, other)) (λ q. (refl, refl, refl))
            (same_pulls ((insert_pull_request_event-Keeps _ _ _ _ _ _ _).at x ex));
    }

pub exec-PullEffect : (c : Call) (db : Database) → Ensures (PullEffect db) (exec c db)
unfolding exec mark_git_objects_promoted abandon_git_intent begin_pull_request_open
    begin_pull_request_revision insert_pull_request_intent complete_pull_request_ref_intent
    insert_revision abandon_pull_request_ref_intent
exec-PullEffect (begin i) db = record { at = λ x e. kept ((begin_git_intent-pulls i db).at x e) }
exec-PullEffect (begin_merge m i) db = begin_pull_request_merge-effect m i db
exec-PullEffect (promote id pack) db = record {
  at = λ x e. kept ((move_intent-pulls id _ _ db).at x e);
}
exec-PullEffect (complete d e i) db = complete_git_intent-effect d e i db
exec-PullEffect (abandon id) db = record { at = λ x e. kept ((move_intent-pulls id _ _ _).at x e) }
exec-PullEffect (open_pull n) db = database_of-Ensures (PullEffect db) _ (
    Ensures-bind _ _ λ a _. Ensures-guard _ _ _ λ _. Ensures-guard _ _ _ λ _.
      Ensures-ok_or _ _ _ λ u _. Ensures-bind _ _ λ k _. Ensures-bind _ _ λ x e.
        Ensures-ok _
          ((Ensures-guard {P = PullEffect db} _ _ _ λ _. Ensures-ok _ (kept refl)).at x e))
exec-PullEffect (revise_pull k n) db = database_of-Ensures (PullEffect db) _ (
    Ensures-bind _ _ λ a _. Ensures-guard _ _ _ λ _. Ensures-guard _ _ _ λ _.
      Ensures-ok_or _ _ _ λ u _. Ensures-ok_or _ _ _ λ p _. Ensures-guard _ _ _ λ _.
        Ensures-guard _ _ _ λ _. Ensures-guard _ _ _ λ _. Ensures-bind _ _ λ x e.
          Ensures-ok _
            ((Ensures-guard {P = PullEffect db} _ _ _ λ _. Ensures-ok _ (kept refl)).at x e))
exec-PullEffect (complete_pull r e i) db = Ensures-bind _ _ λ n _. Ensures-guard _ _ _ λ _.
    Ensures-bind _ _ λ db₁ e₁. Ensures-bind _ _ λ db₂ e₂. Ensures-bind _ _ λ db₃ e₃.
      let t =
        (Ensures-guard {P = λ x. x.pull_requests ≡ db₁.pull_requests} _ _ _
            λ _. Ensures-ok _ refl).at
          db₂ e₂ in
      let k = same_pulls ((insert_domain_event-Keeps _ _ db₂).at db₃ e₃) in
      Ensures-ok _ (then_same ((pull_change-effect n db).at db₁ e₁) (k ∙ t))
exec-PullEffect (abandon_pull i) db = Ensures-guard _ _ _ λ _. Ensures-ok _ (kept refl)
exec-PullEffect (review_pull e i n) db =
    database_of-Ensures (PullEffect db) _ (review-effect e i n db)
exec-PullEffect (edit_pull e n) db = edit-effect e n db
exec-PullEffect (set_pull_state e o r n a s t) db = set_state-effect e o r n a s t db
