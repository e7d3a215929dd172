-- ===== src/Git/IntentEffects.antt =====
-- What each call does to the intents of Git operations and to the events that complete them.
use tit.Prelude.{
  String, ℕ, Bool, if◌then◌else◌, ◌≡◌, refl, ◌∙◌, ap, true, Option, none, some, List, ◌∷◌, is_none,
  ==_iff,
}
use tit.Prelude.Tables.{find, count_where, update_where}
use tit.Store.Error.{
  Ensures, Ensures-ok, Ensures-if, Ensures-guard, Ensures-bind, Ensures-ok_or, Ensures-then,
  Ensures-on_row,
}
use tit.Store.Schema.{
  Database, Bytes, Time, GitIntent, pending, promoted, completed, abandoned, MergeIntent,
  PullRequest, PullRequestRevision, PullRequestRefIntent,
}
use tit.Store.GitIntents.{
  GitOperationIntent, begin_git_intent, mark_git_objects_promoted, abandon_git_intent, move_intent,
  intent_with, pending_with, promoted_with, incomplete_with,
}
use tit.Store.Merges.{
  NewPullRequestMerge, begin_pull_request_merge, complete_git_intent, insert_merge_intent,
  insert_operation_event, complete_pull_request_merge, merge_pull_request,
}
use tit.Store.PullRequests.{
  begin_pull_request_open, begin_pull_request_revision, complete_pull_request_ref_intent,
  abandon_pull_request_ref_intent, create_pull_request_review, edit_pull_request,
  set_pull_request_state, insert_pull_request_intent, insert_pull_request, revise_pull_request,
  insert_revision, insert_review, is_opening, opened_pull,
}
use tit.Git.Calls.{
  Call, begin, begin_merge, promote, complete, abandon, open_pull, revise_pull, complete_pull,
  abandon_pull, review_pull, edit_pull, set_pull_state, exec, database_of-Ensures,
}
use tit.Git.Frame.{
  Keeps, insert_domain_event-Keeps, insert_pull_request_event-Keeps, insert_push_events-Keeps,
}

-- The table of intents after a change from a state, and whether it completes the intent.
pub data IntentEffect (db db' : Database) : Type 0 where
  kept :
      db'.git_intents ≡ db.git_intents
      → db'.git_operation_events ≡ db.git_operation_events
      → IntentEffect db db'
  begun :
      (i : GitIntent)
      → find (intent_with i.id) db.git_intents ≡ none
      → i.state ≡ pending
      → db'.git_intents ≡ i ∷ db.git_intents
      → db'.git_operation_events ≡ db.git_operation_events
      → IntentEffect db db'
  objects_promoted :
      (id : String) (pack : Option String)
      → db'.git_intents
        ≡ update_where
            (pending_with id)
            (λ i. record i { state = promoted; pack_name = pack })
            db.git_intents
      → db'.git_operation_events ≡ db.git_operation_events
      → IntentEffect db db'
  given_up :
      (id : String)
      → db'.git_intents
        ≡ update_where (incomplete_with id) (λ i. record i { state = abandoned }) db.git_intents
      → db'.git_operation_events ≡ db.git_operation_events
      → IntentEffect db db'
  recorded :
      (id : String) (payload : Bytes)
      → count_where (promoted_with id) db.git_intents ≡ 1
      → db'.git_intents
        ≡ update_where (promoted_with id) (λ i. record i { state = completed }) db.git_intents
      → db'.git_operation_events
        ≡ record { intent_id = id; payload = payload } ∷ db.git_operation_events
      → IntentEffect db db'

keeps : {db db' : Database} → Keeps db db' → IntentEffect db db'
keeps k = kept k.intents k.events

none_of : {A : Type 0} (o : Option A) → is_none o ≡ true → o ≡ none
none_of none h = refl
none_of (some a) h = cc

-- An effect goes on where the last part keeps the tables.
then-Keeps : {a b c : Database} → IntentEffect a b → Keeps b c → IntentEffect a c
then-Keeps (kept i e) k = kept (k.intents ∙ i) (k.events ∙ e)
then-Keeps (begun i f s t e) k = begun i f s (k.intents ∙ t) (k.events ∙ e)
then-Keeps (objects_promoted i p t e) k = objects_promoted i p (k.intents ∙ t) (k.events ∙ e)
then-Keeps (given_up i t e) k = given_up i (k.intents ∙ t) (k.events ∙ e)
then-Keeps (recorded i p o t e) k = recorded i p o (k.intents ∙ t) (k.events ∙ e)

-- The tables that the effect names are the same.
abbrev pub SameTables : Database → Database → Type 0
SameTables a b = (b.git_intents ≡ a.git_intents) × (b.git_operation_events ≡ a.git_operation_events)

begin_git_intent-effect :
    (i : GitOperationIntent) (db : Database) → Ensures (IntentEffect db) (begin_git_intent i db)
unfolding begin_git_intent
begin_git_intent-effect i db =
    Ensures-guard _ _ _ λ free. Ensures-ok _ (begun _ (none_of _ free) refl refl refl)

pub move_intent-tables :
    (id : String) (p : GitIntent → Bool) (f : GitIntent → GitIntent) (db : Database)
    → Ensures
        (λ db'.
          (count_where p db.git_intents ≡ 1)
          × (db'.git_intents ≡ update_where p f db.git_intents)
          × (db'.git_operation_events ≡ db.git_operation_events))
        (move_intent id p f db)
unfolding move_intent
move_intent-tables id p f db =
    Ensures-guard _ _ _
      λ one. Ensures-ok _ ((==_iff (count_where p db.git_intents) 1).0 one, refl, refl)

merge_pull_request-intents :
    (e : String) (m : MergeIntent) (p : PullRequest) (r : PullRequestRevision) (a : String)
    (t : Time) (db : Database)
    → Ensures (SameTables db) (merge_pull_request e m p r a t db)
unfolding merge_pull_request
merge_pull_request-intents e m p r a t db = Ensures-guard _ _ _ λ _. Ensures-guard _ _ _ λ _.
    Ensures-guard _ _ _ λ _. record {
      at = λ x ex. let k = (insert_domain_event-Keeps _ _ _).at x ex in (k.intents, k.events);
    }

pub complete_pull_request_merge-intents :
    (e i a : String) (t : Time) (db : Database)
    → Ensures (SameTables db) (complete_pull_request_merge e i a t db)
unfolding complete_pull_request_merge
complete_pull_request_merge-intents e i a t db =
    Ensures-on_row _ _ _ (λ _. Ensures-ok db (refl, refl))
      λ m _.
        Ensures-on_row _ _ _ (λ _. Ensures-ok db (refl, refl))
          λ p _.
            Ensures-on_row _ _ _ (λ _. Ensures-ok db (refl, refl))
              λ r _. merge_pull_request-intents e m p r a t db

pub insert_operation_event-tables :
    (id : String) (payload : Bytes) (db : Database)
    → Ensures
        (λ db'.
          (db'.git_intents ≡ db.git_intents)
          × (db'.git_operation_events
              ≡ record { intent_id = id; payload = payload } ∷ db.git_operation_events))
        (insert_operation_event id payload db)
unfolding insert_operation_event
insert_operation_event-tables id payload db = Ensures-guard _ _ _ λ _. Ensures-ok _ (refl, refl)

complete_git_intent-effect :
    (draw : ℕ → String) (e id : String) (db : Database)
    → Ensures (IntentEffect db) (complete_git_intent draw e id db)
unfolding complete_git_intent
complete_git_intent-effect draw e id db = Ensures-ok_or _ _ _ λ i _. Ensures-bind _ _ λ db₁ e₁.
    Ensures-bind _ _ λ db₂ e₂. Ensures-bind _ _ λ db₃ e₃. record {
      at = λ db₄ e₄.
          let (one, t₁, v₁) = (move_intent-tables id _ _ db).at db₁ e₁ in
          let (t₂, v₂) = (insert_operation_event-tables id _ db₁).at db₂ e₂ in
          let k = (insert_push_events-Keeps _ _ _ _ _ _ _ db₂).at db₃ e₃ in
          let s = (complete_pull_request_merge-intents _ _ _ _ db₃).at db₄ e₄ in
          recorded id i.event_payload one (s.0 ∙ k.intents ∙ t₂ ∙ t₁) (
            s.1
            ∙ k.events
            ∙ v₂
            ∙ ap (λ l. record { intent_id = id; payload = i.event_payload } ∷ l) v₁);
    }

begin_pull_request_merge-effect :
    (m : NewPullRequestMerge) (i : GitOperationIntent) (db : Database)
    → Ensures (IntentEffect db) (begin_pull_request_merge m i db)
unfolding begin_pull_request_merge insert_merge_intent
begin_pull_request_merge-effect m i db = Ensures-bind _ _ λ a _. Ensures-guard _ _ _ λ _.
    Ensures-guard _ _ _ λ _. Ensures-guard _ _ _ λ _. Ensures-ok_or _ _ _ λ p _.
      Ensures-ok_or _ _ _ λ r _. Ensures-guard _ _ _ λ _. Ensures-guard _ _ _ λ _.
        Ensures-bind _ _ λ x _. Ensures-bind _ _ λ y _. Ensures-guard _ _ _ λ _.
          Ensures-bind _ _ λ db₁ e₁. Ensures-guard _ _ _ λ _. Ensures-ok _ (
            then-Keeps ((begin_git_intent-effect i db).at db₁ e₁)
              (record { intents = refl; events = refl; pulls = refl }))

-- Opening or revising a pull request, when its intent is completed.
pull_change-intents :
    (i : PullRequestRefIntent) (db : Database)
    → Ensures (SameTables db) (
        if◌then◌else◌
          (is_opening i)
          (insert_pull_request (opened_pull i) db)
          (revise_pull_request i db))
unfolding insert_pull_request revise_pull_request
pull_change-intents i db =
    Ensures-if (is_opening i) _ _ (λ _. Ensures-guard _ _ _ λ _. Ensures-ok _ (refl, refl))
      (λ _. Ensures-guard _ _ _ λ _. Ensures-guard _ _ _ λ _. Ensures-ok _ (refl, refl))

-- What each call does to them.
pub exec-IntentEffect : (c : Call) (db : Database) → Ensures (IntentEffect db) (exec c db)
unfolding exec mark_git_objects_promoted abandon_git_intent begin_pull_request_open
    begin_pull_request_revision insert_pull_request_intent complete_pull_request_ref_intent
    insert_revision abandon_pull_request_ref_intent create_pull_request_review insert_review
    edit_pull_request set_pull_request_state
exec-IntentEffect (begin i) db = begin_git_intent-effect i db
exec-IntentEffect (begin_merge m i) db = begin_pull_request_merge-effect m i db
exec-IntentEffect (promote id pack) db = record {
  at = λ x e. let (_, t, v) = (move_intent-tables id _ _ db).at x e in objects_promoted id pack t v;
}
exec-IntentEffect (complete d e i) db = complete_git_intent-effect d e i db
exec-IntentEffect (abandon id) db = record {
  at = λ x e. let (_, t, v) = (move_intent-tables id _ _ _).at x e in given_up id t v;
}
exec-IntentEffect (open_pull n) db = database_of-Ensures (IntentEffect db) _ (
    Ensures-bind _ _ λ a _. Ensures-guard _ _ _ λ _. Ensures-guard _ _ _ λ _.
      Ensures-ok_or _ _ _ λ u _. Ensures-bind _ _ λ k _. Ensures-bind _ _ λ x e.
        Ensures-ok _
          ((Ensures-guard {P = IntentEffect db} _ _ _ λ _. Ensures-ok _ (kept refl refl)).at x e))
exec-IntentEffect (revise_pull k n) db = database_of-Ensures (IntentEffect db) _ (
    Ensures-bind _ _ λ a _. Ensures-guard _ _ _ λ _. Ensures-guard _ _ _ λ _.
      Ensures-ok_or _ _ _ λ u _. Ensures-ok_or _ _ _ λ p _. Ensures-guard _ _ _ λ _.
        Ensures-guard _ _ _ λ _. Ensures-guard _ _ _ λ _. Ensures-bind _ _ λ x e.
          Ensures-ok _
            ((Ensures-guard {P = IntentEffect db} _ _ _ λ _. Ensures-ok _ (kept refl refl)).at x e))
exec-IntentEffect (complete_pull r e i) db = Ensures-bind _ _ λ n _. Ensures-guard _ _ _ λ _.
    Ensures-bind _ _ λ db₁ e₁. Ensures-bind _ _ λ db₂ e₂. Ensures-bind _ _ λ db₃ e₃.
      let s = (pull_change-intents n db).at db₁ e₁ in
      let t = (Ensures-guard {P = SameTables db₁} _ _ _ λ _. Ensures-ok _ (refl, refl)).at db₂ e₂ in
      let k = (insert_domain_event-Keeps _ _ db₂).at db₃ e₃ in
      Ensures-ok _ (kept (k.intents ∙ t.0 ∙ s.0) (k.events ∙ t.1 ∙ s.1))
exec-IntentEffect (abandon_pull i) db = Ensures-guard _ _ _ λ _. Ensures-ok _ (kept refl refl)
exec-IntentEffect (review_pull e i n) db = database_of-Ensures (IntentEffect db) _ (
    Ensures-bind _ _ λ a _. Ensures-guard _ _ _ λ _. Ensures-ok_or _ _ _ λ u _.
      Ensures-ok_or _ _ _ λ p _. Ensures-guard _ _ _ λ _. Ensures-ok_or _ _ _ λ r _.
        Ensures-then _ _ λ _. Ensures-guard _ _ _ λ _. Ensures-bind _ _ λ db₁ e₁.
          Ensures-guard _ _ _ λ _. Ensures-bind _ _ λ k _. Ensures-bind _ _ λ db₂ e₂.
            let t =
              (Ensures-guard {P = SameTables db} _ _ _ λ _. Ensures-ok _ (refl, refl)).at db₁ e₁ in
            let k = (insert_pull_request_event-Keeps _ _ _ _ _ _ _).at db₂ e₂ in
            Ensures-ok _ (kept (k.intents ∙ t.0) (k.events ∙ t.1)))
exec-IntentEffect (edit_pull e n) db = Ensures-bind _ _ λ a _. Ensures-ok_or _ _ _ λ p _.
    Ensures-guard _ _ _ λ _. Ensures-guard _ _ _ λ _. Ensures-guard _ _ _ λ _. record {
      at = λ x ex. keeps_from ((insert_pull_request_event-Keeps _ _ _ _ _ _ _).at x ex);
    }
  where
    keeps_from :
        {x : Database} {ps : List PullRequest}
        → Keeps (record db { pull_requests = ps }) x
        → IntentEffect db x
    keeps_from k = kept k.intents k.events
exec-IntentEffect (set_pull_state e o r n a s t) db = Ensures-bind _ _ λ c _.
    Ensures-ok_or _ _ _ λ p _. Ensures-guard _ _ _ λ _. Ensures-guard _ _ _ λ _.
      Ensures-guard _ _ _ λ _. record {
        at = λ x ex. keeps_from ((insert_pull_request_event-Keeps _ _ _ _ _ _ _).at x ex);
      }
  where
    keeps_from :
        {x : Database} {ps : List PullRequest}
        → Keeps (record db { pull_requests = ps }) x
        → IntentEffect db x
    keeps_from k = kept k.intents k.events
