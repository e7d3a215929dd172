-- ===== src/Issues/States.antt =====
-- Closing and reopening an issue: src/store/mod.rs, set_issue_state.
use tit.Prelude.{
  String, ℕ, ◌≡◌, refl, Bool, true, false, not, Option, none, some, ◌⊎◌, inl, inr, str_eq, eq_iff,
  eq_refl, arith,
}
use tit.Prelude.Tables.{find, find-update, find-found}
use tit.Store.Error.{
  ok, Ensures, Ensures-ok, Ensures-err, Ensures-if, Ensures-guard, Ensures-bind, Ensures-ok_or,
}
use tit.Store.Schema.{Database, Issue, VersionedEvent, Time}
use tit.Store.Repositories.{RepositoryRecord}
use tit.Store.Access.{RepositoryIssueAccess, can_write_issue}
use tit.Store.Events.{insert_issue_event, insert_domain_event}
use tit.Store.Issues.{
  numbered, issue_mutation_context, find_issue, with_id, update_issue, state_change,
  set_issue_state,
}

-- The state, and the time of closing that goes with it.
abbrev pub IsState : String → Time → Option Time → Type 0
IsState state now closed_at =
    ((state ≡ "closed") × (closed_at ≡ some now)) ⊎ ((state ≡ "open") × (closed_at ≡ none))

-- The row of the issue has the state.
abbrev pub InState : String → String → Time → Database → Type 0
InState id state now db =
    (i : Issue) × (find (with_id id) db.issues ≡ some i)
    × (i.state ≡ state)
    × IsState state now i.closed_at

state_change-IsState :
    (state : String) (now : Time) → Ensures (λ r. IsState state now r.0) (state_change state now)
unfolding state_change
state_change-IsState state now =
    Ensures-if (str_eq state "closed") _ _
      (λ e. Ensures-ok _ (inl ((eq_iff state "closed").0 e, refl)))
      (λ _.
        Ensures-if (str_eq state "open") _ _
          (λ e. Ensures-ok _ (inr ((eq_iff state "open").0 e, refl))) (λ _. Ensures-err _))

-- The issue that is found is a row of the table.
find_issue-found :
    (db : Database) (r : RepositoryRecord) (owner_slug slug : String) (number : ℕ)
    → Ensures
        (λ i. (b : Issue) × (find (with_id i.id) db.issues ≡ some b))
        (find_issue db r owner_slug slug number)
unfolding find_issue
find_issue-found db r owner_slug slug number = Ensures-ok_or _ _ _ λ i e.
    Ensures-ok i (find-found (numbered r.id number) (with_id i.id) db.issues e (eq_refl i.id))

issue_mutation_context-found :
    (db : Database) (owner_slug slug : String) (number : ℕ) (actor : String)
    → Ensures
        (λ c. (b : Issue) × (find (with_id c.1.id) db.issues ≡ some b))
        (issue_mutation_context db owner_slug slug number actor)
unfolding issue_mutation_context
issue_mutation_context-found db owner_slug slug number actor = Ensures-bind _ _ λ access _.
    Ensures-guard _ _ _ λ _. Ensures-guard _ _ _ λ _.
      Ensures-bind _ _
        λ i e. Ensures-ok _ ((find_issue-found db access.repository owner_slug slug number).at i e)

insert_issue_event-issues :
    (e r i a : String) (t : Time) (v : VersionedEvent) (db : Database)
    → Ensures (λ x. x.issues ≡ db.issues) (insert_issue_event e r i a t v db)
unfolding insert_issue_event insert_domain_event
insert_issue_event-issues e r i a t v db = Ensures-guard _ _ _ λ _. Ensures-ok _ refl

-- The UPDATE of the state.
update_issue-InState :
    (current : Issue) (state : String) (now : Time) (closed_at : Option Time) (db : Database)
    → (b : Issue) × (find (with_id current.id) db.issues ≡ some b)
    → IsState state now closed_at
    → Ensures (InState current.id state now) (
        update_issue current
          (λ i. record i { state = state; updated_at = now; closed_at = closed_at })
          now
          db)
unfolding update_issue
update_issue-InState current state now closed_at db (b, found) is = Ensures-guard _ _ _ λ _.
    Ensures-ok _ (
      record b { state = state; updated_at = now; closed_at = closed_at },
      find-update (with_id current.id)
          (λ i. record i { state = state; updated_at = now; closed_at = closed_at }) db.issues
          (λ i h. h) found,
      refl,
      is,
    )

-- A change of an issue's state that succeeds is made where the access and the issue are found, by
-- its author or by one who may write to the repository; the issue had another state before, and has
-- the new one after, closed at the time of the change or open with no such time.
pub set_issue_state-changes :
    (event_id owner_slug slug : String) (number : ℕ) (actor state : String) (now : Time)
    (db db' : Database)
    → set_issue_state event_id owner_slug slug number actor state now db ≡ ok db'
    → (access : RepositoryIssueAccess) × (issue : Issue) × (issue_mutation_context db owner_slug
          slug number actor
        ≡ ok (access, issue))
      × (can_write_issue access issue.author_account_id ≡ true)
      × (str_eq issue.state state ≡ false)
      × InState issue.id state now db'
set_issue_state-changes event_id owner_slug slug number actor state now db db' e = all.at db' e
  where
    not_false : (b : Bool) → not b ≡ true → b ≡ false
    not_false b h = ground (arith, h)

    all :
        Ensures
          (λ x.
            (access : RepositoryIssueAccess) × (issue : Issue) × (issue_mutation_context db
                owner_slug slug number actor
              ≡ ok (access, issue))
            × (can_write_issue access issue.author_account_id ≡ true)
            × (str_eq issue.state state ≡ false)
            × InState issue.id state now x)
          (set_issue_state event_id owner_slug slug number actor state now db)
    all =
        unfold set_issue_state in
        Ensures-bind _ _ λ c e. Ensures-guard _ _ _ λ may. Ensures-guard _ _ _ λ other.
          Ensures-bind _ _ λ change e₂. Ensures-bind _ _ λ db₂ e₃. record {
            at = λ x e₄.
                let there = (issue_mutation_context-found db owner_slug slug number actor).at c e in
                let is = (state_change-IsState state now).at change e₂ in
                let (i, found, same, closed) =
                  (update_issue-InState c.1 state now change.0 db there is).at db₂ e₃ in
                let kept = (insert_issue_event-issues _ _ _ _ _ _ db₂).at x e₄ in
                (c.0, c.1, e, may, not_false _ other, (i, rw kept found, same, closed));
          }
