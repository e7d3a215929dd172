-- ===== src/Git/Openings/Runs.antt =====
-- The numbers of pull requests through the calls that begin, complete and abandon intents on them.
use tit.Prelude.{String, ℕ, ◌≡◌, ◌∙◌, refl, ap, none, List, [], ◌∷◌, arith}
use tit.Prelude.Tables.{count-update_same, All-update}
use tit.Store.Error.{
  Result, Ensures, Ensures-ok, Ensures-if, Ensures-guard, Ensures-bind, Ensures-ok_or,
}
use tit.Store.Schema.{Database, PullRequest, PullRequestRevision, PullRequestRefIntent}
use tit.Store.Events.{NewDomainEvent, insert_domain_event}
use tit.Store.Issues.{ensure_counter}
use tit.Store.PullRequests.{
  NewPullRequestRefIntent, from_new, begin_pull_request_open, begin_pull_request_revision,
  insert_pull_request, revise_pull_request, insert_revision, complete_pull_request_ref_intent,
  abandon_pull_request_ref_intent, is_opening, pending_ref_intent, finish,
}
use tit.Identity.Reach.{after, after-Ensures}
use tit.Git.Calls.{database_of, database_of-Ensures}
use tit.Git.Frame.{insert_domain_event-OnlyLogs}
use tit.Git.Openings.{
  opens_as, IsCounted, ensure_counter_grows, take_pull_number-next, insert-IsCounted,
}

-- The intents and the counters are the same.
record Same (db db' : Database) : Type 0 where
  counters : db'.repository_counters ≡ db.repository_counters
  intents : db'.pull_request_ref_intents ≡ db.pull_request_ref_intents

Same-trans : {a b c : Database} → Same a b → Same b c → Same a c
Same-trans f g = record { counters = g.counters ∙ f.counters; intents = g.intents ∙ f.intents }

insert_pull_request-Same :
    (p : PullRequest) (db : Database) → Ensures (Same db) (insert_pull_request p db)
unfolding insert_pull_request
insert_pull_request-Same p db =
    Ensures-guard _ _ _ λ _. Ensures-ok _ (record { counters = refl; intents = refl })

revise_pull_request-Same :
    (i : PullRequestRefIntent) (db : Database) → Ensures (Same db) (revise_pull_request i db)
unfolding revise_pull_request
revise_pull_request-Same i db =
    Ensures-guard _ _ _
      λ _. Ensures-guard _ _ _ λ _. Ensures-ok _ (record { counters = refl; intents = refl })

insert_revision-Same :
    (r : PullRequestRevision) (db : Database) → Ensures (Same db) (insert_revision r db)
unfolding insert_revision
insert_revision-Same r db =
    Ensures-guard _ _ _ λ _. Ensures-ok _ (record { counters = refl; intents = refl })

insert_domain_event-Same :
    (e : String) (n : NewDomainEvent) (db : Database)
    → Ensures (Same db) (insert_domain_event e n db)
insert_domain_event-Same e n db = record {
  at = λ db' ran.
      let logs = (insert_domain_event-OnlyLogs e n db).at db' ran in
      record {
        counters = ap {A = Database} (λ x. x.repository_counters) logs.same;
        intents = ap {A = Database} (λ x. x.pull_request_ref_intents) logs.same;
      };
}

-- An intent that is completed or abandoned keeps what it opens.
finish-IsCounted :
    (id s : String) {db db' : Database} → IsCounted db → Same db db' → IsCounted (finish id s db')
finish-IsCounted id s {db} {db'} inv same = record {
  below =
      All-update _ (pending_ref_intent id) (λ i. record i { state = s })
        db'.pull_request_ref_intents (λ i _ h. h) (rw (same.counters, same.intents) inv.below);
  unique = λ r n.
      rw
        (
          count-update_same (opens_as r n) (pending_ref_intent id) (λ i. record i { state = s })
              db'.pull_request_ref_intents (λ i _. refl),
          same.intents,
        )
        (inv.unique r n);
}

complete_pull_request_ref_intent-IsCounted :
    (r e id : String) (db : Database)
    → IsCounted db
    → Ensures IsCounted (complete_pull_request_ref_intent r e id db)
unfolding complete_pull_request_ref_intent
complete_pull_request_ref_intent-IsCounted r e id db inv = Ensures-bind _ _ λ i _.
    Ensures-guard _ _ _ λ _. Ensures-bind _ _ λ db₁ e₁. Ensures-bind _ _ λ db₂ e₂.
      Ensures-bind _ _ λ db₃ e₃.
        let same₁ =
          (Ensures-if (is_opening i) _ _ (λ _. insert_pull_request-Same _ db)
              (λ _. revise_pull_request-Same i db)).at
            db₁ e₁ in
        let same₂ = (insert_revision-Same _ db₁).at db₂ e₂ in
        let same₃ = (insert_domain_event-Same _ _ db₂).at db₃ e₃ in
        Ensures-ok _
          (finish-IsCounted id "completed" inv (Same-trans same₁ (Same-trans same₂ same₃)))

begin_pull_request_open-IsCounted :
    (n : NewPullRequestRefIntent) (db : Database)
    → IsCounted db
    → Ensures (λ r. IsCounted r.1) (begin_pull_request_open n db)
unfolding begin_pull_request_open
begin_pull_request_open-IsCounted n db inv = Ensures-bind _ _ λ access _. Ensures-guard _ _ _ λ _.
    Ensures-guard _ _ _ λ _. Ensures-ok_or _ _ _ λ actor _. Ensures-bind _ _ λ t e₁.
      Ensures-bind _ _ λ db₂ e₂.
        let rid = access.repository.id in
        let (is, next, mono) =
          (take_pull_number-next rid (ensure_counter rid db.repository_counters)).at t e₁ in
        let first = λ (s : String). ensure_counter_grows rid s db.repository_counters in
        let inserted =
          insert-IsCounted (from_new n rid actor t.0 1 none "open") t.1 db inv
            (λ s. omega (arith, first s, mono s)) (λ _. omega (arith, first rid, is)) (λ _. next) in
        Ensures-ok _ (inserted.at db₂ e₂)

begin_pull_request_revision-IsCounted :
    (k : ℕ) (n : NewPullRequestRefIntent) (db : Database)
    → IsCounted db
    → Ensures (λ r. IsCounted r.1) (begin_pull_request_revision k n db)
unfolding begin_pull_request_revision
begin_pull_request_revision-IsCounted k n db inv = Ensures-bind _ _ λ access _.
    Ensures-guard _ _ _ λ _. Ensures-guard _ _ _ λ _. Ensures-ok_or _ _ _ λ actor _.
      Ensures-ok_or _ _ _ λ p _. Ensures-guard _ _ _ λ _. Ensures-guard _ _ _ λ _.
        Ensures-guard _ _ _ λ _. Ensures-bind _ _ λ db₂ e₂. Ensures-ok _ (
          (insert-IsCounted _ db.repository_counters db inv (λ s. omega arith) (λ opens. absurd cc)
              (λ opens. absurd cc)).at
            db₂ e₂)

pub data Call : Type 0 where
  open_pull : NewPullRequestRefIntent → Call
  revise_pull : ℕ → NewPullRequestRefIntent → Call
  complete_pull : String → String → String → Call
  abandon_pull : String → Call

unfoldable pub exec : Call → Database → Result Database
exec (open_pull n) db = database_of (begin_pull_request_open n db)
exec (revise_pull k n) db = database_of (begin_pull_request_revision k n db)
exec (complete_pull r e i) db = complete_pull_request_ref_intent r e i db
exec (abandon_pull i) db = abandon_pull_request_ref_intent i db

unfoldable pub run : Database → List Call → Database
run db [] = db
run db (c ∷ cs) = run (after db (exec c db)) cs

exec-IsCounted : (c : Call) (db : Database) → IsCounted db → Ensures IsCounted (exec c db)
unfolding exec abandon_pull_request_ref_intent
exec-IsCounted (open_pull n) db inv =
    database_of-Ensures IsCounted _ (begin_pull_request_open-IsCounted n db inv)
exec-IsCounted (revise_pull k n) db inv =
    database_of-Ensures IsCounted _ (begin_pull_request_revision-IsCounted k n db inv)
exec-IsCounted (complete_pull r e i) db inv =
    complete_pull_request_ref_intent-IsCounted r e i db inv
exec-IsCounted (abandon_pull i) db inv = Ensures-guard _ _ _ λ _.
    Ensures-ok _ (finish-IsCounted i "abandoned" inv (record { counters = refl; intents = refl }))

-- Where no two intents to open a pull request of one repository have the same number, and each such
-- number is below the next one of its repository, this holds after any sequence of the calls that
-- begin to open and to revise pull requests, and that complete and abandon this, failed ones included.
pub run-IsCounted : (db : Database) (calls : List Call) → IsCounted db → IsCounted (run db calls)
unfolding run
run-IsCounted db [] inv = inv
run-IsCounted db (c ∷ cs) inv =
    run-IsCounted (after db (exec c db)) cs
      (after-Ensures IsCounted db (exec c db) inv (exec-IsCounted c db inv))
