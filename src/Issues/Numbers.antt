-- ===== src/Issues/Numbers.antt =====
-- The numbers of issues: src/store/mod.rs, create_issue and the counters of repositories.
use tit.Prelude.{
  String, ℕ, ◌≡◌, ◌≤◌, ◌<◌, ◌+◌, refl, subst, true, Option, none, some, List, [], ◌∷◌, All, ◌==◌,
  ==_iff, str_eq, eq_iff, arith, Bool-cases, Option-cases, inl, inr,
}
use tit.Prelude.Tables.{
  find, count_where, update_where, find-update, count-update_same, All-map, All-update,
}
use tit.Store.Error.{
  Result, ok, err, Ensures, Ensures-ok, Ensures-err, Ensures-guard, Ensures-bind, Ensures-ok_or,
}
use tit.Store.Schema.{Database, Issue, RepositoryCounter, VersionedEvent, Time}
use tit.Identity.Reach.{after, after-Ensures}
use tit.Store.Events.{insert_issue_event, insert_domain_event}
use tit.Store.Issues.{
  numbered, with_id, counter_of, ensure_counter, take_number, insert_issue, create_issue, NewIssue,
  opened_issue, update_issue, edit_issue, comment_issue, set_issue_state,
}

-- The number that the next issue of the repository gets; 0 where it has no counter yet.
abbrev next_of : Option RepositoryCounter → ℕ
next_of none = 0
next_of (some c) = c.next_issue_number

abbrev next_number : String → List RepositoryCounter → ℕ
next_number r cs = next_of (find (counter_of r) cs)

ensure_counter_mono :
    (r s : String) (cs : List RepositoryCounter)
    → next_number s cs ≤ next_number s (ensure_counter r cs)
unfolding ensure_counter find
ensure_counter_mono r s cs = elim (Option-cases (find (counter_of r) cs)) [
  | inr (c, e) ↦ rw e (omega arith)
  | inl e ↦ rw e (elim (Bool-cases (str_eq r s)) [
    | inr other ↦ rw other (omega arith)
    | inl same ↦
        let gone = subst (λ x. find (counter_of x) cs ≡ none) ((eq_iff r s).0 same) e in
        rw gone (omega arith)
  ])
]

bump_mono :
    (r s : String) (cs : List RepositoryCounter)
    → next_number s cs
      ≤ next_number s (
          update_where
            (counter_of r)
            (λ c. record c { next_issue_number = c.next_issue_number + 1 })
            cs)
unfolding find update_where
bump_mono r s [] = omega arith
bump_mono r s (c ∷ cs) = ground (arith, bump_mono r s cs)

-- A number that no issue of the repository reaches is free.
free_number :
    (r : String) (n : ℕ) (is : List Issue)
    → All (λ i. str_eq i.repository_id r ≡ true → i.number < n) is
    → count_where (numbered r n) is ≡ 0
unfolding count_where
free_number r n [] h = refl
free_number r n (i ∷ is) (h, hs) = ground (arith, h, free_number r n is hs)

-- Every issue's number is below the next one of its repository, and no two have the same.
pub record IsNumbered (db : Database) : Type 0 where
  pub below : All (λ i. i.number < next_number i.repository_id db.repository_counters) db.issues
  pub unique : (r : String) (n : ℕ) → count_where (numbered r n) db.issues ≤ 1

-- The number that is taken is the old next one, and the next one is larger.
take_number-next :
    (r : String) (cs : List RepositoryCounter)
    → Ensures
        (λ t.
          (t.0 ≡ next_number r cs)
          × (t.0 < next_number r t.1)
          × ((s : String) → next_number s cs ≤ next_number s t.1))
        (take_number r cs)
unfolding take_number
take_number-next r cs = Ensures-ok_or _ _ _ λ c e. Ensures-ok _ (
  rw e refl,
  rw
      (find-update (counter_of r) (λ x. record x { next_issue_number = x.next_issue_number + 1 }) cs
        (λ x h. h) e)
      (omega arith),
  λ s. bump_mono r s cs,
)

insert_issue_event-tables :
    (e r i a : String) (t : Time) (v : VersionedEvent) (db : Database)
    → IsNumbered db
    → Ensures IsNumbered (insert_issue_event e r i a t v db)
unfolding insert_issue_event insert_domain_event
insert_issue_event-tables e r i a t v db inv =
    Ensures-guard _ _ _ λ _. Ensures-ok _ (record { below = inv.below; unique = inv.unique })

insert_issue-IsNumbered :
    (new : Issue) (cs : List RepositoryCounter) (db : Database)
    → IsNumbered db
    → ((s : String) → next_number s db.repository_counters ≤ next_number s cs)
    → next_number new.repository_id db.repository_counters ≤ new.number
    → new.number < next_number new.repository_id cs
    → Ensures IsNumbered (insert_issue new (record db { repository_counters = cs }))
unfolding insert_issue count_where
insert_issue-IsNumbered new cs db inv grows low high = Ensures-guard _ _ _ λ _.
    Ensures-ok _ (record {
      below =
          (high, All-map _ _ db.issues (λ i h. omega (arith, h, grows i.repository_id)) inv.below);
      unique = λ r n. elim (Bool-cases (numbered r n new)) [
        | inr e ↦ rw e (omega (arith, inv.unique r n))
        | inl e ↦ ground (arith, at_hit r n e)
      ];
    })
  where
    rows :
        All (λ i. str_eq i.repository_id new.repository_id ≡ true → i.number < new.number) db.issues
    rows =
        All-map _ _ db.issues
          (λ i h same.
            let at_new =
              subst (λ x. i.number < next_number x db.repository_counters)
                ((eq_iff i.repository_id new.repository_id).0 same) h in
            omega (arith, at_new, low))
          inv.below

    split :
        (r : String) (n : ℕ)
        → numbered r n new ≡ true
        → (str_eq new.repository_id r ≡ true) × ((new.number == n) ≡ true)
    split r n e = ground (arith, e)

    at_hit :
        (r : String) (n : ℕ) → numbered r n new ≡ true → count_where (numbered r n) db.issues ≡ 0
    at_hit r n e =
        let (a, b) = split r n e in
        subst (λ x. count_where (numbered x n) db.issues ≡ 0) ((eq_iff new.repository_id r).0 a)
          (subst (λ x. count_where (numbered new.repository_id x) db.issues ≡ 0)
            ((==_iff new.number n).0 b) (free_number new.repository_id new.number db.issues rows))

-- A change of a row that keeps the repository and the number.
update_issue-IsNumbered :
    (current : Issue) (change : Issue → Issue) (now : Time) (db : Database)
    → ((i : Issue) → (change i).repository_id ≡ i.repository_id)
    → ((i : Issue) → (change i).number ≡ i.number)
    → IsNumbered db
    → Ensures IsNumbered (update_issue current change now db)
unfolding update_issue
update_issue-IsNumbered current change now db same_r same_n inv = Ensures-guard _ _ _ λ _.
    Ensures-ok _ (record {
      below =
          All-update _ (with_id current.id) change db.issues (λ i _ h. rw (same_r i, same_n i) h)
            inv.below;
      unique = λ r n.
          rw
            (count-update_same (numbered r n) (with_id current.id) change db.issues
              (λ i _. rw (same_r i, same_n i) refl))
            (inv.unique r n);
    })

pub data Call : Type 0 where
  create : String → String → NewIssue → Call
  edit : String → String → String → ℕ → String → Time → String → String → Call
  comment : String → String → String → String → ℕ → String → String → Time → Call
  set_state : String → String → String → ℕ → String → String → Time → Call

abbrev database_of {ℓ} : {A : Type ℓ} → Result (A × Database) → Result Database
database_of (ok r) = ok r.1
database_of (err e) = err e

unfoldable pub exec : Call → Database → Result Database
exec (create e i n) db = database_of (create_issue e i n db)
exec (edit e o s n a t x b) db = edit_issue e o s n a t x b db
exec (comment e c o s n a b t) db = database_of (comment_issue e c o s n a b t db)
exec (set_state e o s n a x t) db = set_issue_state e o s n a x t db

unfoldable pub run : Database → List Call → Database
run db [] = db
run db (c ∷ cs) = run (after db (exec c db)) cs

database_of-Ensures :
    {A : Type 0} (P : Database → Type 0) (m : Result (A × Database))
    → Ensures (λ r. P r.1) m
    → Ensures P (database_of m)
database_of-Ensures P (ok r) h = Ensures-ok r.1 (h.at r refl)
database_of-Ensures P (err e) h = Ensures-err e

create_issue-IsNumbered :
    (e i : String) (n : NewIssue) (db : Database)
    → IsNumbered db
    → Ensures (λ r. IsNumbered r.1) (create_issue e i n db)
unfolding create_issue
create_issue-IsNumbered e i n db inv = Ensures-bind _ _ λ access _. Ensures-guard _ _ _ λ _.
    Ensures-ok_or _ _ _ λ actor _. Ensures-bind _ _ λ t e₁. Ensures-bind _ _ λ db₂ e₂.
      Ensures-bind _ _ λ db₃ e₃.
        let rid = access.repository.id in
        let (is, next, mono) =
          (take_number-next rid (ensure_counter rid db.repository_counters)).at t e₁ in
        let first = λ (s : String). ensure_counter_mono rid s db.repository_counters in
        let inserted =
          insert_issue-IsNumbered (opened_issue i rid t.0 actor n) t.1 db inv
            (λ s. omega (arith, first s, mono s)) (omega (arith, first rid, is)) next in
        Ensures-ok _ ((insert_issue_event-tables _ _ _ _ _ _ db₂ (inserted.at db₂ e₂)).at db₃ e₃)

exec-IsNumbered : (c : Call) (db : Database) → IsNumbered db → Ensures IsNumbered (exec c db)
unfolding exec edit_issue comment_issue set_issue_state
exec-IsNumbered (create e i n) db inv =
    database_of-Ensures IsNumbered _ (create_issue-IsNumbered e i n db inv)
exec-IsNumbered (edit e o s n a t x b) db inv = Ensures-bind _ _ λ c _. Ensures-guard _ _ _ λ _.
    Ensures-bind _ _ λ db₂ e₂.
      insert_issue_event-tables _ _ _ _ _ _ db₂
        ((update_issue-IsNumbered c.1 _ t db (λ i. refl) (λ i. refl) inv).at db₂ e₂)
exec-IsNumbered (comment e c o s n a b t) db inv = database_of-Ensures IsNumbered _ (
    Ensures-bind _ _ λ x _. Ensures-ok_or _ _ _ λ id _. Ensures-guard _ _ _ λ _.
      Ensures-guard _ _ _ λ _. Ensures-bind _ _ λ db₂ e₂. Ensures-bind _ _ λ db₃ e₃. Ensures-ok _ (
        (insert_issue_event-tables _ _ _ _ _ _ db₂ (
            (update_issue-IsNumbered x.1 _ t _ (λ i. refl) (λ i. refl)
                (record { below = inv.below; unique = inv.unique })).at
              db₂ e₂)).at
          db₃ e₃))
exec-IsNumbered (set_state e o s n a x t) db inv = Ensures-bind _ _ λ c _. Ensures-guard _ _ _ λ _.
    Ensures-guard _ _ _ λ _. Ensures-bind _ _ λ change _. Ensures-bind _ _ λ db₂ e₂.
      insert_issue_event-tables _ _ _ _ _ _ db₂
        ((update_issue-IsNumbered c.1 _ t db (λ i. refl) (λ i. refl) inv).at db₂ e₂)

-- Where no two issues of a repository have the same number, and each number is below the next one of
-- its repository, this holds after any sequence of calls that create issues, edit them, comment on
-- them, close and reopen them, failed ones included.
pub run-IsNumbered : (db : Database) (calls : List Call) → IsNumbered db → IsNumbered (run db calls)
unfolding run
run-IsNumbered db [] inv = inv
run-IsNumbered db (c ∷ cs) inv =
    run-IsNumbered (after db (exec c db)) cs
      (after-Ensures IsNumbered db (exec c db) inv (exec-IsNumbered c db inv))
