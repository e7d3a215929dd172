-- ===== src/Git/Openings.antt =====
-- The numbers of pull requests: src/store/mod.rs, begin_pull_request_open and the counters.
pub mod Runs
use tit.Prelude.{
  String, ℕ, ◌≡◌, ◌≤◌, ◌<◌, ◌+◌, ◌∙◌, refl, ap, subst, Bool, true, false, ◌&&◌, Option, none, some,
  List, [], ◌∷◌, All, ◌==◌, ==_iff, str_eq, eq_iff, arith, Bool-cases, Option-cases, inl, inr,
}
use tit.Prelude.Tables.{
  find, count_where, update_where, find-update, count-update_same, All-map, All-update,
}
use tit.Store.Error.{
  Result, Ensures, Ensures-ok, Ensures-if, Ensures-guard, Ensures-bind, Ensures-ok_or, Ensures-then,
}
use tit.Store.Schema.{
  Database, RepositoryCounter, PullRequest, PullRequestRevision, PullRequestRefIntent,
}
use tit.Store.Events.{NewDomainEvent, insert_domain_event}
use tit.Store.Issues.{counter_of, ensure_counter}
use tit.Store.PullRequests.{
  NewPullRequestRefIntent, take_pull_number, from_new, insert_pull_request_intent,
  begin_pull_request_open, begin_pull_request_revision, insert_pull_request, revise_pull_request,
  insert_revision, complete_pull_request_ref_intent, abandon_pull_request_ref_intent, is_opening,
  pending_ref_intent, finish,
}
use tit.Identity.Reach.{after, after-Ensures}
use tit.Git.Calls.{database_of, database_of-Ensures}
use tit.Git.Frame.{insert_domain_event-OnlyLogs}

-- The number that the next pull request of the repository gets; 0 where it has no counter yet.
abbrev next_of : Option RepositoryCounter → ℕ
next_of none = 0
next_of (some c) = c.next_pull_request_number

abbrev pub next_pull : String → List RepositoryCounter → ℕ
next_pull r cs = next_of (find (counter_of r) cs)

abbrev pub opens_as : String → ℕ → PullRequestRefIntent → Bool
opens_as r n i = is_opening i && str_eq i.repository_id r && i.pull_request_number == n

-- The number of an intent to open a pull request is below the next one of the repository.
abbrev pub IsBelow : List RepositoryCounter → PullRequestRefIntent → Type 0
IsBelow cs i = is_opening i ≡ true → i.pull_request_number < next_pull i.repository_id cs

pub record IsCounted (db : Database) : Type 0 where
  pub below : All (IsBelow db.repository_counters) db.pull_request_ref_intents
  pub unique : (r : String) (n : ℕ) → count_where (opens_as r n) db.pull_request_ref_intents ≤ 1

pub ensure_counter_grows :
    (r s : String) (cs : List RepositoryCounter)
    → next_pull s cs ≤ next_pull s (ensure_counter r cs)
unfolding ensure_counter find
ensure_counter_grows r s cs = elim (Option-cases (find (counter_of r) cs)) [
  | inr (c, e) ↦ rw e (omega arith)
  | inl e ↦ rw e (elim (Bool-cases (str_eq r s)) [
    | inr other ↦ rw other (omega arith)
    | inl same ↦
        let gone = subst (λ x. find (counter_of x) cs ≡ none) ((eq_iff r s).0 same) e in
        rw gone (omega arith)
  ])
]

bump_grows :
    (r s : String) (cs : List RepositoryCounter)
    → next_pull s cs
      ≤ next_pull s (
          update_where
            (counter_of r)
            (λ c. record c { next_pull_request_number = c.next_pull_request_number + 1 })
            cs)
unfolding find update_where
bump_grows r s [] = omega arith
bump_grows r s (c ∷ cs) = ground (arith, bump_grows r s cs)

pub take_pull_number-next :
    (r : String) (cs : List RepositoryCounter)
    → Ensures
        (λ t.
          (t.0 ≡ next_pull r cs)
          × (t.0 < next_pull r t.1)
          × ((s : String) → next_pull s cs ≤ next_pull s t.1))
        (take_pull_number r cs)
unfolding take_pull_number
take_pull_number-next r cs = Ensures-ok_or _ _ _ λ c e. Ensures-ok _ (
  rw e refl,
  rw
      (find-update (counter_of r)
        (λ x. record x { next_pull_request_number = x.next_pull_request_number + 1 }) cs (λ x h. h)
        e)
      (omega arith),
  λ s. bump_grows r s cs,
)

-- A number that no opening of the repository reaches is free.
free_number :
    (r : String) (n : ℕ) (is : List PullRequestRefIntent)
    → All
        (λ i. is_opening i ≡ true → str_eq i.repository_id r ≡ true → i.pull_request_number < n)
        is
    → count_where (opens_as r n) is ≡ 0
unfolding count_where
free_number r n [] h = refl
free_number r n (i ∷ is) (h, hs) = ground (arith, h, free_number r n is hs)

-- A new intent, and counters that have moved on past its number if it opens a pull request.
pub insert-IsCounted :
    (new : PullRequestRefIntent) (cs : List RepositoryCounter) (db : Database)
    → IsCounted db
    → ((s : String) → next_pull s db.repository_counters ≤ next_pull s cs)
    → (is_opening new ≡ true
        → next_pull new.repository_id db.repository_counters ≤ new.pull_request_number)
    → IsBelow cs new
    → Ensures IsCounted (insert_pull_request_intent new (record db { repository_counters = cs }))
unfolding insert_pull_request_intent count_where
insert-IsCounted new cs db inv grows low high = Ensures-guard _ _ _ λ _. Ensures-ok _ (record {
  below = (
    high,
    All-map _ _ db.pull_request_ref_intents
        (λ i h o. let at = h o in omega (arith, at, grows i.repository_id)) inv.below,
  );
  unique = λ r n. elim (Bool-cases (opens_as r n new)) [
    | inr e ↦ rw e (omega (arith, inv.unique r n))
    | inl e ↦ rw e (omega (arith, at_hit r n e))
  ];
})
  where
    rows :
        is_opening new ≡ true
        → All
            (λ i.
              is_opening i ≡ true
              → str_eq i.repository_id new.repository_id ≡ true
              → i.pull_request_number < new.pull_request_number)
            db.pull_request_ref_intents
    rows opens =
        All-map _ _ db.pull_request_ref_intents
          (λ i h o same.
            let at_new =
              subst (λ x. i.pull_request_number < next_pull x db.repository_counters)
                ((eq_iff i.repository_id new.repository_id).0 same) (h o) in
            let low_ = low opens in omega (arith, at_new, low_))
          inv.below

    split :
        (r : String) (n : ℕ)
        → opens_as r n new ≡ true
        → (is_opening new ≡ true)
          × (str_eq new.repository_id r ≡ true)
          × ((new.pull_request_number == n) ≡ true)
    split r n e = ground (arith, e)

    at_hit :
        (r : String) (n : ℕ)
        → opens_as r n new ≡ true
        → count_where (opens_as r n) db.pull_request_ref_intents ≡ 0
    at_hit r n e =
        let (o, a, b) = split r n e in
        subst (λ x. count_where (opens_as x n) db.pull_request_ref_intents ≡ 0)
          ((eq_iff new.repository_id r).0 a)
          (subst (λ x. count_where (opens_as new.repository_id x) db.pull_request_ref_intents ≡ 0)
            ((==_iff new.pull_request_number n).0 b)
            (free_number new.repository_id new.pull_request_number db.pull_request_ref_intents
              (rows o)))
