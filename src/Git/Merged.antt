-- ===== src/Git/Merged.antt =====
-- Pull requests through the calls: they stay apart, and a merged one stays as it is.
use tit.Prelude.{
  String, ℕ, ◌≤◌, ◌≡◌, refl, sym, subst, ap, Bool, true, false, none, some, List, [], ◌∷◌, str_eq,
  eq_iff, eq_refl, Bool-cases, inl, inr, arith, if_false,
}
use tit.Prelude.Tables.{
  find, count_where, update_where, count-update_same, count-of-find-none, find-none_mono,
}
use tit.Prelude.Rows.{find-update_if, find_only}
use tit.Store.Error.{Result, ok, err, Ensures}
use tit.Store.Schema.{Database, PullRequest}
use tit.Store.Merges.{pull_with, pull_numbered, is_open}
use tit.Store.PullRequests.{pull_collides, is_merged}
use tit.Identity.Reach.{after, after-Ensures}
use tit.Git.Calls.{Call, exec, run}
use tit.Git.PullEffects.{
  PullEffect, kept, added, open_changed, one_changed, SameName, exec-PullEffect,
}

-- No two pull requests have one id, and no two of a repository have one number.
pub record IsApart (db : Database) : Type 0 where
  pub ids : (id : String) → count_where (pull_with id) db.pull_requests ≤ 1
  pub numbers : (r : String) (n : ℕ) → count_where (pull_numbered r n) db.pull_requests ≤ 1

same-ids :
    (p : PullRequest → Bool) (f : PullRequest → PullRequest) (ps : List PullRequest)
    → ((q : PullRequest) → SameName q (f q))
    → (id : String)
    → count_where (pull_with id) (update_where p f ps) ≡ count_where (pull_with id) ps
same-ids p f ps same id = count-update_same (pull_with id) p f ps λ q _. rw ((same q).0) refl

same-numbers :
    (p : PullRequest → Bool) (f : PullRequest → PullRequest) (ps : List PullRequest)
    → ((q : PullRequest) → SameName q (f q))
    → (r : String) (n : ℕ)
    → count_where (pull_numbered r n) (update_where p f ps) ≡ count_where (pull_numbered r n) ps
same-numbers p f ps same r n =
    count-update_same (pull_numbered r n) p f ps λ q _. rw ((same q).1, (same q).2) refl

-- A new row that collides with none.
add-count :
    (u : PullRequest → Bool) (new : PullRequest) (ps : List PullRequest)
    → (u new ≡ true → (q : PullRequest) → u q ≡ true → pull_collides new q ≡ true)
    → find (pull_collides new) ps ≡ none
    → count_where u ps ≤ 1
    → count_where u (new ∷ ps) ≤ 1
unfolding count_where
add-count u new ps hits free one = elim (Bool-cases (u new)) [
  | inr e ↦ rw e (omega (arith, one))
  | inl e ↦ rw e (
      omega
        (arith, count-of-find-none u ps (find-none_mono u (pull_collides new) ps (hits e) free)))
]

effect-IsApart : (db db' : Database) → IsApart db → PullEffect db db' → IsApart db'
effect-IsApart db db' inv (kept e) = record {
  ids = λ id. rw e (inv.ids id);
  numbers = λ r n. rw e (inv.numbers r n);
}
effect-IsApart db db' inv (added p free e) = record {
  ids = λ id. rw e (
      add-count (pull_with id) p db.pull_requests
        (λ h q k. ground (arith, eq_iff p.id id, eq_iff q.id id, eq_iff q.id p.id)) free
        (inv.ids id));
  numbers = λ r n. rw e (
      add-count (pull_numbered r n) p db.pull_requests
        (λ h q k. ground (
          arith,
          eq_iff p.repository_id r,
          eq_iff q.repository_id r,
          eq_iff q.repository_id p.repository_id,
        ))
        free (inv.numbers r n));
}
effect-IsApart db db' inv (open_changed t f o same e) = record {
  ids = λ id. rw (e, same-ids t f db.pull_requests same id) (inv.ids id);
  numbers = λ r n. rw (e, same-numbers t f db.pull_requests same r n) (inv.numbers r n);
}
effect-IsApart db db' inv (one_changed s c f w m same e) = record {
  ids = λ id. rw (e, same-ids (pull_with c.id) f db.pull_requests same id) (inv.ids id);
  numbers =
      λ r n. rw (e, same-numbers (pull_with c.id) f db.pull_requests same r n) (inv.numbers r n);
}

after-IsApart : (c : Call) (db : Database) → IsApart db → IsApart (after db (exec c db))
after-IsApart c db inv =
    after-Ensures IsApart db (exec c db) inv
      (record { at = λ x e. effect-IsApart db x inv ((exec-PullEffect c db).at x e) })

-- Where no two pull requests have one id, and no two of a repository one number, this holds after
-- every sequence of the calls on Git intents and pull requests, failed ones included.
pub run-IsApart : (calls : List Call) (db : Database) → IsApart db → IsApart (run db calls)
unfolding run
run-IsApart [] db inv = inv
run-IsApart (c ∷ cs) db inv = run-IsApart cs (after db (exec c db)) (after-IsApart c db inv)

-- An update that is not of the row that was found leaves it.
update-other :
    (q p : PullRequest → Bool) (f : PullRequest → PullRequest) (ps : List PullRequest)
    {a : PullRequest}
    → ((r : PullRequest) → q (f r) ≡ q r)
    → p a ≡ false
    → find q ps ≡ some a
    → find q (update_where p f ps) ≡ some a
update-other q p f ps {a} keeps miss found =
    subst (λ x. find q (update_where p f ps) ≡ some x) (if_false (f a) a miss)
      (find-update_if q p f ps keeps found)

merged-not-open : (p : PullRequest) → is_merged p ≡ true → is_open p ≡ false
merged-not-open p h =
    subst (λ s. str_eq s "open" ≡ false) (sym ((eq_iff p.state "merged").0 h)) refl

effect-frozen :
    (db db' : Database) (id : String) (p : PullRequest)
    → IsApart db
    → is_merged p ≡ true
    → find (pull_with id) db.pull_requests ≡ some p
    → PullEffect db db'
    → find (pull_with id) db'.pull_requests ≡ some p
unfolding find
effect-frozen db db' id p inv merged found (kept e) = rw e found
effect-frozen db db' id p inv merged found (added new free e) =
    elim (Bool-cases (str_eq new.id id)) [
      | inr other ↦ rw (e, other) found
      | inl same ↦ absurd (
          cc (
            found,
            find-none_mono (pull_with id) (pull_collides new) db.pull_requests
                (λ q k. ground (arith, eq_iff new.id id, eq_iff q.id id, eq_iff q.id new.id)) free,
          ))
    ]
effect-frozen db db' id p inv merged found (open_changed t f o same e) = elim (Bool-cases (t p)) [
  | inl hit ↦ absurd (cc (o p hit, merged-not-open p merged))
  | inr miss ↦ rw e (
      update-other (pull_with id) t f db.pull_requests (λ r. ap (λ x. str_eq x id) (same r).0) miss
        found)
]
effect-frozen db db' id p inv merged found (one_changed s c f w m same e) =
    elim (Bool-cases (pull_with c.id p)) [
      | inl hit ↦ absurd (
          cc (
            m,
            merged,
            find_only s (pull_with c.id) db.pull_requests (inv.ids c.id) w (eq_refl c.id),
            find_only (pull_with id) (pull_with c.id) db.pull_requests (inv.ids c.id) found hit,
          ))
      | inr miss ↦ rw e (
          update-other (pull_with id) (pull_with c.id) f db.pull_requests
            (λ r. ap (λ x. str_eq x id) (same r).0) miss found)
    ]

after-frozen :
    (db : Database) (m : Result Database) (id : String) (p : PullRequest)
    → IsApart db
    → is_merged p ≡ true
    → find (pull_with id) db.pull_requests ≡ some p
    → Ensures (PullEffect db) m
    → find (pull_with id) (after db m).pull_requests ≡ some p
after-frozen db (ok x) id p inv merged found h =
    effect-frozen db x id p inv merged found (h.at x refl)
after-frozen db (err e) id p inv merged found h = found

-- Where no two pull requests have one id, and no two of a repository one number: a pull request that
-- is merged stays stored as it is, with its title, refs, objects, state and times, through every sequence of the calls on Git
-- intents and pull requests, failed ones included.
pub run-frozen :
    (calls : List Call) (db : Database) (id : String) (p : PullRequest)
    → IsApart db
    → is_merged p ≡ true
    → find (pull_with id) db.pull_requests ≡ some p
    → find (pull_with id) (run db calls).pull_requests ≡ some p
unfolding run
run-frozen [] db id p inv merged found = found
run-frozen (c ∷ cs) db id p inv merged found =
    run-frozen cs (after db (exec c db)) id p (after-IsApart c db inv) merged
      (after-frozen db (exec c db) id p inv merged found (exec-PullEffect c db))
