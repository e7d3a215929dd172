-- ===== src/Identity/Unique.antt =====
-- The accounts of src/store/mod.rs have distinct rowids and distinct usernames.
use tit.Identity.AccountRows.{Change, same, inserted, changed, exec-Change}
use tit.Prelude.{String, ℕ, ◌≤◌, ◌≡◌, refl, ◌==◌, eq_iff, Bool, Option, none, List, [], ◌∷◌, arith}
use tit.Prelude.Tables.{
  find, count_where, update_where, next_rowid, next_rowid_fresh, count-update_same,
  count-of-find-none,
}
use tit.Store.Schema.{Database, Account, AccountState}
use tit.Store.Common.{named}
use tit.Identity.Reach.{Call, exec, after, run, after-Ensures}

abbrev pub with_id : ℕ → Account → Bool
with_id n a = a.id == n

pub record IsUnique (accounts : List Account) : Type 0 where
  pub ids : (n : ℕ) → count_where (with_id n) accounts ≤ 1
  pub names : (u : String) → count_where (named u) accounts ≤ 1

inserted-IsUnique :
    (a : Account) (accounts : List Account)
    → find (named a.username) accounts ≡ none
    → a.id ≡ next_rowid (λ (b : Account). b.id) accounts
    → IsUnique accounts
    → IsUnique (a ∷ accounts)
unfolding count_where
inserted-IsUnique a accounts free id inv = record {
  ids = λ n. ground (arith, inv.ids n, id, next_rowid_fresh (λ (b : Account). b.id) accounts n);
  names = λ v.
      ground
        (arith, inv.names v, eq_iff a.username v, count-of-find-none (named a.username) accounts);
}

changed-IsUnique :
    (u : String) (s : AccountState) (accounts : List Account)
    → IsUnique accounts
    → IsUnique (update_where (named u) (λ a. record a { state = s }) accounts)
changed-IsUnique u s accounts inv = record {
  ids = λ n.
      rw
        (count-update_same (with_id n) (named u) (λ a. record a { state = s }) accounts
          (λ a _. refl))
        (inv.ids n);
  names = λ v.
      rw
        (count-update_same (named v) (named u) (λ a. record a { state = s }) accounts (λ a _. refl))
        (inv.names v);
}

Change-IsUnique :
    {resumes : Option String} (rows rows' : List Account)
    → IsUnique rows
    → Change resumes rows rows'
    → IsUnique rows'
Change-IsUnique rows rows' inv (same e) = rw e inv
Change-IsUnique rows rows' inv (inserted a free id e) = rw e (inserted-IsUnique a rows free id inv)
Change-IsUnique rows rows' inv (changed u s r e) = rw e (changed-IsUnique u s rows inv)

-- However the calls follow one another, failed ones included, no two accounts have one rowid or one
-- username, if that holds at the start.
pub run-IsUnique :
    (db : Database) (calls : List Call) → IsUnique db.accounts → IsUnique (run db calls).accounts
unfolding run
run-IsUnique db [] inv = inv
run-IsUnique db (c ∷ cs) inv = run-IsUnique (after db (exec c db)) cs (
    after-Ensures (λ d. IsUnique d.accounts) db (exec c db) inv
      (record {
        at = λ db' e. Change-IsUnique db.accounts db'.accounts inv ((exec-Change c db).at db' e);
      }))
