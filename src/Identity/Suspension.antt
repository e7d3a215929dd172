-- ===== src/Identity/Suspension.antt =====
-- A suspended account of src/store/mod.rs cannot be used until a call resumes it.
use tit.Prelude.{
  String, ℕ, ◌≤◌, ◌≡◌, ◌≢◌, refl, str_eq, eq_iff, Bool, true, false, Option, none, some, List, [],
  ◌∷◌, All, arith, Bool-cases, inl, inr, ◌&&◌, ap, ==_iff, Option-cases, ◌∙◌,
}
use tit.Prelude.Tables.{
  find, count_where, update_where, find-holds, find-none_mono, count-update_none, count-update_same,
  count-update-le, count-of-find-none, find-none-of-count, count-pos-of-row, count_mono,
}
use tit.Store.Error.{
  ok, err, login_identity, invalid_login_challenge, Ensures, Ensures-ok, Ensures-guard,
  Ensures-ok_or, ◌>>◌,
}
use tit.Store.Schema.{Database, Account, AccountState, suspended, Hash, Time, is_active}
use tit.Store.Common.{named, named_active, end_sessions, revoke_feed_tokens, insert_audit_event}
use tit.Store.Accounts.{suspend_account}
use tit.Store.Login.{
  WebSessionRecord, web_session, consume_login_nonce, approve_login, NewWebSession, ApproveLogin,
  open_nonce, nonce_account,
}
use tit.Identity.AccountRows.{Change, same, inserted, changed, exec-Change, resumed}
use tit.Identity.Sessions.{active_with_id}
use tit.Identity.Reach.{Call, exec, after, run, after-Ensures}

-- There is an account with the username, and none with it is active.
record IsSuspended (u : String) (rows : List Account) : Type 0 where
  exists : 1 ≤ count_where (named u) rows
  inactive : count_where (named_active u) rows ≡ 0

suspended-inactive :
    (u : String) (rows : List Account)
    → count_where
        (named_active u)
        (update_where (named u) (λ a. record a { state = suspended }) rows)
      ≡ 0
suspended-inactive u rows = count-update_none (named_active u) (named u) _ rows (λ a. ground arith)

renamed-same :
    (u v : String) (s : AccountState) (q : AccountState → Bool) (rows : List Account)
    → str_eq v u ≡ false
    → count_where
        (λ (a : Account). str_eq a.username u && q a.state)
        (update_where (named v) (λ a. record a { state = s }) rows)
      ≡ count_where (λ (a : Account). str_eq a.username u && q a.state) rows
renamed-same u v s q rows ne =
    count-update_same (λ (a : Account). str_eq a.username u && q a.state) (named v) _ rows
      (λ a h. ground (arith, eq_iff a.username v, eq_iff a.username u, eq_iff v u))

-- The accounts with a username stay, whatever the state that some get.
named_stays :
    (u v : String) (s : AccountState) (rows : List Account)
    → count_where (named u) (update_where (named v) (λ a. record a { state = s }) rows)
      ≡ count_where (named u) rows
named_stays u v s rows = count-update_same (named u) (named v) _ rows (λ a _. refl)

inserted-IsSuspended :
    (u : String) (a : Account) (rows : List Account)
    → find (named a.username) rows ≡ none
    → IsSuspended u rows
    → IsSuspended u (a ∷ rows)
unfolding count_where
inserted-IsSuspended u a rows free h = elim (Bool-cases (str_eq a.username u)) [
  | inl e ↦ absurd (
      omega (
        arith,
        h.exists,
        count-of-find-none (named a.username) rows free,
        count_mono (named u) (named a.username) rows (λ r p.
            ground (arith, eq_iff a.username u, eq_iff r.username u, eq_iff r.username a.username)),
      ))
  | inr e ↦ record { exists = ground (arith, h.exists); inactive = ground (arith, h.inactive) }
]

Change-IsSuspended :
    {resumes : Option String} (u : String) (rows rows' : List Account)
    → resumes ≢ some u
    → IsSuspended u rows
    → Change resumes rows rows'
    → IsSuspended u rows'
Change-IsSuspended u rows rows' ne h (same e) = rw e h
Change-IsSuspended u rows rows' ne h (inserted a free id e) =
    rw e (inserted-IsSuspended u a rows free h)
Change-IsSuspended u rows rows' ne h (changed v AccountState.active r e) =
    rw e (elim (Bool-cases (str_eq v u)) [
      | inl vu ↦ absurd (ne (r refl ∙ ap some ((eq_iff v u).0 vu)))
      | inr vu ↦ record {
        exists = rw (named_stays u v AccountState.active rows) h.exists;
        inactive = renamed-same u v AccountState.active is_active rows vu ∙ h.inactive;
      }
    ])
Change-IsSuspended u rows rows' ne h (changed v suspended r e) = rw e (record {
  exists = rw (named_stays u v suspended rows) h.exists;
  inactive = omega (
    arith,
    h.inactive,
    count-update-le (named_active u) (named v) (λ a. record a { state = suspended }) rows
        (λ a p. ground arith),
  );
})

run-IsSuspended :
    (u : String) (db : Database) (calls : List Call)
    → All (λ c. resumed c ≢ some u) calls
    → IsSuspended u db.accounts
    → IsSuspended u (run db calls).accounts
unfolding run
run-IsSuspended u db [] ne h = h
run-IsSuspended u db (c ∷ cs) ne h = run-IsSuspended u (after db (exec c db)) cs ne.1 (
    after-Ensures (λ d. IsSuspended u d.accounts) db (exec c db) h
      (record {
        at = λ db' e.
            Change-IsSuspended u db.accounts db'.accounts ne.0 h ((exec-Change c db).at db' e);
      }))

suspend_account-IsSuspended :
    (u : String) (t : Time) (actor c : String) (db : Database)
    → Ensures (λ d. IsSuspended u d.accounts) (suspend_account u true t actor c db)
unfolding suspend_account end_sessions revoke_feed_tokens insert_audit_event
suspend_account-IsSuspended u t actor c db = Ensures-guard _ _ _ λ one. Ensures-ok_or _ _ _ λ a _.
    Ensures-ok _ (record {
      exists = rw (named_stays u u suspended db.accounts, (==_iff _ _).0 one) (omega arith);
      inactive = suspended-inactive u db.accounts;
    })

named_live :
    (u : String) (n : ℕ) (a : Account)
    → a.username ≡ u
    → active_with_id n a ≡ true
    → named_active u a ≡ true
named_live u n a e h = ground (arith, eq_iff a.username u)

-- No session authenticates as the suspended account.
web_session-other :
    (u : String) (h : Hash) (csrf : Option Hash) (now : Time) (db : Database)
    → IsSuspended u db.accounts
    → Ensures (λ r. r.username ≢ u) (web_session h csrf now db)
unfolding web_session
web_session-other u h csrf now db suspend = Ensures-ok_or _ _ _ λ s _. Ensures-ok_or _ _ _ λ a e.
    Ensures-ok _ λ same. absurd (
      omega (
        arith,
        suspend.inactive,
        count-pos-of-row (active_with_id s.account_id) (named_active u) db.accounts e (
            named_live u s.account_id a same
              (find-holds (active_with_id s.account_id) db.accounts e)),
      ))

consume_login_nonce-refused :
    (l : NewWebSession) (db : Database)
    → IsSuspended l.username db.accounts
    → consume_login_nonce l db ≡ err invalid_login_challenge
unfolding consume_login_nonce ◌>>◌
consume_login_nonce-refused l db suspend =
    elim (Option-cases (find (open_nonce l) db.login_nonces)) [
      | inl e ↦ rw e
      | inr (n, e) ↦ rw (
        e,
        find-none_mono (nonce_account l n) (named_active l.username) db.accounts
            (λ a h. ground arith)
            (find-none-of-count (named_active l.username) db.accounts suspend.inactive),
      )
    ]

approve_login-refused :
    (a : ApproveLogin) (db : Database)
    → IsSuspended a.username db.accounts
    → approve_login a db ≡ err login_identity
unfolding approve_login ◌>>◌
approve_login-refused a db suspend =
    rw (find-none-of-count (named_active a.username) db.accounts suspend.inactive)

-- What is refused of the account `u`.
pub record IsShut (u : String) (db : Database) : Type 0 where
  pub sessions :
      (h : Hash) (csrf : Option Hash) (now : Time) (r : WebSessionRecord)
      → web_session h csrf now db ≡ ok r
      → r.username ≢ u
  pub nonces :
      (l : NewWebSession) → l.username ≡ u → consume_login_nonce l db ≡ err invalid_login_challenge
  pub approvals : (a : ApproveLogin) → a.username ≡ u → approve_login a db ≡ err login_identity

-- After an account was suspended, and whatever calls follow of which none resumes that username: no
-- session authenticates with the username, each login by a nonce with it is refused as an invalid
-- challenge, and each approval with it is refused.
pub suspend_account-shuts :
    (u : String) (t : Time) (actor c : String) (db db' : Database) (calls : List Call)
    → suspend_account u true t actor c db ≡ ok db'
    → All (λ k. resumed k ≢ some u) calls
    → IsShut u (run db' calls)
suspend_account-shuts u t actor c db db' calls e ne = record {
  sessions = λ h csrf now r. (web_session-other u h csrf now (run db' calls) shut).at r;
  nonces = λ l same. consume_login_nonce-refused l (run db' calls) (rw same shut);
  approvals = λ a same. approve_login-refused a (run db' calls) (rw same shut);
}
  where
    shut : IsSuspended u (run db' calls).accounts
    shut = run-IsSuspended u db' calls ne ((suspend_account-IsSuspended u t actor c db).at db' e)
