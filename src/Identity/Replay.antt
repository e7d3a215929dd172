-- ===== src/Identity/Replay.antt =====
-- A nonce and an approval of src/store/mod.rs open one session at most, and no more than the limit
-- of them wait at one time.
use tit.Prelude.{
  ◌≤◌, ◌≡◌, ◌≢◌, List, [], ◌∷◌, All, arith, ==_iff, ◌==◌, Option, none, some, Bool-cases, inl, inr,
  ap, String,
}
use tit.Prelude.Tables.{
  count_where, count-delete-le, find-none-of-count, count-update_none, count_mono,
}
use tit.Store.Error.{
  Result, ok, err, invalid_login_challenge, invalid_login_approval, Ensures, Ensures-ok,
  Ensures-guard, Ensures-bind, Ensures-ok_or, ◌>>◌,
}
use tit.Store.Schema.{Database, Hash}
use tit.Store.Common.{insert_audit_event}
use tit.Store.Keys.{unconsumed}
use tit.Store.Login.{
  NewLoginNonce, NewWebSession, NewLoginApproval, NewApprovedWebSession, create_login_nonce,
  consume_login_nonce, create_login_approval, consume_login_approval, max_waiting, stale_nonce,
  stale_approval, unconsumed_nonce, open_nonce, completes,
}
use tit.Identity.LoginTables.{
  Consumes, open_nonces, open_approvals, all_nonces, all_approvals, insert_web_session-SameLogins,
}
use tit.Identity.Consumes.{
  consume_login_nonce-Consumes, consume_login_approval-Consumes, approve_login-Consumes,
  create_initial_administrator-Consumes, create_signup_invitation-Consumes,
  create_account_with_invitation-Consumes, recover_account-Consumes, suspend_account-Consumes,
  add_account_key-Consumes, revoke_account_key-Consumes, end_account_sessions-Consumes,
  complete_account_key_add-Consumes, complete_account_key_revoke-Consumes,
}
use tit.Identity.Reach.{
  Call, setup, invite, signup, recover, suspend, add_key, revoke_key, complete_add, complete_revoke,
  issue_nonce, consume_nonce, issue_approval, approve, complete_approval, end_all, exec, after, run,
  after-Ensures,
}

pub record IsBounded (db : Database) : Type 0 where
  pub nonces : all_nonces db ≤ max_waiting
  pub approvals : all_approvals db ≤ max_waiting

-- The hash of the nonce, or of the approval, that a call issues.
abbrev nonce_of : Call → Option Hash
nonce_of (issue_nonce n) = some n.nonce_hash
nonce_of _ = none

abbrev approval_of : Call → Option Hash
approval_of (issue_approval a) = some a.secret_hash
approval_of _ = none

-- Of the open nonces and approvals only those that the call issues can become more.
record Effect (nonce approval : Option Hash) (db db' : Database) : Type 0 where
  nonces : (g : Hash) → nonce ≢ some g → open_nonces g db' ≤ open_nonces g db
  approvals : (g : Hash) → approval ≢ some g → open_approvals g db' ≤ open_approvals g db
  bounded : IsBounded db → IsBounded db'

create_login_nonce-Effect :
    (n : NewLoginNonce) (db : Database)
    → Ensures (Effect (some n.nonce_hash) none db) (create_login_nonce n db)
unfolding create_login_nonce count_where
create_login_nonce-Effect n db = Ensures-guard _ _ _ λ room. Ensures-ok_or _ _ _ λ a _.
    Ensures-guard _ _ _ λ _. Ensures-ok _ (record {
      nonces = λ g ne. elim (Bool-cases (n.nonce_hash == g)) [
        | inl same ↦ absurd (ne (ap some ((==_iff n.nonce_hash g).0 same)))
        | inr other ↦
            ground (
              arith,
              count-delete-le (unconsumed_nonce g) (stale_nonce n.created_at) db.login_nonces,
            )
      ];
      approvals = λ g ne. omega arith;
      bounded = λ b. record { nonces = ground arith; approvals = b.approvals };
    })

create_login_approval-Effect :
    (n : NewLoginApproval) (db : Database)
    → Ensures (Effect none (some n.secret_hash) db) (create_login_approval n db)
unfolding create_login_approval count_where
create_login_approval-Effect n db = Ensures-guard _ _ _ λ room. Ensures-bind _ _ λ a _.
    Ensures-guard _ _ _ λ _. Ensures-ok _ (record {
      nonces = λ g ne. omega arith;
      approvals = λ g ne. elim (Bool-cases (n.secret_hash == g)) [
        | inl same ↦ absurd (ne (ap some ((==_iff n.secret_hash g).0 same)))
        | inr other ↦ ground (
          arith,
          count-delete-le (unconsumed g) (stale_approval n.created_at) db.ssh_login_approvals,
        )
      ];
      bounded = λ b. record { nonces = b.nonces; approvals = ground arith };
    })

used_up :
    (db : Database) (m : Result Database)
    → Ensures (Consumes db) m
    → Ensures (Effect none none db) m
used_up db m h = record {
  at = λ db' e.
      let c = h.at db' e in
      record {
        nonces = λ g _. c.nonces g;
        approvals = λ g _. c.approvals g;
        bounded = λ b. omega (arith, b.nonces, b.approvals, c.nonce_rows, c.approval_rows);
      };
}

exec-Effect :
    (c : Call) (db : Database) → Ensures (Effect (nonce_of c) (approval_of c) db) (exec c db)
unfolding exec
exec-Effect (setup a) db = used_up db _ (create_initial_administrator-Consumes db a)
exec-Effect (invite h t u) db = used_up db _ (create_signup_invitation-Consumes db h t u)
exec-Effect (signup a) db = used_up db _ (create_account_with_invitation-Consumes db a)
exec-Effect (recover r) db = used_up db _ (recover_account-Consumes db r)
exec-Effect (suspend u b t a c) db = used_up db _ (suspend_account-Consumes db u b t a c)
exec-Effect (add_key u k t a c) db = used_up db _ (add_account_key-Consumes db u k t a c)
exec-Effect (revoke_key u f t a c) db = used_up db _ (revoke_account_key-Consumes db u f t a c)
exec-Effect (complete_add a k) db = used_up db _ (complete_account_key_add-Consumes a k db)
exec-Effect (complete_revoke a f) db = used_up db _ (complete_account_key_revoke-Consumes a f db)
exec-Effect (issue_nonce n) db = create_login_nonce-Effect n db
exec-Effect (consume_nonce l) db = used_up db _ (consume_login_nonce-Consumes l db)
exec-Effect (issue_approval a) db = create_login_approval-Effect a db
exec-Effect (approve a) db = used_up db _ (approve_login-Consumes a db)
exec-Effect (complete_approval l) db =
    used_up db _
      (Ensures-bind _ _ λ r e. Ensures-ok _ ((consume_login_approval-Consumes l db).at r e))
exec-Effect (end_all u t) db = used_up db _ (end_account_sessions-Consumes db u t)

-- However the calls follow one another, at most `max_waiting` nonces and at most `max_waiting`
-- approvals are stored, if that holds at the start.
pub run-IsBounded : (db : Database) (calls : List Call) → IsBounded db → IsBounded (run db calls)
unfolding run
run-IsBounded db [] b = b
run-IsBounded db (c ∷ cs) b = run-IsBounded (after db (exec c db)) cs (
    after-Ensures IsBounded db (exec c db) b
      (record { at = λ db' e. ((exec-Effect c db).at db' e).bounded b }))

run-spent_nonce :
    (h : Hash) (db : Database) (calls : List Call)
    → All (λ c. nonce_of c ≢ some h) calls
    → open_nonces h db ≡ 0
    → open_nonces h (run db calls) ≡ 0
unfolding run
run-spent_nonce h db [] fresh e = e
run-spent_nonce h db (c ∷ cs) fresh e = run-spent_nonce h (after db (exec c db)) cs fresh.1 (
    after-Ensures (λ d. open_nonces h d ≡ 0) db (exec c db) e
      (record { at = λ db' x. omega (arith, e, ((exec-Effect c db).at db' x).nonces h fresh.0) }))

run-spent_approval :
    (h : Hash) (db : Database) (calls : List Call)
    → All (λ c. approval_of c ≢ some h) calls
    → open_approvals h db ≡ 0
    → open_approvals h (run db calls) ≡ 0
unfolding run
run-spent_approval h db [] fresh e = e
run-spent_approval h db (c ∷ cs) fresh e = run-spent_approval h (after db (exec c db)) cs fresh.1 (
    after-Ensures (λ d. open_approvals h d ≡ 0) db (exec c db) e
      (record {
        at = λ db' x. omega (arith, e, ((exec-Effect c db).at db' x).approvals h fresh.0);
      }))

-- A login that succeeded leaves no open nonce with its hash.
consume_login_nonce-spends :
    (l : NewWebSession) (db : Database)
    → Ensures (λ db'. open_nonces l.nonce_hash db' ≡ 0) (consume_login_nonce l db)
unfolding consume_login_nonce insert_audit_event
consume_login_nonce-spends l db = Ensures-ok_or _ _ _ λ n _. Ensures-ok_or _ _ _ λ a _.
    Ensures-ok_or _ _ _ λ k _. Ensures-guard _ _ _ λ _. Ensures-bind _ _ λ opened e. Ensures-ok _ (
      rw ((insert_web_session-SameLogins _ _).at opened e).0 (
        count-update_none (unconsumed_nonce l.nonce_hash) (unconsumed_nonce l.nonce_hash) _
          db.login_nonces (λ r. ground arith)))

consume_login_approval-spends :
    (l : NewApprovedWebSession) (db : Database)
    → Ensures (λ r. open_approvals l.secret_hash r.1 ≡ 0) (consume_login_approval l db)
unfolding consume_login_approval insert_audit_event
consume_login_approval-spends l db = Ensures-ok_or _ _ _ λ p _. Ensures-ok_or _ _ _ λ a _.
    Ensures-guard _ _ _ λ _. Ensures-bind _ _ λ opened e. Ensures-ok _ (
      rw ((insert_web_session-SameLogins _ _).at opened e).1 (
        count-update_none (unconsumed l.secret_hash) (unconsumed l.secret_hash) _
          db.ssh_login_approvals (λ r. ground arith)))

no_open_nonce :
    (l : NewWebSession) (db : Database)
    → open_nonces l.nonce_hash db ≡ 0
    → consume_login_nonce l db ≡ err invalid_login_challenge
unfolding consume_login_nonce ◌>>◌
no_open_nonce l db e = rw (
    find-none-of-count (open_nonce l) db.login_nonces (
      omega (
        arith,
        e,
        count_mono (open_nonce l) (unconsumed_nonce l.nonce_hash) db.login_nonces
            (λ r p. ground arith),
      )))

no_open_approval :
    (l : NewApprovedWebSession) (db : Database)
    → open_approvals l.secret_hash db ≡ 0
    → consume_login_approval l db ≡ err invalid_login_approval
unfolding consume_login_approval ◌>>◌
no_open_approval l db e = rw (
    find-none-of-count (completes l db) db.ssh_login_approvals (
      omega (
        arith,
        e,
        count_mono (completes l db) (unconsumed l.secret_hash) db.ssh_login_approvals
            (λ r p. ground arith),
      )))

-- Once a login with a nonce succeeded, every later login with that nonce is refused as an invalid
-- challenge, whatever calls lie between, as long as none of them issues the same nonce again.
pub consume_login_nonce-once :
    (l l' : NewWebSession) (db db' : Database) (between : List Call)
    → l'.nonce_hash ≡ l.nonce_hash
    → consume_login_nonce l db ≡ ok db'
    → All (λ c. nonce_of c ≢ some l.nonce_hash) between
    → consume_login_nonce l' (run db' between) ≡ err invalid_login_challenge
consume_login_nonce-once l l' db db' between same e fresh = no_open_nonce l' (run db' between) (
    rw same
      (run-spent_nonce l.nonce_hash db' between fresh ((consume_login_nonce-spends l db).at db' e)))

-- Once an approval was completed, completing it again is refused as invalid, whatever calls lie
-- between, as long as none of them issues an approval with the same secret.
pub consume_login_approval-once :
    (l l' : NewApprovedWebSession) (db : Database) (r : String × Database) (between : List Call)
    → l'.secret_hash ≡ l.secret_hash
    → consume_login_approval l db ≡ ok r
    → All (λ c. approval_of c ≢ some l.secret_hash) between
    → consume_login_approval l' (run r.1 between) ≡ err invalid_login_approval
consume_login_approval-once l l' db r between same e fresh = no_open_approval l' (run r.1 between) (
    rw same (
      run-spent_approval l.secret_hash r.1 between fresh
        ((consume_login_approval-spends l db).at r e)))
