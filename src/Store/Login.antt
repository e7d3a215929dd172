-- ===== src/Store/Login.antt =====
-- src/store/mod.rs: login by a signed nonce or by an SSH approval, and the sessions it opens, from
-- create_login_nonce to end_account_sessions.
use tit.Prelude.{
  String, ℕ, Bool, true, false, ◌&&◌, ◌||◌, Option, none, some, List, ◌∷◌, ◌==◌, str_eq, is_none,
  is_some, ltb, leb,
}
use tit.Prelude.Tables.{find, count_where, update_where, delete_where}
use tit.Store.Error.{
  Result, ok, sqlite, login_nonce_limit, login_identity, invalid_login_challenge,
  invalid_login_approval, login_approval_pending, invalid_session, account_not_found, guard, ok_or,
  ◌>>=◌, ◌>>◌,
}
use tit.Store.Schema.{
  Database, Account, SshPublicKey, LoginNonce, LoginApproval, WebSession, Purpose, Hash, Time,
  is_active, is_login,
}
use tit.Store.Common.{named, named_active, active_account_id, end_sessions, insert_audit_event}
use tit.Store.Keys.{equals_id, unconsumed, consume_approvals}

-- The number of nonces, and of approvals, that may wait at one time.
abbrev pub max_waiting : ℕ
max_waiting = 1024

pub record NewLoginNonce : Type 0 where
  pub nonce_hash : Hash
  pub csrf_hash : Hash
  pub username : String
  pub created_at : Time
  pub expires_at : Time

-- `expires_at < ?1 OR consumed_at IS NOT NULL`
abbrev pub stale_nonce : Time → LoginNonce → Bool
stale_nonce now n = ltb n.expires_at now || is_some n.consumed_at

unfoldable pub create_login_nonce : NewLoginNonce → Database → Result Database
create_login_nonce nonce db = do
  let waiting = delete_where (stale_nonce nonce.created_at) db.login_nonces
  guard (ltb (count_where (λ _. true) waiting) max_waiting) login_nonce_limit
  account ← ok_or (find (named_active nonce.username) db.accounts) login_identity
  guard (is_none (find (λ n. n.nonce_hash == nonce.nonce_hash) waiting)) sqlite
  ok (record db {
    login_nonces =
        record {
          nonce_hash = nonce.nonce_hash;
          csrf_hash = nonce.csrf_hash;
          account_id = account.id;
          ssh_public_key_id = none;
          created_at = nonce.created_at;
          expires_at = nonce.expires_at;
          consumed_at = none;
        }
        ∷ waiting;
  })

pub record NewWebSession : Type 0 where
  pub nonce_hash : Hash
  pub login_csrf_hash : Hash
  pub username : String
  pub fingerprint : String
  pub session_hash : Hash
  pub csrf_hash : Hash
  pub created_at : Time
  pub expires_at : Time
  pub correlation_id : String

-- The columns of login_nonce that the query of consume_login_nonce tests.
abbrev pub open_nonce : NewWebSession → LoginNonce → Bool
open_nonce l n =
    n.nonce_hash == l.nonce_hash
    && is_none n.consumed_at
    && leb l.created_at n.expires_at
    && n.csrf_hash == l.login_csrf_hash

-- The account that the nonce was issued for.
abbrev pub nonce_account : NewWebSession → LoginNonce → Account → Bool
nonce_account l n a = a.id == n.account_id && named_active l.username a

-- The live key with the fingerprint that signed, of the account of the nonce.
abbrev pub nonce_key : NewWebSession → LoginNonce → SshPublicKey → Bool
nonce_key l n k =
    k.account_id == n.account_id
    && str_eq k.fingerprint l.fingerprint
    && is_none k.revoked_at
    && (is_none n.ssh_public_key_id || equals_id n.ssh_public_key_id k.id)

abbrev pub unconsumed_nonce : Hash → LoginNonce → Bool
unconsumed_nonce nonce_hash n = n.nonce_hash == nonce_hash && is_none n.consumed_at

abbrev pub consume_nonces : Hash → Time → Database → Database
consume_nonces nonce_hash now db = record db {
  login_nonces =
      update_where (unconsumed_nonce nonce_hash) (λ n. record n { consumed_at = some now })
        db.login_nonces;
}

-- INSERT INTO web_session; the session's hash is UNIQUE.
unfoldable pub insert_web_session : WebSession → Database → Result Database
insert_web_session session db =
    guard (is_none (find (λ s. s.session_hash == session.session_hash) db.web_sessions)) sqlite
    >> ok (record db { web_sessions = session ∷ db.web_sessions })

abbrev login_event : String → String → Time → Database → Database
login_event username correlation_id now = insert_audit_event (record {
  action = "login";
  actor = username;
  target = username;
  outcome = "success";
  correlation_id = correlation_id;
  created_at = now;
})

-- The row that consume_login_nonce inserts.
abbrev pub nonce_session : NewWebSession → ℕ → ℕ → WebSession
nonce_session l account_id key_id = record {
  session_hash = l.session_hash;
  csrf_hash = l.csrf_hash;
  account_id = account_id;
  created_at = l.created_at;
  expires_at = l.expires_at;
  ended_at = none;
  ssh_public_key_id = some key_id;
}

unfoldable pub consume_login_nonce : NewWebSession → Database → Result Database
consume_login_nonce l db = do
  nonce ← ok_or (find (open_nonce l) db.login_nonces) invalid_login_challenge
  account ← ok_or (find (nonce_account l nonce) db.accounts) invalid_login_challenge
  key ← ok_or (find (nonce_key l nonce) db.ssh_public_keys) invalid_login_challenge
  guard (count_where (unconsumed_nonce l.nonce_hash) db.login_nonces == 1) invalid_login_challenge
  opened ←
      insert_web_session (nonce_session l account.id key.id)
        (consume_nonces l.nonce_hash l.created_at db)
  ok (login_event l.username l.correlation_id l.created_at opened)

pub record NewLoginApproval : Type 0 where
  pub secret_hash : Hash
  pub csrf_hash : Hash
  pub purpose : Purpose
  pub expected_username : Option String
  pub created_at : Time
  pub expires_at : Time

abbrev pub stale_approval : Time → LoginApproval → Bool
stale_approval now p = ltb p.expires_at now || is_some p.consumed_at

-- `approval.expected_username.map(…).transpose()?`
unfoldable pub expected_account : Database → Option String → Result (Option ℕ)
expected_account db none = ok none
expected_account db (some username) = do id ← active_account_id db username; ok (some id)

unfoldable pub create_login_approval : NewLoginApproval → Database → Result Database
create_login_approval approval db = do
  let waiting = delete_where (stale_approval approval.created_at) db.ssh_login_approvals
  guard (ltb (count_where (λ _. true) waiting) max_waiting) login_nonce_limit
  expected ← expected_account db approval.expected_username
  guard (is_none (find (λ p. p.secret_hash == approval.secret_hash) waiting)) sqlite
  ok (record db {
    ssh_login_approvals =
        record {
          secret_hash = approval.secret_hash;
          csrf_hash = approval.csrf_hash;
          account_id = none;
          ssh_public_key_id = none;
          created_at = approval.created_at;
          expires_at = approval.expires_at;
          approved_at = none;
          consumed_at = none;
          purpose = approval.purpose;
          expected_account_id = expected;
        }
        ∷ waiting;
  })

pub record ApproveLogin : Type 0 where
  pub secret_hash : Hash
  pub username : String
  pub fingerprint : String
  pub approved_at : Time

-- The live key with the fingerprint, of the account `account_id`.
abbrev pub approving_key : ℕ → String → SshPublicKey → Bool
approving_key account_id fingerprint k =
    k.account_id == account_id && str_eq k.fingerprint fingerprint && is_none k.revoked_at

-- The approval may still be given, and by this account.
abbrev pub approvable : Hash → ℕ → Time → LoginApproval → Bool
approvable secret_hash account_id now p =
    p.secret_hash == secret_hash
    && is_none p.account_id
    && is_none p.approved_at
    && is_none p.consumed_at
    && leb now p.expires_at
    && (is_none p.expected_account_id || equals_id p.expected_account_id account_id)

unfoldable pub approve_login : ApproveLogin → Database → Result Database
approve_login a db = do
  account ← ok_or (find (named_active a.username) db.accounts) login_identity
  key ← ok_or (find (approving_key account.id a.fingerprint) db.ssh_public_keys) login_identity
  guard
      (count_where (approvable a.secret_hash account.id a.approved_at) db.ssh_login_approvals == 1)
      invalid_login_approval
  ok (record db {
    ssh_login_approvals =
        update_where (approvable a.secret_hash account.id a.approved_at)
          (λ p. record p {
            account_id = some account.id;
            ssh_public_key_id = some key.id;
            approved_at = some a.approved_at;
          })
          db.ssh_login_approvals;
  })

pub record NewApprovedWebSession : Type 0 where
  pub secret_hash : Hash
  pub login_csrf_hash : Hash
  pub session_hash : Hash
  pub csrf_hash : Hash
  pub created_at : Time
  pub expires_at : Time
  pub correlation_id : String

-- LEFT JOIN account, and the columns that the query reads of it.
abbrev pub joined_account : List Account → Option ℕ → Option Account
joined_account accounts none = none
joined_account accounts (some id) = find (λ a. a.id == id) accounts

abbrev pub joined_key : List SshPublicKey → Option ℕ → Option SshPublicKey
joined_key keys none = none
joined_key keys (some id) = find (λ k. k.id == id) keys

-- `account.state = 'active'`, which is not true of NULL.
abbrev pub joined_active : Option Account → Bool
joined_active none = false
joined_active (some a) = is_active a.state

-- `ssh_public_key.revoked_at IS NULL`, which is true also where no key was joined.
abbrev pub joined_unrevoked : Option SshPublicKey → Bool
joined_unrevoked none = true
joined_unrevoked (some k) = is_none k.revoked_at

abbrev pub completes : NewApprovedWebSession → Database → LoginApproval → Bool
completes l db p =
    p.secret_hash == l.secret_hash
    && p.csrf_hash == l.login_csrf_hash
    && is_login p.purpose
    && is_none p.expected_account_id
    && is_none p.consumed_at
    && leb l.created_at p.expires_at
    && (is_none p.account_id
        || (joined_active (joined_account db.accounts p.account_id)
            && joined_unrevoked (joined_key db.ssh_public_keys p.ssh_public_key_id)))

-- `let (Some(account_id), Some(username), Some(_), Some(key_id)) = approval`
abbrev pub approved_by : Option Account → Option Time → Option ℕ → Option (Account × ℕ)
approved_by (some a) (some at) (some key_id) = some (a, key_id)
approved_by (some a) (some at) none = none
approved_by (some a) none k = none
approved_by none at k = none

-- The row that consume_login_approval inserts.
abbrev pub approved_session : NewApprovedWebSession → ℕ → ℕ → WebSession
approved_session l account_id key_id = record {
  session_hash = l.session_hash;
  csrf_hash = l.csrf_hash;
  account_id = account_id;
  created_at = l.created_at;
  expires_at = l.expires_at;
  ended_at = none;
  ssh_public_key_id = some key_id;
}

-- The username of the account that approved, and the new database.
unfoldable pub consume_login_approval :
    NewApprovedWebSession → Database → Result (String × Database)
consume_login_approval l db = do
  approval ← ok_or (find (completes l db) db.ssh_login_approvals) invalid_login_approval
  approver ←
      ok_or
        (approved_by (joined_account db.accounts approval.account_id) approval.approved_at
          approval.ssh_public_key_id)
        login_approval_pending
  guard (count_where (unconsumed l.secret_hash) db.ssh_login_approvals == 1) invalid_login_approval
  opened ←
      insert_web_session (approved_session l approver.0.id approver.1)
        (consume_approvals l.secret_hash l.created_at db)
  ok (approver.0.username, login_event approver.0.username l.correlation_id l.created_at opened)

pub record WebSessionRecord : Type 0 where
  pub username : String
  pub is_administrator : Bool

-- `?2 IS NULL OR web_session.csrf_hash = ?2`
abbrev pub csrf_matches : Option Hash → Hash → Bool
csrf_matches none h = true
csrf_matches (some given) h = h == given

abbrev pub valid_session : Hash → Option Hash → Time → List Account → WebSession → Bool
valid_session session_hash csrf_hash now accounts s =
    s.session_hash == session_hash
    && is_none s.ended_at
    && leb now s.expires_at
    && is_some (find (λ a. a.id == s.account_id && is_active a.state) accounts)
    && csrf_matches csrf_hash s.csrf_hash

unfoldable pub web_session : Hash → Option Hash → Time → Database → Result WebSessionRecord
web_session session_hash csrf_hash now db = do
  session ←
      ok_or (find (valid_session session_hash csrf_hash now db.accounts) db.web_sessions)
        invalid_session
  account ←
      ok_or (find (λ a. a.id == session.account_id && is_active a.state) db.accounts)
        invalid_session
  ok (record { username = account.username; is_administrator = account.is_administrator })

unfoldable pub end_account_sessions : String → Time → Database → Result Database
end_account_sessions username ended_at db = do
  account ← ok_or (find (named username) db.accounts) (account_not_found username)
  ok (end_sessions account.id ended_at db)
