-- ===== src/Store/Keys.antt =====
-- src/store/mod.rs: SSH keys of an account, from add_account_key to complete_account_key_revoke.
use Prim.Native.String.{◌++◌ as append}
use tit.Prelude.{
  String, ℕ, Bool, false, ◌&&◌, ◌||◌, Option, none, some, List, ◌==◌, str_eq, is_none, is_some, ltb,
  leb, if◌then◌else◌, not,
}
use tit.Prelude.Tables.{find, count_where, update_where}
use tit.Store.Error.{
  Result, ok, last_key, key_not_found, key_exists, invalid_session, invalid_login_approval, guard,
  ok_or, ◌>>=◌, ◌>>◌,
}
use tit.Store.Schema.{
  Database, Account, SshPublicKey, LoginApproval, WebSession, Hash, Time, is_login,
}
use tit.Store.Common.{
  NewSshKey, named_active, live_key_of, active_account_id, insert_ssh_key, end_sessions,
  insert_audit_event,
}

-- `format!("{username}:{fingerprint}")`
abbrev key_target : String → String → String
key_target username fingerprint = append username (append ":" fingerprint)

abbrev pub key_event : String → String → String → String → String → Time → Database → Database
key_event action actor username fingerprint correlation_id now = insert_audit_event (record {
  action = action;
  actor = actor;
  target = key_target username fingerprint;
  outcome = "success";
  correlation_id = correlation_id;
  created_at = now;
})

unfoldable pub add_account_key :
    String → NewSshKey → Time → String → String → Database → Result Database
add_account_key username key created_at actor correlation_id db = do
  account_id ← active_account_id db username
  with_key ← insert_ssh_key account_id key created_at db
  ok (
      key_event "key.add" actor username key.fingerprint correlation_id created_at
        (end_sessions account_id created_at with_key))

-- `account_id = ?1 AND fingerprint = ?2 AND revoked_at IS NULL`
abbrev pub live_key_named : ℕ → String → SshPublicKey → Bool
live_key_named account_id fingerprint k =
    k.account_id == account_id && str_eq k.fingerprint fingerprint && is_none k.revoked_at

abbrev pub revoke_where : (SshPublicKey → Bool) → Time → Database → Database
revoke_where p now db = record db {
  ssh_public_keys = update_where p (λ k. record k { revoked_at = some now }) db.ssh_public_keys;
}

unfoldable pub revoke_account_key :
    String → String → Time → String → String → Database → Result Database
revoke_account_key username fingerprint revoked_at actor correlation_id db = do
  account_id ← active_account_id db username
  guard (ltb 1 (count_where (live_key_of account_id) db.ssh_public_keys)) last_key
  guard (count_where (live_key_named account_id fingerprint) db.ssh_public_keys == 1) key_not_found
  let revoked = revoke_where (live_key_named account_id fingerprint) revoked_at db
  ok (
      key_event "key.revoke" actor username fingerprint correlation_id revoked_at
        (end_sessions account_id revoked_at revoked))

pub record AccountKeyAuthorization : Type 0 where
  pub username : String
  pub session_hash : Hash
  pub csrf_hash : Hash
  pub secret_hash : Hash
  pub changed_at : Time
  pub correlation_id : String

abbrev pub equals_id : Option ℕ → ℕ → Bool
equals_id none n = false
equals_id (some m) n = m == n

-- The live session of the named active account.
abbrev pub authorizes : AccountKeyAuthorization → List Account → WebSession → Bool
authorizes a accounts s =
    s.session_hash == a.session_hash
    && s.csrf_hash == a.csrf_hash
    && is_none s.ended_at
    && leb a.changed_at s.expires_at
    && is_some (find (λ u. u.id == s.account_id && named_active a.username u) accounts)

-- JOIN ssh_public_key … WHERE revoked_at IS NULL
abbrev pub live_key_id : List SshPublicKey → Option ℕ → Bool
live_key_id keys none = false
live_key_id keys (some id) = is_some (find (λ k. k.id == id && is_none k.revoked_at) keys)

-- The approval of an account key that the account itself gave with a live key.
abbrev pub approves_key : AccountKeyAuthorization → ℕ → List SshPublicKey → LoginApproval → Bool
approves_key a account_id keys p =
    p.secret_hash == a.secret_hash
    && p.csrf_hash == a.csrf_hash
    && not (is_login p.purpose)
    && equals_id p.expected_account_id account_id
    && equals_id p.account_id account_id
    && is_some p.approved_at
    && is_none p.consumed_at
    && leb a.changed_at p.expires_at
    && live_key_id keys p.ssh_public_key_id

abbrev pub unconsumed : Hash → LoginApproval → Bool
unconsumed secret_hash p = p.secret_hash == secret_hash && is_none p.consumed_at

abbrev pub consume_approvals : Hash → Time → Database → Database
consume_approvals secret_hash now db = record db {
  ssh_login_approvals =
      update_where (unconsumed secret_hash) (λ p. record p { consumed_at = some now })
        db.ssh_login_approvals;
}

-- The account and the key of the session. The source's test `approval != session.0` repeats the
-- WHERE clause, so it has no branch of its own.
unfoldable pub consume_account_key_authorization :
    AccountKeyAuthorization → Database → Result ((ℕ × Option ℕ) × Database)
consume_account_key_authorization a db = do
  session ← ok_or (find (authorizes a db.accounts) db.web_sessions) invalid_session
  guard
      (is_some (find (approves_key a session.account_id db.ssh_public_keys) db.ssh_login_approvals))
      invalid_login_approval
  guard (count_where (unconsumed a.secret_hash) db.ssh_login_approvals == 1) invalid_login_approval
  ok (
    (session.account_id, session.ssh_public_key_id),
    consume_approvals a.secret_hash a.changed_at db,
  )

abbrev pub live_label : ℕ → String → SshPublicKey → Bool
live_label account_id label k =
    k.account_id == account_id && str_eq k.label label && is_none k.revoked_at

unfoldable pub complete_account_key_add :
    AccountKeyAuthorization → NewSshKey → Database → Result Database
complete_account_key_add a key db = do
  consumed ← consume_account_key_authorization a db
  let account_id = consumed.0.0
  guard (not (is_some (find (live_label account_id key.label) db.ssh_public_keys))) key_exists
  with_key ← insert_ssh_key account_id key a.changed_at consumed.1
  ok (
      key_event "key.add" a.username a.username key.fingerprint a.correlation_id a.changed_at
        with_key)

-- `id = ?1 AND account_id = ?2 AND revoked_at IS NULL`
abbrev pub live_key_at : ℕ → ℕ → SshPublicKey → Bool
live_key_at id account_id k = k.id == id && k.account_id == account_id && is_none k.revoked_at

-- A session that no key is known of, or that the revoked key opened.
abbrev pub ends_with_key : Option ℕ → ℕ → Bool
ends_with_key session_key key_id = is_none session_key || equals_id session_key key_id

unfoldable pub complete_account_key_revoke :
    AccountKeyAuthorization → String → Database → Result Database
complete_account_key_revoke a fingerprint db = do
  consumed ← consume_account_key_authorization a db
  let account_id = consumed.0.0
  guard (ltb 1 (count_where (live_key_of account_id) db.ssh_public_keys)) last_key
  key ← ok_or (find (live_key_named account_id fingerprint) db.ssh_public_keys) key_not_found
  guard (count_where (live_key_at key.id account_id) db.ssh_public_keys == 1) key_not_found
  let revoked = revoke_where (live_key_at key.id account_id) a.changed_at consumed.1
  ok (
      key_event "key.revoke" a.username a.username fingerprint a.correlation_id a.changed_at (
        if ends_with_key consumed.0.1 key.id
        then end_sessions account_id a.changed_at revoked
        else revoked))
