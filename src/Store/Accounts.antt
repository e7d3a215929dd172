-- ===== src/Store/Accounts.antt =====
-- src/store/mod.rs: the life of an account, from create_initial_administrator to suspend_account.
use tit.Prelude.{
  String, ℕ, Bool, true, false, ◌&&◌, ◌||◌, Option, none, some, List, ◌∷◌, ◌==◌, str_eq, is_none,
  is_some, leb, if◌then◌else◌, not,
}
use tit.Prelude.Tables.{find, count_where, update_where}
use tit.Store.Error.{
  Result, ok, err, sqlite, already_initialized, username_unavailable, invalid_invitation,
  invalid_recovery, account_not_found, key_exists, guard, ok_or, ◌>>=◌, ◌>>◌,
}
use tit.Store.Schema.{
  Database, Account, SshPublicKey, RecoveryCredential, SignupInvitation, AccountState, Hash, Time,
}
use tit.Store.Common.{
  NewSshKey, named, named_active, live_key_of, insert_ssh_key, end_sessions, revoke_feed_tokens,
  insert_audit_event, insert_account,
}

-- INSERT INTO recovery_credential: its key is the account, and the hash is UNIQUE.
abbrev pub credential_collides : ℕ → Hash → RecoveryCredential → Bool
credential_collides account_id hash c = c.account_id == account_id || c.credential_hash == hash

unfoldable pub insert_recovery : ℕ → Hash → Time → Database → Result Database
insert_recovery account_id hash created_at db =
    guard (is_none (find (credential_collides account_id hash) db.recovery_credentials)) sqlite
    >> ok (record db {
      recovery_credentials =
          record { account_id = account_id; credential_hash = hash; created_at = created_at }
          ∷ db.recovery_credentials;
    })

pub record InitialAdministrator : Type 0 where
  pub username : String
  pub canonical_key : String
  pub fingerprint : String
  pub recovery_hash : Hash
  pub created_at : Time

-- The label of the first key is the column's default.
abbrev pub initial_key : InitialAdministrator → NewSshKey
initial_key a = record {
  canonical_key = a.canonical_key;
  fingerprint = a.fingerprint;
  label = "initial";
}

-- The key of the administrator is inserted with no map of a failed UNIQUE constraint.
unfoldable pub unmapped : Result Database → Result Database
unmapped (ok db) = ok db
unmapped (err e) = err sqlite

unfoldable pub create_initial_administrator : InitialAdministrator → Database → Result Database
create_initial_administrator a db = do
  guard (count_where (λ _. true) db.accounts == 0) already_initialized
  inserted ← insert_account sqlite a.username true a.created_at db
  with_key ← unmapped (insert_ssh_key inserted.0 (initial_key a) a.created_at inserted.1)
  insert_recovery inserted.0 a.recovery_hash a.created_at with_key

unfoldable pub create_signup_invitation : Hash → Time → Time → Database → Result Database
create_signup_invitation code_hash created_at expires_at db =
    guard (is_none (find (λ i. i.code_hash == code_hash) db.signup_invitations)) sqlite
    >> ok (record db {
      signup_invitations =
          record {
            code_hash = code_hash;
            created_at = created_at;
            expires_at = expires_at;
            consumed_at = none;
          }
          ∷ db.signup_invitations;
    })

pub record InvitedAccount : Type 0 where
  pub invitation_hash : Hash
  pub username : String
  pub key : NewSshKey
  pub recovery_hash : Hash
  pub created_at : Time
  pub correlation_id : String

-- `code_hash = ?1 AND consumed_at IS NULL AND expires_at >= ?2`
abbrev pub redeemable : Hash → Time → SignupInvitation → Bool
redeemable code_hash now i =
    i.code_hash == code_hash && is_none i.consumed_at && leb now i.expires_at

abbrev pub redeem : Hash → Time → List SignupInvitation → List SignupInvitation
redeem code_hash now =
    update_where (redeemable code_hash now) (λ i. record i { consumed_at = some now })

unfoldable pub create_account_with_invitation : InvitedAccount → Database → Result Database
create_account_with_invitation a db = do
  guard (count_where (redeemable a.invitation_hash a.created_at) db.signup_invitations == 1)
      invalid_invitation
  let consumed = record db {
    signup_invitations = redeem a.invitation_hash a.created_at db.signup_invitations;
  }
  inserted ← insert_account (username_unavailable a.username) a.username false a.created_at consumed
  with_key ← insert_ssh_key inserted.0 a.key a.created_at inserted.1
  with_recovery ← insert_recovery inserted.0 a.recovery_hash a.created_at with_key
  ok (
      insert_audit_event
        (record {
          action = "account.signup";
          actor = a.username;
          target = a.username;
          outcome = "success";
          correlation_id = a.correlation_id;
          created_at = a.created_at;
        })
        with_recovery)

pub record AccountRecovery : Type 0 where
  pub username : String
  pub old_recovery_hash : Hash
  pub key : NewSshKey
  pub new_recovery_hash : Hash
  pub created_at : Time
  pub correlation_id : String

-- The join of an active account with its recovery credential.
abbrev pub recovers : String → Hash → List RecoveryCredential → Account → Bool
recovers username hash credentials a =
    named_active username a
    && is_some (find (λ c. c.account_id == a.id && c.credential_hash == hash) credentials)

abbrev pub revoke_live_keys : ℕ → Time → List SshPublicKey → List SshPublicKey
revoke_live_keys account_id now =
    update_where (live_key_of account_id) (λ k. record k { revoked_at = some now })

abbrev pub own_fingerprint : ℕ → String → SshPublicKey → Bool
own_fingerprint account_id fingerprint k =
    k.account_id == account_id && str_eq k.fingerprint fingerprint

-- A key of the account with another fingerprint and the same text: the UPDATE would make two.
abbrev other_canonical : ℕ → NewSshKey → SshPublicKey → Bool
other_canonical account_id key k =
    k.account_id == account_id
    && str_eq k.canonical_key key.canonical_key
    && not (str_eq k.fingerprint key.fingerprint)

-- The UPDATE of a key that the account had before.
abbrev pub restored : NewSshKey → SshPublicKey → SshPublicKey
restored key k = record k {
  canonical_key = key.canonical_key;
  label = key.label;
  revoked_at = none;
}

abbrev pub with_fingerprint : String → SshPublicKey → Bool
with_fingerprint fingerprint k = str_eq k.fingerprint fingerprint

-- `match existing { … }` of recover_account.
unfoldable pub restore_key : ℕ → NewSshKey → Time → Database → Option SshPublicKey → Result Database
restore_key account_id key now db none = insert_ssh_key account_id key now db
restore_key account_id key now db (some k) =
    guard (k.account_id == account_id) key_exists
    >> (guard (is_none (find (other_canonical account_id key) db.ssh_public_keys)) sqlite
        >> ok (record db {
          ssh_public_keys =
              update_where (own_fingerprint account_id key.fingerprint) (restored key)
                db.ssh_public_keys;
        }))

-- UPDATE recovery_credential: the new hash may not be another account's.
unfoldable pub replace_recovery : ℕ → Hash → Time → Database → Result Database
replace_recovery account_id hash now db =
    guard
      (is_none (
        find (λ c. not (c.account_id == account_id) && c.credential_hash == hash)
          db.recovery_credentials))
      sqlite
    >> ok (record db {
      recovery_credentials =
          update_where (λ c. c.account_id == account_id)
            (λ c. record c { credential_hash = hash; created_at = now }) db.recovery_credentials;
    })

unfoldable pub recover_account : AccountRecovery → Database → Result Database
recover_account r db = do
  account ←
      ok_or (find (recovers r.username r.old_recovery_hash db.recovery_credentials) db.accounts)
        invalid_recovery
  let revoked = record db {
    ssh_public_keys = revoke_live_keys account.id r.created_at db.ssh_public_keys;
  }
  let existing = find (with_fingerprint r.key.fingerprint) revoked.ssh_public_keys
  with_key ← restore_key account.id r.key r.created_at revoked existing
  replaced ← replace_recovery account.id r.new_recovery_hash r.created_at with_key
  let ended = end_sessions account.id r.created_at replaced
  ok (
      insert_audit_event
        (record {
          action = "account.recover";
          actor = r.username;
          target = r.username;
          outcome = "success";
          correlation_id = r.correlation_id;
          created_at = r.created_at;
        })
        (revoke_feed_tokens account.id r.created_at ended))

abbrev suspend_action : Bool → String
suspend_action true = "account.suspend"
suspend_action false = "account.resume"

unfoldable pub suspend_account : String → Bool → Time → String → String → Database → Result Database
suspend_account username suspend changed_at actor correlation_id db = do
  guard (count_where (named username) db.accounts == 1) (account_not_found username)
  let changed = record db {
    accounts =
        update_where (named username)
          (λ a. record a {
            state = if suspend then AccountState.suspended else AccountState.active;
          })
          db.accounts;
  }
  account ← ok_or (find (named username) changed.accounts) sqlite
  let ended = end_sessions account.id changed_at changed
  ok (
      insert_audit_event
        (record {
          action = suspend_action suspend;
          actor = actor;
          target = username;
          outcome = "success";
          correlation_id = correlation_id;
          created_at = changed_at;
        })
        (if suspend then revoke_feed_tokens account.id changed_at ended else ended))
