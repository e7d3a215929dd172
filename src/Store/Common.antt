-- ===== src/Store/Common.antt =====
-- The statements that several operations of src/store/mod.rs share.
use tit.Prelude.{String, ℕ, Bool, ◌&&◌, ◌||◌, none, some, ◌∷◌, ◌==◌, str_eq, is_none}
use tit.Prelude.Tables.{find, update_where, next_rowid}
use tit.Store.Error.{
  StoreError, Result, ok, account_not_found, key_exists, guard, ok_or, ◌>>=◌, ◌>>◌,
}
use tit.Store.Schema.{
  Database, Account, SshPublicKey, WebSession, FeedToken, AuditEvent, Namespace, NamespaceKind,
  AccountState, Time, is_active,
}

pub record NewSshKey : Type 0 where
  pub canonical_key : String
  pub fingerprint : String
  pub label : String

-- `username = ?1`, and `username = ?1 AND state = 'active'`
abbrev pub named : String → Account → Bool
named username a = str_eq a.username username

abbrev pub named_active : String → Account → Bool
named_active username a = str_eq a.username username && is_active a.state

unfoldable pub active_account_id : Database → String → Result ℕ
active_account_id db username =
    ok_or (find (named_active username) db.accounts) (account_not_found username) >>= λ a. ok a.id

abbrev pub live_key_of : ℕ → SshPublicKey → Bool
live_key_of account_id k = k.account_id == account_id && is_none k.revoked_at

-- The rows that UNIQUE (fingerprint) and UNIQUE (account_id, canonical_key) hold apart.
abbrev pub key_collides : ℕ → NewSshKey → SshPublicKey → Bool
key_collides account_id key k =
    str_eq k.fingerprint key.fingerprint
    || (k.account_id == account_id && str_eq k.canonical_key key.canonical_key)

unfoldable pub insert_ssh_key : ℕ → NewSshKey → Time → Database → Result Database
insert_ssh_key account_id key created_at db =
    guard (is_none (find (key_collides account_id key) db.ssh_public_keys)) key_exists
    >> ok (record db {
      ssh_public_keys =
          record {
            id = next_rowid (λ k. k.id) db.ssh_public_keys;
            account_id = account_id;
            canonical_key = key.canonical_key;
            fingerprint = key.fingerprint;
            created_at = created_at;
            label = key.label;
            revoked_at = none;
          }
          ∷ db.ssh_public_keys;
    })

abbrev pub live_session_of : ℕ → WebSession → Bool
live_session_of account_id s = s.account_id == account_id && is_none s.ended_at

unfoldable pub end_sessions : ℕ → Time → Database → Database
end_sessions account_id ended_at db = record db {
  web_sessions =
      update_where (live_session_of account_id) (λ s. record s { ended_at = some ended_at })
        db.web_sessions;
}

abbrev pub live_token_of : ℕ → FeedToken → Bool
live_token_of account_id t = t.account_id == account_id && is_none t.revoked_at

unfoldable pub revoke_feed_tokens : ℕ → Time → Database → Database
revoke_feed_tokens account_id revoked_at db = record db {
  feed_tokens =
      update_where (live_token_of account_id) (λ t. record t { revoked_at = some revoked_at })
        db.feed_tokens;
}

-- The audit table has no UNIQUE constraint but its rowid, so the statement succeeds.
unfoldable pub insert_audit_event : AuditEvent → Database → Database
insert_audit_event event db = record db { audit_events = event ∷ db.audit_events }

-- INSERT INTO account, with the trigger that inserts the account's namespace. A failed UNIQUE
-- constraint, of the username or of the slug of a namespace, is the error `taken`.
unfoldable pub insert_account : StoreError → String → Bool → Time → Database → Result (ℕ × Database)
insert_account taken username is_administrator created_at db =
    let id = next_rowid (λ (a : Account). a.id) db.accounts in
    guard
      (is_none (find (named username) db.accounts)
        && is_none (find (λ (n : Namespace). str_eq n.slug username) db.namespaces))
      taken
    >> ok (
      id,
      record db {
        accounts =
            record {
              id = id;
              username = username;
              is_administrator = is_administrator;
              state = AccountState.active;
              created_at = created_at;
            }
            ∷ db.accounts;
        namespaces =
            record {
              id = next_rowid (λ n. n.id) db.namespaces;
              slug = username;
              kind = NamespaceKind.account;
              account_id = some id;
              created_at = created_at;
            }
            ∷ db.namespaces;
      },
    )
