-- ===== src/Recovery.antt =====
-- What recovering an account ends: src/store/mod.rs, recover_account.
mod Tests
use mathlib.Core.Bool.{false≢true}
use tit.Prelude.{
  String, ℕ, ◌≡◌, ◌≤◌, refl, sym, ap, ◌∙◌, Bool, true, false, ◌&&◌, ◌||◌, not, Option, none, some,
  List, ◌∷◌, ◌==◌, ==_refl, str_eq, eq_refl, is_none, is_some, if◌then◌else◌, arith, Bool-cases,
  inl, inr, ◌+◌,
}
use tit.Prelude.Tables.{
  find, count_where, update_where, count-update_none, count-update_same, next_rowid,
}
use tit.Store.Error.{
  Result, ok, err, Ensures, Ensures-ok, Ensures-guard, Ensures-bind, Ensures-ok_or,
}
use tit.Store.Schema.{Database, Account, SshPublicKey, WebSession, FeedToken, Hash, Time}
use tit.Store.Common.{
  NewSshKey, insert_ssh_key, insert_audit_event, end_sessions, revoke_feed_tokens, live_key_of,
  live_session_of, live_token_of,
}
use tit.Store.Accounts.{
  AccountRecovery, recovers, revoke_live_keys, own_fingerprint, restored, with_fingerprint,
  restore_key, replace_recovery, recover_account,
}

-- A live key of the account with another fingerprint.
abbrev pub other_live_key : ℕ → String → SshPublicKey → Bool
other_live_key a fingerprint k = live_key_of a k && not (str_eq k.fingerprint fingerprint)

-- No live key of the account but those with the fingerprint.
abbrev OnlyKey : ℕ → String → List SshPublicKey → Type 0
OnlyKey a fingerprint keys = count_where (other_live_key a fingerprint) keys ≡ 0

revoke_live_keys-OnlyKey :
    (a : ℕ) (f : String) (t : Time) (keys : List SshPublicKey)
    → OnlyKey a f (revoke_live_keys a t keys)
revoke_live_keys-OnlyKey a f t keys =
    count-update_none (other_live_key a f) (live_key_of a) (λ k. record k { revoked_at = some t })
      keys (λ k. ground arith)

restored-OnlyKey :
    (a : ℕ) (key : NewSshKey) (keys : List SshPublicKey)
    → OnlyKey a key.fingerprint keys
    → OnlyKey a key.fingerprint
        (update_where (own_fingerprint a key.fingerprint) (restored key) keys)
restored-OnlyKey a key keys h =
    count-update_same (other_live_key a key.fingerprint) (own_fingerprint a key.fingerprint)
      (restored key) keys (λ k e. ground arith)
    ∙ h

restore_key-OnlyKey :
    (a : ℕ) (key : NewSshKey) (t : Time) (db : Database) (o : Option SshPublicKey)
    → OnlyKey a key.fingerprint db.ssh_public_keys
    → Ensures (λ r. OnlyKey a key.fingerprint r.ssh_public_keys) (restore_key a key t db o)
unfolding restore_key insert_ssh_key count_where
restore_key-OnlyKey a key t db none h =
    Ensures-guard _ _ _
      λ _. Ensures-ok _ (rw (==_refl a, eq_refl key.fingerprint) (omega (arith, h)))
restore_key-OnlyKey a key t db (some k) h =
    Ensures-guard _ _ _
      λ _. Ensures-guard _ _ _ λ _. Ensures-ok _ (restored-OnlyKey a key db.ssh_public_keys h)

replace_recovery-keys :
    (a : ℕ) (h : Hash) (t : Time) (db : Database)
    → Ensures (λ r. r.ssh_public_keys ≡ db.ssh_public_keys) (replace_recovery a h t db)
unfolding replace_recovery
replace_recovery-keys a h t db = Ensures-guard _ _ _ λ _. Ensures-ok _ refl

-- What a recovery leaves: no live session and no live feed token of the account, and no live key but
-- the new one.
pub record IsRecovered (a : ℕ) (fingerprint : String) (db : Database) : Type 0 where
  pub sessions : count_where (live_session_of a) db.web_sessions ≡ 0
  pub tokens : count_where (live_token_of a) db.feed_tokens ≡ 0
  pub keys : count_where (other_live_key a fingerprint) db.ssh_public_keys ≡ 0

ended-IsRecovered :
    (a : ℕ) (f : String) (t : Time) (db : Database)
    → OnlyKey a f db.ssh_public_keys
    → IsRecovered a f (revoke_feed_tokens a t (end_sessions a t db))
unfolding revoke_feed_tokens end_sessions
ended-IsRecovered a f t db h = record {
  sessions =
      count-update_none (live_session_of a) (live_session_of a)
        (λ s. record s { ended_at = some t }) db.web_sessions (λ s. ground arith);
  tokens =
      count-update_none (live_token_of a) (live_token_of a) (λ s. record s { revoked_at = some t })
        db.feed_tokens (λ s. ground arith);
  keys = h;
}

-- A recovery that succeeds is one of an active account whose name and recovery credential are given,
-- and after it this account has no live session, no live feed token and no live key but the new one.
pub recover_account-ends :
    (r : AccountRecovery) (db db' : Database)
    → recover_account r db ≡ ok db'
    → (account : Account) × (find
          (recovers r.username r.old_recovery_hash db.recovery_credentials)
          db.accounts
        ≡ some account)
      × IsRecovered account.id r.key.fingerprint db'
recover_account-ends r db db' e = all.at db' e
  where
    all :
        Ensures
          (λ x.
            (account : Account) × (find
                (recovers r.username r.old_recovery_hash db.recovery_credentials)
                db.accounts
              ≡ some account)
            × IsRecovered account.id r.key.fingerprint x)
          (recover_account r db)
    all =
        unfold recover_account in
        unfold insert_audit_event in
        Ensures-ok_or _ _ _ λ account found. Ensures-bind _ _ λ db₂ e₂. Ensures-bind _ _ λ db₃ e₃.
          let revoked =
            revoke_live_keys-OnlyKey account.id r.key.fingerprint r.created_at db.ssh_public_keys in
          let only = (restore_key-OnlyKey account.id r.key r.created_at _ _ revoked).at db₂ e₂ in
          let same =
            (replace_recovery-keys account.id r.new_recovery_hash r.created_at db₂).at db₃ e₃ in
          let done =
            ended-IsRecovered account.id r.key.fingerprint r.created_at db₃ (rw same only) in
          Ensures-ok _ (
            account,
            found,
            record { sessions = done.sessions; tokens = done.tokens; keys = done.keys },
          )
