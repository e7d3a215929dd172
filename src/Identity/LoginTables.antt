-- ===== src/Identity/LoginTables.antt =====
-- The nonces and approvals of src/store/mod.rs that wait for a login, and the statements that leave
-- their tables or use them up.
use tit.Prelude.{String, ℕ, ◌≤◌, ◌≡◌, refl, Bool, true, Option, none, some, arith}
use tit.Prelude.Tables.{count_where, count-update-le}
use tit.Store.Error.{
  StoreError, Result, ok, err, Ensures, Ensures-ok, Ensures-err, Ensures-guard, Ensures-ok_or,
}
use tit.Store.Schema.{Database, SshPublicKey, WebSession, Hash, Time}
use tit.Store.Common.{NewSshKey, insert_ssh_key, insert_account}
use tit.Store.Accounts.{insert_recovery, replace_recovery, restore_key, unmapped}
use tit.Store.Keys.{AccountKeyAuthorization, consume_account_key_authorization, unconsumed}
use tit.Store.Login.{insert_web_session, unconsumed_nonce}

abbrev pub open_nonces : Hash → Database → ℕ
open_nonces h db = count_where (unconsumed_nonce h) db.login_nonces

abbrev pub open_approvals : Hash → Database → ℕ
open_approvals h db = count_where (unconsumed h) db.ssh_login_approvals

abbrev pub all_nonces : Database → ℕ
all_nonces db = count_where (λ _. true) db.login_nonces

abbrev pub all_approvals : Database → ℕ
all_approvals db = count_where (λ _. true) db.ssh_login_approvals

pub record Consumes (db db' : Database) : Type 0 where
  pub nonces : (h : Hash) → open_nonces h db' ≤ open_nonces h db
  pub approvals : (h : Hash) → open_approvals h db' ≤ open_approvals h db
  pub nonce_rows : all_nonces db' ≤ all_nonces db
  pub approval_rows : all_approvals db' ≤ all_approvals db

-- A database whose login tables are those of one that is reached.
pub same_tables :
    (db db' : Database)
    → db'.login_nonces ≡ db.login_nonces
    → db'.ssh_login_approvals ≡ db.ssh_login_approvals
    → Consumes db db'
same_tables db db' n a = record {
  nonces = λ h. rw n (omega arith);
  approvals = λ h. rw a (omega arith);
  nonce_rows = rw n (omega arith);
  approval_rows = rw a (omega arith);
}

-- The two tables, as a pair, so that one equation says that a statement leaves both.
abbrev pub SameLogins : Database → Database → Type 0
SameLogins db db' =
    (db'.login_nonces ≡ db.login_nonces) × (db'.ssh_login_approvals ≡ db.ssh_login_approvals)

module _ (db : Database) where
  pub insert_ssh_key-SameLogins :
      (id : ℕ) (k : NewSshKey) (t : Time) → Ensures (SameLogins db) (insert_ssh_key id k t db)
  unfolding insert_ssh_key
  insert_ssh_key-SameLogins id k t = Ensures-guard _ _ _ λ _. Ensures-ok _ (refl, refl)

  pub insert_recovery-SameLogins :
      (id : ℕ) (h : Hash) (t : Time) → Ensures (SameLogins db) (insert_recovery id h t db)
  unfolding insert_recovery
  insert_recovery-SameLogins id h t = Ensures-guard _ _ _ λ _. Ensures-ok _ (refl, refl)

  pub replace_recovery-SameLogins :
      (id : ℕ) (h : Hash) (t : Time) → Ensures (SameLogins db) (replace_recovery id h t db)
  unfolding replace_recovery
  replace_recovery-SameLogins id h t = Ensures-guard _ _ _ λ _. Ensures-ok _ (refl, refl)

  pub insert_account-SameLogins :
      (e : StoreError) (u : String) (b : Bool) (t : Time)
      → Ensures (λ r. SameLogins db r.1) (insert_account e u b t db)
  unfolding insert_account
  insert_account-SameLogins e u b t = Ensures-guard _ _ _ λ _. Ensures-ok _ (refl, refl)

  pub insert_web_session-SameLogins :
      (s : WebSession) → Ensures (SameLogins db) (insert_web_session s db)
  unfolding insert_web_session
  insert_web_session-SameLogins s = Ensures-guard _ _ _ λ _. Ensures-ok _ (refl, refl)

pub unmapped-SameLogins :
    (db : Database) (m : Result Database)
    → Ensures (SameLogins db) m
    → Ensures (SameLogins db) (unmapped m)
unfolding unmapped
unmapped-SameLogins db (ok db') h = h
unmapped-SameLogins db (err e) h = Ensures-err _

pub restore_key-SameLogins :
    (db : Database) (id : ℕ) (k : NewSshKey) (t : Time) (existing : Option SshPublicKey)
    → Ensures (SameLogins db) (restore_key id k t db existing)
unfolding restore_key
restore_key-SameLogins db id k t none = insert_ssh_key-SameLogins db id k t
restore_key-SameLogins db id k t (some r) =
    Ensures-guard _ _ _ λ _. Ensures-guard _ _ _ λ _. Ensures-ok _ (refl, refl)

-- An approval that is consumed, and what the call does after that.
pub consume_account_key_authorization-Consumes :
    (a : AccountKeyAuthorization) (db : Database)
    → Ensures (λ r. Consumes db r.1) (consume_account_key_authorization a db)
unfolding consume_account_key_authorization
consume_account_key_authorization-Consumes a db = Ensures-ok_or _ _ _ λ s _.
    Ensures-guard _ _ _ λ _. Ensures-guard _ _ _ λ _. Ensures-ok _ (record {
      nonces = λ h. omega arith;
      approvals =
          λ h. count-update-le (unconsumed h) _ _ db.ssh_login_approvals (λ r p. ground arith);
      nonce_rows = omega arith;
      approval_rows = count-update-le (λ _. true) _ _ db.ssh_login_approvals (λ r p. ground arith);
    })
