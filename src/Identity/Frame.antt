-- ===== src/Identity/Frame.antt =====
-- The operations of src/store/mod.rs on logins, and the statements on recovery credentials, leave
-- the accounts and the keys as they are.
use tit.Prelude.{String, ℕ, ◌≡◌, refl}
use tit.Store.Error.{Ensures, Ensures-ok, Ensures-guard, Ensures-bind, Ensures-ok_or}
use tit.Store.Schema.{Database, WebSession, Hash, Time}
use tit.Store.Common.{end_sessions, insert_audit_event}
use tit.Store.Accounts.{insert_recovery, replace_recovery, create_signup_invitation}
use tit.Store.Keys.{AccountKeyAuthorization, consume_account_key_authorization}
use tit.Store.Login.{
  NewLoginNonce, NewWebSession, NewLoginApproval, ApproveLogin, NewApprovedWebSession,
  create_login_nonce, consume_login_nonce, create_login_approval, approve_login,
  consume_login_approval, end_account_sessions, insert_web_session,
}

-- The two databases have the same accounts and the same keys.
abbrev pub SameKeys : Database → Database → Type 0
SameKeys db db' = (db'.accounts ≡ db.accounts) × (db'.ssh_public_keys ≡ db.ssh_public_keys)

module _ (db : Database) where
  pub insert_recovery-SameKeys :
      (id : ℕ) (h : Hash) (t : Time) → Ensures (SameKeys db) (insert_recovery id h t db)
  unfolding insert_recovery
  insert_recovery-SameKeys id h t = Ensures-guard _ _ _ λ _. Ensures-ok _ (refl, refl)

  pub replace_recovery-SameKeys :
      (id : ℕ) (h : Hash) (t : Time) → Ensures (SameKeys db) (replace_recovery id h t db)
  unfolding replace_recovery
  replace_recovery-SameKeys id h t = Ensures-guard _ _ _ λ _. Ensures-ok _ (refl, refl)

  pub create_signup_invitation-SameKeys :
      (h : Hash) (t u : Time) → Ensures (SameKeys db) (create_signup_invitation h t u db)
  unfolding create_signup_invitation
  create_signup_invitation-SameKeys h t u = Ensures-guard _ _ _ λ _. Ensures-ok _ (refl, refl)

  pub insert_web_session-SameKeys :
      (s : WebSession) → Ensures (SameKeys db) (insert_web_session s db)
  unfolding insert_web_session
  insert_web_session-SameKeys s = Ensures-guard _ _ _ λ _. Ensures-ok _ (refl, refl)

  pub consume_account_key_authorization-SameKeys :
      (a : AccountKeyAuthorization)
      → Ensures (λ r. SameKeys db r.1) (consume_account_key_authorization a db)
  unfolding consume_account_key_authorization
  consume_account_key_authorization-SameKeys a =
      Ensures-ok_or _ _ _
        λ s _. Ensures-guard _ _ _ λ _. Ensures-guard _ _ _ λ _. Ensures-ok _ (refl, refl)

  pub create_login_nonce-SameKeys :
      (n : NewLoginNonce) → Ensures (SameKeys db) (create_login_nonce n db)
  unfolding create_login_nonce
  create_login_nonce-SameKeys n =
      Ensures-guard _ _ _
        λ _. Ensures-ok_or _ _ _ λ a _. Ensures-guard _ _ _ λ _. Ensures-ok _ (refl, refl)

  pub create_login_approval-SameKeys :
      (a : NewLoginApproval) → Ensures (SameKeys db) (create_login_approval a db)
  unfolding create_login_approval
  create_login_approval-SameKeys a =
      Ensures-guard _ _ _
        λ _. Ensures-bind _ _ λ e _. Ensures-guard _ _ _ λ _. Ensures-ok _ (refl, refl)

  pub approve_login-SameKeys : (a : ApproveLogin) → Ensures (SameKeys db) (approve_login a db)
  unfolding approve_login
  approve_login-SameKeys a =
      Ensures-ok_or _ _ _
        λ u _. Ensures-ok_or _ _ _ λ k _. Ensures-guard _ _ _ λ _. Ensures-ok _ (refl, refl)

  pub end_account_sessions-SameKeys :
      (u : String) (t : Time) → Ensures (SameKeys db) (end_account_sessions u t db)
  unfolding end_account_sessions end_sessions
  end_account_sessions-SameKeys u t = Ensures-ok_or _ _ _ λ a _. Ensures-ok _ (refl, refl)

pub consume_login_nonce-SameKeys :
    (db : Database) (l : NewWebSession) → Ensures (SameKeys db) (consume_login_nonce l db)
unfolding consume_login_nonce insert_audit_event
consume_login_nonce-SameKeys db l = Ensures-ok_or _ _ _ λ n _. Ensures-ok_or _ _ _ λ a _.
    Ensures-ok_or _ _ _ λ k _.
      Ensures-guard _ _ _ λ _.
        Ensures-bind _ _ λ opened e. Ensures-ok _ ((insert_web_session-SameKeys _ _).at opened e)

pub consume_login_approval-SameKeys :
    (db : Database) (l : NewApprovedWebSession)
    → Ensures (λ r. SameKeys db r.1) (consume_login_approval l db)
unfolding consume_login_approval insert_audit_event
consume_login_approval-SameKeys db l = Ensures-ok_or _ _ _ λ p _. Ensures-ok_or _ _ _ λ a _.
    Ensures-guard _ _ _
      λ _. Ensures-bind _ _ λ opened e. Ensures-ok _ ((insert_web_session-SameKeys _ _).at opened e)
