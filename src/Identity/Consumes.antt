-- ===== src/Identity/Consumes.antt =====
-- What the calls of src/store/mod.rs do to the nonces and the approvals that wait for a login: all
-- but the two that issue one only use them up.
use tit.Identity.LoginTables.{
  Consumes, SameLogins, same_tables, insert_ssh_key-SameLogins, insert_recovery-SameLogins,
  replace_recovery-SameLogins, insert_account-SameLogins, insert_web_session-SameLogins,
  unmapped-SameLogins, restore_key-SameLogins, consume_account_key_authorization-Consumes,
}
use tit.Prelude.{String, refl, ◌∙◌, Bool, true, false, arith, if◌then◌else◌}
use tit.Prelude.Tables.{count-update-le}
use tit.Store.Error.{Ensures, Ensures-ok, Ensures-guard, Ensures-bind, Ensures-ok_or}
use tit.Store.Schema.{Database, Hash, Time}
use tit.Store.Common.{NewSshKey, end_sessions, revoke_feed_tokens, insert_audit_event}
use tit.Store.Accounts.{
  InitialAdministrator, InvitedAccount, AccountRecovery, create_initial_administrator,
  create_signup_invitation, create_account_with_invitation, recover_account, suspend_account,
}
use tit.Store.Keys.{
  AccountKeyAuthorization, add_account_key, revoke_account_key, complete_account_key_add,
  complete_account_key_revoke, unconsumed, ends_with_key, revoke_where, live_key_at,
}
use tit.Store.Login.{
  NewWebSession, ApproveLogin, NewApprovedWebSession, consume_login_nonce, approve_login,
  consume_login_approval, end_account_sessions, unconsumed_nonce,
}

pub consume_login_nonce-Consumes :
    (l : NewWebSession) (db : Database) → Ensures (Consumes db) (consume_login_nonce l db)
unfolding consume_login_nonce insert_audit_event
consume_login_nonce-Consumes l db = Ensures-ok_or _ _ _ λ n _. Ensures-ok_or _ _ _ λ a _.
    Ensures-ok_or _ _ _ λ k _. Ensures-guard _ _ _ λ _. Ensures-bind _ _ λ opened e.
      let same = (insert_web_session-SameLogins _ _).at opened e in
      Ensures-ok _ (record {
        nonces = λ h.
            rw same.0
              (count-update-le (unconsumed_nonce h) _ _ db.login_nonces (λ r p. ground arith));
        approvals = λ h. rw same.1 (omega arith);
        nonce_rows = rw same.0 (count-update-le (λ _. true) _ _ db.login_nonces (λ r p. refl));
        approval_rows = rw same.1 (omega arith);
      })

pub consume_login_approval-Consumes :
    (l : NewApprovedWebSession) (db : Database)
    → Ensures (λ r. Consumes db r.1) (consume_login_approval l db)
unfolding consume_login_approval insert_audit_event
consume_login_approval-Consumes l db = Ensures-ok_or _ _ _ λ p _. Ensures-ok_or _ _ _ λ a _.
    Ensures-guard _ _ _ λ _. Ensures-bind _ _ λ opened e.
      let same = (insert_web_session-SameLogins _ _).at opened e in
      Ensures-ok _ (record {
        nonces = λ h. rw same.0 (omega arith);
        approvals = λ h.
            rw same.1
              (count-update-le (unconsumed h) _ _ db.ssh_login_approvals (λ r p. ground arith));
        nonce_rows = rw same.0 (omega arith);
        approval_rows =
            rw same.1 (count-update-le (λ _. true) _ _ db.ssh_login_approvals (λ r p. refl));
      })

pub approve_login-Consumes :
    (a : ApproveLogin) (db : Database) → Ensures (Consumes db) (approve_login a db)
unfolding approve_login
approve_login-Consumes a db = Ensures-ok_or _ _ _ λ u _. Ensures-ok_or _ _ _ λ k _.
    Ensures-guard _ _ _ λ _. Ensures-ok _ (record {
      nonces = λ h. omega arith;
      approvals =
          λ h. count-update-le (unconsumed h) _ _ db.ssh_login_approvals (λ r p. ground arith);
      nonce_rows = omega arith;
      approval_rows = count-update-le (λ _. true) _ _ db.ssh_login_approvals (λ r p. refl);
    })

module _ (db : Database) where
  pub create_initial_administrator-Consumes :
      (a : InitialAdministrator) → Ensures (Consumes db) (create_initial_administrator a db)
  unfolding create_initial_administrator
  create_initial_administrator-Consumes a = Ensures-guard _ _ _ λ _. Ensures-bind _ _ λ r e.
      Ensures-bind _ _ λ db₂ e₂. record {
        at = λ db₃ e₃.
            let s₁ = (insert_account-SameLogins db _ _ _ _).at r e in
            let s₂ = (unmapped-SameLogins r.1 _ (insert_ssh_key-SameLogins r.1 _ _ _)).at db₂ e₂ in
            let s₃ = (insert_recovery-SameLogins db₂ _ _ _).at db₃ e₃ in
            same_tables db db₃ (s₃.0 ∙ s₂.0 ∙ s₁.0) (s₃.1 ∙ s₂.1 ∙ s₁.1);
      }

  pub create_signup_invitation-Consumes :
      (h : Hash) (t u : Time) → Ensures (Consumes db) (create_signup_invitation h t u db)
  unfolding create_signup_invitation
  create_signup_invitation-Consumes h t u =
      Ensures-guard _ _ _ λ _. Ensures-ok _ (same_tables db _ refl refl)

  pub create_account_with_invitation-Consumes :
      (a : InvitedAccount) → Ensures (Consumes db) (create_account_with_invitation a db)
  unfolding create_account_with_invitation insert_audit_event
  create_account_with_invitation-Consumes a = Ensures-guard _ _ _ λ _. Ensures-bind _ _ λ r e.
      Ensures-bind _ _ λ db₂ e₂. Ensures-bind _ _ λ db₃ e₃.
        let s₁ = (insert_account-SameLogins _ _ _ _ _).at r e in
        let s₂ = (insert_ssh_key-SameLogins r.1 _ _ _).at db₂ e₂ in
        let s₃ = (insert_recovery-SameLogins db₂ _ _ _).at db₃ e₃ in
        Ensures-ok _ (same_tables db _ (s₃.0 ∙ s₂.0 ∙ s₁.0) (s₃.1 ∙ s₂.1 ∙ s₁.1))

  pub recover_account-Consumes :
      (r : AccountRecovery) → Ensures (Consumes db) (recover_account r db)
  unfolding recover_account end_sessions revoke_feed_tokens insert_audit_event
  recover_account-Consumes r = Ensures-ok_or _ _ _ λ a _. Ensures-bind _ _ λ db₁ e₁.
      Ensures-bind _ _ λ db₂ e₂.
        let s₁ = (restore_key-SameLogins _ a.id r.key r.created_at _).at db₁ e₁ in
        let s₂ = (replace_recovery-SameLogins db₁ _ _ _).at db₂ e₂ in
        Ensures-ok _ (same_tables db _ (s₂.0 ∙ s₁.0) (s₂.1 ∙ s₁.1))

  pub suspend_account-Consumes :
      (u : String) (b : Bool) (t : Time) (actor c : String)
      → Ensures (Consumes db) (suspend_account u b t actor c db)
  unfolding suspend_account end_sessions revoke_feed_tokens insert_audit_event
  suspend_account-Consumes u true t actor c =
      Ensures-guard _ _ _ λ _. Ensures-ok_or _ _ _ λ a _. Ensures-ok _ (same_tables db _ refl refl)
  suspend_account-Consumes u false t actor c =
      Ensures-guard _ _ _ λ _. Ensures-ok_or _ _ _ λ a _. Ensures-ok _ (same_tables db _ refl refl)

  pub add_account_key-Consumes :
      (u : String) (k : NewSshKey) (t : Time) (actor c : String)
      → Ensures (Consumes db) (add_account_key u k t actor c db)
  unfolding add_account_key end_sessions insert_audit_event
  add_account_key-Consumes u k t actor c = Ensures-bind _ _ λ id _. Ensures-bind _ _ λ db₁ e.
      let s = (insert_ssh_key-SameLogins db _ _ _).at db₁ e in
      Ensures-ok _ (same_tables db _ s.0 s.1)

  pub revoke_account_key-Consumes :
      (u f : String) (t : Time) (actor c : String)
      → Ensures (Consumes db) (revoke_account_key u f t actor c db)
  unfolding revoke_account_key end_sessions insert_audit_event
  revoke_account_key-Consumes u f t actor c = Ensures-bind _ _ λ id _.
      Ensures-guard _ _ _ λ _. Ensures-guard _ _ _ λ _. Ensures-ok _ (same_tables db _ refl refl)

  pub end_account_sessions-Consumes :
      (u : String) (t : Time) → Ensures (Consumes db) (end_account_sessions u t db)
  unfolding end_account_sessions end_sessions
  end_account_sessions-Consumes u t =
      Ensures-ok_or _ _ _ λ a _. Ensures-ok _ (same_tables db _ refl refl)

-- A step that leaves the login tables, after one that uses them up.
then_same : (db db₁ db₂ : Database) → Consumes db db₁ → SameLogins db₁ db₂ → Consumes db db₂
then_same db db₁ db₂ c s = record {
  nonces = λ h. rw s.0 (c.nonces h);
  approvals = λ h. rw s.1 (c.approvals h);
  nonce_rows = rw s.0 c.nonce_rows;
  approval_rows = rw s.1 c.approval_rows;
}

pub complete_account_key_add-Consumes :
    (a : AccountKeyAuthorization) (k : NewSshKey) (db : Database)
    → Ensures (Consumes db) (complete_account_key_add a k db)
unfolding complete_account_key_add insert_audit_event
complete_account_key_add-Consumes a k db = Ensures-bind _ _ λ r e. Ensures-guard _ _ _ λ _.
    Ensures-bind _ _ λ db₁ e₁. Ensures-ok _ (
      then_same db r.1 _ ((consume_account_key_authorization-Consumes a db).at r e)
        ((insert_ssh_key-SameLogins r.1 _ _ _).at db₁ e₁))

if-SameLogins :
    (b : Bool) (db x y : Database)
    → SameLogins db x
    → SameLogins db y
    → SameLogins db (if b then x else y)
if-SameLogins true db x y h k = h
if-SameLogins false db x y h k = k

pub complete_account_key_revoke-Consumes :
    (a : AccountKeyAuthorization) (f : String) (db : Database)
    → Ensures (Consumes db) (complete_account_key_revoke a f db)
unfolding complete_account_key_revoke end_sessions insert_audit_event
complete_account_key_revoke-Consumes a f db = Ensures-bind _ _ λ r e. Ensures-guard _ _ _ λ _.
    Ensures-ok_or _ _ _ λ key _. Ensures-guard _ _ _ λ _.
      let left = revoke_where (live_key_at key.id r.0.0) a.changed_at r.1 in
      let s =
        if-SameLogins (ends_with_key r.0.1 key.id) r.1 (end_sessions r.0.0 a.changed_at left) left
          (refl, refl) (refl, refl) in
      Ensures-ok _ (then_same db r.1 _ ((consume_account_key_authorization-Consumes a db).at r e) s)
