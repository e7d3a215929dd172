-- ===== src/Identity/HasKey.antt =====
-- No account is locked out: each keeps a key that is not revoked, whatever calls of
-- src/store/mod.rs are made.
use tit.Identity.LiveKeys.{
  Keyed, HasKey, HasKey-frame, revoke_where-Keyed, HasKey-step, insert_ssh_key-Grows,
  restore_key-Grows, recovered-keyed, insert_account-Inserted, unmapped-Ensures, created-HasKey,
  if-HasKey,
}
use tit.Identity.Reach.{
  Call, setup, invite, signup, recover, suspend, add_key, revoke_key, complete_add, complete_revoke,
  issue_nonce, consume_nonce, issue_approval, approve, complete_approval, end_all, exec, after, run,
  after-Ensures,
}
use tit.Prelude.{String, refl, ◌∙◌, Bool, true, false, List, [], ◌∷◌, arith, ltb→lt, ==_iff}
use tit.Prelude.Tables.{All-update}
use tit.Store.Error.{
  sqlite, Result, Ensures, Ensures-ok, Ensures-guard, Ensures-bind, Ensures-ok_or,
}
use tit.Store.Schema.{Database, Time}
use tit.Store.Common.{NewSshKey, end_sessions, insert_audit_event, revoke_feed_tokens}
use tit.Store.Accounts.{
  AccountRecovery, InitialAdministrator, InvitedAccount, initial_key, create_initial_administrator,
  create_account_with_invitation, suspend_account, recover_account,
}
use tit.Identity.Frame.{
  SameKeys, create_signup_invitation-SameKeys, create_login_nonce-SameKeys,
  create_login_approval-SameKeys, approve_login-SameKeys, consume_login_nonce-SameKeys,
  consume_login_approval-SameKeys, end_account_sessions-SameKeys, insert_recovery-SameKeys,
  consume_account_key_authorization-SameKeys, replace_recovery-SameKeys,
}
use tit.Store.Keys.{
  revoke_account_key, live_key_named, live_key_at, revoke_where, add_account_key,
  AccountKeyAuthorization, complete_account_key_add, complete_account_key_revoke, ends_with_key,
}

pub revoke_account_key-HasKey :
    (username fingerprint : String) (now : Time) (actor correlation_id : String) (db : Database)
    → HasKey db
    → Ensures HasKey (revoke_account_key username fingerprint now actor correlation_id db)
unfolding revoke_account_key end_sessions insert_audit_event
revoke_account_key-HasKey username fingerprint now actor correlation_id db inv =
    Ensures-bind _ _ λ id _. Ensures-guard _ _ _ λ two. Ensures-guard _ _ _ λ one.
      Ensures-ok _ (record {
        keyed =
            revoke_where-Keyed (live_key_named id fingerprint) id now db (λ k h. ground arith)
              (ltb→lt _ _ two) ((==_iff _ _).0 one) inv.keyed;
      })

pub recover_account-HasKey :
    (r : AccountRecovery) (db : Database) → HasKey db → Ensures HasKey (recover_account r db)
unfolding recover_account end_sessions revoke_feed_tokens insert_audit_event
recover_account-HasKey r db inv = Ensures-ok_or _ _ _ λ a _. Ensures-bind _ _ λ db₁ e₁.
    Ensures-bind _ _ λ db₂ e₂.
      let same = (replace_recovery-SameKeys db₁ a.id r.new_recovery_hash r.created_at).at db₂ e₂ in
      let grown = (restore_key-Grows a.id r.key r.created_at _ _ refl).at db₁ e₁ in
      Ensures-ok _ (
        HasKey-step db _ (same.0 ∙ grown.0)
          (λ n p. rw same.1 (recovered-keyed a.id n r.created_at r.key db db₁ _ refl e₁ p)) inv)

pub create_initial_administrator-HasKey :
    (a : InitialAdministrator) (db : Database)
    → HasKey db
    → Ensures HasKey (create_initial_administrator a db)
unfolding create_initial_administrator
create_initial_administrator-HasKey a db inv = Ensures-guard _ _ _ λ _. Ensures-bind _ _ λ r e.
    Ensures-bind _ _ λ db₂ e₂. record {
      at = λ db₃ e₃.
          created-HasKey r.0 db r.1 db₂ db₃ inv
            ((insert_account-Inserted sqlite a.username true a.created_at db).at r e)
            ((unmapped-Ensures _ (insert_ssh_key-Grows r.0 (initial_key a) a.created_at r.1)).at db₂
              e₂)
            ((insert_recovery-SameKeys db₂ r.0 a.recovery_hash a.created_at).at db₃ e₃);
    }

pub create_account_with_invitation-HasKey :
    (a : InvitedAccount) (db : Database)
    → HasKey db
    → Ensures HasKey (create_account_with_invitation a db)
unfolding create_account_with_invitation insert_audit_event
create_account_with_invitation-HasKey a db inv = Ensures-guard _ _ _ λ _. Ensures-bind _ _ λ r e.
    Ensures-bind _ _ λ db₂ e₂. Ensures-bind _ _ λ db₃ e₃. Ensures-ok _ (record {
      keyed =
          (created-HasKey r.0 _ r.1 db₂ db₃ (record { keyed = inv.keyed })
            ((insert_account-Inserted _ _ _ _ _).at r e)
            ((insert_ssh_key-Grows r.0 a.key a.created_at r.1).at db₂ e₂)
            ((insert_recovery-SameKeys db₂ r.0 a.recovery_hash a.created_at).at db₃ e₃)).keyed;
    })

pub add_account_key-HasKey :
    (u : String) (key : NewSshKey) (t : Time) (actor c : String) (db : Database)
    → HasKey db
    → Ensures HasKey (add_account_key u key t actor c db)
unfolding add_account_key end_sessions insert_audit_event
add_account_key-HasKey u key t actor c db inv = Ensures-bind _ _ λ id _. Ensures-bind _ _ λ db₁ e.
    let grown = (insert_ssh_key-Grows id key t db).at db₁ e in
    Ensures-ok _ (HasKey-step db _ grown.accounts grown.keep inv)

pub suspend_account-HasKey :
    (u : String) (b : Bool) (t : Time) (actor c : String) (db : Database)
    → HasKey db
    → Ensures HasKey (suspend_account u b t actor c db)
unfolding suspend_account end_sessions revoke_feed_tokens insert_audit_event
suspend_account-HasKey u true t actor c db inv = Ensures-guard _ _ _ λ _. Ensures-ok_or _ _ _ λ a _.
    Ensures-ok _ (record {
      keyed = All-update (Keyed db.ssh_public_keys) _ _ db.accounts (λ r _ h. h) inv.keyed;
    })
suspend_account-HasKey u false t actor c db inv = Ensures-guard _ _ _ λ _.
    Ensures-ok_or _ _ _ λ a _. Ensures-ok _ (record {
      keyed = All-update (Keyed db.ssh_public_keys) _ _ db.accounts (λ r _ h. h) inv.keyed;
    })

pub complete_account_key_add-HasKey :
    (a : AccountKeyAuthorization) (key : NewSshKey) (db : Database)
    → HasKey db
    → Ensures HasKey (complete_account_key_add a key db)
unfolding complete_account_key_add insert_audit_event
complete_account_key_add-HasKey a key db inv = Ensures-bind _ _ λ r e. Ensures-guard _ _ _ λ _.
    Ensures-bind _ _ λ db₁ e₁.
      let same = (consume_account_key_authorization-SameKeys db a).at r e in
      let grown = (insert_ssh_key-Grows r.0.0 key a.changed_at r.1).at db₁ e₁ in
      Ensures-ok _
        (HasKey-step db _ (grown.accounts ∙ same.0) (λ n p. grown.keep n (rw same.1 p)) inv)

pub complete_account_key_revoke-HasKey :
    (a : AccountKeyAuthorization) (fingerprint : String) (db : Database)
    → HasKey db
    → Ensures HasKey (complete_account_key_revoke a fingerprint db)
unfolding complete_account_key_revoke end_sessions insert_audit_event
complete_account_key_revoke-HasKey a fingerprint db inv = Ensures-bind _ _ λ r e.
    Ensures-guard _ _ _ λ two. Ensures-ok_or _ _ _ λ key _. Ensures-guard _ _ _ λ one.
      let same = (consume_account_key_authorization-SameKeys db a).at r e in
      let left = revoke_where (live_key_at key.id r.0.0) a.changed_at r.1 in
      let kept : HasKey left = record {
        keyed =
            revoke_where-Keyed (live_key_at key.id r.0.0) r.0.0 a.changed_at r.1
              (λ k h. ground arith) (rw same.1 (ltb→lt _ _ two)) (rw same.1 ((==_iff _ _).0 one))
              (HasKey-frame db r.1 inv same).keyed;
      } in
      Ensures-ok _ (record {
        keyed =
            (if-HasKey (ends_with_key r.0.1 key.id) (end_sessions r.0.0 a.changed_at left) left
              (record { keyed = kept.keyed }) kept).keyed;
      })

framed :
    (db : Database) (m : Result Database) → HasKey db → Ensures (SameKeys db) m → Ensures HasKey m
framed db m inv same = record { at = λ db' e. HasKey-frame db db' inv (same.at db' e) }

exec-HasKey : (c : Call) (db : Database) → HasKey db → Ensures HasKey (exec c db)
unfolding exec
exec-HasKey (setup a) db inv = create_initial_administrator-HasKey a db inv
exec-HasKey (invite h t u) db inv = framed db _ inv (create_signup_invitation-SameKeys db h t u)
exec-HasKey (signup a) db inv = create_account_with_invitation-HasKey a db inv
exec-HasKey (recover r) db inv = recover_account-HasKey r db inv
exec-HasKey (suspend u b t a c) db inv = suspend_account-HasKey u b t a c db inv
exec-HasKey (add_key u k t a c) db inv = add_account_key-HasKey u k t a c db inv
exec-HasKey (revoke_key u f t a c) db inv = revoke_account_key-HasKey u f t a c db inv
exec-HasKey (complete_add a k) db inv = complete_account_key_add-HasKey a k db inv
exec-HasKey (complete_revoke a f) db inv = complete_account_key_revoke-HasKey a f db inv
exec-HasKey (issue_nonce n) db inv = framed db _ inv (create_login_nonce-SameKeys db n)
exec-HasKey (consume_nonce l) db inv = framed db _ inv (consume_login_nonce-SameKeys db l)
exec-HasKey (issue_approval a) db inv = framed db _ inv (create_login_approval-SameKeys db a)
exec-HasKey (approve a) db inv = framed db _ inv (approve_login-SameKeys db a)
exec-HasKey (complete_approval l) db inv =
    Ensures-bind _ _
      λ r e. Ensures-ok _ (HasKey-frame db r.1 inv ((consume_login_approval-SameKeys db l).at r e))
exec-HasKey (end_all u t) db inv = framed db _ inv (end_account_sessions-SameKeys db u t)

-- From any database in which each account has a key that is not revoked, every sequence of the
-- calls, failed ones included, leads to one in which each account has such a key.
pub run-HasKey : (db : Database) (calls : List Call) → HasKey db → HasKey (run db calls)
unfolding run
run-HasKey db [] inv = inv
run-HasKey db (c ∷ cs) inv =
    run-HasKey (after db (exec c db)) cs
      (after-Ensures HasKey db (exec c db) inv (exec-HasKey c db inv))
