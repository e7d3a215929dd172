-- ===== src/Identity/AccountRows.antt =====
-- What each call of src/store/mod.rs does to the rows of the table of accounts.
use tit.Prelude.{
  String, ℕ, ◌≡◌, refl, ◌∙◌, ◌&&◌, Bool, true, false, Option, none, some, List, ◌∷◌, arith,
  if◌then◌else◌, is_none,
}
use tit.Prelude.Tables.{find, update_where, next_rowid}
use tit.Store.Error.{
  StoreError, Result, ok, err, Ensures, Ensures-ok, Ensures-err, Ensures-guard, Ensures-bind,
  Ensures-ok_or,
}
use tit.Store.Schema.{Database, Account, SshPublicKey, AccountState, suspended, Time}
use tit.Store.Common.{
  NewSshKey, named, insert_account, insert_ssh_key, end_sessions, revoke_feed_tokens,
  insert_audit_event,
}
use tit.Store.Accounts.{
  InitialAdministrator, InvitedAccount, AccountRecovery, create_initial_administrator,
  create_account_with_invitation, recover_account, suspend_account, restore_key, unmapped,
}
use tit.Store.Keys.{
  AccountKeyAuthorization, add_account_key, revoke_account_key, complete_account_key_add,
  complete_account_key_revoke, revoke_where, live_key_at, ends_with_key,
}
use tit.Identity.Frame.{
  create_signup_invitation-SameKeys, create_login_nonce-SameKeys, create_login_approval-SameKeys,
  approve_login-SameKeys, consume_login_nonce-SameKeys, consume_login_approval-SameKeys,
  end_account_sessions-SameKeys, insert_recovery-SameKeys, replace_recovery-SameKeys,
  consume_account_key_authorization-SameKeys, SameKeys,
}
use tit.Identity.Reach.{
  Call, setup, invite, signup, recover, suspend, add_key, revoke_key, complete_add, complete_revoke,
  issue_nonce, consume_nonce, issue_approval, approve, complete_approval, end_all, exec,
}

-- The username that a call makes active again.
abbrev pub resumed : Call → Option String
resumed (suspend u false t a c) = some u
resumed _ = none

-- The rows stay, or get a new one over a free username, or those with a username change state.
pub data Change (resumes : Option String) (rows rows' : List Account) : Type 0 where
  same : rows' ≡ rows → Change resumes rows rows'
  inserted :
      (a : Account)
      → find (named a.username) rows ≡ none
      → a.id ≡ next_rowid (λ (b : Account). b.id) rows
      → rows' ≡ a ∷ rows
      → Change resumes rows rows'
  changed :
      (u : String) (s : AccountState)
      → (s ≡ AccountState.active → resumes ≡ some u)
      → rows' ≡ update_where (named u) (λ a. record a { state = s }) rows
      → Change resumes rows rows'

-- The change that a call makes, with the call's username to resume.
abbrev pub Changes : Option String → Database → Database → Type 0
Changes resumes db db' = Change resumes db.accounts db'.accounts

abbrev SameAccounts : Database → Database → Type 0
SameAccounts db db' = db'.accounts ≡ db.accounts

no_account_named :
    (u : String) (accounts : List Account) (b : Bool)
    → (is_none (find (named u) accounts) && b) ≡ true
    → find (named u) accounts ≡ none
no_account_named u accounts b h = ground arith

insert_account-Change :
    (taken : StoreError) (u : String) (b : Bool) (t : Time) (db : Database)
    → Ensures (λ r. Changes none db r.1) (insert_account taken u b t db)
unfolding insert_account
insert_account-Change taken u b t db =
    Ensures-guard _ _ _
      λ free. Ensures-ok _ (inserted _ (no_account_named u db.accounts _ free) refl refl)

insert_ssh_key-accounts :
    (id : ℕ) (k : NewSshKey) (t : Time) (db : Database)
    → Ensures (SameAccounts db) (insert_ssh_key id k t db)
unfolding insert_ssh_key
insert_ssh_key-accounts id k t db = Ensures-guard _ _ _ λ _. Ensures-ok _ refl

restore_key-accounts :
    (id : ℕ) (k : NewSshKey) (t : Time) (db : Database) (existing : Option SshPublicKey)
    → Ensures (SameAccounts db) (restore_key id k t db existing)
unfolding restore_key
restore_key-accounts id k t db none = insert_ssh_key-accounts id k t db
restore_key-accounts id k t db (some r) =
    Ensures-guard _ _ _ λ _. Ensures-guard _ _ _ λ _. Ensures-ok _ refl

unmapped-accounts :
    (db : Database) (m : Result Database)
    → Ensures (SameAccounts db) m
    → Ensures (SameAccounts db) (unmapped m)
unfolding unmapped
unmapped-accounts db (ok db') h = h
unmapped-accounts db (err e) h = Ensures-err _

if-accounts :
    (b : Bool) (db x y : Database)
    → SameAccounts db x
    → SameAccounts db y
    → SameAccounts db (if b then x else y)
if-accounts true db x y h k = h
if-accounts false db x y h k = k

-- The rows after a step that leaves them.
then_same :
    (rows rows₁ rows₂ : List Account)
    → Change none rows rows₁
    → rows₂ ≡ rows₁
    → Change none rows rows₂
then_same rows rows₁ rows₂ (same e) h = same (h ∙ e)
then_same rows rows₁ rows₂ (inserted a free id e) h = inserted a free id (h ∙ e)
then_same rows rows₁ rows₂ (changed u s r e) h = changed u s r (h ∙ e)

create_initial_administrator-Change :
    (a : InitialAdministrator) (db : Database)
    → Ensures (Changes none db) (create_initial_administrator a db)
unfolding create_initial_administrator
create_initial_administrator-Change a db = Ensures-guard _ _ _ λ _. Ensures-bind _ _ λ r e.
    Ensures-bind _ _ λ db₂ e₂. record {
      at = λ db₃ e₃.
          let kept = (unmapped-accounts r.1 _ (insert_ssh_key-accounts _ _ _ r.1)).at db₂ e₂ in
          let stored = (insert_recovery-SameKeys db₂ _ _ _).at db₃ e₃ in
          then_same db.accounts r.1.accounts db₃.accounts
            ((insert_account-Change _ _ _ _ db).at r e) (stored.0 ∙ kept);
    }

create_account_with_invitation-Change :
    (a : InvitedAccount) (db : Database)
    → Ensures (Changes none db) (create_account_with_invitation a db)
unfolding create_account_with_invitation insert_audit_event
create_account_with_invitation-Change a db = Ensures-guard _ _ _ λ _. Ensures-bind _ _ λ r e.
    Ensures-bind _ _ λ db₂ e₂. Ensures-bind _ _ λ db₃ e₃.
      let kept = (insert_ssh_key-accounts _ _ _ r.1).at db₂ e₂ in
      let stored = (insert_recovery-SameKeys db₂ _ _ _).at db₃ e₃ in
      let new = (insert_account-Change _ _ _ _ _).at r e in
      Ensures-ok _ (then_same db.accounts r.1.accounts db₃.accounts new (stored.0 ∙ kept))

suspend_account-Change :
    (u : String) (b : Bool) (t : Time) (actor c : String) (db : Database)
    → Ensures (Changes (resumed (suspend u b t actor c)) db) (suspend_account u b t actor c db)
unfolding suspend_account end_sessions revoke_feed_tokens insert_audit_event
suspend_account-Change u true t actor c db =
    Ensures-guard _ _ _
      λ _. Ensures-ok_or _ _ _ λ a _. Ensures-ok _ (changed u suspended (λ x. cc) refl)
suspend_account-Change u false t actor c db =
    Ensures-guard _ _ _
      λ _. Ensures-ok_or _ _ _ λ a _. Ensures-ok _ (changed u AccountState.active (λ x. refl) refl)

recover_account-accounts :
    (r : AccountRecovery) (db : Database) → Ensures (SameAccounts db) (recover_account r db)
unfolding recover_account end_sessions revoke_feed_tokens insert_audit_event
recover_account-accounts r db = Ensures-ok_or _ _ _ λ a _. Ensures-bind _ _ λ db₁ e₁.
    Ensures-bind _ _ λ db₂ e₂. Ensures-ok _ (
      ((replace_recovery-SameKeys db₁ _ _ _).at db₂ e₂).0
      ∙ (restore_key-accounts a.id r.key r.created_at _ _).at db₁ e₁)

add_account_key-accounts :
    (u : String) (k : NewSshKey) (t : Time) (actor c : String) (db : Database)
    → Ensures (SameAccounts db) (add_account_key u k t actor c db)
unfolding add_account_key end_sessions insert_audit_event
add_account_key-accounts u k t actor c db =
    Ensures-bind _ _
      λ id _. Ensures-bind _ _ λ db₁ e. Ensures-ok _ ((insert_ssh_key-accounts _ _ _ db).at db₁ e)

revoke_account_key-accounts :
    (u f : String) (t : Time) (actor c : String) (db : Database)
    → Ensures (SameAccounts db) (revoke_account_key u f t actor c db)
unfolding revoke_account_key end_sessions insert_audit_event
revoke_account_key-accounts u f t actor c db =
    Ensures-bind _ _ λ id _. Ensures-guard _ _ _ λ _. Ensures-guard _ _ _ λ _. Ensures-ok _ refl

complete_account_key_add-accounts :
    (a : AccountKeyAuthorization) (k : NewSshKey) (db : Database)
    → Ensures (SameAccounts db) (complete_account_key_add a k db)
unfolding complete_account_key_add insert_audit_event
complete_account_key_add-accounts a k db = Ensures-bind _ _ λ r e. Ensures-guard _ _ _ λ _.
    Ensures-bind _ _ λ db₁ e₁. Ensures-ok _ (
      (insert_ssh_key-accounts _ _ _ r.1).at db₁ e₁
      ∙ ((consume_account_key_authorization-SameKeys db a).at r e).0)

complete_account_key_revoke-accounts :
    (a : AccountKeyAuthorization) (f : String) (db : Database)
    → Ensures (SameAccounts db) (complete_account_key_revoke a f db)
unfolding complete_account_key_revoke end_sessions insert_audit_event
complete_account_key_revoke-accounts a f db = Ensures-bind _ _ λ r e. Ensures-guard _ _ _ λ _.
    Ensures-ok_or _ _ _ λ key _. Ensures-guard _ _ _ λ _.
      let left = revoke_where (live_key_at key.id r.0.0) a.changed_at r.1 in
      Ensures-ok _ (
        if-accounts (ends_with_key r.0.1 key.id) r.1 (end_sessions r.0.0 a.changed_at left) left
          refl refl
        ∙ ((consume_account_key_authorization-SameKeys db a).at r e).0)

kept :
    {resumes : Option String} (db : Database) (m : Result Database)
    → Ensures (SameAccounts db) m
    → Ensures (Changes resumes db) m
kept db m h = record { at = λ db' e. same (h.at db' e) }

of_keys :
    {resumes : Option String} (db : Database) (m : Result Database)
    → Ensures (SameKeys db) m
    → Ensures (Changes resumes db) m
of_keys db m h = record { at = λ db' e. same (h.at db' e).0 }

pub exec-Change : (c : Call) (db : Database) → Ensures (Changes (resumed c) db) (exec c db)
unfolding exec
exec-Change (setup a) db = create_initial_administrator-Change a db
exec-Change (invite h t u) db = of_keys db _ (create_signup_invitation-SameKeys db h t u)
exec-Change (signup a) db = create_account_with_invitation-Change a db
exec-Change (recover r) db = kept db _ (recover_account-accounts r db)
exec-Change (suspend u b t a c) db = suspend_account-Change u b t a c db
exec-Change (add_key u k t a c) db = kept db _ (add_account_key-accounts u k t a c db)
exec-Change (revoke_key u f t a c) db = kept db _ (revoke_account_key-accounts u f t a c db)
exec-Change (complete_add a k) db = kept db _ (complete_account_key_add-accounts a k db)
exec-Change (complete_revoke a f) db = kept db _ (complete_account_key_revoke-accounts a f db)
exec-Change (issue_nonce n) db = of_keys db _ (create_login_nonce-SameKeys db n)
exec-Change (consume_nonce l) db = of_keys db _ (consume_login_nonce-SameKeys db l)
exec-Change (issue_approval a) db = of_keys db _ (create_login_approval-SameKeys db a)
exec-Change (approve a) db = of_keys db _ (approve_login-SameKeys db a)
exec-Change (complete_approval l) db =
    Ensures-bind _ _ λ r e. Ensures-ok _ (same ((consume_login_approval-SameKeys db l).at r e).0)
exec-Change (end_all u t) db = of_keys db _ (end_account_sessions-SameKeys db u t)
