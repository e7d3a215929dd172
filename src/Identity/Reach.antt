-- ===== src/Identity/Reach.antt =====
-- The calls of the store that src/account.rs, src/session.rs and src/admin.rs make, in any order.
use tit.Prelude.{String, Bool, List, [], ◌∷◌}
use mathlib.Core.Path.{refl}
use tit.Store.Error.{Result, ok, err, ◌>>=◌, Ensures}
use tit.Store.Schema.{Database, Hash, Time}
use tit.Store.Common.{NewSshKey}
use tit.Store.Accounts.{
  InitialAdministrator, InvitedAccount, AccountRecovery, create_initial_administrator,
  create_signup_invitation, create_account_with_invitation, recover_account, suspend_account,
}
use tit.Store.Keys.{
  AccountKeyAuthorization, add_account_key, revoke_account_key, complete_account_key_add,
  complete_account_key_revoke,
}
use tit.Store.Login.{
  NewLoginNonce, NewWebSession, NewLoginApproval, ApproveLogin, NewApprovedWebSession,
  create_login_nonce, consume_login_nonce, create_login_approval, approve_login,
  consume_login_approval, end_account_sessions,
}

pub data Call : Type 0 where
  setup : InitialAdministrator → Call
  invite : Hash → Time → Time → Call
  signup : InvitedAccount → Call
  recover : AccountRecovery → Call
  suspend : String → Bool → Time → String → String → Call
  add_key : String → NewSshKey → Time → String → String → Call
  revoke_key : String → String → Time → String → String → Call
  complete_add : AccountKeyAuthorization → NewSshKey → Call
  complete_revoke : AccountKeyAuthorization → String → Call
  issue_nonce : NewLoginNonce → Call
  consume_nonce : NewWebSession → Call
  issue_approval : NewLoginApproval → Call
  approve : ApproveLogin → Call
  complete_approval : NewApprovedWebSession → Call
  end_all : String → Time → Call

unfoldable pub exec : Call → Database → Result Database
exec (setup a) db = create_initial_administrator a db
exec (invite h t u) db = create_signup_invitation h t u db
exec (signup a) db = create_account_with_invitation a db
exec (recover r) db = recover_account r db
exec (suspend u b t a c) db = suspend_account u b t a c db
exec (add_key u k t a c) db = add_account_key u k t a c db
exec (revoke_key u f t a c) db = revoke_account_key u f t a c db
exec (complete_add a k) db = complete_account_key_add a k db
exec (complete_revoke a f) db = complete_account_key_revoke a f db
exec (issue_nonce n) db = create_login_nonce n db
exec (consume_nonce l) db = consume_login_nonce l db
exec (issue_approval a) db = create_login_approval a db
exec (approve a) db = approve_login a db
exec (complete_approval l) db = consume_login_approval l db >>= λ r. ok r.1
exec (end_all u t) db = end_account_sessions u t db

-- A transaction that fails is rolled back.
abbrev pub after : Database → Result Database → Database
after db (ok db') = db'
after db (err e) = db

-- What holds of a database, and of every result of a call, holds after the call.
pub after-Ensures :
    (P : Database → Type 0) (db : Database) (m : Result Database)
    → P db
    → Ensures P m
    → P (after db m)
after-Ensures P db (ok db') p h = h.at db' refl
after-Ensures P db (err e) p h = p

unfoldable pub run : Database → List Call → Database
run db [] = db
run db (c ∷ cs) = run (after db (exec c db)) cs
