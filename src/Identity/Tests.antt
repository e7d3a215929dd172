-- ===== src/Identity/Tests.antt =====
-- The theorems on accounts and logins at a small database: one administrator with two keys, a
-- nonce and an approval that wait.
use tit.Prelude.{String, ℕ, ◌≡◌, refl, true, none, some, List, [], ◌∷◌, arith}
use tit.Prelude.Tables.{find, count_where, update_where, next_rowid}
use tit.Store.Error.{
  Result, ok, err, invalid_invitation, invalid_login_challenge, invalid_login_approval, ◌>>◌,
}
use tit.Store.Schema.{
  Database, Account, SshPublicKey, LoginNonce, LoginApproval, AccountState, login, empty,
}
use tit.Store.Common.{
  insert_account, insert_ssh_key, end_sessions, insert_audit_event, active_account_id, live_key_of,
}
use tit.Store.Accounts.{
  suspend_account, InvitedAccount, redeemable, insert_recovery, create_account_with_invitation,
}
use tit.Store.Keys.{revoke_account_key}
use tit.Store.Login.{
  NewWebSession, NewApprovedWebSession, consume_login_nonce, consume_login_approval,
  end_account_sessions, insert_web_session, nonce_session, approved_session,
}
use tit.Identity.Reach.{Call, exec, revoke_key, end_all, after, run}
use tit.Identity.LiveKeys.{HasKey}
use tit.Identity.HasKey.{run-HasKey}
use tit.Identity.Replay.{
  IsBounded, run-IsBounded, consume_login_nonce-once, consume_login_approval-once,
}
use tit.Identity.Unique.{IsUnique}
use tit.Identity.Sessions.{Opened, consume_login_nonce-opens, consume_login_approval-opens}
use tit.Identity.Invitations.{IsJoined, create_account_with_invitation-once}
use tit.Identity.Suspension.{IsShut, suspend_account-shuts}

abbrev alice : Account
alice = record {
  id = 1;
  username = "alice";
  is_administrator = true;
  state = AccountState.active;
  created_at = 10;
}

abbrev first_key : SshPublicKey
first_key = record {
  id = 1;
  account_id = 1;
  canonical_key = "ssh-ed25519 AAAA";
  fingerprint = "SHA256:one";
  created_at = 10;
  label = "initial";
  revoked_at = none;
}

abbrev second_key : SshPublicKey
second_key = record first_key {
  id = 2;
  canonical_key = "ssh-ed25519 BBBB";
  fingerprint = "SHA256:two";
  label = "laptop";
}

abbrev waiting_nonce : LoginNonce
waiting_nonce = record {
  nonce_hash = 77;
  csrf_hash = 5;
  account_id = 1;
  ssh_public_key_id = none;
  created_at = 20;
  expires_at = 320;
  consumed_at = none;
}

abbrev given_approval : LoginApproval
given_approval = record {
  secret_hash = 99;
  csrf_hash = 6;
  account_id = some 1;
  ssh_public_key_id = some 2;
  created_at = 20;
  expires_at = 320;
  approved_at = some 30;
  consumed_at = none;
  purpose = login;
  expected_account_id = none;
}

abbrev start : Database
start = record empty {
  accounts = alice ∷ [];
  ssh_public_keys = second_key ∷ first_key ∷ [];
  login_nonces = waiting_nonce ∷ [];
  ssh_login_approvals = given_approval ∷ [];
}

abbrev by_nonce : NewWebSession
by_nonce = record {
  nonce_hash = 77;
  login_csrf_hash = 5;
  username = "alice";
  fingerprint = "SHA256:two";
  session_hash = 1000;
  csrf_hash = 1001;
  created_at = 40;
  expires_at = 604840;
  correlation_id = "c";
}

abbrev by_approval : NewApprovedWebSession
by_approval = record {
  secret_hash = 99;
  login_csrf_hash = 6;
  session_hash = 2000;
  csrf_hash = 2001;
  created_at = 40;
  expires_at = 604840;
  correlation_id = "c";
}

abbrev script : List Call
script =
    revoke_key "alice" "SHA256:one" 50 "alice" "c"
    ∷ revoke_key "alice" "SHA256:two" 60 "alice" "c"
    ∷ end_all "alice" 70
    ∷ []

abbrev logged_in : Database
logged_in = after start (consume_login_nonce by_nonce start)

abbrev completed : Result (String × Database) → String × Database
completed (ok r) = r
completed (err e) = ("", empty)

start-HasKey : HasKey start
unfolding count_where
start-HasKey = record { keyed = omega arith }

run-HasKey_example : HasKey (run start script)
run-HasKey_example = run-HasKey start script start-HasKey

start-IsBounded : IsBounded start
unfolding count_where
start-IsBounded = record { nonces = omega arith; approvals = omega arith }

run-IsBounded_example : IsBounded (run start script)
run-IsBounded_example = run-IsBounded start script start-IsBounded

start-IsUnique : IsUnique start.accounts
unfolding count_where
start-IsUnique = record { ids = λ n. ground arith; names = λ u. ground arith }

consume_login_nonce-once_example :
    consume_login_nonce by_nonce (run logged_in script) ≡ err invalid_login_challenge
unfolding consume_login_nonce insert_web_session insert_audit_event ◌>>◌ find count_where
    update_where
consume_login_nonce-once_example =
    consume_login_nonce-once by_nonce by_nonce start logged_in script refl refl
      ((λ e. cc), ((λ e. cc), ((λ e. cc), tt)))

consume_login_approval-once_example :
    consume_login_approval by_approval
      (run (completed (consume_login_approval by_approval start)).1 script)
    ≡ err invalid_login_approval
unfolding consume_login_approval insert_web_session insert_audit_event ◌>>◌ find count_where
    update_where
consume_login_approval-once_example =
    consume_login_approval-once by_approval by_approval start _ script refl refl
      ((λ e. cc), ((λ e. cc), ((λ e. cc), tt)))

consume_login_nonce-opens_example :
    (account : Account) × (key_id : ℕ) × (account.username ≡ "alice")
    × Opened (nonce_session by_nonce account.id key_id) account 604840 logged_in
unfolding consume_login_nonce insert_web_session insert_audit_event ◌>>◌ find count_where
    update_where
consume_login_nonce-opens_example =
    consume_login_nonce-opens by_nonce 604840 start logged_in start-IsUnique refl

consume_login_approval-opens_example :
    (account : Account) × (key_id : ℕ) × (account.username
      ≡ (completed (consume_login_approval by_approval start)).0)
    × Opened
        (approved_session by_approval account.id key_id)
        account
        604841
        (completed (consume_login_approval by_approval start)).1
unfolding consume_login_approval insert_web_session insert_audit_event ◌>>◌ find count_where
    update_where
consume_login_approval-opens_example =
    consume_login_approval-opens by_approval 604841 start _ start-IsUnique refl

suspend_account-shuts_example :
    IsShut "alice" (run (after start (suspend_account "alice" true 50 "root" "c" start)) script)
unfolding suspend_account ◌>>◌ find count_where update_where
suspend_account-shuts_example =
    suspend_account-shuts "alice" 50 "root" "c" start _ script refl
      ((λ e. cc), ((λ e. cc), ((λ e. cc), tt)))

-- The second call of the script is refused, and the last key stays.
script_keys : count_where (live_key_of 1) (run start script).ssh_public_keys ≡ 1
unfolding run exec count_where update_where find revoke_account_key end_account_sessions
    end_sessions active_account_id insert_audit_event ◌>>◌
script_keys = refl

-- One invitation with the code 55 is open until the time 500.
abbrev invited : Database
invited = record start {
  signup_invitations =
      record { code_hash = 55; created_at = 20; expires_at = 500; consumed_at = none } ∷ [];
}

abbrev bob : InvitedAccount
bob = record {
  invitation_hash = 55;
  username = "bob";
  key = record {
    canonical_key = "ssh-ed25519 CCCC";
    fingerprint = "SHA256:three";
    label = "initial";
  };
  recovery_hash = 3000;
  created_at = 40;
  correlation_id = "c";
}

abbrev carol : InvitedAccount
carol = record bob { username = "carol"; created_at = 50 }

create_account_with_invitation-once_example :
    (count_where (redeemable 55 40) invited.signup_invitations ≡ 1)
    × IsJoined "bob" invited (after invited (create_account_with_invitation bob invited))
    × (create_account_with_invitation carol
          (after invited (create_account_with_invitation bob invited))
        ≡ err invalid_invitation)
unfolding create_account_with_invitation insert_account insert_ssh_key insert_recovery
    insert_audit_event ◌>>◌ find count_where update_where next_rowid
create_account_with_invitation-once_example =
    create_account_with_invitation-once bob carol invited
      (after invited (create_account_with_invitation bob invited)) refl refl (omega arith)
