-- ===== src/Recovery/Tests.antt =====
-- The theorem on recovery at an account that lost its one key.
use tit.Prelude.{◌≡◌, refl, false, none, some, [], ◌∷◌}
use tit.Prelude.Tables.{find, update_where}
use tit.Store.Error.{◌>>◌}
use tit.Store.Schema.{Database, Account, AccountState, empty}
use tit.Store.Common.{insert_ssh_key, insert_audit_event}
use tit.Store.Accounts.{AccountRecovery, recovers, restore_key, replace_recovery, recover_account}
use tit.Identity.Reach.{after}
use tit.Recovery.{IsRecovered, recover_account-ends}

abbrev start : Database
start = record empty {
  accounts =
      record {
        id = 1;
        username = "alice";
        is_administrator = false;
        state = AccountState.active;
        created_at = 5;
      }
      ∷ [];
  ssh_public_keys =
      record {
        id = 1;
        account_id = 1;
        canonical_key = "ssh-ed25519 AAAA";
        fingerprint = "SHA256:lost";
        created_at = 5;
        label = "initial";
        revoked_at = none;
      }
      ∷ [];
  recovery_credentials = record { account_id = 1; credential_hash = 3; created_at = 5 } ∷ [];
  web_sessions =
      record {
        session_hash = 40;
        csrf_hash = 41;
        account_id = 1;
        created_at = 6;
        expires_at = 90;
        ended_at = none;
        ssh_public_key_id = some 1;
      }
      ∷ [];
}

abbrev recovery : AccountRecovery
recovery = record {
  username = "alice";
  old_recovery_hash = 3;
  key = record {
    canonical_key = "ssh-ed25519 BBBB";
    fingerprint = "SHA256:next";
    label = "recovery";
  };
  new_recovery_hash = 4;
  created_at = 20;
  correlation_id = "c";
}

abbrev recovered : Database
recovered = after start (recover_account recovery start)

recover_account-ends_example :
    (account : Account) × (find (recovers "alice" 3 start.recovery_credentials) start.accounts
      ≡ some account)
    × IsRecovered account.id "SHA256:next" recovered
unfolding recover_account restore_key replace_recovery insert_ssh_key insert_audit_event ◌>>◌ find
    update_where
recover_account-ends_example = recover_account-ends recovery start recovered refl
