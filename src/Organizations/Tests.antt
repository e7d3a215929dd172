-- ===== src/Organizations/Tests.antt =====
-- The theorems on organizations at a small database: one organization with an owner and a reader.
use tit.Prelude.{ℕ, ◌≡◌, refl, true, false, none, List, [], ◌∷◌, arith, inl, inr}
use tit.Prelude.Bytes.{codes}
use tit.Names.{validate_username}
use tit.Prelude.Tables.{find, count_where, update_where, next_rowid}
use tit.Store.Error.{ok, ◌>>◌}
use tit.Store.Schema.{
  Database, Account, AccountState, NamespaceKind, OrganizationState, owner, reader, empty,
}
use tit.Store.Common.{insert_audit_event, active_account_id}
use tit.Store.Organizations.{
  set_organization_member, active_organization_id, authorize_organization_owner,
  require_other_organization_owner, upsert_member, parse_role,
}
use tit.Identity.Reach.{after}
use tit.Organizations.Owners.{IsOwned}
use tit.Organizations.History.{Call, run, run-IsOwned, set_member, remove_member}
use tit.Organizations.Authority.{MayAct, members-MayAct}

abbrev alice : Account
alice = record {
  id = 1;
  username = "alice";
  is_administrator = true;
  state = AccountState.active;
  created_at = 10;
}

abbrev bob : Account
bob = record alice { id = 2; username = "bob"; is_administrator = false }

abbrev start : Database
start = record empty {
  accounts = bob ∷ alice ∷ [];
  namespaces =
      record {
        id = 3;
        slug = "team";
        kind = NamespaceKind.organization;
        account_id = none;
        created_at = 20;
      }
      ∷ [];
  organizations =
      record {
        namespace_id = 3;
        display_name = "Team";
        description = "";
        state = OrganizationState.active;
        created_at = 20;
      }
      ∷ [];
  organization_members =
      record { organization_id = 3; account_id = 2; role = reader; created_at = 21 }
      ∷ record { organization_id = 3; account_id = 1; role = owner; created_at = 20 }
      ∷ [];
}

-- The only owner may not leave; another owner makes that possible.
abbrev script : List Call
script =
    remove_member "team" "alice" "alice" 30 "c"
    ∷ set_member "team" "alice" "bob" "owner" 31 "c"
    ∷ remove_member "team" "alice" "alice" 32 "c"
    ∷ []

start-IsOwned : IsOwned start
unfolding count_where next_rowid
start-IsOwned = record {
  owned = (omega arith, tt);
  unique = λ o a. ground arith;
  members_known = (omega arith, (omega arith, tt));
  organizations_known = (omega arith, tt);
}

run-IsOwned_example : IsOwned (run start script)
run-IsOwned_example = run-IsOwned start script start-IsOwned

members-MayAct_example :
    ((oid : ℕ) × (active_organization_id start "team" ≡ ok oid) × MayAct start oid "alice")
    × (validate_username (codes "admin-cli") ≡ inr tt)
unfolding set_organization_member active_organization_id authorize_organization_owner
    active_account_id require_other_organization_owner upsert_member parse_role insert_audit_event
    ◌>>◌ find update_where
members-MayAct_example =
    members-MayAct "team" "alice" "bob" "owner" 31 "c" start
      (after start (set_organization_member "team" "alice" "bob" "owner" 31 "c" start)) (inl refl)
