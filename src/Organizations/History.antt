-- ===== src/Organizations/History.antt =====
-- Any sequence of the calls of src/control.rs, src/account.rs and src/http/mod.rs that reach the
-- organizations of src/store/mod.rs, beside signups, which add namespaces.
use tit.Prelude.{String, ℕ, ◌≤◌, ◌≡◌, refl, ◌∙◌, Bool, List, [], ◌∷◌, arith}
use tit.Prelude.Tables.{next_rowid, All-map}
use tit.Store.Error.{StoreError, Result, Ensures, Ensures-ok, Ensures-guard, Ensures-bind}
use tit.Store.Schema.{Database, Namespace, Hash, Time}
use tit.Store.Common.{NewSshKey, insert_account, insert_ssh_key, insert_audit_event}
use tit.Store.Accounts.{InvitedAccount, insert_recovery, create_account_with_invitation}
use tit.Store.Organizations.{
  create_organization, set_organization_member, update_organization_profile,
  remove_organization_member,
}
use tit.Identity.Reach.{after, after-Ensures}
use tit.Organizations.Owners.{IsOwned}
use tit.Organizations.Changes.{
  create_organization-IsOwned, set_organization_member-IsOwned, update_organization_profile-IsOwned,
  remove_organization_member-IsOwned,
}

pub data Call : Type 0 where
  signup : InvitedAccount → Call
  create : String → String → String → String → Time → String → Call
  set_member : String → String → String → String → Time → String → Call
  update_profile : String → String → String → String → Time → String → Call
  remove_member : String → String → String → Time → String → Call

unfoldable pub exec : Call → Database → Result Database
exec (signup a) db = create_account_with_invitation a db
exec (create s n d o t c) db = create_organization s n d o t c db
exec (set_member o a u r t c) db = set_organization_member o a u r t c db
exec (update_profile o a n d t c) db = update_organization_profile o a n d t c db
exec (remove_member o a u t c) db = remove_organization_member o a u t c db

unfoldable pub run : Database → List Call → Database
run db [] = db
run db (c ∷ cs) = run (after db (exec c db)) cs

-- The organizations and their members stay, and the rowids of namespaces grow.
record Grows (db db' : Database) : Type 0 where
  organizations : db'.organizations ≡ db.organizations
  members : db'.organization_members ≡ db.organization_members
  namespaces :
      next_rowid (λ (n : Namespace). n.id) db.namespaces
      ≤ next_rowid (λ (n : Namespace). n.id) db'.namespaces

Grows-trans : (a b c : Database) → Grows a b → Grows b c → Grows a c
Grows-trans a b c g h = record {
  organizations = h.organizations ∙ g.organizations;
  members = h.members ∙ g.members;
  namespaces = omega (arith, g.namespaces, h.namespaces);
}

Grows-IsOwned : (db db' : Database) → IsOwned db → Grows db db' → IsOwned db'
Grows-IsOwned db db' inv g = record {
  owned = rw (g.organizations, g.members) inv.owned;
  unique = λ o a. rw g.members (inv.unique o a);
  members_known =
      rw g.members (
        All-map _ _ db.organization_members (λ m h. omega (arith, g.namespaces)) inv.members_known);
  organizations_known =
      rw g.organizations
        (All-map _ _ db.organizations (λ o h. omega (arith, g.namespaces)) inv.organizations_known);
}

module _ (db : Database) where
  insert_account-Grows :
      (e : StoreError) (u : String) (b : Bool) (t : Time)
      → Ensures (λ r. Grows db r.1) (insert_account e u b t db)
  unfolding insert_account next_rowid
  insert_account-Grows e u b t =
      Ensures-guard _ _ _ λ _.
        Ensures-ok _ (record { organizations = refl; members = refl; namespaces = omega arith })

  insert_ssh_key-Grows :
      (id : ℕ) (k : NewSshKey) (t : Time) → Ensures (Grows db) (insert_ssh_key id k t db)
  unfolding insert_ssh_key
  insert_ssh_key-Grows id k t =
      Ensures-guard _ _ _ λ _.
        Ensures-ok _ (record { organizations = refl; members = refl; namespaces = omega arith })

  insert_recovery-Grows :
      (id : ℕ) (h : Hash) (t : Time) → Ensures (Grows db) (insert_recovery id h t db)
  unfolding insert_recovery
  insert_recovery-Grows id h t =
      Ensures-guard _ _ _ λ _.
        Ensures-ok _ (record { organizations = refl; members = refl; namespaces = omega arith })

create_account_with_invitation-IsOwned :
    (a : InvitedAccount) (db : Database)
    → IsOwned db
    → Ensures IsOwned (create_account_with_invitation a db)
unfolding create_account_with_invitation insert_audit_event
create_account_with_invitation-IsOwned a db inv = Ensures-guard _ _ _ λ _. Ensures-bind _ _ λ r e.
    Ensures-bind _ _ λ db₂ e₂. Ensures-bind _ _ λ db₃ e₃.
      let g₁ = (insert_account-Grows _ _ _ _ _).at r e in
      let g₂ = (insert_ssh_key-Grows r.1 _ _ _).at db₂ e₂ in
      let g₃ = (insert_recovery-Grows db₂ _ _ _).at db₃ e₃ in
      let g = Grows-trans _ r.1 db₃ g₁ (Grows-trans r.1 db₂ db₃ g₂ g₃) in
      Ensures-ok _ (
        Grows-IsOwned db _ inv (record {
          organizations = g.organizations;
          members = g.members;
          namespaces = g.namespaces;
        }))

exec-IsOwned : (c : Call) (db : Database) → IsOwned db → Ensures IsOwned (exec c db)
unfolding exec
exec-IsOwned (signup a) db inv = create_account_with_invitation-IsOwned a db inv
exec-IsOwned (create s n d o t c) db inv = create_organization-IsOwned s n d o t c db inv
exec-IsOwned (set_member o a u r t c) db inv = set_organization_member-IsOwned o a u r t c db inv
exec-IsOwned (update_profile o a n d t c) db inv =
    update_organization_profile-IsOwned o a n d t c db inv
exec-IsOwned (remove_member o a u t c) db inv = remove_organization_member-IsOwned o a u t c db inv

-- Where every organization has an owner, each account has one row in it at most, and the rows refer
-- to namespaces that exist, all this holds after any sequence of signups and of calls that create an
-- organization, set or remove a member or change the profile, failed ones included.
pub run-IsOwned : (db : Database) (calls : List Call) → IsOwned db → IsOwned (run db calls)
unfolding run
run-IsOwned db [] inv = inv
run-IsOwned db (c ∷ cs) inv =
    run-IsOwned (after db (exec c db)) cs
      (after-Ensures IsOwned db (exec c db) inv (exec-IsOwned c db inv))
