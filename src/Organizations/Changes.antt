-- ===== src/Organizations/Changes.antt =====
-- Every organization of src/store/mod.rs keeps an owner under the calls that change members.
use tit.Prelude.{
  String, ℕ, ◌≤◌, ◌<◌, ◌≡◌, refl, ◌==◌, List, [], ◌∷◌, All, arith, is_some, Bool-cases, inl, inr,
  ==_iff, if◌then◌else◌,
}
use tit.Prelude.Tables.{
  find, count_where, delete_where, next_rowid, count-delete_same, count-delete-le, count_mono,
  All-map, All-delete, All-update, next_rowid-above,
}
use tit.Store.Error.{
  ok, Ensures, Ensures-ok, Ensures-guard, Ensures-bind, Ensures-ok_or, Ensures-then,
}
use tit.Store.Schema.{Database, OrganizationMember, Namespace, Role, Time}
use tit.Store.Common.{insert_audit_event}
use tit.Store.Organizations.{
  is_owner, member_of, other_owner, upsert_member, require_other_organization_owner,
  create_organization, set_organization_member, update_organization_profile,
  remove_organization_member, active_organization_id,
}
use tit.Organizations.Owners.{
  owner_of, OwnedIn, IsOwned, other_owner_left, other_owner-upsert, owner_of-upsert_ne,
  owner_of-upsert_owner, member_of-upsert,
}

-- The rowid that the next namespace gets.
abbrev next_namespace : Database → ℕ
next_namespace db = next_rowid (λ (n : Namespace). n.id) db.namespaces

MemberBelow : ℕ → OrganizationMember → Type 0
MemberBelow n m = m.organization_id < n

-- A member below the next namespace is none of it.
no_member_yet :
    (n a : ℕ) (members : List OrganizationMember)
    → All (λ (m : OrganizationMember). m.organization_id < n) members
    → count_where (member_of n a) members ≡ 0
unfolding count_where
no_member_yet n a [] h = refl
no_member_yet n a (m ∷ ms) h = ground (arith, no_member_yet n a ms h.1)

pub create_organization-IsOwned :
    (slug name text owner_name : String) (t : Time) (c : String) (db : Database)
    → IsOwned db
    → Ensures IsOwned (create_organization slug name text owner_name t c db)
unfolding create_organization insert_audit_event count_where next_rowid
create_organization-IsOwned slug name text owner_name t c db inv = Ensures-bind _ _ λ id _.
    Ensures-guard _ _ _ λ _. Ensures-ok _ (record {
      owned = (
        ground arith,
        All-map (OwnedIn db.organization_members) _ db.organizations (λ o h. omega arith) inv.owned,
      );
      unique = λ o a. ground (
        arith,
        inv.unique o a,
        no_member_yet (next_namespace db) a db.organization_members inv.members_known,
      );
      members_known =
          (omega arith, All-map _ _ db.organization_members (λ m h. omega arith) inv.members_known);
      organizations_known =
          (omega arith, All-map _ _ db.organizations (λ o h. omega arith) inv.organizations_known);
    })

upsert_member-below :
    (bound oid aid : ℕ) (role : Role) (now : Time) (members : List OrganizationMember)
    → oid < bound
    → All (λ (m : OrganizationMember). m.organization_id < bound) members
    → All
        (λ (m : OrganizationMember). m.organization_id < bound)
        (upsert_member oid aid role now members)
unfolding upsert_member
upsert_member-below bound oid aid role now members lt h =
    elim (Bool-cases (is_some (find (member_of oid aid) members))) [
      | inl e ↦ rw e (
          All-update (λ (m : OrganizationMember). m.organization_id < bound) (member_of oid aid) _
            members (λ m _ k. k) h)
      | inr e ↦ rw e (lt, h)
    ]

-- The namespace of an active organization is one that exists.
active_organization_id-known :
    (slug : String) (db : Database)
    → IsOwned db
    → Ensures (λ id. id < next_namespace db) (active_organization_id db slug)
unfolding active_organization_id
active_organization_id-known slug db inv =
    Ensures-ok_or _ _ _
      λ n e. Ensures-ok _ (next_rowid-above (λ (n : Namespace). n.id) _ db.namespaces e)

-- The owners that are left where the role of an account is set, or where its row is deleted.
module _ (oid aid : ℕ) (db : Database) (inv : IsOwned db) where
  set_role-keeps :
      (r : Role) (now : Time)
      → (if is_owner r then ok tt else require_other_organization_owner db oid aid) ≡ ok tt
      → (n : ℕ) → 1 ≤ count_where (owner_of n) db.organization_members
      → 1 ≤ count_where (owner_of n) (upsert_member oid aid r now db.organization_members)
  set_role-keeps r now e n h = elim (Bool-cases (is_owner r)) [
    | inl own ↦ omega (arith, h, owner_of-upsert_owner oid aid r now db.organization_members own n)
    | inr lesser ↦ elim (Bool-cases (n == oid)) [
      | inl same ↦ rw ((==_iff n oid).0 same) (
          omega (
            arith,
            other_owner-upsert oid aid r now db.organization_members,
            (other_owner_left oid aid db (inv.unique oid aid) (rw ((==_iff n oid).0 same) at h)).at
                tt (rw lesser at e),
            count_mono (other_owner oid aid) (owner_of oid)
                (upsert_member oid aid r now db.organization_members) (λ m p. ground arith),
          ))
      | inr other ↦
          omega (arith, h, owner_of-upsert_ne oid aid r now db.organization_members n other)
    ]
  ]

  delete-keeps :
      require_other_organization_owner db oid aid ≡ ok tt
      → (n : ℕ) → 1 ≤ count_where (owner_of n) db.organization_members
      → 1 ≤ count_where (owner_of n) (delete_where (member_of oid aid) db.organization_members)
  delete-keeps e n h = elim (Bool-cases (n == oid)) [
    | inl same ↦ rw ((==_iff n oid).0 same) (
        omega (
          arith,
          (other_owner_left oid aid db (inv.unique oid aid) (rw ((==_iff n oid).0 same) at h)).at tt
              e,
          count-delete_same (other_owner oid aid) (member_of oid aid) db.organization_members
              (λ m p. ground arith),
          count_mono (other_owner oid aid) (owner_of oid)
              (delete_where (member_of oid aid) db.organization_members) (λ m p. ground arith),
        ))
    | inr other ↦
        rw
          (count-delete_same (owner_of n) (member_of oid aid) db.organization_members
            (λ m p. ground arith))
          h
  ]

-- What is left to show of a new table of members: who owns, and the key.
with_members :
    (db db' : Database)
    → db'.organizations ≡ db.organizations
    → db'.namespaces ≡ db.namespaces
    → ((n : ℕ)
        → 1 ≤ count_where (owner_of n) db.organization_members
        → 1 ≤ count_where (owner_of n) db'.organization_members)
    → ((o a : ℕ) → count_where (member_of o a) db'.organization_members ≤ 1)
    → All
        (λ (m : OrganizationMember). m.organization_id < next_namespace db)
        db'.organization_members
    → IsOwned db
    → IsOwned db'
with_members db db' eo en keep unique known inv = record {
  owned = rw eo (
      All-map (OwnedIn db.organization_members) _ db.organizations (λ o h. keep o.namespace_id h)
        inv.owned);
  unique = unique;
  members_known = rw en known;
  organizations_known = rw (eo, en) inv.organizations_known;
}

pub set_organization_member-IsOwned :
    (organization actor username role : String) (t : Time) (c : String) (db : Database)
    → IsOwned db
    → Ensures IsOwned (set_organization_member organization actor username role t c db)
unfolding set_organization_member insert_audit_event
set_organization_member-IsOwned organization actor username role t c db inv =
    Ensures-ok_or _ _ _ λ r _. Ensures-bind _ _ λ oid e. Ensures-then _ _ λ _.
      Ensures-bind _ _ λ aid _. Ensures-then _ _ λ e'. Ensures-ok _ (
        with_members db _ refl refl (set_role-keeps oid aid db inv r t e')
          (member_of-upsert oid aid r t db.organization_members inv.unique)
          (upsert_member-below _ oid aid r t db.organization_members
            ((active_organization_id-known organization db inv).at oid e) inv.members_known)
          inv)

pub update_organization_profile-IsOwned :
    (organization actor name text : String) (t : Time) (c : String) (db : Database)
    → IsOwned db
    → Ensures IsOwned (update_organization_profile organization actor name text t c db)
unfolding update_organization_profile insert_audit_event
update_organization_profile-IsOwned organization actor name text t c db inv =
    Ensures-bind _ _ λ oid _. Ensures-then _ _ λ _. Ensures-guard _ _ _ λ _. Ensures-ok _ (record {
      owned =
          All-update (OwnedIn db.organization_members) _ _ db.organizations (λ o _ h. h) inv.owned;
      unique = inv.unique;
      members_known = inv.members_known;
      organizations_known = All-update _ _ _ db.organizations (λ o _ h. h) inv.organizations_known;
    })

pub remove_organization_member-IsOwned :
    (organization actor username : String) (t : Time) (c : String) (db : Database)
    → IsOwned db
    → Ensures IsOwned (remove_organization_member organization actor username t c db)
unfolding remove_organization_member insert_audit_event
remove_organization_member-IsOwned organization actor username t c db inv =
    Ensures-bind _ _ λ oid _. Ensures-then _ _ λ _. Ensures-ok_or _ _ _ λ a _. Ensures-then _ _ λ e.
      Ensures-guard _ _ _ λ _. Ensures-ok _ (
        with_members db _ refl refl (delete-keeps oid a.id db inv e)
          (λ o b. omega (
            arith,
            inv.unique o b,
            count-delete-le (member_of o b) (member_of oid a.id) db.organization_members,
          ))
          (All-delete _ (member_of oid a.id) db.organization_members inv.members_known) inv)
