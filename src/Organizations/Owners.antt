-- ===== src/Organizations/Owners.antt =====
-- Every organization of src/store/mod.rs has an owner: the counts behind it.
use mathlib.Core.Bool.{false≢true}
use tit.Prelude.{
  sym, ◌∙◌, ℕ, ◌+◌, ◌≤◌, ◌<◌, ◌≡◌, refl, ◌==◌, Bool, true, false, ◌&&◌, not, List, All, arith,
  is_some, Bool-cases, Option-cases, inl, inr,
}
use tit.Prelude.Tables.{
  find, count_where, next_rowid, find-holds, find_unique, count_split, count-of-find-none,
  count-pos-of-find, count-update_same, count-update-ge,
}
use tit.Store.Error.{Ensures, Ensures-ok, Ensures-if, Ensures-test}
use tit.Store.Schema.{Database, Organization, OrganizationMember, Namespace, Role, Time}
use tit.Store.Organizations.{
  is_owner, member_of, owns, other_owner, owner_row, upsert_member,
  require_other_organization_owner,
}

-- The members of the organization `n` that own it.
abbrev pub owner_of : ℕ → OrganizationMember → Bool
owner_of n m = m.organization_id == n && is_owner m.role

abbrev pub OwnedIn : List OrganizationMember → Organization → Type 0
OwnedIn members o = 1 ≤ count_where (owner_of o.namespace_id) members

-- Every organization has an owner; PRIMARY KEY (organization_id, account_id) holds; the rows refer
-- to namespaces that exist, so a new namespace has no member yet.
pub record IsOwned (db : Database) : Type 0 where
  pub owned : All (OwnedIn db.organization_members) db.organizations
  pub unique : (o a : ℕ) → count_where (member_of o a) db.organization_members ≤ 1
  pub members_known :
      All
        (λ (m : OrganizationMember).
          m.organization_id < next_rowid (λ (n : Namespace). n.id) db.namespaces)
        db.organization_members
  pub organizations_known :
      All
        (λ (o : Organization). o.namespace_id < next_rowid (λ (n : Namespace). n.id) db.namespaces)
        db.organizations

module _ (oid aid : ℕ) (members : List OrganizationMember) where
  owners_split :
      count_where (owner_of oid) members
      ≡ count_where (other_owner oid aid) members + count_where (owns oid aid) members
  owners_split =
      count_split (owner_of oid) (other_owner oid aid) (owns oid aid) members (λ m. ground arith)

  -- The one row of the account is no owner's, so the account owns nothing here.
  no_own_row :
      count_where (member_of oid aid) members ≤ 1
      → owner_row (find (member_of oid aid) members) ≡ false
      → count_where (owns oid aid) members ≡ 0
  no_own_row one h = elim (Option-cases (find (owns oid aid) members)) [
    | inl e ↦ count-of-find-none (owns oid aid) members e
    | inr (m, e) ↦
        let own = find-holds (owns oid aid) members e in
        let again =
          find_unique (member_of oid aid) (owns oid aid) (member_of oid aid) members {a = m}
            (λ r p. ground arith) (λ r p. p) one e (ground arith) in
        absurd (false≢true (sym (rw again at h) ∙ owner_of_own m own))
  ]
    where
      owner_of_own : (m : OrganizationMember) → owns oid aid m ≡ true → is_owner m.role ≡ true
      owner_of_own m h' = ground arith

not-true : (b : Bool) → not b ≡ true → b ≡ false
not-true b h = ground arith

-- Where `require_other_organization_owner` lets the account go, another owner is left.
pub other_owner_left :
    (oid aid : ℕ) (db : Database)
    → count_where (member_of oid aid) db.organization_members ≤ 1
    → 1 ≤ count_where (owner_of oid) db.organization_members
    → Ensures
        (λ _. 1 ≤ count_where (other_owner oid aid) db.organization_members)
        (require_other_organization_owner db oid aid)
unfolding require_other_organization_owner
other_owner_left oid aid db one some_owner =
    let members = db.organization_members in
    Ensures-if (not (owner_row (find (member_of oid aid) members))) _ _
      (λ no. Ensures-ok tt (
        omega (
          arith,
          some_owner,
          owners_split oid aid members,
          no_own_row oid aid members one (not-true _ no),
        )))
      (λ _. Ensures-test _ _ λ other. elim (Option-cases (find (other_owner oid aid) members)) [
        | inl e ↦ absurd (false≢true (rw e at other))
        | inr (m, e) ↦ count-pos-of-find (other_owner oid aid) members e
      ])

module _ (oid aid : ℕ) (role : Role) (now : Time) (members : List OrganizationMember) where
  -- Another owner stays one when the role of the account is set.
  pub other_owner-upsert :
      count_where (other_owner oid aid) members
      ≤ count_where (other_owner oid aid) (upsert_member oid aid role now members)
  unfolding upsert_member count_where
  other_owner-upsert = elim (Bool-cases (is_some (find (member_of oid aid) members))) [
    | inl e ↦ rw e (
        count-update-ge (other_owner oid aid) (member_of oid aid) _ members (λ m p q. ground arith))
    | inr e ↦ rw e (omega arith)
  ]

  -- The owners of another organization stay.
  pub owner_of-upsert_ne :
      (n : ℕ)
      → (n == oid) ≡ false
      → count_where (owner_of n) members
        ≤ count_where (owner_of n) (upsert_member oid aid role now members)
  unfolding upsert_member count_where
  owner_of-upsert_ne n ne = elim (Bool-cases (is_some (find (member_of oid aid) members))) [
    | inl e ↦
        rw e (count-update-ge (owner_of n) (member_of oid aid) _ members (λ m p q. ground arith))
    | inr e ↦ rw e (omega arith)
  ]

  -- No owner is lost when the role set is that of an owner.
  pub owner_of-upsert_owner :
      is_owner role ≡ true
      → (n : ℕ)
      → count_where (owner_of n) members
        ≤ count_where (owner_of n) (upsert_member oid aid role now members)
  unfolding upsert_member count_where
  owner_of-upsert_owner own n = elim (Bool-cases (is_some (find (member_of oid aid) members))) [
    | inl e ↦
        rw e (
          count-update-ge (owner_of n) (member_of oid aid) _ members (λ m p q. ground (arith, own)))
    | inr e ↦ rw e (omega arith)
  ]

  -- The primary key stays a key.
  pub member_of-upsert :
      ((o a : ℕ) → count_where (member_of o a) members ≤ 1)
      → (o a : ℕ) → count_where (member_of o a) (upsert_member oid aid role now members) ≤ 1
  unfolding upsert_member count_where
  member_of-upsert key o a = elim (Option-cases (find (member_of oid aid) members)) [
    | inl e ↦ rw e (ground (arith, key o a, count-of-find-none (member_of oid aid) members e))
    | inr (m, e) ↦ rw e (
        rw
          (count-update_same (member_of o a) (member_of oid aid) (λ r. record r { role = role })
            members (λ r p. refl))
          (key o a))
  ]
