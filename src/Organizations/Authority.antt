-- ===== src/Organizations/Authority.antt =====
-- Who may change the members of an organization of src/store/mod.rs.
use mathlib.Core.Bool.{false≢true}
use tit.Prelude.{
  String, ℕ, ◌≤◌, ◌≡◌, refl, str_eq, eq_iff, Bool, true, some, is_some, Option-cases, inl, inr, ◌⊎◌,
  List,
}
use tit.Prelude.Tables.{find, count_where, count-pos-of-find}
use tit.Prelude.Bytes.{codes}
use tit.Names.{validate_username, last_is}
use tit.Store.Error.{
  ok, Ensures, Ensures-ok, Ensures-if, Ensures-bind, Ensures-ok_or, Ensures-then, Ensures-test,
}
use tit.Store.Schema.{Database, Account, OrganizationMember, Time}
use tit.Store.Common.{named_active, active_account_id}
use tit.Store.Organizations.{
  owns, authorize_organization_owner, active_organization_id, set_organization_member,
  remove_organization_member,
}

-- The actor has the name by which the command line acts, whoever it is, or it is an active account that
-- owns the organization.
abbrev pub MayAct : Database → ℕ → String → Type 0
MayAct db oid actor =
    (actor ≡ "admin-cli")
    ⊎ ((a : Account) × (find (named_active actor) db.accounts ≡ some a)
        × (1 ≤ count_where (owns oid a.id) db.organization_members))

pos_of_some :
    (p : OrganizationMember → Bool) (ms : List OrganizationMember)
    → is_some (find p ms) ≡ true
    → 1 ≤ count_where p ms
pos_of_some p ms h = elim (Option-cases (find p ms)) [
  | inl e ↦ absurd (false≢true (rw e at h))
  | inr (m, e) ↦ count-pos-of-find p ms e
]

active_account_id-found :
    (u : String) (db : Database)
    → Ensures
        (λ id. (a : Account) × (find (named_active u) db.accounts ≡ some a) × (id ≡ a.id))
        (active_account_id db u)
unfolding active_account_id
active_account_id-found u db = Ensures-ok_or _ _ _ λ a e. Ensures-ok _ (a, e, refl)

authorize_organization_owner-MayAct :
    (db : Database) (oid : ℕ) (actor : String)
    → Ensures (λ _. MayAct db oid actor) (authorize_organization_owner db oid actor)
unfolding authorize_organization_owner
authorize_organization_owner-MayAct db oid actor =
    Ensures-if (str_eq actor "admin-cli") _ _
      (λ e. Ensures-ok tt (inl ((eq_iff actor "admin-cli").0 e)))
      (λ _. Ensures-bind _ _ λ id e. Ensures-test _ _ λ own.
        let (a, found, same) = (active_account_id-found actor db).at id e in
        inr (a, found, rw (← same) (pos_of_some (owns oid id) db.organization_members own)))

-- An account can have the name of the command line.
admin_cli_accepted : validate_username (codes "admin-cli") ≡ inr tt
unfolding validate_username last_is
admin_cli_accepted = refl

-- Setting the role of a member, and removing one, succeed only for an organization that is active,
-- and only if the actor is an active account that owns the organization, or is named "admin-cli": the
-- command line's name, which `validate_username` accepts as the name of an account.
pub members-MayAct :
    (organization actor username role : String) (t : Time) (c : String) (db db' : Database)
    → (set_organization_member organization actor username role t c db ≡ ok db')
      ⊎ (remove_organization_member organization actor username t c db ≡ ok db')
    → ((oid : ℕ) × (active_organization_id db organization ≡ ok oid) × MayAct db oid actor)
      × (validate_username (codes "admin-cli") ≡ inr tt)
members-MayAct organization actor username role t c db db' (inl e) =
    (set_by.at db' e, admin_cli_accepted)
  where
    set_by :
        Ensures
          (λ _. (oid : ℕ) × (active_organization_id db organization ≡ ok oid) × MayAct db oid actor)
          (set_organization_member organization actor username role t c db)
    set_by =
        unfold set_organization_member in
        Ensures-ok_or _ _ _ λ r _. Ensures-bind _ _ λ oid e. Ensures-then _ _ λ may. record {
          at = λ _ _. (oid, e, (authorize_organization_owner-MayAct db oid actor).at tt may);
        }
members-MayAct organization actor username role t c db db' (inr e) =
    (removed_by.at db' e, admin_cli_accepted)
  where
    removed_by :
        Ensures
          (λ _. (oid : ℕ) × (active_organization_id db organization ≡ ok oid) × MayAct db oid actor)
          (remove_organization_member organization actor username t c db)
    removed_by =
        unfold remove_organization_member in
        Ensures-bind _ _ λ oid e. Ensures-then _ _ λ may. record {
          at = λ _ _. (oid, e, (authorize_organization_owner-MayAct db oid actor).at tt may);
        }
