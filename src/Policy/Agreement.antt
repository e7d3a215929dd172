-- ===== src/Policy/Agreement.antt =====
-- src/policy.rs and the access tests of src/store/mod.rs decide alike.
use tit.Prelude.{
  String, ℕ, ◌≡◌, ◌↔◌, refl, sym, ap, ◌∙◌, Bool, true, false, ◌&&◌, ◌||◌, not, Option, none, some,
  str_eq, is_some, if◌then◌else◌, Option-cases, Bool-cases, inl, inr,
}
use tit.Prelude.Tables.{find}
use tit.Store.Error.{Result, ok, err, ok_or, ◌>>=◌, Ensures, Ensures-ok, Ensures-ok_or}
use tit.Store.Schema.{
  Database, Account, Namespace, Repository, OrganizationMember, RepositoryCollaborator, is_active,
}
use tit.Store.Keys.{equals_id}
use tit.Store.Repositories.{
  RepositoryRecord, RepositoryAuthorizationRecord, repository_authorization, joined_role, case_role,
  find_actor, repository_row, owner_namespace, member_has, collaborator_has,
}
use tit.Store.Access.{
  RepositoryIssueAccess, can_read, can_write_repository, can_maintain, active_id, writer_role,
  maintainer_role, repository_issue_access,
}
use tit.Policy.{
  RepositoryOperation, read, write, maintain, RepositoryRole, owner, maintainer, writer, reader,
  granted, parse_role, parsed_role, operation_allows, allows, authorize,
}
use tit.Policy.Grants.{authorize_record-granted, granted-authorize_record, granted-injective}

-- The store's test for each operation.
abbrev pub may : RepositoryOperation → RepositoryIssueAccess → Bool
may read access = can_read access
may write access = can_write_repository access
may maintain access = can_maintain access

-- The roles that the query gives.
abbrev role_name : Option RepositoryRole → Option String
role_name none = none
role_name (some owner) = some "owner"
role_name (some maintainer) = some "maintainer"
role_name (some writer) = some "writer"
role_name (some reader) = some "reader"

abbrev IsRole : Option String → Type 0
IsRole r = (x : Option RepositoryRole) × (r ≡ role_name x)

IsRole-if : (b : Bool) {r s : Option String} → IsRole r → IsRole s → IsRole (if b then r else s)
IsRole-if true h k = h
IsRole-if false h k = k

case_role-IsRole :
    (a : Account) (n : Namespace) (m : Option OrganizationMember)
    (c : Option RepositoryCollaborator)
    → IsRole (case_role a n m c)
unfolding case_role
case_role-IsRole a n m c =
    IsRole-if (not (is_active a.state)) (none, refl)
      (IsRole-if (equals_id n.account_id a.id) (some owner, refl)
        (IsRole-if (member_has m "owner") (some owner, refl)
          (IsRole-if (member_has m "maintainer" || collaborator_has c "maintainer")
            (some maintainer, refl)
            (IsRole-if (member_has m "writer" || collaborator_has c "writer") (some writer, refl)
              (IsRole-if (member_has m "reader" || collaborator_has c "reader") (some reader, refl)
                (none, refl))))))

joined_role-IsRole :
    (db : Database) (a : Option Account) (n : Namespace) (r : Repository)
    → IsRole (joined_role db a n r)
unfolding joined_role
joined_role-IsRole db none n r = (none, refl)
joined_role-IsRole db (some a) n r = case_role-IsRole a n _ _

repository_authorization-IsRole :
    (db : Database) (o s : String) (actor : Option String)
    → Ensures (λ r. IsRole r.role) (repository_authorization db o s actor)
unfolding repository_authorization
repository_authorization-IsRole db o s actor =
    Ensures-ok_or _ _ _ λ r _.
      Ensures-ok_or _ _ _ λ n _. Ensures-ok _ (joined_role-IsRole db (find_actor db actor) n r)

-- The access that goes with an authorization record.
abbrev access_of : Database → Option String → RepositoryAuthorizationRecord → RepositoryIssueAccess
access_of db actor rec = record {
  repository = rec.repository;
  active_actor_id = active_id (find_actor db actor);
  role = rec.role;
}

-- The two queries find the same.
access_of_authorization :
    (db : Database) (o s : String) (actor : Option String)
    → repository_issue_access db o s actor
      ≡ (repository_authorization db o s actor >>= λ rec. ok (access_of db actor rec))
unfolding repository_issue_access repository_authorization ◌>>=◌ ok_or
access_of_authorization db o s actor =
    elim (Option-cases (find (repository_row o s db.namespaces) db.repositories)) [
      | inl e ↦ rw e refl
      | inr (r, e) ↦
          elim (Option-cases (find (owner_namespace o r.owner_namespace_id) db.namespaces)) [
            | inl e₂ ↦ rw (e, e₂) refl
            | inr (n, e₂) ↦ rw (e, e₂) refl
          ]
    ]

value_of : {A : Type 0} → A → Result A → A
value_of a (ok x) = x
value_of a (err e) = a

ok-injective : {A : Type 0} {a b : A} → ok a ≡ ok b → a ≡ b
unfolding value_of
ok-injective {a = a} e = ap (value_of a) e

and_false : (b : Bool) → (b && false) ≡ false
and_false true = refl
and_false false = refl

or_true : (b : Bool) → (b || true) ≡ true
or_true true = refl
or_true false = refl

parsed : (x : Option RepositoryRole) → parsed_role (role_name x) ≡ granted x
unfolding parse_role
parsed none = refl
parsed (some owner) = refl
parsed (some maintainer) = refl
parsed (some writer) = refl
parsed (some reader) = refl

-- The test of the store on an active repository that is public if `v`.
store_may : Bool → RepositoryOperation → Option String → Bool
store_may v read r = v || is_some r
store_may v write r = (v || is_some r) && writer_role r
store_may v maintain r = (v || is_some r) && maintainer_role r

operation_may :
    (p : RepositoryRecord) (op : RepositoryOperation) (x : Option RepositoryRole)
    → operation_allows p op x ≡ store_may (str_eq p.visibility "public") op (role_name x)
unfolding store_may
operation_may p read none = refl
operation_may p read (some owner) = refl
operation_may p read (some maintainer) = refl
operation_may p read (some writer) = refl
operation_may p read (some reader) = refl
operation_may p write none = rw and_false refl
operation_may p write (some owner) = rw or_true refl
operation_may p write (some maintainer) = rw or_true refl
operation_may p write (some writer) = rw or_true refl
operation_may p write (some reader) = rw and_false refl
operation_may p maintain none = rw and_false refl
operation_may p maintain (some owner) = rw or_true refl
operation_may p maintain (some maintainer) = rw or_true refl
operation_may p maintain (some writer) = rw and_false refl
operation_may p maintain (some reader) = rw and_false refl

may-store_may :
    (p : RepositoryRecord) (id : Option ℕ) (op : RepositoryOperation) (r : Option String)
    → str_eq p.state "active" ≡ true
    → may op (record { repository = p; active_actor_id = id; role = r })
      ≡ store_may (str_eq p.visibility "public") op r
unfolding store_may
may-store_may p id read r e = rw e refl
may-store_may p id write r e = rw e refl
may-store_may p id maintain r e = rw e refl

not_active :
    (p : RepositoryRecord) (id : Option ℕ) (op : RepositoryOperation) (r : Option String)
    → str_eq p.state "active" ≡ false
    → may op (record { repository = p; active_actor_id = id; role = r }) ≡ false
not_active p id read r e = rw e refl
not_active p id write r e = rw e refl
not_active p id maintain r e = rw e refl

-- For a role that the query gives, the policy and the store's test agree.
allows-may :
    (p : RepositoryRecord) (id : Option ℕ) (op : RepositoryOperation) (r : Option String)
    → IsRole r
    → allows (record { repository = p; role = r }) op
      ≡ granted (may op (record { repository = p; active_actor_id = id; role = r }))
unfolding allows
allows-may p id op r (x, e) = elim (Bool-cases (str_eq p.state "active")) [
  | inr off ↦ rw (off, not_active p id op r off) refl
  | inl on ↦ rw (on, may-store_may p id op r on, e, parsed x, operation_may p op x) refl
]

-- The policy grants reading, writing or maintaining a repository exactly where the store finds the
-- repository and its own test of the same operation, on the role that it finds, holds: `can_read`,
-- `can_write_repository` or `can_maintain`.
pub authorize-agrees :
    (db : Database) (actor : Option String) (o s : String) (op : RepositoryOperation)
    (r : RepositoryRecord)
    → (authorize db actor o s op ≡ granted r) ↔ (
        (a : RepositoryIssueAccess) × (repository_issue_access db o s actor ≡ ok a)
        × (a.repository ≡ r)
        × (may op a ≡ true))
unfolding authorize ◌>>=◌
authorize-agrees db actor o s op r = (to, from (repository_authorization db o s actor) refl)
  where
    Found : Type 0
    Found =
        (a : RepositoryIssueAccess) × (repository_issue_access db o s actor ≡ ok a)
        × (a.repository ≡ r)
        × (may op a ≡ true)

    to : authorize db actor o s op ≡ granted r → Found
    to h =
        let (rec, e, same, allowed) = authorize_record-granted op _ r h in
        let is = (repository_authorization-IsRole db o s actor).at rec e in
        (
          access_of db actor rec,
          access_of_authorization db o s actor
              ∙ ap (λ m. m >>= λ rec. ok (access_of db actor rec)) e,
          same,
          granted-injective (
              sym (allows-may rec.repository (active_id (find_actor db actor)) op rec.role is)
              ∙ allowed),
        )

    from :
        (m : Result RepositoryAuthorizationRecord)
        → repository_authorization db o s actor ≡ m
        → Found
        → authorize db actor o s op ≡ granted r
    from (err x) e (a, found, _, _) = absurd (
        cc (
          found,
          access_of_authorization db o s actor
              ∙ ap (λ m. m >>= λ rec. ok (access_of db actor rec)) e,
        ))
    from (ok rec) e (a, found, same, allowed) =
        let is = ok-injective (
          sym found
          ∙ access_of_authorization db o s actor
          ∙ ap (λ m. m >>= λ rec. ok (access_of db actor rec)) e) in
        granted-authorize_record op _ rec e (
          allows-may rec.repository (active_id (find_actor db actor)) op rec.role
            ((repository_authorization-IsRole db o s actor).at rec e)
          ∙ ap granted (ap (may op) (sym is) ∙ allowed))
        ∙ ap granted (ap (λ (x : RepositoryIssueAccess). x.repository) (sym is) ∙ same)
