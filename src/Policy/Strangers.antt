-- ===== src/Policy/Strangers.antt =====
-- Whom src/policy.rs grants nothing beyond what is public.
use tit.Prelude.{
  String, ◌≡◌, refl, sym, ap, ◌∙◌, Bool, true, false, Option, none, some, eq_iff, arith,
}
use tit.Store.Error.{Ensures, Ensures-ok, Ensures-ok_or}
use tit.Store.Schema.{Database, Account, Namespace, Repository, is_active}
use tit.Store.Repositories.{
  RepositoryRecord, repository_authorization, case_role, joined_role, find_actor,
}
use tit.Policy.{RepositoryOperation, read, write, maintain, granted, allows_role, authorize}
use tit.Policy.Grants.{authorize_record-granted, allows-active, granted-injective}

-- The actor has an account, and it is not suspended.
abbrev pub acts : Option Account → Bool
acts none = false
acts (some a) = is_active a.state

joined_role-none :
    (db : Database) (actor : Option Account) (n : Namespace) (r : Repository)
    → acts actor ≡ false
    → joined_role db actor n r ≡ none
unfolding joined_role case_role
joined_role-none db none n r h = refl
joined_role-none db (some a) n r h = rw h refl

repository_authorization-none :
    (db : Database) (owner_slug slug : String) (actor : Option String)
    → acts (find_actor db actor) ≡ false
    → Ensures (λ rec. rec.role ≡ none) (repository_authorization db owner_slug slug actor)
unfolding repository_authorization
repository_authorization-none db owner_slug slug actor h =
    Ensures-ok_or _ _ _ λ r _.
      Ensures-ok_or _ _ _ λ n _. Ensures-ok _ (joined_role-none db (find_actor db actor) n r h)

no_role :
    (rec : RepositoryRecord) (op : RepositoryOperation)
    → allows_role rec op (granted none) ≡ granted true
    → (op ≡ read) × (rec.visibility ≡ "public")
no_role rec read h =
    (refl, (eq_iff rec.visibility "public").0 (ground (arith, granted-injective h)))
no_role rec write h = absurd cc
no_role rec maintain h = absurd cc

-- Without a name, with a name that no account has, or with a suspended account, an actor is granted
-- nothing but reading a repository that is active and public.
pub authorize-strangers :
    (db : Database) (actor : Option String) (owner_slug slug : String) (op : RepositoryOperation)
    (r : RepositoryRecord)
    → acts (find_actor db actor) ≡ false
    → authorize db actor owner_slug slug op ≡ granted r
    → (op ≡ read) × (r.visibility ≡ "public") × (r.state ≡ "active")
unfolding authorize
authorize-strangers db actor owner_slug slug op r h g =
    let (rec, e, same, a) = authorize_record-granted op _ r g in
    let unknown = (repository_authorization-none db owner_slug slug actor h).at rec e in
    let (act, role) = allows-active rec op a in
    let (reads, seen) = no_role rec.repository op (rw unknown at role) in
    (
      reads,
      ap (λ (x : RepositoryRecord). x.visibility) (sym same) ∙ seen,
      ap (λ (x : RepositoryRecord). x.state) (sym same)
          ∙ (eq_iff rec.repository.state "active").0 act,
    )
