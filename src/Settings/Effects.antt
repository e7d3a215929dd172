-- ===== src/Settings/Effects.antt =====
-- What each call does to the table of repositories.
use tit.Prelude.{
  String, ℕ, ◌+◌, ◌≡◌, refl, ◌∙◌, Bool, true, false, Option, none, some, List, [], ◌∷◌, is_none,
  str_eq, arith,
}
use tit.Prelude.Tables.{find, update_where}
use tit.Store.Error.{
  ok, Ensures, Ensures-ok, Ensures-if, Ensures-guard, Ensures-bind, Ensures-ok_or, Ensures-then,
  Ensures-on_row,
}
use tit.Store.Schema.{Database, Time, Repository, DefaultBranchIntent}
use tit.Store.Common.{insert_audit_event}
use tit.Store.Events.{NewDomainEvent, insert_domain_event}
use tit.Store.Repositories.{repository_row}
use tit.Store.Access.{RepositoryIssueAccess, can_maintain, repository_issue_access}
use tit.Store.Settings.{
  NewRepository, NewRepositoryReference, create_repository, insert_repository,
  insert_initial_events, rename_repository, update_slug, archive_repository, update_repository,
  archived_by, set_repository_visibility, set_repository_collaborator,
  remove_repository_collaborator, delete_collaborator, rename_repository_for_owner,
  unarchive_repository_for_owner, update_repository_settings, upsert_collaborator,
  change_collaborator, update_repository_collaborator, archive_repository_for_actor, set_watch,
  upsert_watch, begin_repository_default_branch, insert_branch_intent,
  complete_repository_default_branch, abandon_repository_default_branch, owned_as, owned_in,
  renamed_onto, with_repository_id,
}
use tit.Git.Calls.{database_of-Ensures}
use tit.Settings.Calls.{
  Call, create, rename, archive, set_visibility, set_collaborator, remove_collaborator,
  begin_branch, complete_branch, abandon_branch, update, update_collaborator, archive_for_actor,
  rename_for_owner, unarchive, watching, exec,
}

-- What names a repository.
abbrev pub SameName : Repository → Repository → Type 0
SameName r s = (s.id ≡ r.id) × (s.owner_namespace_id ≡ r.owner_namespace_id) × (s.slug ≡ r.slug)

abbrev pub is_in : String → Repository → Bool
is_in state r = str_eq r.state state

pub data RepositoryEffect (reopens : Bool) (db db' : Database) : Type 0 where
  kept : db'.repositories ≡ db.repositories → RepositoryEffect reopens db db'
  added :
      (r : Repository)
      → find (with_repository_id r.id) db.repositories ≡ none
      → find (owned_as r.owner_namespace_id r.slug) db.repositories ≡ none
      → db'.repositories ≡ r ∷ db.repositories
      → RepositoryEffect reopens db db'
  renamed :
      (owner_id : ℕ) (old_slug new_slug : String)
      → find (renamed_onto owner_id old_slug new_slug) db.repositories ≡ none
      → db'.repositories
        ≡ update_where
            (owned_in owner_id old_slug "active")
            (λ r. record r { slug = new_slug })
            db.repositories
      → RepositoryEffect reopens db db'
  active_changed :
      (owner_id : ℕ) (slug : String) (f : Repository → Repository)
      → ((r : Repository) → SameName r (f r))
      → db'.repositories ≡ update_where (owned_in owner_id slug "active") f db.repositories
      → RepositoryEffect reopens db db'
  one_changed :
      (s : Repository → Bool) (current : Repository) (f : Repository → Repository)
      → find s db.repositories ≡ some current
      → is_in "active" current ≡ true
      → ((r : Repository) → SameName r (f r))
      → db'.repositories ≡ update_where (with_repository_id current.id) f db.repositories
      → RepositoryEffect reopens db db'
  unarchived :
      reopens ≡ true
      → (owner_id : ℕ) (slug : String)
      → db'.repositories
        ≡ update_where
            (owned_in owner_id slug "archived")
            (λ r. record r { state = "active"; archived_at = none })
            db.repositories
      → RepositoryEffect reopens db db'

-- The table of repositories is the same.
abbrev Keeps : Database → Database → Type 0
Keeps db db' = db'.repositories ≡ db.repositories

then_same :
    {a b c : Database}
    → RepositoryEffect false a b
    → c.repositories ≡ b.repositories
    → RepositoryEffect false a c
then_same (kept e) k = kept (k ∙ e)
then_same (added r f o e) k = added r f o (k ∙ e)
then_same (renamed o s n f e) k = renamed o s n f (k ∙ e)
then_same (active_changed o s f n e) k = active_changed o s f n (k ∙ e)
then_same (one_changed s c f w a n e) k = one_changed s c f w a n (k ∙ e)
then_same (unarchived h o s e) k = unarchived h o s (k ∙ e)

none_of : {A : Type 0} (o : Option A) → is_none o ≡ true → o ≡ none
none_of none h = refl
none_of (some a) h = cc

insert_domain_event-Keeps :
    (id : String) (e : NewDomainEvent) (db : Database)
    → Ensures (Keeps db) (insert_domain_event id e db)
unfolding insert_domain_event
insert_domain_event-Keeps id e db = Ensures-guard _ _ _ λ _. Ensures-ok _ refl

insert_initial_events-Keeps :
    (draw : ℕ → String) (n : ℕ) (new : NewRepository) (rs : List NewRepositoryReference)
    (db : Database)
    → Ensures (Keeps db) (insert_initial_events draw n new rs db)
unfolding insert_initial_events
insert_initial_events-Keeps draw n new [] db = Ensures-ok db refl
insert_initial_events-Keeps draw n new (r ∷ rs) db = Ensures-bind _ _ λ k _.
    Ensures-bind _ _ λ db₁ e₁. record {
      at = λ db₂ e₂.
          (insert_initial_events-Keeps draw (n + 1) new rs db₁).at db₂ e₂
          ∙ (insert_domain_event-Keeps _ _ db).at db₁ e₁;
    }

insert_repository-tables :
    (o : ℕ) (n : NewRepository) (db : Database)
    → Ensures
        (λ db'.
          (r : Repository) × (find (with_repository_id r.id) db.repositories ≡ none)
          × (find (owned_as r.owner_namespace_id r.slug) db.repositories ≡ none)
          × (db'.repositories ≡ r ∷ db.repositories))
        (insert_repository o n db)
unfolding insert_repository
insert_repository-tables o n db =
    Ensures-guard _ _ _
      λ free. Ensures-guard _ _ _ λ own. Ensures-ok _ (_, none_of _ free, none_of _ own, refl)

create_repository-effect :
    (draw : ℕ → String) (n : NewRepository) (db : Database)
    → Ensures (RepositoryEffect false db) (create_repository draw n db)
unfolding create_repository insert_audit_event
create_repository-effect draw n db = Ensures-bind _ _ λ o _. Ensures-then _ _ λ _.
    Ensures-bind _ _ λ db₁ e₁. Ensures-bind _ _ λ db₂ e₂. Ensures-bind _ _ λ db₃ e₃.
      let (r, free, own, t₁) = (insert_repository-tables o n db).at db₁ e₁ in
      let t₂ = (insert_domain_event-Keeps _ _ _).at db₂ e₂ in
      let t₃ = (insert_initial_events-Keeps draw 1 n n.initial_references db₂).at db₃ e₃ in
      Ensures-ok _ (added r free own (t₃ ∙ t₂ ∙ t₁))

update_slug-effect :
    (o : ℕ) (owner old new : String) (db : Database)
    → Ensures (RepositoryEffect false db) (update_slug o owner old new db)
unfolding update_slug
update_slug-effect o owner old new db =
    Ensures-guard _ _ _
      λ _. Ensures-guard _ _ _ λ free. Ensures-ok _ (renamed o old new (none_of _ free) refl)

update_repository-table :
    (o : ℕ) (owner slug state : String) (valid : Repository → Bool) (f : Repository → Repository)
    (db : Database)
    → Ensures
        (λ db'. db'.repositories ≡ update_where (owned_in o slug state) f db.repositories)
        (update_repository o owner slug state valid f db)
unfolding update_repository
update_repository-table o owner slug state valid f db =
    Ensures-guard _ _ _ λ _. Ensures-guard _ _ _ λ _. Ensures-ok _ refl

active :
    (a : RepositoryIssueAccess) → can_maintain a ≡ true → str_eq a.repository.state "active" ≡ true
active a h = ground (arith, h)

-- The row whose access was found.
repository_issue_access-row :
    (db : Database) (o s : String) (actor : Option String)
    → Ensures
        (λ a.
          (r : Repository) × (find (repository_row o s db.namespaces) db.repositories ≡ some r)
          × (r.id ≡ a.repository.id)
          × (r.state ≡ a.repository.state))
        (repository_issue_access db o s actor)
unfolding repository_issue_access
repository_issue_access-row db o s actor =
    Ensures-ok_or _ _ _ λ r e. Ensures-ok_or _ _ _ λ n _. Ensures-ok _ (r, e, refl, refl)

-- A change of the repository that a maintainer was granted.
maintained-effect :
    (db : Database) (o s : String) (actor : Option String) (a : RepositoryIssueAccess)
    (f : Repository → Repository) (x : Database)
    → repository_issue_access db o s actor ≡ ok a
    → can_maintain a ≡ true
    → ((r : Repository) → SameName r (f r))
    → x.repositories ≡ update_where (with_repository_id a.repository.id) f db.repositories
    → RepositoryEffect false db x
maintained-effect db o s actor a f x found may same e =
    let (r, there, id, state) = (repository_issue_access-row db o s actor).at a found in
    one_changed (repository_row o s db.namespaces) r f there (rw state (active a may)) same
      (rw id e)

delete_collaborator-Keeps :
    (r : String) (a : ℕ) (u : String) (db : Database)
    → Ensures (Keeps db) (delete_collaborator r a u db)
unfolding delete_collaborator
delete_collaborator-Keeps r a u db = Ensures-guard _ _ _ λ _. Ensures-ok _ refl

change_collaborator-Keeps :
    (r : String) (a : ℕ) (u : String) (role : Option String) (t : Time) (db : Database)
    → Ensures (Keeps db) (change_collaborator r a u role t db)
unfolding change_collaborator upsert_collaborator
change_collaborator-Keeps r a u none t db = delete_collaborator-Keeps r a u db
change_collaborator-Keeps r a u (some role) t db = Ensures-ok _ refl

upsert_watch-Keeps :
    (id r : String) (a : ℕ) (t : Time) (db : Database)
    → Ensures (Keeps db) (upsert_watch id r a t db)
unfolding upsert_watch
upsert_watch-Keeps id r a t db =
    Ensures-on_row _ _ _ (λ _. Ensures-guard _ _ _ λ _. Ensures-ok _ refl)
      (λ w _. Ensures-guard _ _ _ λ _. Ensures-ok _ refl)

set_watch-Keeps :
    (id o s a : String) (w : Bool) (t : Time) (db : Database)
    → Ensures (λ r. Keeps db r.1) (set_watch id o s a w t db)
unfolding set_watch
set_watch-Keeps id o s a w t db = Ensures-bind _ _ λ access _. Ensures-ok_or _ _ _ λ u _.
    Ensures-guard _ _ _ λ _.
      Ensures-if w _ _
        (λ _. Ensures-bind _ _ λ db₁ e₁.
          Ensures-ok_or _ _ _ λ row _. Ensures-ok _ ((upsert_watch-Keeps _ _ _ _ db).at db₁ e₁))
        (λ _. Ensures-ok _ refl)

insert_branch_intent-Keeps :
    (i : DefaultBranchIntent) (db : Database) → Ensures (Keeps db) (insert_branch_intent i db)
unfolding insert_branch_intent
insert_branch_intent-Keeps i db = Ensures-guard _ _ _ λ _. Ensures-ok _ refl

abbrev pub is_unarchive : Call → Bool
is_unarchive (unarchive o s a t c) = true
is_unarchive _ = false

-- What each call does to it.
pub exec-RepositoryEffect :
    (c : Call) (db : Database) → Ensures (RepositoryEffect (is_unarchive c) db) (exec c db)
unfolding exec rename_repository archive_repository set_repository_visibility
    set_repository_collaborator remove_repository_collaborator upsert_collaborator
    rename_repository_for_owner unarchive_repository_for_owner begin_repository_default_branch
    complete_repository_default_branch abandon_repository_default_branch update_repository_settings
    update_repository_collaborator archive_repository_for_actor insert_audit_event
exec-RepositoryEffect (create d n) db = create_repository-effect d n db
exec-RepositoryEffect (rename o s n t a c) db = Ensures-bind _ _ λ id _.
    Ensures-bind _ _ λ x e. Ensures-ok _ (then_same ((update_slug-effect id o s n db).at x e) refl)
exec-RepositoryEffect (archive o s t a c) db = Ensures-bind _ _ λ id _. Ensures-bind _ _ λ x e.
    Ensures-ok _ (
      active_changed id s _ (λ r. (refl, refl, refl))
        ((update_repository-table id o s "active" _ _ db).at x e))
exec-RepositoryEffect (set_visibility o s v t a c) db = Ensures-guard _ _ _ λ _.
    Ensures-bind _ _ λ id _. Ensures-bind _ _ λ x e. Ensures-ok _ (
      active_changed id s _ (λ r. (refl, refl, refl))
        ((update_repository-table id o s "active" _ _ db).at x e))
exec-RepositoryEffect (set_collaborator o s u r t a c) db = Ensures-guard _ _ _ λ _.
    Ensures-bind _ _ λ id _.
      Ensures-ok_or _ _ _
        λ row _. Ensures-ok_or _ _ _ λ acc _. Ensures-guard _ _ _ λ _. Ensures-ok _ (kept refl)
exec-RepositoryEffect (remove_collaborator o s u t a c) db = Ensures-bind _ _ λ id _.
    Ensures-ok_or _ _ _ λ row _. Ensures-ok_or _ _ _ λ acc _.
      Ensures-guard _ _ _ λ _.
        Ensures-bind _ _ λ x e. Ensures-ok _ (kept ((delete_collaborator-Keeps _ _ _ db).at x e))
exec-RepositoryEffect (begin_branch n) db = Ensures-bind _ _ λ a _. Ensures-guard _ _ _ λ _.
    Ensures-ok_or _ _ _ λ b _.
      Ensures-guard _ _ _
        λ _. record { at = λ x e. kept ((insert_branch_intent-Keeps _ db).at x e) }
exec-RepositoryEffect (complete_branch i) db = Ensures-ok_or _ _ _ λ n _. Ensures-ok_or _ _ _ λ r _.
    Ensures-ok_or _ _ _
      λ ns _. Ensures-guard _ _ _ λ _. Ensures-guard _ _ _ λ _. Ensures-ok _ (kept refl)
exec-RepositoryEffect (abandon_branch i) db = Ensures-guard _ _ _ λ _. Ensures-ok _ (kept refl)
exec-RepositoryEffect (update u) db = Ensures-guard _ _ _ λ _. Ensures-bind _ _ λ a found.
    Ensures-guard _ _ _ λ may. Ensures-ok _ (
      maintained-effect db u.owner u.slug (some u.actor) a
        (λ r. record r { visibility = u.visibility }) _ found may (λ r. (refl, refl, refl)) refl)
exec-RepositoryEffect (update_collaborator u) db = Ensures-guard _ _ _ λ _. Ensures-bind _ _ λ a _.
    Ensures-guard _ _ _ λ _. Ensures-ok_or _ _ _ λ acc _. Ensures-guard _ _ _ λ _.
      Ensures-bind _ _ λ x e. Ensures-ok _ (kept ((change_collaborator-Keeps _ _ _ _ _ db).at x e))
exec-RepositoryEffect (archive_for_actor o s actor t c) db = Ensures-bind _ _ λ a found.
    Ensures-guard _ _ _ λ may. Ensures-guard _ _ _ λ _. Ensures-ok _ (
      maintained-effect db o s (some actor) a (archived_by t) _ found may (λ r. (refl, refl, refl))
        refl)
exec-RepositoryEffect (rename_for_owner o s n a t c) db = Ensures-bind _ _ λ id _.
    Ensures-then _ _ λ _.
      Ensures-bind _ _
        λ x e. Ensures-ok _ (then_same ((update_slug-effect id o s n db).at x e) refl)
exec-RepositoryEffect (unarchive o s a t c) db = Ensures-bind _ _ λ id _. Ensures-then _ _ λ _.
    Ensures-bind _ _ λ x e.
      Ensures-ok _
        (unarchived refl id s ((update_repository-table id o s "archived" _ _ db).at x e))
exec-RepositoryEffect (watching i o r a w t) db =
    database_of-Ensures (RepositoryEffect false db) _
      (record { at = λ x e. kept ((set_watch-Keeps i o r a w t db).at x e) })
