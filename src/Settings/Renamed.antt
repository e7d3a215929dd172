-- ===== src/Settings/Renamed.antt =====
-- Renaming a repository from an owner's page: src/store/mod.rs, rename_repository_for_owner.
use tit.Prelude.{
  String, ◌≡◌, refl, subst, Bool, true, false, some, List, is_some, str_eq, eq_refl, Option-cases,
  Bool-cases, inl, inr, arith, if_true, if_false, if◌then◌else◌, ℕ,
}
use tit.Prelude.Tables.{find, update_where, find-holds}
use tit.Prelude.Rows.{find-update_if, find_only}
use tit.Store.Error.{
  ok, err, Result, Ensures, Ensures-ok, Ensures-guard, Ensures-bind, Ensures-then,
}
use tit.Store.Schema.{Database, Repository, Time, AuditEvent}
use tit.Store.Common.{insert_audit_event}
use tit.Store.Organizations.{authorize_namespace_maintainer}
use tit.Store.Settings.{
  owned_in, owned_as, with_repository_id, active_namespace_id, update_slug,
  rename_repository_for_owner, map_page_error,
}
use tit.Settings.Slugs.{IsDistinct}

abbrev with_slug : String → Repository → Repository
with_slug new r = record r { slug = new }

-- The repository `r` of the namespace has the new slug, and every other is as it was.
pub record IsRenamed (oid : ℕ) (old new : String) (db db' : Database) : Type 0 where
  pub repository : Repository
  pub found : find (owned_in oid old "active") db.repositories ≡ some repository
  pub moved :
      find (with_repository_id repository.id) db'.repositories ≡ some (with_slug new repository)
  pub others :
      (id : String) (other : Repository)
      → str_eq repository.id id ≡ false
      → find (with_repository_id id) db.repositories ≡ some other
      → find (with_repository_id id) db'.repositories ≡ some other

some_row :
    (p : Repository → Bool) (rs : List Repository)
    → is_some (find p rs) ≡ true
    → (r : Repository) × (find p rs ≡ some r)
some_row p rs h = elim (Option-cases (find p rs)) [
  | inl e ↦ absurd (cc (rw e at h))
  | inr found ↦ found
]

update-IsRenamed :
    (oid : ℕ) (old new : String) (db db' : Database) (r : Repository)
    → IsDistinct db
    → find (owned_in oid old "active") db.repositories ≡ some r
    → db'.repositories ≡ update_where (owned_in oid old "active") (with_slug new) db.repositories
    → IsRenamed oid old new db db'
update-IsRenamed oid old new db db' r inv found table = record {
  repository = r;
  found = found;
  moved = rw table (
      subst
        (λ x.
          find (with_repository_id r.id)
            (update_where (owned_in oid old "active") (with_slug new) db.repositories)
          ≡ some x)
        (if_true (with_slug new r) r hit)
        (at r.id (
          find_only (owned_in oid old "active") (with_repository_id r.id) db.repositories
            (inv.ids r.id) found (eq_refl r.id))));
  others = λ id other apart here. rw table (
      subst
        (λ x.
          find (with_repository_id id)
            (update_where (owned_in oid old "active") (with_slug new) db.repositories)
          ≡ some x)
        (if_false (with_slug new other) other (missed id other apart here)) (at id here));
}
  where
    hit : owned_in oid old "active" r ≡ true
    hit = find-holds (owned_in oid old "active") db.repositories found

    at :
        (id : String) {a : Repository}
        → find (with_repository_id id) db.repositories ≡ some a
        → find
            (with_repository_id id)
            (update_where (owned_in oid old "active") (with_slug new) db.repositories)
          ≡ some (if owned_in oid old "active" a then with_slug new a else a)
    at id here =
        find-update_if (with_repository_id id) (owned_in oid old "active") (with_slug new)
          db.repositories (λ x. refl) here

    -- Another row that the statement changes would have the slug of `r` too.
    missed :
        (id : String) (other : Repository)
        → str_eq r.id id ≡ false
        → find (with_repository_id id) db.repositories ≡ some other
        → owned_in oid old "active" other ≡ false
    missed id other apart here = elim (Bool-cases (owned_in oid old "active" other)) [
      | inr e ↦ e
      | inl e ↦ absurd (
          cc (
            apart,
            find-holds (with_repository_id id) db.repositories here,
            find_only (with_repository_id id) (owned_as oid old) db.repositories (inv.slugs oid old)
                here (ground (arith, e)),
            find_only (owned_in oid old "active") (owned_as oid old) db.repositories
                (inv.slugs oid old) found (ground (arith, hit)),
          ))
    ]

update_slug-IsRenamed :
    (oid : ℕ) (owner old new : String) (db : Database)
    → IsDistinct db
    → Ensures (IsRenamed oid old new db) (update_slug oid owner old new db)
unfolding update_slug
update_slug-IsRenamed oid owner old new db inv = Ensures-guard _ _ _ λ there.
    Ensures-guard _ _ _ λ _.
      let (r, found) = some_row (owned_in oid old "active") db.repositories there in
      Ensures-ok _ (update-IsRenamed oid old new db _ r inv found refl)

-- The audit of a change leaves the repositories.
logged-IsRenamed :
    {oid : ℕ} {old new : String} {db x : Database} (event : AuditEvent)
    → IsRenamed oid old new db x
    → IsRenamed oid old new db (insert_audit_event event x)
unfolding insert_audit_event
logged-IsRenamed event h = record {
  repository = h.repository;
  found = h.found;
  moved = h.moved;
  others = h.others;
}

-- Where no two repositories have one id, and no two of an owner have one slug: a rename from an
-- owner's page succeeds only for an active namespace that the actor may maintain, and for an active
-- repository of it with the old slug. That repository then has the new slug and is otherwise as it
-- was, and every repository with another id is as it was.
pub rename_repository_for_owner-renames :
    (owner old new actor : String) (t : Time) (c : String) (db db' : Database)
    → IsDistinct db
    → rename_repository_for_owner owner old new actor t c db ≡ ok db'
    → (oid : ℕ) × (active_namespace_id db owner ≡ ok oid)
      × (authorize_namespace_maintainer db oid actor ≡ ok tt)
      × IsRenamed oid old new db db'
rename_repository_for_owner-renames owner old new actor t c db db' inv ran = renamed.at db' ran
  where
    granted : (m : Result (Unit {0})) → map_page_error m ≡ ok tt → m ≡ ok tt
    granted (ok u) e = refl
    granted (err x) e = cc

    renamed :
        Ensures
          (λ x.
            (oid : ℕ) × (active_namespace_id db owner ≡ ok oid)
            × (authorize_namespace_maintainer db oid actor ≡ ok tt)
            × IsRenamed oid old new db x)
          (rename_repository_for_owner owner old new actor t c db)
    renamed =
        unfold rename_repository_for_owner in
        Ensures-bind _ _ λ oid here. Ensures-then _ _ λ may. Ensures-bind _ _ λ x e. Ensures-ok _ (
          oid,
          here,
          granted _ may,
          logged-IsRenamed _ ((update_slug-IsRenamed oid owner old new db inv).at x e),
        )
