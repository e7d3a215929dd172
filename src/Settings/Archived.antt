-- ===== src/Settings/Archived.antt =====
-- Archived repositories: only unarchiving changes them, and it undoes archiving.
use tit.Prelude.{
  String, ℕ, ◌≡◌, refl, sym, ◌∙◌, subst, ap, Bool, true, false, not, none, some, List, [], ◌∷◌,
  str_eq, eq_iff, eq_refl, Bool-cases, inl, inr, arith, all, if_false,
}
use tit.Prelude.Tables.{find, update_where, find-holds, count_mono}
use tit.Prelude.Rows.{find-update_if, find_only, find-other_none}
use tit.Store.Error.{ok, err, panicked, ◌>>◌}
use tit.Store.Schema.{Database, Repository, Time}
use tit.Store.Organizations.{authorize_namespace_maintainer}
use tit.Store.Settings.{
  owned_as, owned_in, with_repository_id, active_namespace_id, repository_state_error, state_error,
  update_repository, unarchive_repository_for_owner,
}
use tit.Identity.Reach.{after, after-Ensures}
use tit.Settings.Calls.{Call, exec, run}
use tit.Settings.Effects.{
  RepositoryEffect, kept, added, renamed, active_changed, one_changed, unarchived, is_in,
  is_unarchive, exec-RepositoryEffect,
}
use tit.Settings.Slugs.{IsDistinct, after-IsDistinct}

-- An update that is not of the row that was found leaves it.
update-other :
    (q p : Repository → Bool) (f : Repository → Repository) (rs : List Repository) {a : Repository}
    → ((r : Repository) → q (f r) ≡ q r)
    → p a ≡ false
    → find q rs ≡ some a
    → find q (update_where p f rs) ≡ some a
update-other q p f rs {a} keeps miss found =
    subst (λ x. find q (update_where p f rs) ≡ some x) (if_false (f a) a miss)
      (find-update_if q p f rs keeps found)

archived-not-active : (r : Repository) → is_in "archived" r ≡ true → is_in "active" r ≡ false
archived-not-active r h =
    subst (λ s. str_eq s "active" ≡ false) (sym ((eq_iff r.state "archived").0 h)) refl

effect-archived :
    (db db' : Database) (id : String) (r : Repository)
    → IsDistinct db
    → is_in "archived" r ≡ true
    → find (with_repository_id id) db.repositories ≡ some r
    → RepositoryEffect false db db'
    → find (with_repository_id id) db'.repositories ≡ some r
unfolding find
effect-archived db db' id r inv off found (kept e) = rw e found
effect-archived db db' id r inv off found (added new free own e) =
    elim (Bool-cases (str_eq new.id id)) [
      | inr other ↦ rw (e, other) found
      | inl same ↦ absurd (
          cc (
            found,
            subst (λ x. find (with_repository_id x) db.repositories ≡ none)
                ((eq_iff new.id id).0 same) free,
          ))
    ]
effect-archived db db' id r inv off found (renamed o old new free e) = rw e (
    update-other (with_repository_id id) (owned_in o old "active") (λ x. record x { slug = new })
      db.repositories (λ x. refl) (ground (arith, archived-not-active r off)) found)
effect-archived db db' id r inv off found (active_changed o s f same e) = rw e (
    update-other (with_repository_id id) (owned_in o s "active") f db.repositories
      (λ x. ap (λ y. str_eq y id) (same x).0) (ground (arith, archived-not-active r off)) found)
effect-archived db db' id r inv off found (one_changed s c f w on same e) =
    elim (Bool-cases (with_repository_id c.id r)) [
      | inl hit ↦
          let at_c =
            find_only s (with_repository_id c.id) db.repositories (inv.ids c.id) w (eq_refl c.id) in
          let at_r =
            find_only (with_repository_id id) (with_repository_id c.id) db.repositories
              (inv.ids c.id) found hit in
          absurd (cc (at_c, at_r, on, archived-not-active r off))
      | inr miss ↦ rw e (
          update-other (with_repository_id id) (with_repository_id c.id) f db.repositories
            (λ x. ap (λ y. str_eq y id) (same x).0) miss found)
    ]
effect-archived db db' id r inv off found (unarchived h o s e) = absurd cc

after-archived :
    (c : Call) (db : Database) (id : String) (r : Repository)
    → is_unarchive c ≡ false
    → IsDistinct db
    → is_in "archived" r ≡ true
    → find (with_repository_id id) db.repositories ≡ some r
    → find (with_repository_id id) (after db (exec c db)).repositories ≡ some r
after-archived c db id r not_un inv off found =
    after-Ensures (λ x. find (with_repository_id id) x.repositories ≡ some r) db (exec c db) found
      (record {
        at = λ x e.
            effect-archived db x id r inv off found
              (subst (λ b. RepositoryEffect b db x) not_un ((exec-RepositoryEffect c db).at x e));
      })

-- Where no two repositories have one id, and no two of an owner one slug: one that is archived keeps its row as it is, with its
-- slug, visibility, state and times, through every sequence of calls on repositories of which none
-- unarchives one, failed ones included.
pub run-archived :
    (calls : List Call) (db : Database) (id : String) (r : Repository)
    → all (λ c. not (is_unarchive c)) calls ≡ true
    → IsDistinct db
    → is_in "archived" r ≡ true
    → find (with_repository_id id) db.repositories ≡ some r
    → find (with_repository_id id) (run db calls).repositories ≡ some r
unfolding run
run-archived [] db id r h inv off found = found
run-archived (c ∷ cs) db id r h inv off found =
    run-archived cs (after db (exec c db)) id r (ground (arith, h)) (after-IsDistinct c db inv) off
      (after-archived c db id r (ground (arith, h)) inv off found)

-- Beside an active repository, no archived one has its owner and slug.
pub only_active :
    (db : Database) (owner_id : ℕ) (slug : String) (r : Repository)
    → IsDistinct db
    → find (owned_in owner_id slug "active") db.repositories ≡ some r
    → find (owned_in owner_id slug "archived") db.repositories ≡ none
only_active db owner_id slug r inv found =
    find-other_none (owned_as owner_id slug) (owned_in owner_id slug "active")
      (owned_in owner_id slug "archived") db.repositories
      (λ x h. ground (arith, h, archived-not-active x)) (inv.slugs owner_id slug) found
      (ground (arith, find-holds (owned_in owner_id slug "active") db.repositories found))

-- Where no two repositories have one id, and no two of an owner one slug: an actor who may maintain an
-- active namespace, and
-- unarchives a repository of it that is active, reaches the `unreachable!` of the error's query.
pub unarchive_repository_for_owner-panicked :
    (owner slug actor : String) (now : Time) (c : String) (db : Database) (owner_id : ℕ)
    (r : Repository)
    → IsDistinct db
    → active_namespace_id db owner ≡ ok owner_id
    → authorize_namespace_maintainer db owner_id actor ≡ ok tt
    → find (owned_as owner_id slug) db.repositories ≡ some r
    → is_in "active" r ≡ true
    → unarchive_repository_for_owner owner slug actor now c db ≡ err panicked
unfolding unarchive_repository_for_owner update_repository ◌>>◌
unarchive_repository_for_owner-panicked owner slug actor now c db owner_id r inv here may found on =
    rw (here, may, at_archived, error) refl
  where
    not_archived : str_eq r.state "archived" ≡ false
    not_archived =
        subst (λ s. str_eq s "archived" ≡ false) (sym ((eq_iff r.state "active").0 on)) refl

    error : repository_state_error db owner_id owner slug ≡ panicked
    error =
        unfold repository_state_error in
        ap (λ o. state_error o owner slug) found ∙ if_false _ _ not_archived

    at_active : find (owned_in owner_id slug "active") db.repositories ≡ some r
    at_active =
        find_only (owned_as owner_id slug) (owned_in owner_id slug "active") db.repositories
          (omega (
            arith,
            inv.slugs owner_id slug,
            count_mono (owned_in owner_id slug "active") (owned_as owner_id slug) db.repositories
                (λ x h. ground (arith, h)),
          ))
          found (ground (arith, on, find-holds (owned_as owner_id slug) db.repositories found))

    at_archived : find (owned_in owner_id slug "archived") db.repositories ≡ none
    at_archived = only_active db owner_id slug r inv at_active
