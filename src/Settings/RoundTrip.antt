-- ===== src/Settings/RoundTrip.antt =====
-- Archiving a repository and unarchiving it.
use tit.Prelude.{
  String, ℕ, ◌≡◌, refl, sym, ◌∙◌, ap, true, false, ◌&&◌, not, none, some, List, [], ◌∷◌, eq_iff,
  Option-cases, inl, inr, arith, All, is_some, leb,
}
use tit.Prelude.Tables.{find, update_where, count-of-find-none, find-holds, count-update_pos}
use tit.Prelude.Rows.{find_nothing, All-of-find-none, update-undo}
use tit.Store.Error.{ok, Ensures, Ensures-ok, ◌>>◌}
use tit.Store.Schema.{Database, Repository, Time}
use tit.Store.Common.{insert_audit_event, active_account_id}
use tit.Store.Organizations.{authorize_namespace_maintainer}
use tit.Store.Settings.{
  owned_in, active_namespace_id, update_repository, archive_repository,
  unarchive_repository_for_owner, archived_by, settings_event, path_text,
}
use tit.Settings.Effects.{is_in}
use tit.Settings.Slugs.{IsDistinct}
use tit.Settings.Archived.{only_active}

-- CHECK ((state = 'active' AND archived_at IS NULL) OR …)
abbrev pub AreChecked : List Repository → Type 0
AreChecked rs = All (λ r. is_in "active" r ≡ true → r.archived_at ≡ none) rs

abbrev reopened : Repository → Repository
reopened r = record r { state = "active"; archived_at = none }

reopened_same : (r : Repository) → r.state ≡ "active" → r.archived_at ≡ none → reopened r ≡ r
reopened_same r e h =
    ap (λ s. record r { state = s; archived_at = none }) (sym e)
    ∙ ap (λ a. record r { archived_at = a }) (sym h)

-- What archiving leaves, and the row that it found.
archive_repository-table :
    (owner slug : String) (t : Time) (a c : String) (db : Database) (owner_id : ℕ)
    → active_namespace_id db owner ≡ ok owner_id
    → Ensures
        (λ x.
          (r : Repository) × (find (owned_in owner_id slug "active") db.repositories ≡ some r)
          × (x
              ≡ settings_event "repository.archive" a (path_text owner slug) c t (record db {
                repositories =
                    update_where (owned_in owner_id slug "active") (archived_by t) db.repositories;
              })))
        (archive_repository owner slug t a c db)
unfolding archive_repository update_repository ◌>>◌
archive_repository-table owner slug t a c db owner_id here =
    rw here (elim (Option-cases (find (owned_in owner_id slug "active") db.repositories)) [
      | inl e ↦ rw e (record { at = λ x h. cc })
      | inr (r, e) ↦
          elim (Option-cases (
            find (λ r. owned_in owner_id slug "active" r && not (leb r.created_at t))
              db.repositories)) [
                | inl e₂ ↦ rw (e, e₂) (Ensures-ok _ (r, refl, refl))
                | inr (b, e₂) ↦ rw (e, e₂) (record { at = λ x h. cc })
              ]
    ])

-- The second update finds its row, refuses none, and gives the table back.
unarchives :
    (owner_id : ℕ) (slug : String) (t : Time) (rs : List Repository) {r : Repository}
    → find (owned_in owner_id slug "active") rs ≡ some r
    → is_some (
        find
          (owned_in owner_id slug "archived")
          (update_where (owned_in owner_id slug "active") (archived_by t) rs))
      ≡ true
unarchives owner_id slug t rs {r} found =
    elim (Option-cases (
      find (owned_in owner_id slug "archived")
        (update_where (owned_in owner_id slug "active") (archived_by t) rs))) [
          | inr (b, e) ↦ rw e refl
          | inl e ↦ absurd (
              omega (
                arith,
                count-of-find-none _ _ e,
                count-update_pos (owned_in owner_id slug "archived")
                    (owned_in owner_id slug "active") (owned_in owner_id slug "active")
                    (archived_by t) rs (λ x h. ground (arith, h)) found
                    (find-holds (owned_in owner_id slug "active") rs found),
              ))
        ]

each_undone :
    (owner_id : ℕ) (slug : String) (t : Time) (rs : List Repository)
    → AreChecked rs
    → All (λ r. owned_in owner_id slug "archived" r ≡ false) rs
    → All
        (λ r.
          (owned_in owner_id slug "archived" r ≡ false)
          × (owned_in owner_id slug "active" r ≡ true → reopened (archived_by t r) ≡ r))
        rs
each_undone owner_id slug t [] checked off = tt
each_undone owner_id slug t (r ∷ rs) (c, cs) (o, os) = (
  (
    o,
    λ h. reopened_same r ((eq_iff r.state "active").0 (ground (arith, h))) (c (ground (arith, h))),
  ),
  each_undone owner_id slug t rs cs os,
)

-- Unarchiving where it is granted and there is an archived repository.
unarchive-succeeds :
    (owner slug actor : String) (u : Time) (d : String) (db : Database) (owner_id : ℕ)
    → active_namespace_id db owner ≡ ok owner_id
    → authorize_namespace_maintainer db owner_id actor ≡ ok tt
    → is_some (find (owned_in owner_id slug "archived") db.repositories) ≡ true
    → (db₂ : Database) × (unarchive_repository_for_owner owner slug actor u d db ≡ ok db₂)
      × (db₂.repositories
          ≡ update_where (owned_in owner_id slug "archived") reopened db.repositories)
unfolding unarchive_repository_for_owner update_repository insert_audit_event ◌>>◌
unarchive-succeeds owner slug actor u d db owner_id here may there = (
  settings_event "repository.unarchive" actor (path_text owner slug) d u (record db {
    repositories = update_where (owned_in owner_id slug "archived") reopened db.repositories;
  }),
  rw
      (
        here,
        may,
        there,
        find_nothing (λ r. owned_in owner_id slug "archived" r && not true) db.repositories
            (λ r. ground arith),
      )
      refl,
  refl,
)

-- Where no two repositories have one id, no two of an owner one slug, and an active one has no time of
-- archiving: an actor who may maintain the active namespace can unarchive a repository of it that was archived just
-- before, and then every repository is as it was before the archiving.
pub archive-unarchive :
    (owner slug actor archiver : String) (t u : Time) (c d : String) (db db₁ : Database)
    (owner_id : ℕ)
    → IsDistinct db
    → AreChecked db.repositories
    → active_namespace_id db owner ≡ ok owner_id
    → authorize_namespace_maintainer db owner_id actor ≡ ok tt
    → archive_repository owner slug t archiver c db ≡ ok db₁
    → (db₂ : Database) × (unarchive_repository_for_owner owner slug actor u d db₁ ≡ ok db₂)
      × (db₂.repositories ≡ db.repositories)
unfolding active_namespace_id authorize_namespace_maintainer active_account_id insert_audit_event
archive-unarchive owner slug actor archiver t u c d db db₁ owner_id inv checked here may done =
    let (r, found, shape) =
      (archive_repository-table owner slug t archiver c db owner_id here).at db₁ done in
    let left = settings_event "repository.archive" archiver (path_text owner slug) c t (record db {
      repositories = update_where (owned_in owner_id slug "active") (archived_by t) db.repositories;
    }) in
    let (db₂, e, table) =
      unarchive-succeeds owner slug actor u d left owner_id here may
        (unarchives owner_id slug t db.repositories found) in
    let off =
      All-of-find-none (owned_in owner_id slug "archived") db.repositories
        (only_active db owner_id slug r inv found) in
    (
      db₂,
      ap (unarchive_repository_for_owner owner slug actor u d) shape ∙ e,
      table
          ∙ update-undo (owned_in owner_id slug "active") (owned_in owner_id slug "archived")
              (archived_by t) reopened db.repositories (λ x h. ground (arith, h))
              (each_undone owner_id slug t db.repositories checked off),
    )
