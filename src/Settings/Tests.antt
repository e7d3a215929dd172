-- ===== src/Settings/Tests.antt =====
-- The theorems on repositories at one active repository of an account and an archived one.
use tit.Prelude.{
  List, ℕ, arith, ◌≡◌, refl, false, none, some, [], ◌∷◌, subst, ◌≤◌, str_eq, eq_iff, Bool-cases,
  inl, inr,
}
use tit.Prelude.Tables.{find, count_where, update_where}
use tit.Store.Error.{ok, err, panicked, ◌>>◌}
use tit.Store.Schema.{Database, AccountState, NamespaceKind, Repository, empty}
use tit.Store.Common.{active_account_id, insert_audit_event}
use tit.Store.Organizations.{authorize_namespace_maintainer}
use tit.Store.Settings.{
  active_namespace_id, rename_repository_for_owner, update_slug, owned_as, update_repository,
  archive_repository, unarchive_repository_for_owner, with_repository_id,
}
use tit.Identity.Reach.{after}
use tit.Settings.Calls.{Call, rename, set_visibility, run}
use tit.Settings.Slugs.{IsDistinct}
use tit.Settings.Archived.{run-archived, unarchive_repository_for_owner-panicked}
use tit.Settings.Renamed.{IsRenamed, rename_repository_for_owner-renames}
use tit.Settings.RoundTrip.{archive-unarchive}

abbrev live : Repository
live = record {
  id = "r";
  owner_namespace_id = 1;
  slug = "project";
  visibility = "public";
  state = "active";
  object_format = "sha1";
  created_at = 7;
  archived_at = none;
}

abbrev old : Repository
old = record live { id = "s"; slug = "old"; state = "archived"; archived_at = some 9 }

abbrev start : Database
start = record empty {
  accounts =
      record {
        id = 1;
        username = "alice";
        is_administrator = false;
        state = AccountState.active;
        created_at = 5;
      }
      ∷ [];
  namespaces =
      record {
        id = 1;
        slug = "alice";
        kind = NamespaceKind.account;
        account_id = some 1;
        created_at = 5;
      }
      ∷ [];
  repositories = live ∷ old ∷ [];
}

start-IsDistinct : IsDistinct start
unfolding count_where
start-IsDistinct = record {
  ids = λ id. elim (Bool-cases (str_eq "r" id)) [
    | inl e ↦
        subst (λ x. count_where (with_repository_id x) start.repositories ≤ 1) ((eq_iff "r" id).0 e)
          (omega arith)
    | inr e ↦ ground (arith, e)
  ];
  slugs = λ o s. elim (Bool-cases (str_eq "old" s)) [
    | inl e ↦
        subst (λ x. count_where (owned_as o x) start.repositories ≤ 1) ((eq_iff "old" s).0 e)
          (ground arith)
    | inr e ↦ ground (arith, e)
  ];
}

abbrev script : List Call
script =
    rename "alice" "project" "old" 20 "alice" "c1"
    ∷ rename "alice" "project" "new" 21 "alice" "c2"
    ∷ set_visibility "alice" "old" "private" 22 "alice" "c3"
    ∷ []

run-archived_example : find (with_repository_id "s") (run start script).repositories ≡ some old
unfolding find
run-archived_example = run-archived script start "s" old refl start-IsDistinct refl refl

unarchive_repository_for_owner-panicked_example :
    unarchive_repository_for_owner "alice" "project" "alice" 20 "c" start ≡ err panicked
unfolding active_namespace_id authorize_namespace_maintainer active_account_id ◌>>◌ find
unarchive_repository_for_owner-panicked_example =
    unarchive_repository_for_owner-panicked "alice" "project" "alice" 20 "c" start 1 live
      start-IsDistinct refl refl refl refl

abbrev shut : Database
shut = after start (archive_repository "alice" "project" 30 "alice" "c" start)

archive-unarchive_example :
    (db : Database) × (unarchive_repository_for_owner "alice" "project" "alice" 40 "d" shut ≡ ok db)
    × (db.repositories ≡ start.repositories)
unfolding archive_repository update_repository insert_audit_event active_namespace_id
    authorize_namespace_maintainer active_account_id ◌>>◌ find update_where
archive-unarchive_example =
    archive-unarchive "alice" "project" "alice" "alice" 30 40 "c" "d" start shut 1 start-IsDistinct
      (λ e. refl, (λ e. absurd cc, tt)) refl refl refl

abbrev moved : Database
moved = after start (rename_repository_for_owner "alice" "project" "other" "alice" 30 "c" start)

rename_repository_for_owner-renames_example :
    (oid : ℕ) × (active_namespace_id start "alice" ≡ ok oid)
    × (authorize_namespace_maintainer start oid "alice" ≡ ok tt)
    × IsRenamed oid "project" "other" start moved
unfolding rename_repository_for_owner update_slug insert_audit_event active_namespace_id
    authorize_namespace_maintainer active_account_id ◌>>◌ find update_where
rename_repository_for_owner-renames_example =
    rename_repository_for_owner-renames "alice" "project" "other" "alice" 30 "c" start moved
      start-IsDistinct refl
