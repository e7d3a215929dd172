-- ===== src/Settings/Calls.antt =====
-- The calls of src/store/mod.rs that create a repository or change it, in any order; a call that
-- fails leaves the database as it was.
use tit.Prelude.{String, ℕ, Bool, List, [], ◌∷◌}
use tit.Store.Error.{Result}
use tit.Store.Schema.{Database, Time}
use tit.Store.Settings.{
  NewRepository, create_repository, rename_repository, archive_repository,
  set_repository_visibility, set_repository_collaborator, remove_repository_collaborator,
  rename_repository_for_owner, unarchive_repository_for_owner, RepositorySettingsUpdate,
  update_repository_settings, RepositoryCollaboratorUpdate, update_repository_collaborator,
  archive_repository_for_actor, set_watch, NewDefaultBranchIntent, begin_repository_default_branch,
  complete_repository_default_branch, abandon_repository_default_branch,
}
use tit.Identity.Reach.{after}
use tit.Git.Calls.{database_of}

pub data Call : Type 0 where
  create : (ℕ → String) → NewRepository → Call
  rename : String → String → String → Time → String → String → Call
  archive : String → String → Time → String → String → Call
  set_visibility : String → String → String → Time → String → String → Call
  set_collaborator : String → String → String → String → Time → String → String → Call
  remove_collaborator : String → String → String → Time → String → String → Call
  begin_branch : NewDefaultBranchIntent → Call
  complete_branch : String → Call
  abandon_branch : String → Call
  update : RepositorySettingsUpdate → Call
  update_collaborator : RepositoryCollaboratorUpdate → Call
  archive_for_actor : String → String → String → Time → String → Call
  rename_for_owner : String → String → String → String → Time → String → Call
  unarchive : String → String → String → Time → String → Call
  watching : String → String → String → String → Bool → Time → Call

unfoldable pub exec : Call → Database → Result Database
exec (create d n) db = create_repository d n db
exec (rename o s n t a c) db = rename_repository o s n t a c db
exec (archive o s t a c) db = archive_repository o s t a c db
exec (set_visibility o s v t a c) db = set_repository_visibility o s v t a c db
exec (set_collaborator o s u r t a c) db = set_repository_collaborator o s u r t a c db
exec (remove_collaborator o s u t a c) db = remove_repository_collaborator o s u t a c db
exec (begin_branch n) db = begin_repository_default_branch n db
exec (complete_branch i) db = complete_repository_default_branch i db
exec (abandon_branch i) db = abandon_repository_default_branch i db
exec (update u) db = update_repository_settings u db
exec (update_collaborator u) db = update_repository_collaborator u db
exec (archive_for_actor o s a t c) db = archive_repository_for_actor o s a t c db
exec (rename_for_owner o s n a t c) db = rename_repository_for_owner o s n a t c db
exec (unarchive o s a t c) db = unarchive_repository_for_owner o s a t c db
exec (watching i o r a w t) db = database_of (set_watch i o r a w t db)

unfoldable pub run : Database → List Call → Database
run db [] = db
run db (c ∷ cs) = run (after db (exec c db)) cs
