-- ===== src/Policy/Grants.antt =====
-- How the grants of src/policy.rs follow from one another.
use mathlib.Core.Bool.{false≢true}
use tit.Prelude.{
  String, ◌≡◌, ◌≢◌, refl, ap, ◌∙◌, Bool, true, false, ◌||◌, not, Option, none, some, str_eq, eq_iff,
  if◌then◌else◌,
}
use tit.Store.Error.{Result, ok, err}
use tit.Store.Schema.{Database}
use tit.Store.Repositories.{
  RepositoryRecord, RepositoryAuthorizationRecord, repository_authorization,
  repository_default_branch,
}
use tit.Policy.{
  RefChange, create, fast_forward, force, delete, tag_update, RepositoryOperation, read, write,
  maintain, RepositoryRole, owner, maintainer, writer, reader, Answer, granted, refused,
  parsed_role, allows_role, allows, grant_if, authorize_record, authorize, maintain_denies,
  change_denied, deny_if, change_written, change_record, authorize_ref_change,
}

answer_of : {A : Type 0} → A → Answer A → A
answer_of a (granted x) = x
answer_of a (refused p) = a

pub granted-injective : {A : Type 0} {a b : A} → granted a ≡ granted b → a ≡ b
unfolding answer_of
granted-injective {a = a} e = ap (answer_of a) e

-- What a grant says of the record that the store returned.
pub authorize_record-granted :
    (op : RepositoryOperation) (m : Result RepositoryAuthorizationRecord) (r : RepositoryRecord)
    → authorize_record op m ≡ granted r
    → (rec : RepositoryAuthorizationRecord) × (m ≡ ok rec)
      × (rec.repository ≡ r)
      × (allows rec op ≡ granted true)
authorize_record-granted op (err e) r h = absurd cc
authorize_record-granted op (ok rec) r h = go (allows rec op) refl h
  where
    go :
        (b : Answer Bool)
        → allows rec op ≡ b
        → grant_if rec.repository b ≡ granted r
        → (rec' : RepositoryAuthorizationRecord) × (ok rec ≡ ok rec')
          × (rec'.repository ≡ r)
          × (allows rec' op ≡ granted true)
    go (granted true) e h' = (rec, refl, granted-injective h', e)
    go (granted false) e h' = absurd cc
    go (refused x) e h' = absurd cc

pub granted-authorize_record :
    (op : RepositoryOperation) (m : Result RepositoryAuthorizationRecord)
    (rec : RepositoryAuthorizationRecord)
    → m ≡ ok rec
    → allows rec op ≡ granted true
    → authorize_record op m ≡ granted rec.repository
granted-authorize_record op m rec e h = rw (e, h) refl

or_true : (b : Bool) → (b || true) ≡ true
or_true true = refl
or_true false = refl

maintain_writes :
    (rec : RepositoryRecord) (m : Answer (Option RepositoryRole))
    → allows_role rec maintain m ≡ granted true
    → (allows_role rec write m ≡ granted true) × (allows_role rec read m ≡ granted true)
maintain_writes rec (granted none) h = absurd cc
maintain_writes rec (granted (some owner)) h = (refl, ap granted (or_true _))
maintain_writes rec (granted (some maintainer)) h = (refl, ap granted (or_true _))
maintain_writes rec (granted (some writer)) h = absurd cc
maintain_writes rec (granted (some reader)) h = absurd cc
maintain_writes rec (refused e) h = absurd cc

write_reads :
    (rec : RepositoryRecord) (m : Answer (Option RepositoryRole))
    → allows_role rec write m ≡ granted true
    → allows_role rec read m ≡ granted true
write_reads rec (granted none) h = absurd cc
write_reads rec (granted (some role)) h = ap granted (or_true _)
write_reads rec (refused e) h = absurd cc

gate :
    (b : Bool) (x : Answer Bool)
    → (if not b then granted false else x) ≡ granted true
    → (b ≡ true) × (x ≡ granted true)
gate true x h = (refl, h)
gate false x h = absurd cc

-- An operation is allowed in an active repository only.
pub allows-active :
    (rec : RepositoryAuthorizationRecord) (op : RepositoryOperation)
    → allows rec op ≡ granted true
    → (str_eq rec.repository.state "active" ≡ true)
      × (allows_role rec.repository op (parsed_role rec.role) ≡ granted true)
unfolding allows
allows-active rec op h = gate _ _ h

active-allows :
    (rec : RepositoryAuthorizationRecord) (op : RepositoryOperation)
    → str_eq rec.repository.state "active" ≡ true
    → allows_role rec.repository op (parsed_role rec.role) ≡ granted true
    → allows rec op ≡ granted true
unfolding allows
active-allows rec op a h = rw a h

-- Whoever may maintain a repository may write to it, and whoever may write to it may read it: a
-- grant of the stronger operation comes with a grant of the weaker one, for the same repository.
pub authorize-monotone :
    (db : Database) (actor : Option String) (owner_slug slug : String) (r : RepositoryRecord)
    → ((authorize db actor owner_slug slug maintain ≡ granted r)
        → authorize db actor owner_slug slug write ≡ granted r)
      × ((authorize db actor owner_slug slug write ≡ granted r)
          → authorize db actor owner_slug slug read ≡ granted r)
unfolding authorize
authorize-monotone db actor owner_slug slug r = (
  (λ h.
      let (rec, e, same, a) = authorize_record-granted maintain m r h in
      let (act, b) = allows-active rec maintain a in
      granted-authorize_record write m rec e
        (active-allows rec write act (maintain_writes rec.repository _ b).0)
      ∙ ap granted same),
  (λ h.
      let (rec, e, same, a) = authorize_record-granted write m r h in
      let (act, b) = allows-active rec write a in
      granted-authorize_record read m rec e
        (active-allows rec read act (write_reads rec.repository _ b))
      ∙ ap granted same),
)
  where
    m : Result RepositoryAuthorizationRecord
    m = repository_authorization db owner_slug slug actor

-- What a granted change says of the record and of the default branch.
abbrev GrantedChange :
    String
    → RefChange
    → Result String
    → Result RepositoryAuthorizationRecord
    → RepositoryRecord
    → Type 0
GrantedChange ref_name change branch m r =
    (rec : RepositoryAuthorizationRecord) × (m ≡ ok rec)
    × (rec.repository ≡ r)
    × (allows rec write ≡ granted true)
    × ((default_branch : String) × (branch ≡ ok default_branch)
        × (change_denied rec (str_eq ref_name default_branch) change ≡ granted false))

change_record-granted :
    (ref_name : String) (change : RefChange) (branch : Result String)
    (m : Result RepositoryAuthorizationRecord) (r : RepositoryRecord)
    → change_record ref_name change branch m ≡ granted r
    → GrantedChange ref_name change branch m r
change_record-granted ref_name change branch (err e) r h = absurd cc
change_record-granted ref_name change branch (ok rec) r h = go (allows rec write) branch refl refl h
  where
    go :
        (w : Answer Bool) (br : Result String)
        → allows rec write ≡ w
        → branch ≡ br
        → change_written rec ref_name change br w ≡ granted r
        → GrantedChange ref_name change branch (ok rec) r
    go (granted true) (err e) w b g = absurd cc
    go (granted false) br w b g = absurd cc
    go (refused e) br w b g = absurd cc
    go (granted true) (ok d) w b g = last (change_denied rec (str_eq ref_name d) change) refl g
      where
        last :
            (x : Answer Bool)
            → change_denied rec (str_eq ref_name d) change ≡ x
            → deny_if rec.repository x ≡ granted r
            → GrantedChange ref_name change branch (ok rec) r
        last (granted true) e k = absurd cc
        last (granted false) e k = (rec, refl, granted-injective k, w, (d, b, e))
        last (refused e') e k = absurd cc

not_denied :
    (rec : RepositoryAuthorizationRecord) (x : Answer Bool)
    → maintain_denies x ≡ granted false
    → x ≡ granted true
not_denied rec (granted true) h = refl
not_denied rec (granted false) h = absurd cc
not_denied rec (refused e) h = absurd cc

change_denied-no :
    (rec : RepositoryAuthorizationRecord) (p : Bool) (c : RefChange)
    → change_denied rec p c ≡ granted false
    → (c ≢ force) × (p ≡ true → (c ≢ delete) × (allows rec maintain ≡ granted true))
change_denied-no rec p force h = absurd cc
change_denied-no rec true delete h = absurd cc
change_denied-no rec false delete h = ((λ e. cc), λ p. absurd (false≢true p))
change_denied-no rec false create h = ((λ e. cc), λ p. absurd (false≢true p))
change_denied-no rec false fast_forward h = ((λ e. cc), λ p. absurd (false≢true p))
change_denied-no rec false tag_update h = ((λ e. cc), λ p. absurd (false≢true p))
change_denied-no rec true create h = ((λ e. cc), λ p. ((λ e. cc), not_denied rec _ h))
change_denied-no rec true fast_forward h = ((λ e. cc), λ p. ((λ e. cc), not_denied rec _ h))
change_denied-no rec true tag_update h = ((λ e. cc), λ p. ((λ e. cc), not_denied rec _ h))

-- A granted change of a ref is one that an actor makes who may write to the repository, and it is
-- not forced; where the ref is the default branch, it is not deleted, and the actor may maintain
-- the repository.
pub authorize_ref_change-protects :
    (db : Database) (actor owner_slug slug ref_name : String) (change : RefChange)
    (r : RepositoryRecord)
    → authorize_ref_change db actor owner_slug slug ref_name change ≡ granted r
    → (authorize db (some actor) owner_slug slug write ≡ granted r)
      × (change ≢ force)
      × ((branch : String) × (repository_default_branch db owner_slug slug ≡ ok branch)
          × (ref_name ≡ branch
              → (change ≢ delete)
                × (authorize db (some actor) owner_slug slug maintain ≡ granted r)))
unfolding authorize authorize_ref_change
authorize_ref_change-protects db actor owner_slug slug ref_name change r h =
    let (rec, e, same, w, (branch, b, d)) = change_record-granted ref_name change _ _ r h in
    let (forced, kept) = change_denied-no rec (str_eq ref_name branch) change d in
    (
      granted-authorize_record write _ rec e w ∙ ap granted same,
      forced,
      (
        branch,
        b,
        λ at_default.
            let (deleted, may) = kept ((eq_iff ref_name branch).1 at_default) in
            (deleted, granted-authorize_record maintain _ rec e may ∙ ap granted same),
      ),
    )
