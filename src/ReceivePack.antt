-- ===== src/ReceivePack.antt =====
-- src/git/receive_pack.rs: the recovery of pushes that were interrupted, recover_incomplete_pushes,
-- and the commands of a push, parse_commands. gix and the file system are parameters: what they
-- answer about a repository, a ref name and an object id, and whether files are removed.
pub mod Ends
pub mod Commands
pub mod Accepted
pub mod Recovery
mod Tests
use tit.Prelude.{
  String, ℕ, Bool, true, false, ◌&&◌, ◌||◌, not, Option, none, some, List, [], ◌∷◌, ◌++◌, any,
  length, ◌==◌, str_eq, is_some, is_none, if◌then◌else◌,
}
use tit.Prelude.Bytes.{codes, bytes_eq, starts_with, strip_suffix, split, split_once}
use tit.PacketLine.{PacketLineError}
use tit.Store.Error
use tit.Store.Error.{StoreError}
use tit.Store.Schema.{
  Database, Bytes, GitIntent, IntentState, pending, promoted, completed, abandoned,
}
use tit.Store.GitIntents.{abandon_git_intent, incomplete_git_intents}
use tit.Store.Merges.{complete_git_intent}

pub data ReceivePackError : Type 0 where
  not_bare commands command_limit object_format ref_name recovery_data : ReceivePackError
  packet_line : PacketLineError → ReceivePackError
  store : StoreError → ReceivePackError
  repository : String → ReceivePackError
  mixed_recovery : String → ReceivePackError

pub data Received {ℓ} (A : Type ℓ) : Type ℓ where
  received : A → Received A
  failed : ReceivePackError → Received A

infixl 5 ◌>>=◌ ◌>>◌
unfoldable pub ◌>>=◌ {ℓ κ} : {A : Type ℓ} {B : Type κ} → Received A → (A → Received B) → Received B
received a >>= f = f a
failed e >>= f = failed e

unfoldable pub ◌>>◌ {ℓ} : {B : Type ℓ} → Received (Unit {0}) → Received B → Received B
unfolding ◌>>=◌
m >> k = m >>= λ _. k

unfoldable pub require : Bool → ReceivePackError → Received (Unit {0})
require true e = received tt
require false e = failed e

unfoldable pub present {ℓ} : {A : Type ℓ} → Option A → ReceivePackError → Received A
present none e = failed e
present (some a) e = received a

abbrev pub of_store : Error.Result Database → Received Database
of_store (Error.ok db) = received db
of_store (Error.err e) = failed (store e)

-- gix's hash kinds.
pub data Kind : Type 0 where
  sha1 sha256 : Kind

abbrev pub same_kind : Kind → Kind → Bool
same_kind sha1 sha1 = true
same_kind sha256 sha256 = true
same_kind _ _ = false

-- What gix makes of ids and names.
pub record Gix (ObjectId : Type 0) : Type 0 where
  pub from_hex : Bytes → Option ObjectId
  pub kind : ObjectId → Kind
  pub is_null : ObjectId → Bool
  pub same : ObjectId → ObjectId → Bool
  pub is_full_name : Bytes → Bool

-- An open repository; `find_reference` gives the id of a ref where there is one, or an error.
pub record OpenRepository (ObjectId : Type 0) : Type 0 where
  pub is_bare : Bool
  pub object_hash : Kind
  pub find_reference : Bytes → Received (Option ObjectId)

-- The files: `gix::open`, and the removal of a pack with its index.
pub record Host (ObjectId : Type 0) : Type 0 where
  pub open_path : List Bytes → Received (OpenRepository ObjectId)
  pub remove_pack : List Bytes → String → Received (Unit {0})

module _ {ObjectId : Type 0} (gix : Gix ObjectId) where
  unfoldable pub parse_id : Option Bytes → Kind → Received ObjectId
  parse_id input object_format_ = do
    digits ← present input commands
    id ← present (gix.from_hex digits) commands
    require (same_kind (gix.kind id) object_format_) object_format
    received id

  -- `splitn(2, b' ')`: the first field is there, and the second where there is a space.
  abbrev fields_of : Bytes → Option (Bytes × Bytes) → Bytes × Option Bytes
  fields_of line none = (line, none)
  fields_of line (some (a, b)) = (a, some b)

  unfoldable pub parse_snapshot_line : Kind → Bytes → Received (Bytes × ObjectId)
  parse_snapshot_line object_format_ line = do
    id ← parse_id (some (fields_of line (split_once b' ' line)).0) object_format_
    name ← present (fields_of line (split_once b' ' line)).1 recovery_data
    require (gix.is_full_name name) recovery_data
    received (name, id)

  abbrev is_empty : Bytes → Bool
  is_empty [] = true
  is_empty (b ∷ bs) = false

  unfoldable pub parse_snapshot_lines : Kind → List Bytes → Received (List (Bytes × ObjectId))
  parse_snapshot_lines object_format_ [] = received []
  parse_snapshot_lines object_format_ (line ∷ lines) =
      let rest = parse_snapshot_lines object_format_ lines in
      if is_empty line
      then rest
      else (parse_snapshot_line object_format_ line >>= λ reference.
          rest >>= λ references. received (reference ∷ references))

  unfoldable pub parse_ref_snapshot : Bytes → Kind → Received (List (Bytes × ObjectId))
  parse_ref_snapshot bytes object_format_ = parse_snapshot_lines object_format_ (split b'\n' bytes)

  -- `current != Some(expected_id)` is the negation of this.
  abbrev is_at : Option ObjectId → ObjectId → Bool
  is_at none expected = false
  is_at (some current) expected = gix.same current expected

  abbrev differs : Option ObjectId → ObjectId → Bool
  differs current expected =
      (gix.is_null expected && is_some current)
      || (not (gix.is_null expected) && not (is_at current expected))

  unfoldable pub refs_match : OpenRepository ObjectId → List (Bytes × ObjectId) → Received Bool
  refs_match opened [] = received true
  refs_match opened ((name, expected) ∷ rest) = do
    current ← opened.find_reference name
    if differs current expected then received false else refs_match opened rest

-- `gix::open`, and the check that the repository is bare.
unfoldable pub open_bare :
    {ObjectId : Type 0} → Host ObjectId → List Bytes → Received (OpenRepository ObjectId)
open_bare host path = do
  opened ← host.open_path path
  require opened.is_bare not_bare
  received opened

-- The name starts with pack-, ends with .pack, and is the last component of itself: such a name is
-- it where it has no slash.
abbrev is_pack_name : String → Bool
is_pack_name name =
    not (any (λ b. b == b'/') (codes name))
    && starts_with (codes "pack-") (codes name)
    && is_some (strip_suffix (codes ".pack") (codes name))

unfoldable pub remove_promoted_pack :
    {ObjectId : Type 0} → Host ObjectId → List Bytes → Option String → Received (Unit {0})
remove_promoted_pack host path none = received tt
remove_promoted_pack host path (some name) =
    require (is_pack_name name) recovery_data >>= λ _. host.remove_pack path name

-- The database as it is left, and the error if there was one: what the store committed stays.
pub record Recovered : Type 0 where
  pub database : Database
  pub error : Option ReceivePackError

abbrev pub paths_eq : List Bytes → List Bytes → Bool
paths_eq [] [] = true
paths_eq [] (q ∷ qs) = false
paths_eq (p ∷ ps) [] = false
paths_eq (p ∷ ps) (q ∷ qs) = bytes_eq p q && paths_eq ps qs

-- The path of the quarantine: the repository's objects/tit-quarantine, and the id of the intent.
abbrev pub is_quarantine : GitIntent → Bool
is_quarantine i =
    paths_eq i.quarantine_path
      (i.repository_path ++ (codes "objects" ∷ codes "tit-quarantine" ∷ codes i.id ∷ []))

-- The two refs' states, and whether the intent is about one ref.
pub record Refs : Type 0 where
  pub at_initial : Bool
  pub at_proposed : Bool
  pub single : Bool

module _ {ObjectId : Type 0} (gix : Gix ObjectId) (host : Host ObjectId) where
  unfoldable pub read_refs : GitIntent → Received Refs
  read_refs i = do
    opened ← open_bare host i.repository_path
    initial ← parse_ref_snapshot gix i.initial_refs opened.object_hash
    proposed ← parse_ref_snapshot gix i.proposed_refs opened.object_hash
    at_initial ← refs_match gix opened initial
    at_proposed ← refs_match gix opened proposed
    received (record {
      at_initial = at_initial;
      at_proposed = at_proposed;
      single = length initial == 1;
    })

  -- The identifiers of events are drawn by SQLite.
  module _ (draw : String → ℕ → String) (draw_merge : String → String) where
    abbrev complete : GitIntent → Database → Received Database
    complete i db = of_store (complete_git_intent (draw i.id) (draw_merge i.id) i.id db)

    abbrev abandon : GitIntent → Database → Received Database
    abandon i db = of_store (abandon_git_intent i.id db)

    abbrev withdraw : GitIntent → Database → Received Database
    withdraw i db = remove_promoted_pack host i.repository_path i.pack_name >>= λ _. abandon i db

    -- The `match` on the state and the refs.
    unfoldable pub settle : GitIntent → IntentState → Refs → Database → Received Database
    settle i pending r db =
        if r.at_initial
        then abandon i db
        else if not r.at_proposed && r.single
        then abandon i db
        else failed (mixed_recovery i.id)
    settle i promoted r db =
        if r.at_initial
        then withdraw i db
        else if r.at_proposed
        then complete i db
        else if r.single
        then withdraw i db
        else failed (mixed_recovery i.id)
    settle i _ r db = failed (mixed_recovery i.id)

    -- What was settled is committed, whatever the check of the quarantine's path says after it.
    unfoldable pub settled : GitIntent → Database → Received Database → Recovered
    settled i db (failed e) = record { database = db; error = some e }
    settled i db (received db') = record {
      database = db';
      error = if is_quarantine i then none else some recovery_data;
    }

    unfoldable pub recover_intent : GitIntent → Database → Recovered
    recover_intent i db = settled i db (read_refs i >>= λ r. settle i i.state r db)

    abbrev pub continue_ : Option ReceivePackError → Recovered → Recovered → Recovered
    continue_ none first rest = rest
    continue_ (some e) first rest = first

    -- The loop ends at the first error, which `?` returns.
    unfoldable pub recover_intents : List GitIntent → Database → Recovered
    recover_intents [] db = record { database = db; error = none }
    recover_intents (i ∷ is) db =
        continue_ (recover_intent i db).error (recover_intent i db)
          (recover_intents is (recover_intent i db).database)

    unfoldable pub recover_incomplete_pushes : Database → Recovered
    recover_incomplete_pushes db = recover_intents (incomplete_git_intents db) db
