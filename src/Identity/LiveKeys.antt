-- ===== src/Identity/LiveKeys.antt =====
-- The number of live keys of each account under the statements of src/store/mod.rs on keys.
use tit.Prelude.{
  String, ℕ, ◌≤◌, ◌<◌, ◌≡◌, refl, ◌∙◌, ◌==◌, Bool, true, false, List, ◌∷◌, All, arith, Option, none,
  some, if◌then◌else◌, Bool-cases, ◌⊎◌, inl, inr, ==_iff,
}
use tit.Prelude.Tables.{
  find, count_where, All-map, count-update_same, count-update_clear, count-update_pos, find-holds,
}
use tit.Store.Error.{StoreError, Result, ok, err, Ensures, Ensures-ok, Ensures-err, Ensures-guard}
use tit.Store.Schema.{Database, Account, SshPublicKey, Time}
use tit.Store.Common.{NewSshKey, live_key_of, insert_ssh_key, insert_account}
use tit.Store.Accounts.{
  unmapped, restore_key, own_fingerprint, revoke_live_keys, with_fingerprint, restored,
}
use tit.Identity.Frame.{SameKeys}
use tit.Store.Keys.{revoke_where}

abbrev pub Keyed : List SshPublicKey → Account → Type 0
Keyed keys a = 1 ≤ count_where (live_key_of a.id) keys

pub record HasKey (db : Database) : Type 0 where
  pub keyed : All (Keyed db.ssh_public_keys) db.accounts

-- Revoking one key of an account that has two or more leaves every account a key.
pub revoke_where-Keyed :
    (p : SshPublicKey → Bool) (account_id : ℕ) (now : Time) (db : Database)
    → ((k : SshPublicKey) → p k ≡ true → live_key_of account_id k ≡ true)
    → 1 < count_where (live_key_of account_id) db.ssh_public_keys
    → count_where p db.ssh_public_keys ≡ 1
    → All (Keyed db.ssh_public_keys) db.accounts
    → All (Keyed (revoke_where p now db).ssh_public_keys) db.accounts
revoke_where-Keyed p account_id now db imp two one =
    All-map _ _ db.accounts λ a h. each a.id (Bool-cases (a.id == account_id)) h
  where
    revoke : SshPublicKey → SshPublicKey
    revoke k = record k { revoked_at = some now }

    each :
        (n : ℕ)
        → (n == account_id ≡ true) ⊎ (n == account_id ≡ false)
        → 1 ≤ count_where (live_key_of n) db.ssh_public_keys
        → 1 ≤ count_where (live_key_of n) (revoke_where p now db).ssh_public_keys
    each n (inl same) h =
        let e : n ≡ account_id = ground arith in
        rw e (
          omega (
            arith,
            two,
            one,
            count-update_clear (live_key_of account_id) p revoke db.ssh_public_keys
                (λ k pk. (imp k pk, ground arith)),
          ))
    each n (inr other) h =
        rw
          (count-update_same (live_key_of n) p revoke db.ssh_public_keys
            (λ k pk. ground (arith, imp k pk)))
          h

-- The accounts stay, and no account loses its last key.
pub HasKey-step :
    (db db' : Database)
    → db'.accounts ≡ db.accounts
    → ((n : ℕ)
        → 1 ≤ count_where (live_key_of n) db.ssh_public_keys
        → 1 ≤ count_where (live_key_of n) db'.ssh_public_keys)
    → HasKey db
    → HasKey db'
HasKey-step db db' e keep inv = record {
  keyed = rw e (All-map (Keyed db.ssh_public_keys) _ db.accounts (λ a h. keep a.id h) inv.keyed);
}

pub HasKey-frame : (db db' : Database) → HasKey db → SameKeys db db' → HasKey db'
HasKey-frame db db' inv same = HasKey-step db db' same.0 (λ n h. rw same.1 h) inv

-- A new key: no account loses one, and the account of the key has one.
pub record Grows (id : ℕ) (db db' : Database) : Type 0 where
  pub accounts : db'.accounts ≡ db.accounts
  pub keep :
      (n : ℕ)
      → 1 ≤ count_where (live_key_of n) db.ssh_public_keys
      → 1 ≤ count_where (live_key_of n) db'.ssh_public_keys
  pub own : 1 ≤ count_where (live_key_of id) db'.ssh_public_keys

pub insert_ssh_key-Grows :
    (id : ℕ) (key : NewSshKey) (now : Time) (db : Database)
    → Ensures (Grows id db) (insert_ssh_key id key now db)
unfolding insert_ssh_key count_where
insert_ssh_key-Grows id key now db =
    Ensures-guard _ _ _
      λ _. Ensures-ok _ (record { accounts = refl; keep = λ n h. omega arith; own = ground arith })

-- The rows of the other accounts that `recover_account` revokes are none.
revoke_live_keys-other :
    (id n : ℕ) (now : Time) (keys : List SshPublicKey)
    → (n == id) ≡ false
    → count_where (live_key_of n) (revoke_live_keys id now keys) ≡ count_where (live_key_of n) keys
revoke_live_keys-other id n now keys other =
    count-update_same (live_key_of n) (live_key_of id) _ keys (λ k pk. ground arith)

pub restore_key-Grows :
    (id : ℕ) (key : NewSshKey) (now : Time) (db : Database) (existing : Option SshPublicKey)
    → find (with_fingerprint key.fingerprint) db.ssh_public_keys ≡ existing
    → Ensures
        (λ db'.
          (db'.accounts ≡ db.accounts)
          × ((n : ℕ)
              → (n == id) ≡ false
              → 1 ≤ count_where (live_key_of n) db.ssh_public_keys
              → 1 ≤ count_where (live_key_of n) db'.ssh_public_keys)
          × (1 ≤ count_where (live_key_of id) db'.ssh_public_keys))
        (restore_key id key now db existing)
unfolding restore_key
restore_key-Grows id key now db none e = record {
  at = λ db' h.
      let g = (insert_ssh_key-Grows id key now db).at db' h in
      (g.accounts, (λ n _ p. g.keep n p), g.own);
}
restore_key-Grows id key now db (some k) e = Ensures-guard _ _ _ λ mine. Ensures-guard _ _ _ λ _.
    Ensures-ok _ (
      refl,
      (λ n other p.
          rw
            (count-update_same (live_key_of n) (own_fingerprint id key.fingerprint) (restored key)
              db.ssh_public_keys (λ r pr. ground arith))
            p),
      count-update_pos (live_key_of id) (own_fingerprint id key.fingerprint)
          (with_fingerprint key.fingerprint) (restored key) db.ssh_public_keys
          (λ r pr. ground arith) e
          (let f = find-holds (with_fingerprint key.fingerprint) db.ssh_public_keys e in
            ground arith),
    )

-- The keys of an account after all were revoked and one restored, beside those of the others.
pub recovered-keyed :
    (id n : ℕ) (now : Time) (key : NewSshKey) (db db' : Database) (existing : Option SshPublicKey)
    → let revoked = record db { ssh_public_keys = revoke_live_keys id now db.ssh_public_keys } in
      find (with_fingerprint key.fingerprint) revoked.ssh_public_keys ≡ existing
      → restore_key id key now revoked existing ≡ ok db'
      → 1 ≤ count_where (live_key_of n) db.ssh_public_keys
      → 1 ≤ count_where (live_key_of n) db'.ssh_public_keys
recovered-keyed id n now key db db' existing e h p = elim (Bool-cases (n == id)) [
  | inl same ↦ rw ((==_iff n id).0 same) restored.2
  | inr other ↦ restored.1 n other (rw (revoke_live_keys-other id n now db.ssh_public_keys other) p)
]
  where
    restored :
        (db'.accounts ≡ db.accounts)
        × ((n : ℕ)
            → (n == id) ≡ false
            → 1 ≤ count_where (live_key_of n) (revoke_live_keys id now db.ssh_public_keys)
            → 1 ≤ count_where (live_key_of n) db'.ssh_public_keys)
        × (1 ≤ count_where (live_key_of id) db'.ssh_public_keys)
    restored = (restore_key-Grows id key now _ existing e).at db' h

-- The new account stands before the others, and the keys stay.
pub record Inserted (db : Database) (r : ℕ × Database) : Type 0 where
  pub account : Account
  pub accounts : r.1.accounts ≡ account ∷ db.accounts
  pub id : account.id ≡ r.0
  pub keys : r.1.ssh_public_keys ≡ db.ssh_public_keys

pub insert_account-Inserted :
    (taken : StoreError) (u : String) (b : Bool) (t : Time) (db : Database)
    → Ensures (Inserted db) (insert_account taken u b t db)
unfolding insert_account
insert_account-Inserted taken u b t db =
    Ensures-guard _ _ _
      λ _. Ensures-ok _ (record { account = _; accounts = refl; id = refl; keys = refl })

pub unmapped-Ensures :
    {P : Database → Type 0} (m : Result Database) → Ensures P m → Ensures P (unmapped m)
unfolding unmapped
unmapped-Ensures (ok db) h = h
unmapped-Ensures (err e) h = Ensures-err _

-- An account with a first key: it has one, and the others keep theirs.
pub created-HasKey :
    (id : ℕ) (db db₁ db₂ db₃ : Database)
    → HasKey db
    → Inserted db (id, db₁)
    → Grows id db₁ db₂
    → SameKeys db₂ db₃
    → HasKey db₃
created-HasKey id db db₁ db₂ db₃ inv new grown same = record {
  keyed = rw (same.0 ∙ grown.accounts ∙ new.accounts) (rw new.id (rw same.1 grown.own), others);
}
  where
    others : All (Keyed db₃.ssh_public_keys) db.accounts
    others =
        All-map (Keyed db.ssh_public_keys) _ db.accounts
          (λ a h. rw same.1 (grown.keep a.id (rw new.keys h))) inv.keyed

pub if-HasKey :
    (b : Bool) (db db' : Database) → HasKey db → HasKey db' → HasKey (if b then db else db')
if-HasKey true db db' h h' = h
if-HasKey false db db' h h' = h'
