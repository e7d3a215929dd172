-- ===== src/Identity/Sessions.antt =====
-- Which sessions of src/store/mod.rs authenticate: those that a login opened, until they expire or
-- end, and none of a suspended or a recovered account.
use mathlib.Core.Option.{some-injective}
use tit.Prelude.{
  ap, subst, String, ℕ, ◌≤◌, ◌<◌, ◌≡◌, refl, ◌==◌, eq_iff, Bool, true, false, Option, none, some,
  List, ◌∷◌, arith, ==_refl, le→leb, is_none, ◌&&◌, ◌||◌,
}
use tit.Prelude.Tables.{find, find-holds, find_unique, find-none_mono}
use tit.Store.Error.{
  ok, err, invalid_session, Ensures, Ensures-ok, Ensures-guard, Ensures-bind, Ensures-ok_or, ◌>>◌,
}
use tit.Store.Schema.{Database, Account, WebSession, LoginApproval, Hash, Time, is_active}
use tit.Store.Common.{insert_audit_event}
use tit.Store.Login.{
  NewWebSession, web_session, valid_session, csrf_matches, consume_login_nonce, insert_web_session,
  nonce_account, nonce_session, approved_session, NewApprovedWebSession, consume_login_approval,
  completes, joined_account, joined_active, approved_by,
}
use tit.Identity.Unique.{IsUnique, with_id}

-- `WHERE id = ?1 AND state = 'active'`
abbrev pub active_with_id : ℕ → Account → Bool
active_with_id n a = a.id == n && is_active a.state

abbrev with_hash : Hash → WebSession → Bool
with_hash h s = s.session_hash == h

-- A login stored the session `s`, of the active account `account`, over a new hash.
record Logged (s : WebSession) (account : Account) (db db' : Database) : Type 0 where
  pub active : find (active_with_id s.account_id) db'.accounts ≡ some account
  pub stored : db'.web_sessions ≡ s ∷ db.web_sessions
  pub fresh : find (with_hash s.session_hash) db.web_sessions ≡ none
  pub live : s.ended_at ≡ none

is_none-find :
    (h : Hash) (ss : List WebSession)
    → is_none (find (with_hash h) ss) ≡ true
    → find (with_hash h) ss ≡ none
is_none-find h ss e = ground arith

-- What a stored session authenticates as, at the time `now`.
abbrev pub Opened : WebSession → Account → Time → Database → Type 0
Opened s account now db =
    (now ≤ s.expires_at
      → (web_session s.session_hash (some s.csrf_hash) now db
          ≡ ok
              (record { username = account.username; is_administrator = account.is_administrator }))
        × (web_session s.session_hash none now db
            ≡ ok (record {
              username = account.username;
              is_administrator = account.is_administrator;
            })))
    × (s.expires_at < now → web_session s.session_hash none now db ≡ err invalid_session)

stored-valid :
    (s : WebSession) (csrf : Option Hash) (now : Time) (accounts : List Account) (account : Account)
    → csrf_matches csrf s.csrf_hash ≡ true
    → now ≤ s.expires_at
    → s.ended_at ≡ none
    → find (active_with_id s.account_id) accounts ≡ some account
    → valid_session s.session_hash csrf now accounts s ≡ true
stored-valid s csrf now accounts account c h live active =
    rw (==_refl s.session_hash, live, le→leb _ _ h, active, c)

stored-expired :
    (s : WebSession) (csrf : Option Hash) (now : Time) (accounts : List Account)
    → s.expires_at < now
    → valid_session s.session_hash csrf now accounts s ≡ false
stored-expired s csrf now accounts h = ground arith

Logged-Opened :
    (s : WebSession) (account : Account) (now : Time) (db db' : Database)
    → Logged s account db db'
    → Opened s account now db'
unfolding web_session ◌>>◌ find
Logged-Opened s account now db db' logged = rw logged.stored (
  λ h. (
    rw (
      stored-valid s (some s.csrf_hash) now db'.accounts account (==_refl s.csrf_hash) h logged.live
          logged.active,
      logged.active,
    ),
    rw (
      stored-valid s none now db'.accounts account refl h logged.live logged.active,
      logged.active,
    ),
  ),
  λ h. rw (
    stored-expired s none now db'.accounts h,
    find-none_mono (valid_session s.session_hash none now db'.accounts) (with_hash s.session_hash)
        db.web_sessions (λ r p. ground arith) logged.fresh,
  ),
)

insert_web_session-Logged :
    (s : WebSession) (account : Account) (db : Database)
    → find (active_with_id s.account_id) db.accounts ≡ some account
    → s.ended_at ≡ none
    → Ensures (Logged s account db) (insert_web_session s db)
unfolding insert_web_session
insert_web_session-Logged s account db active live = Ensures-guard _ _ _ λ new.
    Ensures-ok _ (record {
      active = active;
      stored = refl;
      fresh = is_none-find s.session_hash db.web_sessions new;
      live = live;
    })

-- The account that was found under another condition is the one that the session will find.
found_again :
    (p : Account → Bool) (accounts : List Account) {a : Account}
    → IsUnique accounts
    → ((r : Account) → p r ≡ true → with_id a.id r ≡ true)
    → find p accounts ≡ some a
    → is_active a.state ≡ true
    → find (active_with_id a.id) accounts ≡ some a
found_again p accounts {a} uniq same e live =
    find_unique (with_id a.id) p (active_with_id a.id) accounts same (λ r h. ground arith)
      (uniq.ids a.id) e (rw (==_refl a.id, live))

consume_login_nonce-Opened :
    (l : NewWebSession) (now : Time) (db : Database)
    → IsUnique db.accounts
    → Ensures
        (λ db'.
          (account : Account) × (key_id : ℕ) × (account.username ≡ l.username)
          × Opened (nonce_session l account.id key_id) account now db')
        (consume_login_nonce l db)
unfolding consume_login_nonce insert_audit_event web_session
consume_login_nonce-Opened l now db uniq = Ensures-ok_or _ _ _ λ n _. Ensures-ok_or _ _ _ λ a e.
    Ensures-ok_or _ _ _ λ k _. Ensures-guard _ _ _ λ _. Ensures-bind _ _ λ db₁ e₁.
      let h = find-holds (nonce_account l n) db.accounts e in
      let active =
        found_again (nonce_account l n) db.accounts {a = a} uniq (λ r p. ground arith) e
          (ground arith) in
      Ensures-ok _ (
        a,
        k.id,
        (eq_iff a.username l.username).0 (ground arith),
        Logged-Opened _ a now _ db₁ ((insert_web_session-Logged _ a _ active refl).at db₁ e₁),
      )

joined_approver :
    (o : Option Account) (at : Option Time) (key : Option ℕ) (r : Account × ℕ)
    → joined_active o ≡ true
    → approved_by o at key ≡ some r
    → (o ≡ some r.0) × (is_active r.0.state ≡ true)
joined_approver none at key r c e = cc
joined_approver (some a) none key r c e = cc
joined_approver (some a) (some t) none r c e = cc
joined_approver (some a) (some t) (some k) (b, k') c e =
    let same : a ≡ b = ap (λ (x : Account × ℕ). x.0) (some-injective (a, k) (b, k') e) in
    (ap some same, subst (λ (x : Account). is_active x.state ≡ true) same c)

-- The account that approved is the one joined, and the query saw that it is active.
approver-active :
    (accounts : List Account) (id : Option ℕ) (at : Option Time) (key : Option ℕ) (r : Account × ℕ)
    → (is_none id || (joined_active (joined_account accounts id))) ≡ true
    → approved_by (joined_account accounts id) at key ≡ some r
    → (n : ℕ) × (find (with_id n) accounts ≡ some r.0) × (is_active r.0.state ≡ true)
approver-active accounts none at key r c e = cc
approver-active accounts (some n) at key r c e =
    let found = joined_approver (find (with_id n) accounts) at key r c e in (n, found.0, found.1)

-- What the query of consume_login_approval has seen of the account.
completes-active :
    (l : NewApprovedWebSession) (db : Database) (p : LoginApproval)
    → completes l db p ≡ true
    → (is_none p.account_id || joined_active (joined_account db.accounts p.account_id)) ≡ true
completes-active l db p h = ground arith

consume_login_approval-Opened :
    (l : NewApprovedWebSession) (now : Time) (db : Database)
    → IsUnique db.accounts
    → Ensures
        (λ r.
          (account : Account) × (key_id : ℕ) × (account.username ≡ r.0)
          × Opened (approved_session l account.id key_id) account now r.1)
        (consume_login_approval l db)
unfolding consume_login_approval insert_audit_event web_session
consume_login_approval-Opened l now db uniq = Ensures-ok_or _ _ _ λ p e. Ensures-ok_or _ _ _ λ a e'.
    Ensures-guard _ _ _ λ _. Ensures-bind _ _ λ db₁ e₁.
      let seen = completes-active l db p (find-holds (completes l db) db.ssh_login_approvals e) in
      let who =
        approver-active db.accounts p.account_id p.approved_at p.ssh_public_key_id a seen e' in
      let h = find-holds (with_id who.0) db.accounts who.1 in
      let active =
        found_again (with_id who.0) db.accounts {a = a.0} uniq (λ r q. ground arith) who.1 who.2 in
      Ensures-ok _ (
        a.0,
        a.1,
        refl,
        Logged-Opened _ a.0 now _ db₁ ((insert_web_session-Logged _ a.0 _ active refl).at db₁ e₁),
      )

-- Where usernames and rowids are distinct: a login by a signed nonce that succeeded opens a session
-- of the account with the username that it named. Until the session's expiry, inclusive, the
-- session's hash authenticates as that account, alone and with the session's CSRF hash; after the
-- expiry the hash is refused as an invalid session.
pub consume_login_nonce-opens :
    (l : NewWebSession) (now : Time) (db db' : Database)
    → IsUnique db.accounts
    → consume_login_nonce l db ≡ ok db'
    → (account : Account) × (key_id : ℕ) × (account.username ≡ l.username)
      × Opened (nonce_session l account.id key_id) account now db'
consume_login_nonce-opens l now db db' uniq e = (consume_login_nonce-Opened l now db uniq).at db' e

-- Where usernames and rowids are distinct: an approved login that was completed returns the
-- username of an account, and opens a session that until its expiry, inclusive, authenticates as
-- that account, alone and with its CSRF hash, and after its expiry is refused.
pub consume_login_approval-opens :
    (l : NewApprovedWebSession) (now : Time) (db : Database) (r : String × Database)
    → IsUnique db.accounts
    → consume_login_approval l db ≡ ok r
    → (account : Account) × (key_id : ℕ) × (account.username ≡ r.0)
      × Opened (approved_session l account.id key_id) account now r.1
consume_login_approval-opens l now db r uniq e =
    (consume_login_approval-Opened l now db uniq).at r e
