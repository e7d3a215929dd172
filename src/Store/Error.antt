-- ===== src/Store/Error.antt =====
-- src/store/error.rs: the errors of the store, and the fallible steps of a transaction.
-- A transaction that returns an error is rolled back: the caller keeps the database that it had.
use tit.Prelude.{
  String, ℕ, Bool, true, false, Option, none, some, ◌≡◌, refl, ap, subst, if◌then◌else◌,
}

pub data StoreError : Type 0 where
  -- `Sqlite`: SQLite refused a statement, here by a UNIQUE constraint that no code maps.
  sqlite : StoreError
  intent_state account_not_found username_unavailable namespace_not_found : String → StoreError
  namespace_unavailable organization_member_not_found issue_state : String → StoreError
  repository_not_found : String → String → StoreError
  issue_not_found pull_request_not_found : String → String → ℕ → StoreError
  repository_exists repository_archived : String → String → StoreError
  collaborator_not_found integrity pull_request_intent_state : String → StoreError
  default_branch_intent_state : String → StoreError
  already_initialized organization_denied last_organization_owner : StoreError
  invalid_organization_role invalid_invitation invalid_recovery : StoreError
  key_exists key_not_found last_key login_identity login_nonce_limit : StoreError
  invalid_login_challenge invalid_login_approval login_approval_pending : StoreError
  pull_request_hidden pull_request_denied pull_request_state : StoreError
  pull_request_revision_not_found pull_request_review_anchor event_payload : StoreError
  repository_identifier_collision invalid_repository_visibility : StoreError
  invalid_collaborator_role owner_collaborator invalid_default_branch watch_denied : StoreError
  -- No error of the source: an `unreachable!` is reached, and the thread panics.
  panicked : StoreError
  invalid_session issue_denied issue_hidden feed_token_not_found feed_token_limit : StoreError

pub data Result {ℓ} (A : Type ℓ) : Type ℓ where
  ok : A → Result A
  err : StoreError → Result A

infixl 5 ◌>>=◌ ◌>>◌
unfoldable pub ◌>>=◌ {ℓ κ} : {A : Type ℓ} {B : Type κ} → Result A → (A → Result B) → Result B
ok a >>= f = f a
err e >>= f = err e

-- `if !test { return Err(e) }`
unfoldable pub guard : Bool → StoreError → Result (Unit {0})
guard true e = ok tt
guard false e = err e

-- `.optional()?.ok_or(e)?`
unfoldable pub ok_or {ℓ} : {A : Type ℓ} → Option A → StoreError → Result A
ok_or none e = err e
ok_or (some a) e = ok a

-- Opening this opens the other steps too.
unfoldable pub ◌>>◌ {ℓ} : {B : Type ℓ} → Result (Unit {0}) → Result B → Result B
unfolding ◌>>=◌ guard ok_or
m >> k = m >>= λ _. k

-- `match row { None => m, Some(a) => f(a) }`
unfoldable pub on_row {ℓ κ} :
    {A : Type ℓ} {B : Type κ} → Option A → Result B → (A → Result B) → Result B
on_row none m f = m
on_row (some a) m f = f a

-- Every result that `m` can return satisfies `P`; one rule for each step of a transaction.
pub record Ensures {ℓ κ} {A : Type ℓ} (P : A → Type κ) (m : Result A) : Type (ℓ ⊔ κ) where
  pub at : (a : A) → m ≡ ok a → P a

module _ {ℓ κ} {A : Type ℓ} {P : A → Type κ} where
  pub Ensures-ok : (a : A) → P a → Ensures P (ok a)
  Ensures-ok a h = record { at = λ b e. subst P (ok-injective e) h }
    where
      value : Result A → A
      value (ok x) = x
      value (err e) = a

      ok-injective : {b : A} → ok a ≡ ok b → a ≡ b
      ok-injective e = ap value e

  pub Ensures-err : (e : StoreError) → Ensures P (err e)
  Ensures-err e = record { at = λ a h. cc }

  pub Ensures-if :
      (b : Bool) (m n : Result A)
      → (b ≡ true → Ensures P m)
      → (b ≡ false → Ensures P n)
      → Ensures P (if b then m else n)
  Ensures-if true m n km kn = km refl
  Ensures-if false m n km kn = kn refl

  pub Ensures-guard :
      (t : Bool) (e : StoreError) (k : Result A)
      → (t ≡ true → Ensures P k)
      → Ensures P (guard t e >> k)
  unfolding ◌>>◌
  Ensures-guard true e k h = h refl
  Ensures-guard false e k h = Ensures-err e

module _ {ℓ κ} {A : Type ℓ} {P : A → Type κ} where
  pub Ensures-then :
      (m : Result (Unit {0})) (k : Result A) → (m ≡ ok tt → Ensures P k) → Ensures P (m >> k)
  unfolding ◌>>◌
  Ensures-then (ok u) k h = h refl
  Ensures-then (err e) k h = Ensures-err e

-- A test that is the whole of a step.
pub Ensures-test {κ} :
    {P : Unit {0} → Type κ} (t : Bool) (e : StoreError) → (t ≡ true → P tt) → Ensures P (guard t e)
unfolding guard
Ensures-test true e h = Ensures-ok tt (h refl)
Ensures-test false e h = Ensures-err e

module _ {ℓ κ η} {A : Type ℓ} {B : Type κ} {P : B → Type η} where
  -- The rest may use that the step returned `a`.
  pub Ensures-bind :
      (m : Result A) (f : A → Result B)
      → ((a : A) → m ≡ ok a → Ensures P (f a))
      → Ensures P (m >>= f)
  unfolding ◌>>=◌
  Ensures-bind (ok a) f h = h a refl
  Ensures-bind (err e) f h = Ensures-err e

  pub Ensures-ok_or :
      (o : Option A) (e : StoreError) (f : A → Result B)
      → ((a : A) → o ≡ some a → Ensures P (f a))
      → Ensures P (ok_or o e >>= f)
  unfolding ◌>>◌
  Ensures-ok_or (some a) e f h = h a refl
  Ensures-ok_or none e f h = Ensures-err e

  pub Ensures-on_row :
      (o : Option A) (m : Result B) (f : A → Result B)
      → (o ≡ none → Ensures P m)
      → ((a : A) → o ≡ some a → Ensures P (f a))
      → Ensures P (on_row o m f)
  unfolding on_row
  Ensures-on_row none m f km kf = km refl
  Ensures-on_row (some a) m f km kf = kf a refl
