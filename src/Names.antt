-- ===== src/Names.antt =====
-- src/domain/repository.rs, validate_slug; src/auth.rs, validate_username; and src/git/transport.rs,
-- valid_name: the three tests of the names of repositories and of their owners. A name is its bytes.
pub mod Transport
pub mod Components
mod Tests
use tit.Prelude.{
  ℕ, Bool, true, false, ◌&&◌, ◌||◌, ◌⊎◌, inl, inr, not, List, [], ◌∷◌, all, any, length, ltb, leb,
  ◌==◌, if◌then◌else◌,
}
use tit.Prelude.Bytes.{codes, bytes_eq, starts_with}
use tit.Store.Schema.{Bytes}

-- RepositoryNameError::InvalidSlug and AuthError::InvalidUsername
pub data NameError : Type 0 where
  invalid_slug invalid_username : NameError

abbrev pub Validation : Type 0
Validation = NameError ⊎ Unit {0}

abbrev pub is_ascii_lowercase : ℕ → Bool
is_ascii_lowercase b = leb b'a' b && leb b b'z'

abbrev pub is_ascii_digit : ℕ → Bool
is_ascii_digit b = leb b'0' b && leb b b'9'

abbrev pub is_ascii_alphanumeric : ℕ → Bool
is_ascii_alphanumeric b = is_ascii_lowercase b || is_ascii_digit b || (leb b'A' b && leb b b'Z')

-- `first().is_some_and(…)`
abbrev pub first_is : (ℕ → Bool) → Bytes → Bool
first_is p [] = false
first_is p (b ∷ bs) = p b

-- `last().is_some_and(…)`
unfoldable pub last_is : (ℕ → Bool) → Bytes → Bool
last_is p [] = false
last_is p (b ∷ []) = p b
last_is p (b ∷ c ∷ bs) = last_is p (c ∷ bs)

-- `value.ends_with(suffix)`, with the suffix first.
unfoldable pub ends_with : Bytes → Bytes → Bool
ends_with suffix [] = bytes_eq suffix []
ends_with suffix (b ∷ bs) = bytes_eq suffix (b ∷ bs) || ends_with suffix bs

-- `value.contains(part)`, with the part first.
unfoldable pub contains : Bytes → Bytes → Bool
contains part [] = starts_with part []
contains part (b ∷ bs) = starts_with part (b ∷ bs) || contains part bs

-- RESERVED_SLUGS, which are also the reserved usernames.
abbrev pub reserved : List Bytes
reserved =
    codes "admin"
    ∷ codes "api"
    ∷ codes "assets"
    ∷ codes "feeds"
    ∷ codes "issues"
    ∷ codes "setup"
    ∷ []

abbrev pub is_slug_byte : ℕ → Bool
is_slug_byte b = is_ascii_lowercase b || is_ascii_digit b || (b == b'.' || b == b'_' || b == b'-')

-- The condition of `validate_slug`.
abbrev pub is_bad_slug : Bytes → Bool
is_bad_slug slug =
    bytes_eq slug []
    || ltb 100 (length slug)
    || ends_with (codes ".git") slug
    || any (λ r. bytes_eq r slug) reserved
    || not (all is_slug_byte slug)
    || not (first_is is_ascii_alphanumeric slug)
    || not (last_is is_ascii_alphanumeric slug)

unfoldable pub validate_slug : Bytes → Validation
validate_slug slug = if is_bad_slug slug then inl invalid_slug else inr tt

-- The closure `valid_character`.
abbrev pub valid_character : ℕ → Bool
valid_character b = is_ascii_lowercase b || is_ascii_digit b

-- The condition of `validate_username`.
abbrev pub is_bad_username : Bytes → Bool
is_bad_username username =
    not (leb 1 (length username) && leb (length username) 40)
    || not (first_is valid_character username)
    || not (last_is valid_character username)
    || not (all (λ b. valid_character b || b == b'-') username)
    || any (λ r. bytes_eq r username) reserved

unfoldable pub validate_username : Bytes → Validation
validate_username username = if is_bad_username username then inl invalid_username else inr tt

-- The characters that a name may not start or end with.
abbrev pub is_mark : ℕ → Bool
is_mark b = b == b'.' || b == b'-' || b == b'_'

unfoldable pub valid_name : Bytes → ℕ → Bool
valid_name value maximum =
    not (bytes_eq value [])
    && leb (length value) maximum
    && all (λ b. ltb b 128) value
    && all is_slug_byte value
    && not (first_is is_mark value)
    && not (last_is is_mark value)
    && not (contains (codes "..") value)
