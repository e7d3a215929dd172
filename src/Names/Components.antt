-- ===== src/Names/Components.antt =====
-- A name that the services accept, as a component of a path.
use tit.Prelude.{ℕ, arith, ◌≡◌, refl, Bool, true, false, ◌&&◌, inr, not, [], ◌∷◌, all, ◌==◌}
use tit.Prelude.Bytes.{bytes_eq, split}
use tit.Store.Schema.{Bytes}
use tit.Names.{validate_slug, validate_username, is_slug_byte, first_is, is_mark}
use tit.Names.Transport.{IsPlain, all_mono, validate_slug-IsPlain, validate_username-IsUsername}

slug_byte_unslashed : (b : ℕ) → is_slug_byte b ≡ true → not (b == b'/') ≡ true
slug_byte_unslashed b h = ground (arith, h)

and_true : (a b : Bool) → (a && b) ≡ true → (a ≡ true) × (b ≡ true)
and_true true b h = (refl, h)
and_true false b h = cc

test_fails : (a : Bool) → not a ≡ true → a ≡ false
test_fails true h = cc
test_fails false h = refl

split_whole : (s : Bytes) → all (λ b. not (b == b'/')) s ≡ true → split b'/' s ≡ s ∷ []
split_whole [] h = refl
split_whole (b ∷ bs) h =
    let (here, there) = and_true (not (b == b'/')) (all (λ b. not (b == b'/')) bs) h in
    rw (test_fails (b == b'/') here, split_whole bs there) refl

-- One component of a path, which is not empty and neither `.` nor `..` nor an option.
pub record IsComponent (s : Bytes) : Type 0 where
  whole : split b'/' s ≡ s ∷ []
  nonempty : bytes_eq s [] ≡ false
  unmarked : first_is is_mark s ≡ false

IsPlain-IsComponent : {n : ℕ} (s : Bytes) → IsPlain n s → IsComponent s
IsPlain-IsComponent s h = record {
  whole = split_whole s (all_mono slug_byte_unslashed s h.bytes);
  nonempty = h.nonempty;
  unmarked = h.first;
}

-- A username that `validate_username` accepts and a slug that `validate_slug` accepts are each one
-- component of a path: neither is empty, has a slash, or starts with a dot, a dash or an underscore.
pub validate_slug-IsComponent :
    (username slug : Bytes)
    → validate_username username ≡ inr tt
    → validate_slug slug ≡ inr tt
    → IsComponent username × IsComponent slug
validate_slug-IsComponent username slug h k = (
  IsPlain-IsComponent username (validate_username-IsUsername username h).plain,
  IsPlain-IsComponent slug (validate_slug-IsPlain slug k),
)
