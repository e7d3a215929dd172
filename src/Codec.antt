-- ===== src/Codec.antt =====
-- src/codec.rs: bytes written as hexadecimal digits and read back. A byte is a number below 256.
pub mod RoundTrip
mod Tests
use tit.Prelude.{
  ℕ, ◌+◌, ◌-◌, ◌*◌, ◌/◌, ◌%◌, Bool, true, false, ◌&&◌, Option, none, some, List, [], ◌∷◌, ltb, leb,
  if◌then◌else◌, length, ◌==◌, not,
}

-- `HEX[d]`, the digits from 0 at 48 to 9, and from a at 97 to f.
abbrev pub hex_digit : ℕ → ℕ
hex_digit d = if ltb d 10 then 48 + d else 87 + d

-- `byte >> 4` and `byte & 0x0f`
unfoldable pub encode_lower_hex : List ℕ → List ℕ
encode_lower_hex [] = []
encode_lower_hex (byte ∷ bytes) =
    hex_digit (byte / 16) ∷ hex_digit (byte % 16) ∷ encode_lower_hex bytes

abbrev pub decode_nibble : ℕ → Bool → Option ℕ
decode_nibble byte uppercase =
    if leb 48 byte && leb byte 57
    then some (byte - 48)
    else if leb 97 byte && leb byte 102
    then some (byte - 97 + 10)
    else if leb 65 byte && leb byte 70 && uppercase
    then some (byte - 65 + 10)
    else none

-- `(high? << 4) | low?`, where both are below 16.
abbrev pub pair_byte : Option ℕ → Option ℕ → Option ℕ
pair_byte (some high) (some low) = some (high * 16 + low)
pair_byte _ _ = none

-- `collect` into an option, one element.
abbrev pub collect_one : Option ℕ → Option (List ℕ) → Option (List ℕ)
collect_one (some b) (some bs) = some (b ∷ bs)
collect_one _ _ = none

-- `chunks_exact(2).map(…).collect()`, which leaves an odd byte at the end out.
unfoldable pub decode_pairs : Bool → List ℕ → Option (List ℕ)
decode_pairs uppercase [] = some []
decode_pairs uppercase (a ∷ []) = some []
decode_pairs uppercase (a ∷ b ∷ rest) =
    collect_one (pair_byte (decode_nibble a uppercase) (decode_nibble b uppercase))
      (decode_pairs uppercase rest)

unfoldable pub decode_hex : List ℕ → Bool → Option (List ℕ)
decode_hex encoded uppercase =
    if not (length encoded % 2 == 0) then none else decode_pairs uppercase encoded

unfoldable pub decode_lower_hex : List ℕ → Option (List ℕ)
decode_lower_hex encoded = decode_hex encoded false

unfoldable pub decode_ascii_hex : List ℕ → Option (List ℕ)
decode_ascii_hex encoded = decode_hex encoded true
