-- ===== src/Codec/Tests.antt =====
-- The theorems on hexadecimal digits at three bytes.
use tit.Prelude.{ℕ, ◌≡◌, refl, All, some, List, [], ◌∷◌, arith}
use tit.Codec.{decode_hex, decode_pairs, encode_lower_hex, decode_lower_hex, decode_ascii_hex}
use tit.Codec.RoundTrip.{decode-encode_lower_hex, encode-decode_lower_hex, IsByte}

abbrev three_bytes : List ℕ
three_bytes = 0 ∷ 171 ∷ 255 ∷ []

decode-encode_lower_hex_example :
    (decode_lower_hex (encode_lower_hex three_bytes) ≡ some three_bytes)
    × (decode_ascii_hex (encode_lower_hex three_bytes) ≡ some three_bytes)
decode-encode_lower_hex_example =
    decode-encode_lower_hex three_bytes (omega arith, (omega arith, (omega arith, tt)))

encode-decode_lower_hex_example :
    (encode_lower_hex three_bytes ≡ 48 ∷ 48 ∷ 97 ∷ 98 ∷ 102 ∷ 102 ∷ []) × All IsByte three_bytes
unfolding decode_lower_hex decode_hex decode_pairs
encode-decode_lower_hex_example =
    encode-decode_lower_hex (48 ∷ 48 ∷ 97 ∷ 98 ∷ 102 ∷ 102 ∷ []) three_bytes refl
