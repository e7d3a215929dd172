-- ===== src/Codec/RoundTrip.antt =====
-- The two directions of src/codec.rs undo each other.
use tit.Prelude.{
  ==_iff, ◌==◌, Bool-cases, inl, inr, ap, refl, ◌∙◌, Option, none, some, length, ◌*◌, ℕ, ◌+◌, ◌*◌,
  ◌/◌, ◌%◌, ◌≡◌, ◌<◌, refl, Bool, true, false, some, List, [], ◌∷◌, length, All, arith,
}
use tit.Codec.{
  hex_digit, encode_lower_hex, decode_nibble, decode_pairs, decode_hex, decode_lower_hex,
  decode_ascii_hex, pair_byte, collect_one,
}

abbrev pub IsByte : ℕ → Type 0
IsByte b = b < 256

decode_nibble-hex_digit : (d : ℕ) (u : Bool) → d < 16 → decode_nibble (hex_digit d) u ≡ some d
decode_nibble-hex_digit d u h = ground arith

length-encode_lower_hex : (bs : List ℕ) → length (encode_lower_hex bs) % 2 ≡ 0
unfolding encode_lower_hex
length-encode_lower_hex [] = omega arith
length-encode_lower_hex (b ∷ bs) = omega (arith, length-encode_lower_hex bs)

decode_pairs-encode_lower_hex :
    (u : Bool) (bs : List ℕ) → All IsByte bs → decode_pairs u (encode_lower_hex bs) ≡ some bs
unfolding encode_lower_hex decode_pairs
decode_pairs-encode_lower_hex u [] h = refl
decode_pairs-encode_lower_hex u (b ∷ bs) (hb, h) =
    rw
      (
        decode_nibble-hex_digit (b / 16) u (omega (arith, hb)),
        decode_nibble-hex_digit (b % 16) u (omega arith),
        decode_pairs-encode_lower_hex u bs h,
        whole,
      )
      refl
  where
    whole : b / 16 * 16 + b % 16 ≡ b
    whole = omega arith

-- The hexadecimal digits that bytes are written as are read as the same bytes, by the reader that
-- takes lower case only and by the one that takes both.
pub decode-encode_lower_hex :
    (bytes : List ℕ)
    → All IsByte bytes
    → (decode_lower_hex (encode_lower_hex bytes) ≡ some bytes)
      × (decode_ascii_hex (encode_lower_hex bytes) ≡ some bytes)
unfolding decode_lower_hex decode_ascii_hex decode_hex
decode-encode_lower_hex bytes h = (
  rw (length-encode_lower_hex bytes) (decode_pairs-encode_lower_hex false bytes h),
  rw (length-encode_lower_hex bytes) (decode_pairs-encode_lower_hex true bytes h),
)

-- A lower-case digit is written as it was read.
hex_digit-decode_nibble : (a d : ℕ) → decode_nibble a false ≡ some d → (hex_digit d ≡ a) × (d < 16)
hex_digit-decode_nibble a d h = ground (arith, h)

pair_value : (h l c : ℕ) → pair_byte (some h) (some l) ≡ some c → h * 16 + l ≡ c
pair_value h l c k = cc

-- The two digits of a byte that was read.
encode-pair :
    (a b c : ℕ)
    → pair_byte (decode_nibble a false) (decode_nibble b false) ≡ some c
    → (hex_digit (c / 16) ≡ a) × (hex_digit (c % 16) ≡ b) × IsByte c
encode-pair a b c h = go (decode_nibble a false) (decode_nibble b false) refl refl h
  where
    go :
        (x y : Option ℕ)
        → decode_nibble a false ≡ x
        → decode_nibble b false ≡ y
        → pair_byte x y ≡ some c
        → (hex_digit (c / 16) ≡ a) × (hex_digit (c % 16) ≡ b) × IsByte c
    go (some high) (some low) p q k =
        let (ha, hl) = hex_digit-decode_nibble a high p in
        let (hb, ll) = hex_digit-decode_nibble b low q in
        let whole = pair_value high low c k in
        (
          ap hex_digit (omega (arith, whole, ll, hl)) ∙ ha,
          ap hex_digit (omega (arith, whole, ll, hl)) ∙ hb,
          omega (arith, whole, ll, hl),
        )
    go none y p q k = absurd cc
    go (some high) none p q k = absurd cc

collect_one-nil : (x : Option ℕ) (ys : Option (List ℕ)) → collect_one x ys ≡ some [] → ⊥
collect_one-nil (some c) (some cs) h = cons_not_nil (some-list (c ∷ cs) [] h)
  where
    some-list : (a b : List ℕ) → some a ≡ some b → a ≡ b
    some-list a b e = cc

    cons_not_nil : {x : ℕ} {xs : List ℕ} → x ∷ xs ≡ [] → ⊥
    cons_not_nil e = cc
collect_one-nil none ys h = cc
collect_one-nil (some c) none h = cc

collected :
    (x : Option ℕ) (ys : Option (List ℕ)) (c : ℕ) (cs : List ℕ)
    → collect_one x ys ≡ some (c ∷ cs)
    → (x ≡ some c) × (ys ≡ some cs)
collected (some d) (some ds) c cs h = (cc, cc)
collected none ys c cs h = absurd cc
collected (some d) none c cs h = absurd cc

decode_pairs-canonical :
    (encoded bytes : List ℕ)
    → length encoded % 2 ≡ 0
    → decode_pairs false encoded ≡ some bytes
    → (encode_lower_hex bytes ≡ encoded) × All IsByte bytes
unfolding decode_pairs encode_lower_hex
decode_pairs-canonical [] [] even h = (refl, tt)
decode_pairs-canonical [] (b ∷ bs) even h = absurd cc
decode_pairs-canonical (a ∷ []) bytes even h = absurd (omega (arith, even))
decode_pairs-canonical (a ∷ b ∷ rest) [] even h = absurd (collect_one-nil _ _ h)
decode_pairs-canonical (a ∷ b ∷ rest) (c ∷ cs) even h =
    let (first, others) = collected _ _ c cs h in
    let (ha, hb, byte) = encode-pair a b c first in
    let (canon, bytes) = decode_pairs-canonical rest cs (omega (arith, even)) others in
    (rw (ha, hb, canon) refl, (byte, bytes))

refuse : {bs : List ℕ} → none ≡ some bs → ⊥
refuse h = cc

-- Digits that are read as bytes are the lower-case digits that these bytes are written as.
pub encode-decode_lower_hex :
    (encoded bytes : List ℕ)
    → decode_lower_hex encoded ≡ some bytes
    → (encode_lower_hex bytes ≡ encoded) × All IsByte bytes
unfolding decode_lower_hex decode_hex
encode-decode_lower_hex encoded bytes h = elim (Bool-cases (length encoded % 2 == 0)) [
  | inl e ↦ decode_pairs-canonical encoded bytes ((==_iff (length encoded % 2) 0).0 e) (rw e at h)
  | inr e ↦ absurd (refuse (rw e at h))
]
