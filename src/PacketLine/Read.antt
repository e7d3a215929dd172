-- ===== src/PacketLine/Read.antt =====
-- What the writers of src/git/packetline.rs append is read back, packet by packet.
use tit.Prelude.{
  ℕ, zero, suc, ◌+◌, ◌-◌, ◌≡◌, ◌≤◌, refl, ap, ◌∙◌, true, false, not, ◌||◌, List, [], ◌∷◌, ◌++◌, ltb,
  ◌==◌, length, take, drop, all, All, arith, append_assoc, append-nil, length-append,
  take-length-append, drop-length-append, if_false,
}
use tit.PacketLine.{
  Packet, data_packet, flush, delimiter, response_end, Result, ok, err, header_of, encode_data,
  encode_flush, encode_delimiter, is_ascii_hexdigit, from_radix, read_payload, read_packet, push,
  decode_next, decode_loop, decode, max_packet_bytes, max_request_bytes, truncated_header,
}
use tit.PacketLine.Header.{all-header_of, from_radix-header_of}

-- A packet that has a writer; git's empty data packet `0004`, which the reader refuses, has none.
abbrev pub IsWritable : Packet → Type 0
IsWritable (data_packet payload) = (1 ≤ length payload) × (length payload + 4 ≤ max_packet_bytes)
IsWritable flush = Unit
IsWritable delimiter = Unit
IsWritable response_end = 1 ≤ 0

-- The writer of one packet.
unfoldable pub encode_packet : Packet → List ℕ → Result (List ℕ)
encode_packet (data_packet payload) output = encode_data payload output
encode_packet flush output = ok (encode_flush output)
encode_packet delimiter output = ok (encode_delimiter output)
encode_packet response_end output = err truncated_header

-- The writers called one after the other on the same output.
abbrev encode_rest : (List ℕ → Result (List ℕ)) → Result (List ℕ) → Result (List ℕ)
encode_rest again (ok output) = again output
encode_rest again (err e) = err e

unfoldable pub encode_all : List Packet → List ℕ → Result (List ℕ)
encode_all [] output = ok output
encode_all (p ∷ ps) output = encode_rest (encode_all ps) (encode_packet p output)

-- The bytes of a packet.
abbrev pub bytes_of : Packet → List ℕ
bytes_of (data_packet payload) = header_of (length payload + 4) ++ payload
bytes_of flush = 48 ∷ 48 ∷ 48 ∷ 48 ∷ []
bytes_of delimiter = 48 ∷ 48 ∷ 48 ∷ 49 ∷ []
bytes_of response_end = []

abbrev pub bytes_of_all : List Packet → List ℕ
bytes_of_all [] = []
bytes_of_all (p ∷ ps) = bytes_of p ++ bytes_of_all ps

encode_packet-bytes_of :
    (p : Packet) (out : List ℕ) → IsWritable p → encode_packet p out ≡ ok (out ++ bytes_of p)
unfolding encode_packet encode_data encode_flush encode_delimiter
encode_packet-bytes_of (data_packet payload) out (a, b) =
    if_false _ _ fits ∙ ap ok (append_assoc out (header_of (length payload + 4)) payload)
  where
    fits : ltb max_packet_bytes (length payload + 4) ≡ false
    fits = ground (arith, b)
encode_packet-bytes_of flush out h = refl
encode_packet-bytes_of delimiter out h = refl
encode_packet-bytes_of response_end out h = absurd (omega (arith, h))

pub encode_all-bytes_of_all :
    (ps : List Packet) (out : List ℕ)
    → All IsWritable ps
    → encode_all ps out ≡ ok (out ++ bytes_of_all ps)
unfolding encode_all
encode_all-bytes_of_all [] out h = rw (append-nil out) refl
encode_all-bytes_of_all (p ∷ ps) out (hp, h) =
    rw
      (
        encode_packet-bytes_of p out hp,
        encode_all-bytes_of_all ps (out ++ bytes_of p) h,
        append_assoc out (bytes_of p) (bytes_of_all ps),
      )
      refl

abbrev cut : List ℕ → ℕ → Result (Packet × List ℕ)
cut rest k = ok (data_packet (take k rest), drop k rest)

pub read_payload-data :
    (payload rest : List ℕ)
    → 1 ≤ length payload
    → length payload + 4 ≤ max_packet_bytes
    → read_payload (length payload + 4) (payload ++ rest) ≡ ok (data_packet payload, rest)
unfolding read_payload
read_payload-data payload rest a b =
    if_false _ _ zero_no
    ∙ (if_false _ _ one_no
        ∙ (if_false _ _ two_no
            ∙ (if_false _ _ reserved_no ∙ (if_false _ _ fits ∙ (if_false _ _ whole ∙ taken)))))
  where
    zero_no : (length payload + 4 == 0) ≡ false
    zero_no = ground (arith, a)

    one_no : (length payload + 4 == 1) ≡ false
    one_no = ground (arith, a)

    two_no : (length payload + 4 == 2) ≡ false
    two_no = ground (arith, a)

    reserved_no : (length payload + 4 == 3 || length payload + 4 == 4) ≡ false
    reserved_no = ground (arith, a)

    fits : ltb max_packet_bytes (length payload + 4) ≡ false
    fits = ground (arith, b)

    back : length payload + 4 - 4 ≡ length payload
    back = omega arith

    whole : ltb (length (payload ++ rest)) (length payload + 4 - 4) ≡ false
    whole = ground (arith, length-append payload rest)

    taken : cut (payload ++ rest) (length payload + 4 - 4) ≡ ok (data_packet payload, rest)
    taken =
        ap (cut (payload ++ rest)) back
        ∙ rw (take-length-append payload rest, drop-length-append payload rest) refl

-- A header is read, and what it announces.
module _ (a b c d : ℕ) (rest : List ℕ) where
  pub read_packet-header :
      all is_ascii_hexdigit (a ∷ b ∷ c ∷ d ∷ []) ≡ true
      → read_packet (a ∷ b ∷ c ∷ d ∷ rest) ≡ read_payload (from_radix 0 (a ∷ b ∷ c ∷ d ∷ [])) rest
  unfolding read_packet
  read_packet-header h = if_false _ _ long ∙ if_false _ _ (ap not h)
    where
      long : ltb (length (a ∷ b ∷ c ∷ d ∷ rest)) 4 ≡ false
      long = ground arith

pub read_packet-bytes_of :
    (p : Packet) (rest : List ℕ) → IsWritable p → read_packet (bytes_of p ++ rest) ≡ ok (p, rest)
unfolding read_payload
read_packet-bytes_of (data_packet payload) rest (a, b) =
    read_packet-header _ _ _ _ (payload ++ rest) (all-header_of (length payload + 4))
    ∙ (ap (λ n. read_payload n (payload ++ rest))
          (from_radix-header_of (length payload + 4) (omega (arith, b)))
        ∙ read_payload-data payload rest a b)
read_packet-bytes_of flush rest h = read_packet-header 48 48 48 48 rest refl
read_packet-bytes_of delimiter rest h = read_packet-header 48 48 48 49 rest refl
read_packet-bytes_of response_end rest h = absurd (omega (arith, h))

decode_loop-step :
    (p : Packet) (rest : List ℕ) (fuel : ℕ)
    → IsWritable p
    → decode_loop (suc fuel) (bytes_of p ++ rest) ≡ push p (decode_loop fuel rest)
unfolding decode_loop
decode_loop-step (data_packet payload) rest fuel h =
    ap (decode_next (decode_loop fuel)) (read_packet-bytes_of (data_packet payload) rest h)
decode_loop-step flush rest fuel h =
    ap (decode_next (decode_loop fuel)) (read_packet-bytes_of flush rest h)
decode_loop-step delimiter rest fuel h =
    ap (decode_next (decode_loop fuel)) (read_packet-bytes_of delimiter rest h)
decode_loop-step response_end rest fuel h = absurd (omega (arith, h))

length-bytes_of : (p : Packet) → IsWritable p → 4 ≤ length (bytes_of p)
length-bytes_of (data_packet payload) h = omega arith
length-bytes_of flush h = omega arith
length-bytes_of delimiter h = omega arith
length-bytes_of response_end h = absurd (omega (arith, h))

decode_loop-bytes_of_all :
    (ps : List Packet) (fuel : ℕ)
    → All IsWritable ps
    → length (bytes_of_all ps) ≤ fuel
    → decode_loop fuel (bytes_of_all ps) ≡ ok ps
unfolding decode_loop
decode_loop-bytes_of_all [] fuel h le = refl
decode_loop-bytes_of_all (p ∷ ps) zero (hp, h) le =
    absurd (omega (arith, le, length-append (bytes_of p) (bytes_of_all ps), length-bytes_of p hp))
decode_loop-bytes_of_all (p ∷ ps) (suc fuel) (hp, h) le =
    decode_loop-step p (bytes_of_all ps) fuel hp
    ∙ ap (push p) (
        decode_loop-bytes_of_all ps fuel h
          (omega (arith, le, length-append (bytes_of p) (bytes_of_all ps), length-bytes_of p hp)))

-- Flush, delimiter and data packets, whose payload is not empty and fits, that are written one after
-- the other are written without an error, and are read back in order, if they make no more bytes
-- than a request may have.
pub decode-encode_all :
    (packets : List Packet)
    → All IsWritable packets
    → (output : List ℕ) × (encode_all packets [] ≡ ok output)
      × (length output ≤ max_request_bytes → decode output ≡ ok packets)
unfolding decode
decode-encode_all packets h = (
  bytes_of_all packets,
  encode_all-bytes_of_all packets [] h,
  λ le. if_false _ _ (small le) ∙ decode_loop-bytes_of_all packets _ h (omega arith),
)
  where
    small :
        length (bytes_of_all packets) ≤ max_request_bytes
        → ltb max_request_bytes (length (bytes_of_all packets)) ≡ false
    small le = ground (arith, le)
