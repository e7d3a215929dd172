-- ===== src/PacketLine.antt =====
-- src/git/packetline.rs: the frames of the Git protocol, written and read. Bytes are numbers.
-- A function that appends to `output` takes it and returns the longer one; one that moves `offset`
-- forward takes what is left of the input, and the offset beside it where the code tests it.
pub mod Header
pub mod Read
pub mod Flush
pub mod Fuel
mod Tests
use tit.Prelude.{
  ℕ, zero, suc, ◌+◌, ◌-◌, ◌*◌, ◌/◌, ◌%◌, Bool, true, false, ◌&&◌, ◌||◌, not, Option, none, some,
  List, [], ◌∷◌, ◌++◌, ltb, leb, ◌==◌, if◌then◌else◌, length, take, drop, all,
}
use tit.Codec.{hex_digit}

abbrev pub max_packet_bytes : ℕ
max_packet_bytes = 65520

abbrev pub max_request_bytes : ℕ
max_request_bytes = 1048576

pub data Packet : Type 0 where
  data_packet : List ℕ → Packet
  flush delimiter response_end : Packet

pub data PacketLineError : Type 0 where
  packet_too_large request_too_large truncated_header truncated_packet : PacketLineError
  invalid_length : PacketLineError

pub data Result {ℓ} (A : Type ℓ) : Type ℓ where
  ok : A → Result A
  err : PacketLineError → Result A

-- `format!("{length:04x}")` of a length below 65536.
abbrev pub header_of : ℕ → List ℕ
header_of n =
    hex_digit (n / 4096 % 16)
    ∷ hex_digit (n / 256 % 16)
    ∷ hex_digit (n / 16 % 16)
    ∷ hex_digit (n % 16)
    ∷ []

unfoldable pub encode_data : List ℕ → List ℕ → Result (List ℕ)
encode_data payload output =
    if ltb max_packet_bytes (length payload + 4)
    then err packet_too_large
    else ok (output ++ header_of (length payload + 4) ++ payload)

unfoldable pub encode_flush : List ℕ → List ℕ
encode_flush output = output ++ (48 ∷ 48 ∷ 48 ∷ 48 ∷ [])

unfoldable pub encode_delimiter : List ℕ → List ℕ
encode_delimiter output = output ++ (48 ∷ 48 ∷ 48 ∷ 49 ∷ [])

abbrev pub is_ascii_hexdigit : ℕ → Bool
is_ascii_hexdigit b = leb 48 b && leb b 57 || leb 97 b && leb b 102 || leb 65 b && leb b 70

-- `char::to_digit(16)` of a digit.
abbrev pub digit_value : ℕ → ℕ
digit_value b = if leb b 57 then b - 48 else if leb b 70 then b - 55 else b - 87

-- `usize::from_str_radix(header, 16)` of digits.
abbrev pub from_radix : ℕ → List ℕ → ℕ
from_radix acc [] = acc
from_radix acc (b ∷ bs) = from_radix (acc * 16 + digit_value b) bs

abbrev pub packet_length : List ℕ → ℕ
packet_length rest = from_radix 0 (take 4 rest)

-- The `match length`, after `offset += 4`: the packet, and what is left of the input.
unfoldable pub read_payload : ℕ → List ℕ → Result (Packet × List ℕ)
read_payload n rest =
    if n == 0
    then ok (flush, rest)
    else if n == 1
    then ok (delimiter, rest)
    else if n == 2
    then ok (response_end, rest)
    else if n == 3 || n == 4
    then err invalid_length
    else if ltb max_packet_bytes n
    then err packet_too_large
    else if ltb (length rest) (n - 4)
    then err truncated_packet
    else ok (data_packet (take (n - 4) rest), drop (n - 4) rest)

-- One turn of the loop.
unfoldable pub read_packet : List ℕ → Result (Packet × List ℕ)
read_packet rest =
    if ltb (length rest) 4
    then err truncated_header
    else if not (all is_ascii_hexdigit (take 4 rest))
    then err invalid_length
    else read_payload (packet_length rest) (drop 4 rest)

abbrev pub push : Packet → Result (List Packet) → Result (List Packet)
push p (ok ps) = ok (p ∷ ps)
push p (err e) = err e

-- The loop. Every turn takes four bytes at least, so the length of the input is fuel enough.
abbrev pub decode_next :
    (List ℕ → Result (List Packet)) → Result (Packet × List ℕ) → Result (List Packet)
decode_next again (ok (p, rest)) = push p (again rest)
decode_next again (err e) = err e

unfoldable pub decode_loop : ℕ → List ℕ → Result (List Packet)
decode_loop fuel [] = ok []
decode_loop zero (b ∷ rest) = err truncated_header
decode_loop (suc fuel) (b ∷ rest) = decode_next (decode_loop fuel) (read_packet (b ∷ rest))

unfoldable pub decode : List ℕ → Result (List Packet)
decode input =
    if ltb max_request_bytes (length input)
    then err request_too_large
    else decode_loop (length input) input

-- What one turn of the search for a flush packet does: return, or go on after some bytes.
pub data Turn : Type 0 where
  return : Result (Option ℕ) → Turn
  advance : ℕ → Turn

unfoldable pub flush_step : ℕ → ℕ → ℕ → Turn
flush_step n offset left =
    if n == 0
    then if leb (offset + 4) max_request_bytes
      then return (ok (some (offset + 4)))
      else return (err request_too_large)
    else if n == 1 || n == 2
    then advance 4
    else if n == 3 || n == 4
    then return (err invalid_length)
    else if ltb max_packet_bytes n
    then return (err packet_too_large)
    else if ltb left n
    then return (ok none)
    else if ltb max_request_bytes (offset + n)
    then return (err request_too_large)
    else advance n

unfoldable pub flush_turn : ℕ → List ℕ → Turn
flush_turn offset rest =
    if leb max_request_bytes offset
    then return (err request_too_large)
    else if ltb (length rest) 4
    then return (ok none)
    else if not (all is_ascii_hexdigit (take 4 rest))
    then return (err invalid_length)
    else flush_step (packet_length rest) offset (length rest)

abbrev pub flush_next : (ℕ → List ℕ → Result (Option ℕ)) → ℕ → List ℕ → Turn → Result (Option ℕ)
flush_next again offset rest (return r) = r
flush_next again offset rest (advance n) = again (offset + n) (drop n rest)

unfoldable pub flush_loop : ℕ → ℕ → List ℕ → Result (Option ℕ)
flush_loop fuel offset [] = ok none
flush_loop zero offset (b ∷ rest) = ok none
flush_loop (suc fuel) offset (b ∷ rest) =
    flush_next (flush_loop fuel) offset (b ∷ rest) (flush_turn offset (b ∷ rest))

unfoldable pub first_flush_end : List ℕ → Result (Option ℕ)
first_flush_end input = flush_loop (length input) 0 input
