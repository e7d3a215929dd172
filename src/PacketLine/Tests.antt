-- ===== src/PacketLine/Tests.antt =====
-- The theorems on packets at a command, a delimiter and a flush packet.
use tit.PacketLine.Flush.{first_flush_end-decode}
use tit.Prelude.{refl, All, take, ◌++◌, ◌≢◌, ℕ, ◌≡◌, ◌≤◌, List, [], ◌∷◌, arith, length}
use tit.PacketLine.{
  first_flush_end, flush_loop, flush_turn, flush_step, Packet, data_packet, flush, delimiter, ok,
  max_request_bytes, decode, decode_loop,
}
use tit.PacketLine.Fuel.{LoopEnds, decode_loop-LoopEnds}
use tit.PacketLine.Read.{encode_all, decode-encode_all}

abbrev request : List Packet
request = data_packet (99 ∷ 109 ∷ 100 ∷ []) ∷ delimiter ∷ data_packet (97 ∷ []) ∷ flush ∷ []

decode-encode_all_example :
    (output : List ℕ) × (encode_all request [] ≡ ok output)
    × (length output ≤ max_request_bytes → decode output ≡ ok request)
decode-encode_all_example =
    decode-encode_all request
      ((omega arith, omega arith), (tt, ((omega arith, omega arith), (tt, tt))))

-- A data packet, a flush packet, and a byte that no packet has yet.
abbrev received : List ℕ
received = 48 ∷ 48 ∷ 48 ∷ 54 ∷ 97 ∷ 98 ∷ 48 ∷ 48 ∷ 48 ∷ 48 ∷ 33 ∷ []

first_flush_end-decode_example :
    (10 ≤ length received)
    × (10 ≤ max_request_bytes)
    × ((packets : List Packet) × All (λ p. p ≢ flush) packets
        × (decode (take 10 received) ≡ ok (packets ++ (flush ∷ []))))
unfolding first_flush_end flush_loop flush_turn flush_step
first_flush_end-decode_example = first_flush_end-decode received 10 refl

decode_loop-LoopEnds_example : LoopEnds received (decode_loop 100 received)
decode_loop-LoopEnds_example = decode_loop-LoopEnds 100 received (omega arith)
