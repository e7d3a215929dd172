-- ===== src/PacketLine/Fuel.antt =====
-- The loop of `decode` in src/git/packetline.rs ends: the length of the input is fuel enough.
use tit.Prelude.{
  ℕ, zero, suc, ◌-◌, ◌≤◌, ◌≡◌, refl, Bool, true, false, List, [], ◌∷◌, arith, if◌then◌else◌, length,
  length-drop, ltb, ◌==◌, ◌||◌, not, all, take,
}
use tit.PacketLine.{
  Packet, Result, ok, err, PacketLineError, max_packet_bytes, is_ascii_hexdigit, read_payload,
  read_packet, push, decode_next, decode_loop,
}

-- The number of bytes that a turn leaves.
left : Result (Packet × List ℕ) → ℕ
left (ok (p, rest)) = length rest
left (err e) = 0

-- A turn that leaves `n` bytes at most.
record Leaves (n : ℕ) (r : Result (Packet × List ℕ)) : Type 0 where
  at_most : left r ≤ n

Leaves-if :
    {n : ℕ} (b : Bool) (x y : Result (Packet × List ℕ))
    → Leaves n x
    → Leaves n y
    → Leaves n (if b then x else y)
Leaves-if true x y h k = h
Leaves-if false x y h k = k

Leaves-err : {n : ℕ} (e : PacketLineError) → Leaves n (err e)
unfolding left
Leaves-err e = record { at_most = omega arith }

Leaves-ok : {n : ℕ} (p : Packet) (rest : List ℕ) → length rest ≤ n → Leaves n (ok (p, rest))
unfolding left
Leaves-ok p rest h = record { at_most = h }

read_payload-Leaves : (n m : ℕ) (rest : List ℕ) → length rest ≤ n → Leaves n (read_payload m rest)
unfolding read_payload
read_payload-Leaves n m rest h = Leaves-if (m == 0) _ _ (Leaves-ok _ rest h) (
    Leaves-if (m == 1) _ _ (Leaves-ok _ rest h) (
      Leaves-if (m == 2) _ _ (Leaves-ok _ rest h) (
        Leaves-if (m == 3 || m == 4) _ _ (Leaves-err _) (
          Leaves-if (ltb max_packet_bytes m) _ _ (Leaves-err _) (
            Leaves-if (ltb (length rest) (m - 4)) _ _ (Leaves-err _)
              (Leaves-ok _ _ (omega (arith, h, length-drop (m - 4) rest))))))))

read_packet-Leaves : (b : ℕ) (rest : List ℕ) → Leaves (length rest) (read_packet (b ∷ rest))
unfolding read_packet
read_packet-Leaves b rest = Leaves-if (ltb (length (b ∷ rest)) 4) _ _ (Leaves-err _) (
    Leaves-if (not (all is_ascii_hexdigit (take 4 (b ∷ rest)))) _ _ (Leaves-err _)
      (read_payload-Leaves (length rest) _ _ (omega (arith, length-drop 4 (b ∷ rest)))))

-- What the loop of the source comes to where it ends, turn by turn and without any fuel: it returns at
-- the end of the input or at the error of a turn, and goes on with what a turn leaves.
pub data LoopEnds : List ℕ → Result (List Packet) → Type 0 where
  at_end : LoopEnds [] (ok [])
  at_error :
      {b : ℕ} {rest : List ℕ} {e : PacketLineError}
      → read_packet (b ∷ rest) ≡ err e
      → LoopEnds (b ∷ rest) (err e)
  after_turn :
      {b : ℕ} {rest left_over : List ℕ} {p : Packet} {r : Result (List Packet)}
      → read_packet (b ∷ rest) ≡ ok (p, left_over)
      → LoopEnds left_over r
      → LoopEnds (b ∷ rest) (push p r)

turn-LoopEnds :
    (n b : ℕ) (rest : List ℕ) (turn : Result (Packet × List ℕ))
    → read_packet (b ∷ rest) ≡ turn
    → left turn ≤ length rest
    → ((left_over : List ℕ)
        → length left_over ≤ length rest
        → LoopEnds left_over (decode_loop n left_over))
    → LoopEnds (b ∷ rest) (decode_next (decode_loop n) turn)
unfolding left
turn-LoopEnds n b rest (ok (p, left_over)) e h again = after_turn e (again left_over h)
turn-LoopEnds n b rest (err x) e h again = at_error e

-- With every fuel that is at least the length of the input, the loop that reads packets ends without
-- the fuel, and with the result that `decode_loop` gives: each of its turns leaves less to read.
pub decode_loop-LoopEnds :
    (n : ℕ) (input : List ℕ) → length input ≤ n → LoopEnds input (decode_loop n input)
unfolding decode_loop
decode_loop-LoopEnds n [] h = at_end
decode_loop-LoopEnds zero (b ∷ rest) h = absurd (omega (arith, h))
decode_loop-LoopEnds (suc n) (b ∷ rest) h =
    turn-LoopEnds n b rest (read_packet (b ∷ rest)) refl (read_packet-Leaves b rest).at_most
      λ left_over le. decode_loop-LoopEnds n left_over (omega (arith, le, h))
