-- ===== src/PacketLine/Flush.antt =====
-- Where the first flush packet ends: the search of src/git/packetline.rs agrees with its reader.
use tit.Prelude.{
  ℕ, ◌≢◌, All, zero, suc, ◌+◌, ◌-◌, ◌≡◌, ◌≤◌, refl, sym, ap, ◌∙◌, subst, true, false, not, some,
  List, [], ◌∷◌, ◌++◌, ltb, length, take, drop, all, arith, ◌⊎◌, length-drop, length-take,
  take-take, drop-take, take_add, drop-drop, inl, inr, if_false,
}
use tit.PacketLine.{
  Packet, data_packet, flush, delimiter, response_end, ok, is_ascii_hexdigit, from_radix,
  packet_length, read_payload, read_packet, push, decode_next, decode_loop, decode,
  max_packet_bytes, max_request_bytes, Turn, return, advance, flush_step, flush_turn, flush_next,
  flush_loop, first_flush_end,
}
use tit.PacketLine.Read.{read_payload-data}

flush_step-return :
    (n offset left : ℕ) (m : ℕ)
    → flush_step n offset left ≡ return (ok (some m))
    → (n ≡ 0) × (m ≡ offset + 4) × (m ≤ max_request_bytes)
unfolding flush_step
flush_step-return n offset left m h = ground (arith, h)

flush_step-advance :
    (n offset left : ℕ) (m : ℕ)
    → flush_step n offset left ≡ advance m
    → ((n ≡ 1) × (m ≡ 4)) ⊎ (((n ≡ 2) × (m ≡ 4)) ⊎ ((5 ≤ n) × (n ≤ 65520) × (n ≤ left) × (m ≡ n)))
unfolding flush_step
flush_step-advance n offset left m h = ground (arith, h)

-- What is true where a turn reads a header.
abbrev IsHeaded : List ℕ → Type 0
IsHeaded rest = (4 ≤ length rest) × (all is_ascii_hexdigit (take 4 rest) ≡ true)

flush_turn-return :
    (offset : ℕ) (rest : List ℕ) (m : ℕ)
    → flush_turn offset rest ≡ return (ok (some m))
    → IsHeaded rest × (packet_length rest ≡ 0) × (m ≡ offset + 4) × (m ≤ max_request_bytes)
unfolding flush_turn
flush_turn-return offset rest m h =
    ground (arith, h, flush_step-return (packet_length rest) offset (length rest) m)

flush_turn-advance :
    (offset : ℕ) (rest : List ℕ) (m : ℕ)
    → flush_turn offset rest ≡ advance m
    → IsHeaded rest × (flush_step (packet_length rest) offset (length rest) ≡ advance m)
unfolding flush_turn
flush_turn-advance offset rest m h = ground (arith, h)

module _ (rest : List ℕ) (k : ℕ) (h : IsHeaded rest) (le : 4 + k ≤ length rest) where
  -- A turn of the reader on the first bytes sees the same header.
  read_packet-prefix :
      read_packet (take (4 + k) rest) ≡ read_payload (packet_length rest) (take k (drop 4 rest))
  unfolding read_packet
  read_packet-prefix =
      if_false _ _ long
      ∙ (if_false _ _ (ap not (ap (all is_ascii_hexdigit) same ∙ h.1))
          ∙ (ap (λ l. read_payload (from_radix 0 l) (drop 4 (take (4 + k) rest))) same
              ∙ ap (read_payload (packet_length rest)) (drop-take 4 k rest)))
    where
      same : take 4 (take (4 + k) rest) ≡ take 4 rest
      same = take-take 4 (4 + k) rest (omega arith)

      long : ltb (length (take (4 + k) rest)) 4 ≡ false
      long = ground (arith, length-take (4 + k) rest, le)

-- The reader takes the same bytes as a turn of the search that goes on, and no flush packet.
record Advances (rest : List ℕ) (n : ℕ) : Type 0 where
  packet : Packet
  other : packet ≢ flush
  moves : 4 ≤ n
  within : n ≤ length rest
  reads :
      (k : ℕ)
      → n + k ≤ length rest
      → read_packet (take (n + k) rest) ≡ ok (packet, take k (drop n rest))

-- The payload of a data packet, and what follows it.
read_payload-prefix :
    (n k : ℕ) (rest : List ℕ)
    → 5 ≤ n
    → n ≤ max_packet_bytes
    → n + k ≤ length rest
    → read_payload n (take (n - 4 + k) (drop 4 rest))
      ≡ ok (data_packet (take (n - 4) (drop 4 rest)), take k (drop n rest))
read_payload-prefix n k rest low high le =
    ap (read_payload n) (take_add (n - 4) k (drop 4 rest))
    ∙ (ap (λ l. read_payload n (payload ++ take k l)) (drop-drop 4 (n - 4) rest)
        ∙ (ap (λ m. read_payload n (payload ++ take k (drop m rest))) (omega (arith, low))
            ∙ (ap (λ m. read_payload m (payload ++ take k (drop n rest))) (sym size)
                ∙ read_payload-data payload (take k (drop n rest)) (omega (arith, size, low))
                    (omega (arith, size, high)))))
  where
    payload : List ℕ
    payload = take (n - 4) (drop 4 rest)

    size : length payload + 4 ≡ n
    size = omega (arith, length-take (n - 4) (drop 4 rest), length-drop 4 rest, le, low)

short-Advances :
    (rest : List ℕ) (p : Packet) (n : ℕ)
    → IsHeaded rest
    → p ≢ flush
    → packet_length rest ≡ n
    → ((l : List ℕ) → read_payload n l ≡ ok (p, l))
    → Advances rest 4
short-Advances rest p n h other e r = record {
  packet = p;
  other = other;
  moves = omega arith;
  within = h.0;
  reads = λ k le.
      read_packet-prefix rest k h le
      ∙ (ap (λ m. read_payload m (take k (drop 4 rest))) e ∙ r (take k (drop 4 rest)));
}

data-Advances :
    (rest : List ℕ)
    → IsHeaded rest
    → 5 ≤ packet_length rest
    → packet_length rest ≤ max_packet_bytes
    → packet_length rest ≤ length rest
    → Advances rest (packet_length rest)
data-Advances rest h low high within = record {
  packet = data_packet (take (packet_length rest - 4) (drop 4 rest));
  other = λ e. cc;
  moves = omega (arith, low);
  within = within;
  reads = λ k le.
      ap (λ m. read_packet (take m rest)) (omega (arith, low))
      ∙ (read_packet-prefix rest (packet_length rest - 4 + k) h (omega (arith, low, le))
          ∙ read_payload-prefix (packet_length rest) k rest low high le);
}

advance-Advances :
    (offset : ℕ) (rest : List ℕ) (n : ℕ) → flush_turn offset rest ≡ advance n → Advances rest n
unfolding read_payload
advance-Advances offset rest n h = elim (flush_step-advance _ _ _ _ step) [
  | inl (e, m) ↦
      subst (Advances rest) (sym m) (short-Advances rest delimiter 1 headed (λ x. cc) e (λ l. refl))
  | inr (inl (e, m)) ↦
      subst (Advances rest) (sym m)
        (short-Advances rest response_end 2 headed (λ x. cc) e (λ l. refl))
  | inr (inr (low, high, le, m)) ↦
      subst (Advances rest) (sym m) (data-Advances rest headed low high le)
]
  where
    headed : IsHeaded rest
    headed = (flush_turn-advance offset rest n h).0

    step : flush_step (packet_length rest) offset (length rest) ≡ advance n
    step = (flush_turn-advance offset rest n h).1

-- The search found an end `k` bytes further on: up to there the reader reads packets, of which the
-- last is the one flush packet.
record Finds (rest : List ℕ) (k : ℕ) : Type 0 where
  within : k ≤ length rest
  packets : List Packet
  others : All (λ p. p ≢ flush) packets
  read : (g : ℕ) → k ≤ g → decode_loop g (take k rest) ≡ ok (packets ++ (flush ∷ []))

-- One turn of the reader.
decode_loop-turn :
    (g : ℕ) (l : List ℕ) (p : Packet) (r : List ℕ)
    → 1 ≤ length l
    → read_packet l ≡ ok (p, r)
    → decode_loop (suc g) l ≡ push p (decode_loop g r)
unfolding decode_loop
decode_loop-turn g [] p r h e = absurd (omega (arith, h))
decode_loop-turn g (b ∷ l) p r h e = ap (decode_next (decode_loop g)) e

return-Finds :
    (offset : ℕ) (rest : List ℕ) (m : ℕ)
    → flush_turn offset rest ≡ return (ok (some m))
    → Finds rest 4
unfolding decode_loop read_payload
return-Finds offset rest m h =
    let (headed, e, _, _) = flush_turn-return offset rest m h in
    record { within = headed.0; packets = []; others = tt; read = go headed e }
  where
    go :
        IsHeaded rest
        → packet_length rest ≡ 0
        → (g : ℕ) → 4 ≤ g
        → decode_loop g (take 4 rest) ≡ ok ([] ++ (flush ∷ []))
    go headed e zero le = absurd (omega (arith, le))
    go headed e (suc g) le =
        decode_loop-turn g (take 4 rest) flush [] (omega (arith, length-take 4 rest, headed.0)) (
          read_packet-prefix rest 0 headed (omega (arith, headed.0))
          ∙ ap (λ n. read_payload n []) e)

advance-Finds :
    (rest : List ℕ) (n k : ℕ) → Advances rest n → Finds (drop n rest) k → Finds rest (n + k)
advance-Finds rest n k a f = record {
  within = omega (arith, a.within, f.within, length-drop n rest);
  packets = a.packet ∷ f.packets;
  others = (a.other, f.others);
  read = go;
}
  where
    go :
        (g : ℕ)
        → n + k ≤ g
        → decode_loop g (take (n + k) rest) ≡ ok ((a.packet ∷ f.packets) ++ (flush ∷ []))
    go zero le = absurd (omega (arith, le, a.moves))
    go (suc g) le =
        decode_loop-turn g (take (n + k) rest) a.packet (take k (drop n rest)) long (a.reads k room)
        ∙ ap (push a.packet) (f.read g (omega (arith, le, a.moves)))
      where
        room : n + k ≤ length rest
        room = omega (arith, a.within, f.within, length-drop n rest)

        long : 1 ≤ length (take (n + k) rest)
        long = omega (arith, length-take (n + k) rest, room, a.moves)

-- What the whole search says, from an offset on.
record Found (offset : ℕ) (rest : List ℕ) (m : ℕ) : Type 0 where
  further : ℕ
  at : m ≡ offset + further
  bounded : m ≤ max_request_bytes
  finds : Finds rest further

flush_loop-Found :
    (fuel offset : ℕ) (rest : List ℕ) (m : ℕ)
    → flush_loop fuel offset rest ≡ ok (some m)
    → Found offset rest m
unfolding flush_loop
flush_loop-Found fuel offset [] m h = absurd cc
flush_loop-Found zero offset (b ∷ rest) m h = absurd cc
flush_loop-Found (suc fuel) offset (b ∷ rest) m h =
    go (λ o r. flush_loop-Found fuel o r m) (flush_turn offset (b ∷ rest)) refl h
  where
    go :
        ((o : ℕ) (r : List ℕ) → flush_loop fuel o r ≡ ok (some m) → Found o r m)
        → (t : Turn) → flush_turn offset (b ∷ rest) ≡ t
        → flush_next (flush_loop fuel) offset (b ∷ rest) t ≡ ok (some m)
        → Found offset (b ∷ rest) m
    go ih (return r) e k =
        let e' = e ∙ ap return k in
        let (_, _, at, bounded) = flush_turn-return offset (b ∷ rest) m e' in
        record {
          further = 4;
          at = at;
          bounded = bounded;
          finds = return-Finds offset (b ∷ rest) m e';
        }
    go ih (advance n) e k =
        let found = ih (offset + n) (drop n (b ∷ rest)) k in
        record {
          further = n + found.further;
          at = omega (arith, found.at);
          bounded = found.bounded;
          finds =
              advance-Finds (b ∷ rest) n found.further (advance-Advances offset (b ∷ rest) n e)
                found.finds;
        }

-- Where the search finds the end of a flush packet, it lies within the input and within the bytes of
-- a request, and the input up to there is read as packets of which the last is the only flush packet.
pub first_flush_end-decode :
    (input : List ℕ) (end : ℕ)
    → first_flush_end input ≡ ok (some end)
    → (end ≤ length input)
      × (end ≤ max_request_bytes)
      × ((packets : List Packet) × All (λ p. p ≢ flush) packets
          × (decode (take end input) ≡ ok (packets ++ (flush ∷ []))))
unfolding first_flush_end decode
first_flush_end-decode input end h =
    let found = flush_loop-Found (length input) 0 input end h in
    let inside = subst (Finds input) (reached found.further found.at) found.finds in
    (
      inside.within,
      found.bounded,
      (
        inside.packets,
        inside.others,
        if_false _ _ (small found.bounded inside.within) ∙ inside.read _ (whole inside.within),
      ),
    )
  where
    reached : (k : ℕ) → end ≡ 0 + k → k ≡ end
    reached k e = omega (arith, e)

    small :
        end ≤ max_request_bytes
        → end ≤ length input
        → ltb max_request_bytes (length (take end input)) ≡ false
    small a b = ground (arith, length-take end input, a, b)

    whole : end ≤ length input → end ≤ length (take end input)
    whole b = omega (arith, length-take end input, b)
