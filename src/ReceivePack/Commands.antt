-- ===== src/ReceivePack/Commands.antt =====
-- src/git/receive_pack.rs: the commands of a push, parse_commands, and what they are once accepted.
use tit.Prelude.{
  ℕ, Bool, true, false, ◌&&◌, ◌||◌, not, Option, none, some, List, [], ◌∷◌, any, length, ◌==◌, leb,
  is_some, if◌then◌else◌,
}
use tit.Prelude.Bytes.{codes, starts_with, strip_suffix, split, bytes_eq}
use tit.Store.Schema.{Bytes}
use tit.PacketLine
use tit.PacketLine.{Packet, data_packet, flush, delimiter, response_end}
use tit.ReceivePack.{
  packet_line, commands, command_limit, ref_name, Received, received, failed, ◌>>=◌, ◌>>◌, require,
  present, Kind, Gix, parse_id,
}

abbrev pub max_commands : ℕ
max_commands = 256

pub record RefCommand (ObjectId : Type 0) : Type 0 where
  pub old : ObjectId
  pub new : ObjectId
  pub name : Bytes

abbrev of_packets : PacketLine.Result (List Packet) → Received (List Packet)
of_packets (PacketLine.ok ps) = received ps
of_packets (PacketLine.err e) = failed (packet_line e)

-- The packets before the last, which must be a flush packet.
unfoldable pub before_flush : List Packet → Received (List Packet)
before_flush [] = failed commands
before_flush (flush ∷ []) = received []
before_flush (p ∷ []) = failed commands
before_flush (p ∷ q ∷ ps) = before_flush (q ∷ ps) >>= λ rest. received (p ∷ rest)

unfoldable pub data_line : Packet → Received Bytes
data_line (data_packet line) = received line
data_line _ = failed commands

abbrev first_of : List Bytes → Bytes
first_of [] = []
first_of (b ∷ bs) = b

-- `line.strip_suffix(b"\n").unwrap_or(line)`
abbrev without_newline : Bytes → Bytes
without_newline line = elim (strip_suffix (b'\n' ∷ []) line) [ none ↦ line | some rest ↦ rest ]

-- The first line may carry capabilities after a NUL; another line may have no NUL.
unfoldable pub command_of : Bool → Bytes → Received Bytes
command_of true line = received (first_of (split 0 line))
command_of false line = if any (λ b. b == 0) line then failed commands else received line

-- `fields.next()`, and the fields after it.
abbrev next_field : List Bytes → Option Bytes
next_field [] = none
next_field (f ∷ fs) = some f

abbrev after_field : List Bytes → List Bytes
after_field [] = []
after_field (f ∷ fs) = fs

abbrev pub is_pushable : Bytes → Bool
is_pushable name = starts_with (codes "refs/heads/") name || starts_with (codes "refs/tags/") name

module _ {ObjectId : Type 0} (gix : Gix ObjectId) (format : Kind) where
  unfoldable pub parse_command : Bytes → Received (RefCommand ObjectId)
  parse_command command = do
    let fields = split b' ' command
    old ← parse_id gix (next_field fields) format
    new ← parse_id gix (next_field (after_field fields)) format
    name ← present (next_field (after_field (after_field fields))) commands
    require
        (not (
          is_some (next_field (after_field (after_field (after_field fields))))
          || gix.same old new))
        commands
    require (gix.is_full_name name) ref_name
    received (record { old = old; new = new; name = name })

  -- `names` are those of the commands before; the first packet is the one before which there is none.
  unfoldable pub parse_packets :
      Bool → List Bytes → List Packet → Received (List (RefCommand ObjectId))
  parse_packets first names [] = received []
  parse_packets first names (p ∷ ps) = do
    line ← data_line p
    text ← command_of first (without_newline line)
    command ← parse_command text
    require (is_pushable command.name && not (any (bytes_eq command.name) names)) ref_name
    rest ← parse_packets false (command.name ∷ names) ps
    received (command ∷ rest)

  unfoldable pub parse_commands : Bytes → Received (List (RefCommand ObjectId))
  parse_commands input = do
    packets ← of_packets (PacketLine.decode input)
    lines ← before_flush packets
    accepted ← parse_packets true [] lines
    require (leb 1 (length accepted) && leb (length accepted) max_commands) command_limit
    received accepted
