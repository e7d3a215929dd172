-- ===== src/ReceivePack/Accepted.antt =====
-- What the commands of a push are once parse_commands of src/git/receive_pack.rs accepts them.
use tit.Prelude.{
  ◌≤◌, ◌≡◌, Bool, true, false, ◌&&◌, not, Option, List, [], ◌∷◌, any, All, length, arith,
}
use tit.Prelude.Tables.{All-map}
use tit.Prelude.Bytes.{bytes_eq}
use tit.Store.Schema.{Bytes}
use tit.PacketLine.{Packet}
use tit.ReceivePack.{received, Kind, same_kind, Gix, parse_id}
use tit.ReceivePack.Commands.{
  RefCommand, max_commands, is_pushable, parse_command, parse_packets, parse_commands,
}
use tit.ReceivePack.Ends.{Ends, Ends-received, Ends-bind, Ends-require, Ends-present}

module _ {ObjectId : Type 0} (gix : Gix ObjectId) (format : Kind) where
  -- A command for a branch or a tag, with ids of the repository's format that differ.
  pub record IsCommand (c : RefCommand ObjectId) : Type 0 where
    pub pushable : is_pushable c.name ≡ true
    pub full_name : gix.is_full_name c.name ≡ true
    pub changes : gix.same c.old c.new ≡ false
    pub old_kind : same_kind (gix.kind c.old) format ≡ true
    pub new_kind : same_kind (gix.kind c.new) format ≡ true

  -- No two commands are for one ref.
  pub AreApart : List (RefCommand ObjectId) → Type 0
  AreApart [] = Unit
  AreApart (c ∷ cs) = All (λ d. bytes_eq d.name c.name ≡ false) cs × AreApart cs

  parse_id-kind :
      (input : Option Bytes)
      → Ends (λ id. same_kind (gix.kind id) format ≡ true) (parse_id gix input format)
  unfolding parse_id
  parse_id-kind input =
      Ends-present _ _ _
        λ digits. Ends-present _ _ _ λ id. Ends-require _ _ _ λ same. Ends-received id same

  -- All of it but the name's place, which is tested after.
  parse_command-fits :
      (text : Bytes)
      → Ends (λ c. is_pushable c.name ≡ true → IsCommand c) (parse_command gix format text)
  unfolding parse_command
  parse_command-fits text = Ends-bind _ _ λ old e₁. Ends-bind _ _ λ new e₂.
      Ends-present _ _ _ λ name. Ends-require _ _ _ λ other. Ends-require _ _ _ λ full.
        Ends-received _ (λ at_place. record {
          pushable = at_place;
          full_name = full;
          changes = ground (arith, other);
          old_kind = (parse_id-kind _).at old e₁;
          new_kind = (parse_id-kind _).at new e₂;
        })

  parse_packets-fit :
      (first : Bool) (names : List Bytes) (ps : List Packet)
      → Ends
          (λ cs. All IsCommand cs × All (λ d. any (bytes_eq d.name) names ≡ false) cs × AreApart cs)
          (parse_packets gix format first names ps)
  unfolding parse_packets AreApart
  parse_packets-fit first names [] = Ends-received [] (tt, tt, tt)
  parse_packets-fit first names (p ∷ ps) = Ends-bind _ _ λ line _. Ends-bind _ _ λ text _.
      Ends-bind _ _ λ c e. Ends-require _ _ _ λ fits. Ends-bind _ _ λ rest e₂.
        let (each, fresh, apart) = (parse_packets-fit false (c.name ∷ names) ps).at rest e₂ in
        let (at_place, is_new) = place_of c fits in
        Ends-received _ (
          ((parse_command-fits text).at c e at_place, each),
          (is_new, All-map _ _ rest (λ d h. (split_new c d h).1) fresh),
          (All-map _ _ rest (λ d h. (split_new c d h).0) fresh, apart),
        )
    where
      place_of :
          (c : RefCommand ObjectId)
          → (is_pushable c.name && not (any (bytes_eq c.name) names)) ≡ true
          → (is_pushable c.name ≡ true) × (any (bytes_eq c.name) names ≡ false)
      place_of c h = ground (arith, h)

      split_new :
          (c d : RefCommand ObjectId)
          → any (bytes_eq d.name) (c.name ∷ names) ≡ false
          → (bytes_eq d.name c.name ≡ false) × (any (bytes_eq d.name) names ≡ false)
      split_new c d h = ground (arith, h)

  -- The commands that a push's input is read as are at least one and at most `max_commands`; each is
  -- for a branch or a tag with a valid name, with two ids of the repository's format that are not the
  -- same; and no two are for one ref.
  pub parse_commands-accepts :
      (input : Bytes) (cs : List (RefCommand ObjectId))
      → parse_commands gix format input ≡ received cs
      → (1 ≤ length cs) × (length cs ≤ max_commands) × All IsCommand cs × AreApart cs
  parse_commands-accepts input cs e = accepts.at cs e
    where
      accepts :
          Ends
            (λ cs. (1 ≤ length cs) × (length cs ≤ max_commands) × All IsCommand cs × AreApart cs)
            (parse_commands gix format input)
      accepts =
          unfold parse_commands in
          Ends-bind _ _ λ packets _. Ends-bind _ _ λ lines _. Ends-bind _ _ λ cs e.
            Ends-require _ _ _ λ within.
              let (each, _, apart) = (parse_packets-fit true [] lines).at cs e in
              Ends-received cs (ground (arith, within), ground (arith, within), each, apart)
