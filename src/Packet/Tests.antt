-- ===== src/Packet/Tests.antt =====
-- `dopacket` of src/packet.c with a parser that keeps the lines it is given.
use igniteircd.Prelude.{◌≡◌, refl, Bool, true, false, List, [], ◌∷◌, Text, codes, ltb, arith}
use igniteircd.Packet.{Session, Parser, Reading, reading, read_on}
use igniteircd.Packet.Spec.{pieces, deliver, read_on_lem}
use igniteircd.Packet.Lines.{IsLine, AgreeOnLines, read_on_agree}

-- The third line ends the connection.
abbrev keeping : Parser (List Text)
keeping = record {
  parse = λ s line. (line ∷ s.world, ltb 2 s.receive_m);
  is_dead = λ w. false;
  exit_client = λ w. w;
}

abbrev keep_or_stop : Session (List Text) → Text → List Text × Bool
keep_or_stop s [] = ([], true)
keep_or_stop s (c ∷ line) = ((c ∷ line) ∷ s.world, ltb 2 s.receive_m)

-- It would end the connection at an empty line.
abbrev other : Parser (List Text)
other = record { parse = keep_or_stop; is_dead = λ w. false; exit_client = λ w. w }

same_parse :
    (s : Session (List Text)) (line : Text)
    → IsLine line
    → keeping.parse s line ≡ other.parse s line
same_parse s [] h = absurd (omega (arith, h.0))
same_parse s (c ∷ line) h = refl

other_agrees : AgreeOnLines keeping other
other_agrees = (same_parse, λ w. refl, λ w. refl)

abbrev start : Session (List Text)
start = record { receive_m = 0; me_receive_m = 5; world = [] }

abbrev begun : Reading (List Text)
begun = reading start (codes "NI")

read_on_lem_example :
    read_on keeping begun (codes "CK a\r\nUSER b\r\nQU")
    ≡ deliver keeping begun
        ((pieces (codes "CK a\r\nUSER b\r\nQU")).0)
        ((pieces (codes "CK a\r\nUSER b\r\nQU")).1)
read_on_lem_example = read_on_lem keeping begun (codes "CK a\r\nUSER b\r\nQU") (omega arith)

read_on_agree_example :
    read_on keeping begun (codes "CK a\n\n\nQU") ≡ read_on other begun (codes "CK a\n\n\nQU")
read_on_agree_example =
    read_on_agree keeping other other_agrees begun (codes "CK a\n\n\nQU")
      (omega arith, (refl, (refl, tt)))
