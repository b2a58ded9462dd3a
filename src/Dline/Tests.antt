-- ===== src/Dline/Tests.antt =====
-- src/dline_conf.c on the networks 10.0.0.0/8 and 10.1.0.0/16.
use igniteircd.Prelude.{
  Text, ◌+◌, ◌≡◌, ◌⊎◌, bit_and, refl, true, false, some, none, [], ◌∷◌, ◌==◌, if◌then◌else◌,
}
use igniteircd.Dline.{
  Conf, Node, IpSubtree, State, leaf, branch, insert_ip_subtree, find_ip_subtree, replace_head,
  match_dline, first_byte,
}
use igniteircd.Dline.Find.{covers, IsApart, find_ip_subtree-insert}
use igniteircd.Dline.Delete.{size, is_leaf, replace_head-loses}
use igniteircd.Dline.Kline.{Kline, find_winner}
use igniteircd.Dline.Kline.Kinds.{Among, IsChosen}
use igniteircd.Dline.Kline.Winner.{find_winner-IsChosen}
use igniteircd.Dline.Match.{IsMatch, match_dline-IsMatch}

abbrev ban : Conf
ban = record { ip = 0x0a010000; ip_mask = 0xffff0000; is_e_lined = false }

abbrev exception : Conf
exception = record { ip = 0x0a010200; ip_mask = 0xffffff00; is_e_lined = true }

abbrev net : Node
net = record { ip = 0x0a010000; ip_mask = 0xffff0000; conf = ban ∷ exception ∷ [] }

abbrev other : Node
other = record { ip = 0x0a030000; ip_mask = 0xffff0000; conf = [] }

abbrev tree : IpSubtree
tree = branch other leaf leaf

apart : covers net 0x0a010203 ≡ true → IsApart tree net 0x0a010203
apart e = (refl, refl, tt, tt)

find_ip_subtree-insert_example :
    find_ip_subtree (insert_ip_subtree tree net) 0x0a010203
    ≡ (if covers net 0x0a010203 then some net else find_ip_subtree tree 0x0a010203)
find_ip_subtree-insert_example = find_ip_subtree-insert tree net 0x0a010203 apart

replace_head-loses_example :
    (size (replace_head true (branch net leaf tree) (branch other leaf leaf))
      == size (branch net leaf tree) + size tree)
    ≡ is_leaf (if true then tree else leaf)
replace_head-loses_example = replace_head-loses true net other leaf tree leaf leaf

abbrev state : State
state = record { dline = λ head. branch net leaf leaf; oracle = λ head. 0x0a01ffff; leftover = [] }

match_dline-IsMatch_example :
    (((bit_and (state.oracle (first_byte 0x0a010203)) 0x0a010203 ≡ 0x0a010203) → ⊥)
      × (match_dline state 0x0a010203 ≡ none))
    ⊎ ((bit_and (state.oracle (first_byte 0x0a010203)) 0x0a010203 ≡ 0x0a010203)
        × IsMatch
            (find_ip_subtree (state.dline (first_byte 0x0a010203)) 0x0a010203)
            0x0a010203
            (match_dline state 0x0a010203))
match_dline-IsMatch_example = match_dline-IsMatch state 0x0a010203

abbrev kill : Kline
kill = record {
  ip = 0x0a010000;
  ip_mask = 0xffff0000;
  user = b'*' ∷ [];
  is_e_lined = false;
  is_kill = true;
  is_client = false;
}

abbrev exempt : Kline
exempt = record {
  ip = 0x0a010200;
  ip_mask = 0xffffff00;
  user = b'*' ∷ [];
  is_e_lined = true;
  is_kill = false;
  is_client = false;
}

abbrev nick : Text
nick = b'u' ∷ []

find_winner-IsChosen_example :
    IsChosen 0x0a010203 nick
      (λ d. Among d (kill ∷ exempt ∷ []))
      (find_winner 0x0a010203 nick (kill ∷ exempt ∷ []) none false)
find_winner-IsChosen_example = find_winner-IsChosen 0x0a010203 nick (kill ∷ exempt ∷ [])
