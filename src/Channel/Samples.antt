-- ===== src/Channel/Samples.antt =====
-- A channel of src/channel.c with two members, and the clients of the tests.
use igniteircd.Prelude.{pos, true, false, [], ◌∷◌, codes, ◌==◌, if◌then◌else◌, arith}
use igniteircd.Hash.{clear_table}
use igniteircd.Channel.{Client, Channel, User, World, stat_client, Ban}
use igniteircd.Channel.Members.Links.{IsConsistent}

abbrev pub visitor : Client
visitor = record {
  name = codes "nick";
  username = codes "user";
  host = codes "host.org";
  ip = record { b1 = 10; b2 = 0; b3 = 0; b4 = 7 };
  status = stat_client;
  has_user = true;
  local_flag = true;
  admin = false;
  oper = false;
}

abbrev pub ban : Ban
ban = record { banstr = codes "*!*@evil.org"; who = codes "op"; when = 5 }

-- +i with the key "sesame" and the limit 3.
abbrev pub lobby : Channel
lobby = record {
  chname = codes "#lobby";
  mode = record { mode = 128; limit = 3; key = codes "sesame" };
  users = 1;
  members = record { cptr = 7; flags = 1 } ∷ [];
  invites = 8 ∷ [];
  banlist = ban ∷ [];
  exceptlist = [];
  num_bed = 1;
  juped = false;
  channelts = 1;
}

abbrev pub void : Channel
void = record {
  chname = codes "#void";
  mode = record { mode = 0; limit = 0; key = [] };
  users = 0;
  members = [];
  invites = [];
  banlist = [];
  exceptlist = [];
  num_bed = 0;
  juped = false;
  channelts = 1;
}

abbrev pub member : User
member = record { channel = 3 ∷ []; invited = []; joined = pos 1 }

abbrev pub invitee : User
invitee = record { channel = []; invited = 3 ∷ []; joined = pos 0 }

abbrev pub stranger : User
stranger = record { channel = []; invited = []; joined = pos 0 }

-- 3 is the lobby; 7 is its member, 8 is invited.
abbrev pub world : World
world = record {
  client = λ u. visitor;
  user = λ u. if u == 7 then member else if u == 8 then invitee else stranger;
  chan = λ c. if c == 3 then lobby else void;
  channel = 3 ∷ [];
  table = clear_table;
  count = pos 1;
}

pub world-IsConsistent : IsConsistent world
world-IsConsistent = record {
  members = λ u c. ground arith;
  invites = λ u c. ground arith;
  joined = λ u. ground arith;
  counted = λ c. ground arith;
}
