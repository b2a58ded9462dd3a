-- ===== src/Parse/Samples.antt =====
-- A registered client and its messages, for the tests of `parse` of src/parse.c.
use igniteircd.Prelude.{true, false, codes}
use igniteircd.Hash.{Objects, clear_table}
use igniteircd.Channel.{stat_client}
use igniteircd.Parse.Tree.Samples.{nick_tree}
use igniteircd.Parse.Dispatch.{Message, Source, State}

abbrev pub message : Message
message = record {
  count = 0;
  parameters = 3;
  flags = 1;
  allow_unregistered_use = false;
  reset_idle = true;
  bytes = 0;
  is_list = false;
}

abbrev pub source : Source
source = record {
  status = stat_client;
  is_dead = false;
  is_empowered = false;
  doing_list = false;
  receive_m = 0;
  since = 0;
}

abbrev pub objects : Objects
objects = record { name_of = λ p. codes "Nick"; is_server_or_me = λ p. false }

abbrev pub client : State
client = record {
  stats = record { is_unpf = 0; is_wrdi = 0; is_empt = 0; is_num = 0; is_unco = 0 };
  messages = λ i. message;
  tree = nick_tree;
  source = source;
  last = λ p. 0;
  objects = objects;
  clients = clear_table;
  from_of = λ p. p;
  now = 9;
}
