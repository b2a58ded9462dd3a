-- ===== src/Parse/Dispatch.antt =====
-- `parse` of src/parse.c: who a line is from, which command it holds, and whether its handler is
-- called. The options are NO_OPER_FLOOD and IDLE_FROM_MSG. `line` is what stands before the NUL,
-- which `bufend` points to.
pub mod Laws
pub mod Command
mod Tests
use igniteircd.Prelude.{
  ℕ, zero, suc, ◌+◌, ◌-◌, ◌/◌, ◌%◌, Bool, true, false, not, ◌&&◌, ◌||◌, Option, none, some, List,
  [], ◌∷◌, Text, length, ◌==◌, if◌then◌else◌, bit_and,
}
use igniteircd.Mask.Match.{match}
use igniteircd.Hash.{Objects, Table, hash_find_client, hash_find_server}
use igniteircd.Channel.{
  Status, stat_connecting, stat_handshake, stat_me, stat_unknown, stat_server, stat_client, set,
}
use igniteircd.Parse.Tree.{MessageTree, tree_parse}
use igniteircd.Parse.Line.{maxpara, prefix_of, is_numeric, split_command, params}

-- `is_list` tells that `func` is m_list. `cmd` is not NULL in an entry of the tree.
pub record Message : Type 0 where
  pub count : ℕ
  pub parameters : ℕ
  pub flags : ℕ
  pub allow_unregistered_use : Bool
  pub reset_idle : Bool
  pub bytes : ℕ
  pub is_list : Bool

pub record ServerStats : Type 0 where
  pub is_unpf : ℕ
  pub is_wrdi : ℕ
  pub is_empt : ℕ
  pub is_num : ℕ
  pub is_unco : ℕ

-- The connection that a line comes from: FLAGS_DEADSOCKET, FLAGS2_DOINGLIST and the counters.
pub record Source : Type 0 where
  pub status : Status
  pub is_dead : Bool
  pub is_empowered : Bool
  pub doing_list : Bool
  pub receive_m : ℕ
  pub since : ℕ

-- `last` is `user->last` of each client, `now` is CurrentTime. `objects` and `clients` are what
-- find_client and find_server search, `from_of` is `->from`.
pub record State : Type 0 where
  pub stats : ServerStats
  pub messages : ℕ → Message
  pub tree : MessageTree
  pub source : Source
  pub last : ℕ → ℕ
  pub objects : Objects
  pub clients : Table
  pub from_of : ℕ → ℕ
  pub now : ℕ

abbrev pub is_server : Status → Bool
is_server stat_server = true
is_server _ = false

abbrev pub is_registered : Status → Bool
is_registered stat_server = true
is_registered stat_client = true
is_registered _ = false

abbrev pub is_registered_user : Status → Bool
is_registered_user stat_client = true
is_registered_user _ = false

-- `IsHandshake(cptr) || IsConnecting(cptr) || IsServer(cptr)`
abbrev pub is_server_link : Status → Bool
is_server_link stat_handshake = true
is_server_link stat_connecting = true
is_server_link stat_server = true
is_server_link _ = false

-- How `parse` ends. `-1` is returned in the cases without arguments, after remove_unknown at
-- `unknown_prefix`, and with a notice to the client at `unknown_command` and `not_registered`;
-- cancel_clients, do_numeric and the handler of a message give the result in theirs. The last two
-- are called with the sender, `parv[0]` and the parameters behind it.
pub data Action : Type 0 where
  dead unknown_prefix empty_message unknown_command not_registered ignored list_blocked : Action
  cancel_client : ℕ → Action
  numeric : ℕ → Text → List Text → Text → Action
  call : ℕ → ℕ → Text → List Text → Action

-- Where a line is from: `from` and `para[0]`.
pub data Origin : Type 0 where
  origin : ℕ → Text → Origin
  nobody : Origin
  elsewhere : ℕ → Origin

-- `if (!from || !match(from->name, sender)) from = find_server(sender);`
pub find_from : State → Text → Option ℕ → Option ℕ
find_from st sender none = hash_find_server st.objects st.clients sender
find_from st sender (some from) =
    if match (st.objects.name_of from) sender
    then some from
    else hash_find_server st.objects st.clients sender

pub checked_from : State → ℕ → Text → Option ℕ → Origin
checked_from st cptr sender none = nobody
checked_from st cptr sender (some from) =
    if st.from_of from == cptr then origin from sender else elsewhere from

-- A prefix is read only from servers, and an empty one is none.
pub origin_of : State → ℕ → Option Text → Origin
origin_of st cptr none = origin cptr (st.objects.name_of cptr)
origin_of st cptr (some []) = origin cptr (st.objects.name_of cptr)
origin_of st cptr (some (c ∷ sender)) =
    if is_server st.source.status
    then checked_from st cptr (c ∷ sender)
        (find_from st (c ∷ sender) (hash_find_client st.objects st.clients (c ∷ sender) none))
    else origin cptr (st.objects.name_of cptr)

-- The seconds that a command costs its sender: none for a server; an operator pays one in
-- most cases.
pub penalty : Source → Message → ℕ → ℕ
penalty src m i =
    if not (bit_and m.flags 1 == 0) && not (is_server src.status)
    then (if src.is_empowered then (if src.receive_m % 5 == 0 then 0 else 1) else 2 + i / 120)
    else 0

-- `i = bufend - ((s) ? s : ch)`
pub size_of_rest : Text → Option Text → ℕ
size_of_rest ch none = length ch
size_of_rest ch (some s) = length s

-- The counters of a message that was found, before its parameters are split off.
pub charge : State → ℕ → ℕ → State
charge st msg i =
    let m = st.messages msg in
    record st {
      messages = set st.messages msg (record m { bytes = m.bytes + i });
      source = record st.source { since = st.source.since + penalty st.source m i };
    }

-- `mptr->count++;`
pub count_use : State → ℕ → State
count_use st msg =
    let m = st.messages msg in
    record st { messages = set st.messages msg (record m { count = m.count + 1 }) }

pub note_idle : State → ℕ → ℕ → State
note_idle st msg from =
    if is_registered_user st.source.status && (st.messages msg).reset_idle
    then record st { last = set st.last from st.now }
    else st

-- Behind the counters: the checks on the way to the handler.
pub admit : State → ℕ → ℕ → Text → List Text → State × Action
admit st msg from para0 paras =
    let m = st.messages msg in
    let st' = note_idle st msg from in
    if not (is_registered st.source.status) && not m.allow_unregistered_use
    then (st, if is_server_link st.source.status then ignored else not_registered)
    else if st.source.doing_list && not m.is_list
    then (st', list_blocked)
    else (st', call msg from para0 paras)

-- A command that is no numeric, with what tree_parse found.
pub run_message : State → ℕ → Text → Text → Option Text → Option ℕ → State × Action
run_message st from para0 cmd s none =
    (record st { stats = record st.stats { is_unco = st.stats.is_unco + 1 } }, unknown_command)
run_message st from para0 cmd s (some msg) =
    let st' = charge st msg (size_of_rest cmd s) in
    admit (count_use st' msg) msg from para0 (params (st.messages msg).parameters s)

-- From the command on.
pub run_command : State → ℕ → Text → Text → State × Action
run_command st from para0 ch =
    let (cmd, s) = split_command ch in
    if is_numeric ch
    then (
      record st { stats = record st.stats { is_num = st.stats.is_num + 1 } },
      numeric from para0 (params maxpara s) cmd,
    )
    else run_message st from para0 cmd s (tree_parse st.tree cmd)

-- `if (*ch == '\0')`
pub run_line : State → ℕ → Text → Text → State × Action
run_line st from para0 [] =
    (record st { stats = record st.stats { is_empt = st.stats.is_empt + 1 } }, empty_message)
run_line st from para0 (c ∷ ch) = run_command st from para0 (c ∷ ch)

pub from_origin : State → Text → Origin → State × Action
from_origin st ch (origin from para0) = run_line st from para0 ch
from_origin st ch nobody =
    (record st { stats = record st.stats { is_unpf = st.stats.is_unpf + 1 } }, unknown_prefix)
from_origin st ch (elsewhere from) =
    (record st { stats = record st.stats { is_wrdi = st.stats.is_wrdi + 1 } }, cancel_client from)

pub parse : State → ℕ → Text → State × Action
parse st cptr line =
    let (sender, ch) = prefix_of line in
    if st.source.is_dead then (st, dead) else from_origin st ch (origin_of st cptr sender)
