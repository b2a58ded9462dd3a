-- ===== src/Lib.antt =====
-- A model of the core of igniteircd, an IRC server in C, and what is proved of it.
--
-- The parts and their files. Paths are from the root of the repository.
--   Chars    src/match.c, include/irc_string.h: the tables ToLowerTab, ToUpperTab and CharAttrs,
--            and the macros over them. A macro IsX is `is_x`.
--   Mask     src/match.c: `match` (Mask/Match), `collapse` (Mask/Collapse), `irccmp`
--            (Mask/Compare). Mask/Spec says what a mask means without the code.
--   Hash     src/hash.c: the tables of clients and of channels.
--   Dbuf     src/dbuf.c: the byte streams that hold what sockets receive and send.
--   Address  src/irc_string.c: `inetntoa`.
--   Strings  src/irc_string.c: strncpy_irc and clean_string (Strings/Clean), strtoken
--            (Strings/Tokens).
--   Packet   src/packet.c: `dopacket` cuts what is read into lines and hands each to `parse`.
--   Parse    src/parse.c: the tree of commands (Parse/Tree), the parts of a line (Parse/Line), and
--            `parse` itself (Parse/Dispatch), which searches the tree, and the tables of Hash for
--            the sender.
--   Dline    src/dline_conf.c: the trees of banned networks, with their exceptions; add_Dline is
--            `add_big_dline`, as add_dline adds an exception. Dline/Kline is the choice that
--            match_ip_Kline makes among the lines of an address.
--   FdList   src/fdlist.c: the busy descriptors and the priorities of clients.
--   Whowas   src/whowas.c: the history of nicknames, whose hash function is the one of Hash.
--   Channel  src/channel.c: texts (Channel/Names), bans and exceptions (Channel/Bans), members
--            and invitations (Channel/Members), who may join and speak, and get_channel
--            (Channel/Access). Bans are masks, matched by `match` against the texts of
--            Channel/Names and Address; get_channel searches and fills the table of Hash.
--            Channel/Modes is set_channel_mode: its variables (Run), the cases of its letters
--            (Flags, Params, Masks), its loop (Loop), what a letter may do as a relation (Step)
--            and that the cases do no more (Sound); channel_modes (Listing); `%d` of
--            src/sprintf_irc.c (Number). It uses the bans, members and invitations, `collapse`,
--            and through find_chasing the table of Hash and the history of Whowas.
--   Scache   src/scache.c: the server names, each kept once.
--   Class    src/class.c: the connection classes.
--   Prelude  shared names: tests on numbers, lists over the native numbers, integers.
-- A function keeps its name. A loop is a function named after what it does, with its state as
-- arguments. A file of operations has its proofs in the files below it, and its samples in Tests.
--
-- A C string is the list of its characters before the NUL, a character a number below 256. A
-- pointer to a client or a channel is a number; the state that several pointers reach is a
-- function from that number (World in Channel). Arithmetic that wraps is written with the
-- remainder (hash_step). Counters of type int that the code keeps at 0 or more are natural
-- numbers, others are ℤ; the bounds of int are not reached by the counters of objects in memory.
-- MyMalloc does not return without memory; the address of a new channel is an argument.
--
-- Loops and fuel. `match` has its own bound, MATCH_MAX_CALLS, as fuel. `collapse`, dbuf_put,
-- dbuf_get and the loop that frees invitations have as fuel a number that each round lowers: the
-- length of the mask, the buffers and bytes to copy, the bytes to copy, and the invitations.
-- do_msg_tree has the size of `newpref`, 64, as fuel, as each call lengthens the prefix that is
-- copied there. The loop of set_channel_mode has the number of characters and of texts that are
-- left as fuel, of which each round reads one; the loop that prints a number has 4, as each round
-- prints three digits of 32 bits. All other loops walk along a list or a tree.
--
-- Parameters. `dopacket` takes `parse` with its handlers and exit_client as a record of functions;
-- init_tree_parse takes the table of commands as qsort leaves it; the deletion from a tree of
-- D-lines takes the outcomes of rand(); set_channel_mode takes atoi.
--
-- The options are those of include/config.h: BAN_INFO, USE_UH, JUPE_CHANNEL and SERVICES are
-- defined, NO_OPER_FLOOD, IDLE_FROM_MSG and CLIENT_SERVER too; CHANMODE_E, HIDE_OPS, DEBUGMODE,
-- ZIP_LINKS, TRUE_NO_OPER_FLOOD, NO_PRIORITY and LITTLE_I_LINES are not.
--
-- Not modelled: texts that are sent to clients, but for the mode strings; the flood records of
-- src/flud.c; the commands (m_join and so on), and cancel_clients, remove_unknown and do_numeric,
-- which `parse` may end in; how src/dline_conf.c fills the trees of K-lines, and the rest of the
-- configuration; sockets, the resolver in adns and the tools.
pub mod Prelude
pub mod Chars
pub mod Mask
pub mod Hash
pub mod Dbuf
pub mod Address
pub mod Channel
pub mod Class
pub mod Parse
pub mod Packet
pub mod Scache
pub mod Strings
pub mod FdList
pub mod Whowas
pub mod Dline
