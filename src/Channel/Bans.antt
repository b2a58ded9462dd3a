-- ===== src/Channel/Bans.antt =====
-- The ban and exception lists of src/channel.c. `now` is CurrentTime. A list is passed on with
-- what a search took out of it.
pub mod Count
pub mod Keep
pub mod Tests
use igniteircd.Prelude.{
  ℕ, ◌+◌, ◌-◌, Bool, true, false, not, ◌&&◌, ◌||◌, Option, none, some, List, [], ◌∷◌, ◌++◌, Text,
  leb, ltb, ◌==◌, if◌then◌else◌,
}
use igniteircd.Mask.Match.{match}
use igniteircd.Mask.Compare.{same_name}
use igniteircd.Mask.Collapse.{collapse}
use igniteircd.Address.{inetntoa}
use igniteircd.Channel.{
  Client, Channel, Ban, is_server, is_person, my_client, is_empowered, chfl_ban,
}
use igniteircd.Channel.Names.{make_nick_user_host}

abbrev pub maxbans : ℕ
maxbans = 25

-- The returns: 0 for `added`, -1 for the others; at `list_full` the client is sent
-- ERR_BANLISTFULL.
pub data Answer : Type 0 where
  added list_full covered : Answer

-- The test of the loops that look for a mask which covers the new one.
pub covers : List Ban → Text → Bool
covers [] banid = false
covers (b ∷ bans) banid = if match b.banstr banid then true else covers bans banid

-- The `who` of a ban, with USE_UH.
pub setter : Client → Text
setter c = if is_person c then c.name ++ b'!' ∷ c.username ++ b'@' ∷ c.host else c.name

-- `if (MyClient(cptr)) collapse(banid);`, which changes the caller's text.
pub collapsed : Client → Text → Text
collapsed c banid = if my_client c then collapse banid else banid

pub new_ban : Client → ℕ → Text → Ban
new_ban c now banid = record { banstr = banid; who = setter c; when = now }

pub add_banid : Client → ℕ → Channel → Text → Answer × Channel
add_banid c now ch banid =
    let id = collapsed c banid in
    if (not (is_server c) && is_empowered c && leb maxbans ch.num_bed) && my_client c
    then (list_full, ch)
    else if covers ch.banlist id
    then (covered, ch)
    else (added, record ch { banlist = new_ban c now id ∷ ch.banlist; num_bed = ch.num_bed + 1 })

pub add_exceptid : Client → ℕ → Channel → Text → Answer × Channel
add_exceptid c now ch eid =
    let id = collapsed c eid in
    if (not (is_server c) && leb maxbans ch.num_bed) && my_client c
    then (list_full, ch)
    else if covers ch.exceptlist id
    then (covered, ch)
    else (
      added,
      record ch { exceptlist = new_ban c now id ∷ ch.exceptlist; num_bed = ch.num_bed + 1 },
    )

-- The list without its first ban that passes the test, if there is one.
pub take_out : (Ban → Bool) → List Ban → Option (List Ban)
take_out test [] = none
take_out test (b ∷ bans) =
    let rest = take_out test bans in
    if test b then some bans else elim rest [ none ↦ none | some left ↦ some (b ∷ left) ]

-- `num_bed should never be < 0`
pub one_less : ℕ → ℕ
one_less n = if ltb 0 n then n - 1 else 0

pub drop_ban : Channel → Option (List Ban) → Channel
drop_ban ch none = ch
drop_ban ch (some bans) = record ch { banlist = bans; num_bed = one_less ch.num_bed }

pub drop_exception : Channel → Option (List Ban) → Channel
drop_exception ch none = ch
drop_exception ch (some bans) = record ch { exceptlist = bans; num_bed = one_less ch.num_bed }

-- Both return -1 for NULL and 0 otherwise.
pub del_banid : Channel → Option Text → Channel
del_banid ch none = ch
del_banid ch (some banid) = drop_ban ch (take_out (λ b. same_name banid b.banstr) ch.banlist)

pub del_exceptid : Channel → Option Text → Channel
del_exceptid ch none = ch
del_exceptid ch (some eid) =
    drop_exception ch (take_out (λ b. same_name eid b.banstr) ch.exceptlist)

-- A ban matches a client by its host name or by its address.
pub hits : Client → Ban → Bool
hits c b =
    match b.banstr (make_nick_user_host c.name c.username c.host)
    || match b.banstr (make_nick_user_host c.name c.username (inetntoa c.ip))

pub del_matching_exception : Client → Channel → Channel
del_matching_exception c ch =
    if is_person c then drop_exception ch (take_out (hits c) ch.exceptlist) else ch

pub any_hits : Client → List Ban → Bool
any_hits c [] = false
any_hits c (b ∷ bans) = if hits c b then true else any_hits c bans

-- Without CHANMODE_E, which include/config.h leaves undefined, exceptions are not read.
pub is_banned : Client → Channel → ℕ
is_banned c ch = if is_person c then (if any_hits c ch.banlist then chfl_ban else 0) else 0

-- free_bans_exceptions_denies, with free_a_ban_list on both lists.
pub free_bans_exceptions_denies : Channel → Channel
free_bans_exceptions_denies ch = record ch { banlist = []; exceptlist = []; num_bed = 0 }
