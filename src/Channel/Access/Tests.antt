-- ===== src/Channel/Access/Tests.antt =====
-- Who may enter the lobby of the samples, and the making of another channel.
use igniteircd.Prelude.{◌≡◌, refl, ◌↔◌, false, codes, arith}
use igniteircd.Chars.Tables.{to_upper}
use igniteircd.Mask.Compare.{same_name}
use igniteircd.Hash.Chain.{IsNamed}
use igniteircd.Channel.Samples.{world, lobby}
use igniteircd.Channel.Bans.Tests.{visitor-is_banned}
use igniteircd.Channel.Access.{can_send, can_join, is_invited, is_wrong_key, channel_objects}
use igniteircd.Channel.Access.Laws.{MayJoin, can_join_iff}
use igniteircd.Channel.Access.Send.{MaySend, can_send_iff}

can_send_iff_example : (can_send world 9 lobby ≡ 0) ↔ MaySend world 9 lobby
can_send_iff_example = can_send_iff world 9 lobby

can_join_iff_example :
    ((can_join world 8 3 (codes "Sesame") 0).0 ≡ 0)
    ↔ (((world.chan 3).juped ≡ false) × MayJoin world 8 3 (codes "Sesame"))
can_join_iff_example = can_join_iff world 8 3 (codes "Sesame") 0

let_in : (can_join world 8 3 (codes "Sesame") 0).0 ≡ 0
unfolding can_join is_invited is_wrong_key same_name to_upper
let_in = rw (visitor-is_banned) refl

world_names : IsNamed (channel_objects world)
world_names p = ground arith
