-- ===== src/Channel/Bans/Tests.antt =====
-- The ban lists of the lobby of the samples.
use igniteircd.Prelude.{◌≡◌, refl, true, some, codes}
use igniteircd.Chars.Tables.{to_upper, to_lower}
use igniteircd.Mask.Compare.{same_name}
use igniteircd.Mask.Collapse.{collapse}
use igniteircd.Mask.Match.{match}
use igniteircd.Address.{inetntoa}
use igniteircd.Channel.Names.{make_nick_user_host}
use igniteircd.Channel.Samples.{visitor, lobby}
use igniteircd.Channel.Bans.{
  add_banid, add_exceptid, del_banid, del_exceptid, del_matching_exception,
  free_bans_exceptions_denies, is_banned, added, covers, collapsed, any_hits, hits,
}
use igniteircd.Channel.Bans.Count.{IsCounted, num_bed-IsCounted, del_banid-add_banid}

num_bed-IsCounted_example :
    IsCounted (add_banid visitor 9 lobby (codes "a!*@*")).1
    × IsCounted (add_exceptid visitor 9 lobby (codes "a!*@*")).1
    × IsCounted (del_banid lobby (some (codes "*!*@EVIL.org")))
    × IsCounted (del_exceptid lobby (some (codes "*!*@EVIL.org")))
    × IsCounted (del_matching_exception visitor lobby)
    × IsCounted (free_bans_exceptions_denies lobby)
num_bed-IsCounted_example =
    num_bed-IsCounted visitor 9 lobby (codes "a!*@*") (some (codes "*!*@EVIL.org")) refl

accepted : (add_banid visitor 9 lobby (codes "a!**@*")).0 ≡ added
unfolding add_banid collapsed covers collapse match to_lower
accepted = refl

same_mask : same_name (codes "A!*@*") (collapsed visitor (codes "a!**@*")) ≡ true
unfolding collapsed collapse same_name to_upper
same_mask = refl

del_banid-add_banid_example :
    del_banid (add_banid visitor 9 lobby (codes "a!**@*")).1 (some (codes "A!*@*")) ≡ lobby
del_banid-add_banid_example =
    del_banid-add_banid visitor 9 lobby (codes "a!**@*") (codes "A!*@*") accepted same_mask

pub visitor-is_banned : is_banned visitor lobby ≡ 0
unfolding is_banned any_hits hits match to_lower make_nick_user_host inetntoa
visitor-is_banned = refl
