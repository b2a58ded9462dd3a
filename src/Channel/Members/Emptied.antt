-- ===== src/Channel/Members/Emptied.antt =====
-- The end of the invitations of a channel, and of an empty channel, in src/channel.c.
use igniteircd.Prelude.{ℕ, ◌≡◌, refl, sym, ap, ◌∙◌, true, length, arith, leb}
use igniteircd.Channel.{World}
use igniteircd.Channel.Members.{free_invites, sub1_from_channel}
use igniteircd.Channel.Members.Links.{occurs, Linked, IsConsistent, invites_of, invited_of}
use igniteircd.Channel.Members.Invite.{Keeps, Keeps-IsConsistent, field-set}
use igniteircd.Channel.Members.Ending.{
  Frees, with_users, free_invites-Frees, end_channel-IsConsistent,
}

-- The end of a channel that has no member left keeps both sides of all links in step.
pub sub1_from_channel-IsConsistent :
    (w : World) (c : ℕ)
    → IsConsistent w
    → (w.chan c).users ≡ 0
    → IsConsistent (sub1_from_channel w c)
unfolding sub1_from_channel Frees
sub1_from_channel-IsConsistent w c v e =
    let w0 = with_users w c 0 in
    let k0 : Keeps w w0 = record {
      chan_members = field-set (λ ch. ch.members) w.chan c _ refl;
      chan_users = field-set (λ ch. ch.users) w.chan c _ (sym e);
      user_channel = λ u. refl;
      user_joined = λ u. refl;
    } in
    let same = field-set (λ ch. ch.invites) w.chan c (record (w.chan c) { users = 0 }) refl in
    let l0 : Linked (invites_of w0) (invited_of w0) =
      λ u d. ap (occurs u) (same d) ∙ v.invites u d in
    let w1 = free_invites (length (invites_of w c)) w0 c in
    let (kept, linked, none_left) =
      free_invites-Frees (length (invites_of w c)) w0 c (omega (arith, ap length (same c))) l0 in
    let v1 = Keeps-IsConsistent w0 w1 kept linked (Keeps-IsConsistent w w0 k0 l0 v) in
    let few : leb (w.chan c).users 1 ≡ true = ground (arith, e) in
    rw few (end_channel-IsConsistent (w.chan c).juped w1 c v1).0

-- The end of all invitations to a channel, too.
pub free_invites-IsConsistent :
    (w : World) (c : ℕ) → IsConsistent w → IsConsistent (free_invites (length (invites_of w c)) w c)
unfolding Frees
free_invites-IsConsistent w c v =
    let (kept, linked, _) =
      free_invites-Frees (length (invites_of w c)) w c (omega arith) v.invites in
    Keeps-IsConsistent w _ kept linked v
