-- ===== src/Channel/Members/Leave.antt =====
-- Leaving a channel in src/channel.c.
use igniteircd.Prelude.{
  ℕ, ◌+◌, ◌-◌, ◌≤◌, ◌<◌, ◌≡◌, refl, sym, ap, ◌∙◌, inl, inr, pos, Bool, ◌&&◌, Option, none, some,
  length, Bool-cases, arith, ◌==◌, if◌then◌else◌, ==_iff,
}
use igniteircd.Channel.{Channel, Member, World, set, find_user_link, has, chfl_exception}
use igniteircd.Channel.Bans.Keep.{KeepsMembers, del_matching_exception-KeepsMembers}
use igniteircd.Channel.Members.{drop_link, drop_member, pred, charmed_out, remove_user_from_channel}
use igniteircd.Channel.Members.Links.{
  occurs, member_ids, Linked-set, Linked-write, Linked-keep, set-All, IsConsistent, IsJoined,
  occurs-drop_link, length-drop_link, length-member_ids, drop_member_ids, members_of, channels_of,
  invited_of,
}
use igniteircd.Channel.Members.Invite.{set-here}
use igniteircd.Channel.Members.Modes.{sub1_from_channel-members}
use igniteircd.Channel.Members.Ending.{pred_succ, IsLeaving, sub1_from_channel-Ends}

-- The exception goes without a change to who is in the channel.
pub charmed_out-KeepsMembers :
    (w : World) (u : ℕ) (ch : Channel) (k : Bool) (o : Option Member)
    → KeepsMembers ch (charmed_out w u ch k o)
unfolding charmed_out
charmed_out-KeepsMembers w u ch k none = (refl, refl, refl)
charmed_out-KeepsMembers w u ch k (some m) = elim (Bool-cases (k && has m.flags chfl_exception)) [
  | inr f ↦ rw f (refl, refl, refl)
  | inl t ↦ rw t (del_matching_exception-KeepsMembers (w.client u) ch)
]

-- The state between the loops of remove_user_from_channel and sub1_from_channel.
abbrev pub unlinked : World → ℕ → ℕ → Channel → World
unlinked w u c ch = record w {
  chan = set w.chan c (record ch { members = drop_member u ch.members });
  user = set w.user u (record (w.user u) {
    channel = drop_link c (w.user u).channel;
    joined = pred (w.user u).joined;
  });
}

unlinked-IsLeaving :
    (w : World) (u c : ℕ) (ch : Channel)
    → KeepsMembers (w.chan c) ch
    → IsConsistent w
    → 0 < occurs u (members_of w c)
    → IsLeaving (unlinked w u c ch) c
unlinked-IsLeaving w u c ch (m, n, i) v h =
    let ids : member_ids (drop_member u ch.members) ≡ drop_link u (members_of w c) =
      drop_member_ids u ch.members ∙ ap (λ ms. drop_link u (member_ids ms)) m in
    let user_size : length (channels_of w u) ≡ length (drop_link c (channels_of w u)) + 1 =
      length-drop_link c (channels_of w u) (omega (arith, h, v.members u c)) in
    let member_size : length (w.chan c).members ≡ length (drop_member u ch.members) + 1 = omega (
      arith,
      length-member_ids (w.chan c).members,
      length-member_ids (drop_member u ch.members),
      ap length ids,
      length-drop_link u (members_of w c) h,
    ) in
    record {
      linked = record {
        members =
            Linked-write (λ ch. member_ids ch.members) (λ user. user.channel) w.chan w.user c u _ _
              (Linked-set (λ k. k - 1) (members_of w) (channels_of w) u c _ _ v.members
                (λ x. ap (occurs x) ids ∙ occurs-drop_link x u (members_of w c))
                (λ d. occurs-drop_link d c (channels_of w u)));
        invites =
            Linked-keep (λ ch. ch.invites) (λ user. user.invited) w.chan w.user c u _ _ v.invites i
              refl;
        joined =
            set-All IsJoined w.user u _ v.joined
              (ap pred (v.joined u ∙ ap pos user_size) ∙ pred_succ _);
      };
      others = λ d f. rw f (v.counted d);
      one_more =
          ap (λ x. x.users) (set-here w.chan c (record ch { members = drop_member u ch.members }))
          ∙ n
          ∙ v.counted c
          ∙ member_size
          ∙ sym (
              ap (λ x. length x.members + 1)
                (set-here w.chan c (record ch { members = drop_member u ch.members })));
    }

remove-Ends :
    (w : World) (u c : ℕ) (was_kicked : Bool)
    → IsConsistent w
    → 0 < occurs u (members_of w c)
    → IsConsistent (remove_user_from_channel w u c was_kicked)
      × ((w.chan c).users ≤ 1
          → (x : ℕ) → occurs c (invited_of (remove_user_from_channel w u c was_kicked) x) ≡ 0)
unfolding remove_user_from_channel
remove-Ends w u c k v h =
    let ch = charmed_out w u (w.chan c) k (find_user_link (w.chan c).members u) in
    let kept = charmed_out-KeepsMembers w u (w.chan c) k (find_user_link (w.chan c).members u) in
    let here : ((unlinked w u c ch).chan c).users ≡ (w.chan c).users =
      ap (λ x. x.users) (set-here w.chan c (record ch { members = drop_member u ch.members }))
      ∙ kept.1 in
    let (v', none_left) =
      sub1_from_channel-Ends (unlinked w u c ch) c (unlinked-IsLeaving w u c ch kept v h) in
    (v', λ few. none_left (omega (arith, here, few)))

remove-members :
    (w : World) (u c : ℕ) (was_kicked : Bool) (v d : ℕ)
    → occurs v (members_of (remove_user_from_channel w u c was_kicked) d) ≡ (
        if d == c
        then (if v == u then occurs v (members_of w d) - 1 else occurs v (members_of w d))
        else occurs v (members_of w d))
unfolding remove_user_from_channel
remove-members w u c k v d =
    let ch = charmed_out w u (w.chan c) k (find_user_link (w.chan c).members u) in
    let kept = charmed_out-KeepsMembers w u (w.chan c) k (find_user_link (w.chan c).members u) in
    let ids : member_ids (drop_member u ch.members) ≡ drop_link u (members_of w c) =
      drop_member_ids u ch.members ∙ ap (λ ms. drop_link u (member_ids ms)) kept.0 in
    let same : members_of (remove_user_from_channel w u c k) d
        ≡ member_ids ((unlinked w u c ch).chan d).members =
      ap member_ids (sub1_from_channel-members (unlinked w u c ch) c d) in
    elim (Bool-cases (d == c)) [
      | inr f ↦ rw f (ap (occurs v) (same ∙ rw f refl))
      | inl t ↦
          let at : d ≡ c = (==_iff d c).0 t in
          rw t (
            ap (occurs v) (same ∙ rw t ids)
            ∙ occurs-drop_link v u (members_of w c)
            ∙ ap (λ e. if v == u then occurs v (members_of w e) - 1 else occurs v (members_of w e))
                (sym at))
    ]

remove-users :
    (w : World) (u c : ℕ) (was_kicked : Bool)
    → IsConsistent w
    → 0 < occurs u (members_of w c)
    → ((remove_user_from_channel w u c was_kicked).chan c).users + 1 ≡ (w.chan c).users
unfolding remove_user_from_channel
remove-users w u c k v h =
    let ch = charmed_out w u (w.chan c) k (find_user_link (w.chan c).members u) in
    let kept = charmed_out-KeepsMembers w u (w.chan c) k (find_user_link (w.chan c).members u) in
    let w' = unlinked w u c ch in
    let here : (w'.chan c).users ≡ (w.chan c).users =
      ap (λ x. x.users) (set-here w.chan c (record ch { members = drop_member u ch.members }))
      ∙ kept.1 in
    omega (
      arith,
      here,
      (unlinked-IsLeaving w u c ch kept v h).one_more,
      (remove-Ends w u c k v h).0.counted c,
      ap length (sub1_from_channel-members w' c c),
    )

-- Where the links and the counters are in step, a member who leaves, kicked or not, is taken out
-- once on both sides, and nobody else: every other client stands as often in every channel as
-- before, and the client in every other channel; the channel has one user less, and the links and
-- the counters stay in step.
pub remove_user_from_channel-IsConsistent :
    (w : World) (u c : ℕ) (was_kicked : Bool)
    → IsConsistent w
    → 0 < occurs u (members_of w c)
    → IsConsistent (remove_user_from_channel w u c was_kicked)
      × ((v d : ℕ)
          → occurs v (members_of (remove_user_from_channel w u c was_kicked) d) ≡ (
              if d == c
              then (if v == u then occurs v (members_of w d) - 1 else occurs v (members_of w d))
              else occurs v (members_of w d)))
      × ((v d : ℕ)
          → occurs d (channels_of (remove_user_from_channel w u c was_kicked) v) ≡ (
              if d == c
              then (if v == u then occurs v (members_of w d) - 1 else occurs v (members_of w d))
              else occurs v (members_of w d)))
      × (((remove_user_from_channel w u c was_kicked).chan c).users + 1 ≡ (w.chan c).users)
remove_user_from_channel-IsConsistent w u c k v h =
    let v' = (remove-Ends w u c k v h).0 in
    (
      v',
      remove-members w u c k,
      λ x d. sym (v'.members x d) ∙ remove-members w u c k x d,
      remove-users w u c k v h,
    )

-- When the last member leaves a channel, no client keeps an invitation to it, so none points to
-- the memory that is freed.
pub remove_user_from_channel-invited :
    (w : World) (u c : ℕ) (was_kicked : Bool) (x : ℕ)
    → IsConsistent w
    → 0 < occurs u (members_of w c)
    → (w.chan c).users ≤ 1
    → occurs c (invited_of (remove_user_from_channel w u c was_kicked) x) ≡ 0
remove_user_from_channel-invited w u c k x v h few = (remove-Ends w u c k v h).1 few x
