-- ===== src/Channel/Members/Ending.antt =====
-- Joining a channel in src/channel.c, and the end of a channel that is empty.
use igniteircd.Prelude.{
  ℕ, zero, suc, ◌+◌, ◌-◌, ◌≤◌, ◌<◌, ◌≡◌, refl, sym, ap, ◌∙◌, inl, inr, pos, Bool, true, false, List,
  [], ◌∷◌, length, ◌==◌, Bool-cases, arith, leb,
}
use igniteircd.Channel.{World, set}
use igniteircd.Channel.Bans.Keep.{free_bans-KeepsMembers}
use igniteircd.Channel.Members.{
  next_invite, end_channel, drop_link, succ, pred, add_user_to_channel, del_invite, free_invites,
  free_channel, sub1_from_channel,
}
use igniteircd.Channel.Members.Links.{
  occurs, member_ids, Linked, Linked-set, Linked-write, Linked-keep, set-All, IsConsistent,
  IsJoined, IsCounted, members_of, invites_of, channels_of, invited_of,
}
use igniteircd.Channel.Members.Invite.{
  Keeps, Keeps-IsConsistent, Keeps-refl, Keeps-trans, del_invite-Keeps, del_invite-Linked,
  field-set, set-here, drop_link-head,
}

nil_of_length : (links : List ℕ) → length links ≡ 0 → links ≡ []
nil_of_length [] e = refl
nil_of_length (q ∷ links) e = absurd (omega arith)

succ_pos : (n : ℕ) → succ (pos n) ≡ pos (n + 1)
unfolding succ
succ_pos n = refl

pred_pos : (n : ℕ) → pred (pos (suc n)) ≡ pos n
unfolding pred
pred_pos n = refl

pub pred_succ : (n : ℕ) → pred (pos (n + 1)) ≡ pos n
pred_succ n = let same : n + 1 ≡ suc n = omega arith in ap (λ k. pred (pos k)) same ∙ pred_pos n

-- A user who is put into a channel is entered on both sides, once more, and both counters count
-- it; a client without a `user` block is not put in.
pub add_user_to_channel-IsConsistent :
    (w : World) (u c flags : ℕ) → IsConsistent w → IsConsistent (add_user_to_channel w c u flags)
unfolding add_user_to_channel
add_user_to_channel-IsConsistent w u c flags v = elim (Bool-cases (w.client u).has_user) [
  | inr f ↦ rw f v
  | inl t ↦ rw t (record {
    members =
        Linked-write (λ ch. member_ids ch.members) (λ user. user.channel) w.chan w.user c u _ _
          (Linked-set (λ k. k + 1) (members_of w) (channels_of w) u c _ _ v.members (λ x. refl)
            (λ d. refl));
    invites =
        Linked-keep (λ ch. ch.invites) (λ user. user.invited) w.chan w.user c u _ _ v.invites refl
          refl;
    joined =
        set-All IsJoined w.user u _ v.joined
          (ap succ (v.joined u) ∙ succ_pos _ ∙ ap pos (omega arith));
    counted = set-All IsCounted w.chan c _ v.counted (omega (arith, v.counted c));
  })
]

pub users-add_user_to_channel :
    (w : World) (u c flags : ℕ)
    → ((add_user_to_channel w c u flags).chan c).users ≤ (w.chan c).users + 1
unfolding add_user_to_channel
users-add_user_to_channel w u c flags = elim (Bool-cases (w.client u).has_user) [
  | inr f ↦ rw f (omega arith)
  | inl t ↦
      rw
        (
          t,
          set-here w.chan c (record (w.chan c) {
            members = record { cptr = u; flags = flags } ∷ (w.chan c).members;
            users = (w.chan c).users + 1;
          }),
        )
        (omega arith)
]

-- The links in step, and every channel's counter but one.
pub record IsLinked (w : World) : Type 0 where
  pub members : Linked (members_of w) (channels_of w)
  pub invites : Linked (invites_of w) (invited_of w)
  pub joined : (u : ℕ) → IsJoined (w.user u)

Keeps-IsLinked :
    (w w' : World) → Keeps w w' → Linked (invites_of w') (invited_of w') → IsLinked w → IsLinked w'
Keeps-IsLinked w w' k l v = record {
  members = λ u c. rw (k.chan_members c, k.user_channel u) (v.members u c);
  invites = l;
  joined = λ u. rw (k.user_joined u, k.user_channel u) (v.joined u);
}

-- What the end of the invitations keeps, and that it leaves none to the channel.
unfoldable pub Frees : World → ℕ → World → Type 0
Frees w c w' = Keeps w w' × Linked (invites_of w') (invited_of w') × (invites_of w' c ≡ [])

del_invite-head :
    (w : World) (c p : ℕ) (links : List ℕ)
    → invites_of w c ≡ p ∷ links
    → invites_of (del_invite w p c) c ≡ links
unfolding del_invite
del_invite-head w c p links e =
    ap (λ ch. ch.invites)
      (set-here w.chan c (record (w.chan c) { invites = drop_link p (w.chan c).invites }))
    ∙ ap (drop_link p) e
    ∙ drop_link-head p links

next_invite-Frees :
    (rest : World → World) (n : ℕ) (w : World) (c : ℕ) (links : List ℕ)
    → invites_of w c ≡ links
    → length links ≤ suc n
    → Linked (invites_of w) (invited_of w)
    → ((w' : World)
        → length (invites_of w' c) ≤ n
        → Linked (invites_of w') (invited_of w')
        → Frees w' c (rest w'))
    → Frees w c (next_invite rest w c links)
unfolding Frees next_invite
next_invite-Frees rest n w c [] e k h ih = (Keeps-refl w, h, e)
next_invite-Frees rest n w c (p ∷ links) e k h ih =
    let w' = del_invite w p c in
    let (kept, linked, none_left) =
      ih w' (omega (arith, ap length (del_invite-head w c p links e)))
        (del_invite-Linked w p c h) in
    (Keeps-trans w w' (rest w') (del_invite-Keeps w p c) kept, linked, none_left)

pub free_invites-Frees :
    (n : ℕ) (w : World) (c : ℕ)
    → length (invites_of w c) ≤ n
    → Linked (invites_of w) (invited_of w)
    → Frees w c (free_invites n w c)
unfolding free_invites Frees
free_invites-Frees zero w c k h = (Keeps-refl w, h, nil_of_length (invites_of w c) (omega arith))
free_invites-Frees (suc n) w c k h =
    next_invite-Frees (λ w'. free_invites n w' c) n w c (invites_of w c) refl k h
      (λ w' k' h'. free_invites-Frees n w' c k' h')

-- One member has left and is not yet uncounted.
pub record IsLeaving (w : World) (c : ℕ) : Type 0 where
  pub linked : IsLinked w
  pub others : (d : ℕ) → (d == c) ≡ false → IsCounted (w.chan d)
  pub one_more : (w.chan c).users ≡ length (w.chan c).members + 1

abbrev pub with_users : World → ℕ → ℕ → World
with_users w c n = record w { chan = set w.chan c (record (w.chan c) { users = n }) }

recount :
    (w : World) (c n : ℕ)
    → n ≡ length (w.chan c).members
    → IsLeaving w c
    → IsConsistent (with_users w c n)
recount w c n e l = record {
  members = λ v d.
      ap (occurs v)
        (field-set (λ ch. member_ids ch.members) w.chan c (record (w.chan c) { users = n }) refl d)
      ∙ l.linked.members v d;
  invites = λ v d.
      ap (occurs v) (field-set (λ ch. ch.invites) w.chan c (record (w.chan c) { users = n }) refl d)
      ∙ l.linked.invites v d;
  joined = l.linked.joined;
  counted = λ d. elim (Bool-cases (d == c)) [ inl t ↦ rw t e | inr f ↦ rw f (l.others d f) ];
}

free_channel-IsConsistent : (w : World) (c : ℕ) → IsConsistent w → IsConsistent (free_channel w c)
unfolding free_channel
free_channel-IsConsistent w c v =
    let (m, n, i) = free_bans-KeepsMembers (w.chan c) in
    record {
      members = λ u d.
          ap (occurs u) (field-set (λ ch. member_ids ch.members) w.chan c _ (ap member_ids m) d)
          ∙ v.members u d;
      invites = λ u d. ap (occurs u) (field-set (λ ch. ch.invites) w.chan c _ i d) ∙ v.invites u d;
      joined = v.joined;
      counted = set-All IsCounted w.chan c _ v.counted (n ∙ v.counted c ∙ sym (ap length m));
    }

free_channel-invites : (w : World) (c : ℕ) → invites_of (free_channel w c) c ≡ invites_of w c
unfolding free_channel
free_channel-invites w c =
    field-set (λ ch. ch.invites) w.chan c _ (free_bans-KeepsMembers (w.chan c)).2 c

pub end_channel-IsConsistent :
    (j : Bool) (w : World) (c : ℕ)
    → IsConsistent w
    → IsConsistent (end_channel j w c) × (invites_of (end_channel j w c) c ≡ invites_of w c)
unfolding end_channel
end_channel-IsConsistent true w c v = (v, refl)
end_channel-IsConsistent false w c v = (free_channel-IsConsistent w c v, free_channel-invites w c)

-- What the end of a channel keeps, and that no invitation to it is left.
abbrev pub Ends : World → ℕ → World → Type 0
Ends w c w' = IsConsistent w' × ((w.chan c).users ≤ 1 → (u : ℕ) → occurs c (invited_of w' u) ≡ 0)

no_invites :
    (w : World) (c : ℕ)
    → IsConsistent w
    → invites_of w c ≡ []
    → (u : ℕ) → occurs c (invited_of w u) ≡ 0
no_invites w c v e u = sym (v.invites u c) ∙ ap (occurs u) e

pub sub1_from_channel-Ends : (w : World) (c : ℕ) → IsLeaving w c → Ends w c (sub1_from_channel w c)
unfolding sub1_from_channel Frees
sub1_from_channel-Ends w c l = elim (Bool-cases (leb (w.chan c).users 1)) [
  | inr f ↦
      let many : 1 < (w.chan c).users = ground arith in
      rw f (
        recount w c ((w.chan c).users - 1) (omega (arith, l.one_more)) l,
        λ k. absurd (omega arith),
      )
  | inl t ↦
      let few : (w.chan c).users ≤ 1 = ground arith in
      let w0 = with_users w c 0 in
      let v0 = recount w c 0 (omega (arith, l.one_more)) l in
      let same : invites_of w0 c ≡ invites_of w c =
        field-set (λ ch. ch.invites) w.chan c (record (w.chan c) { users = 0 }) refl c in
      let w1 = free_invites (length (invites_of w c)) w0 c in
      let (kept, linked, none_left) =
        free_invites-Frees (length (invites_of w c)) w0 c (omega (arith, ap length same))
          v0.invites in
      let v1 = Keeps-IsConsistent w0 w1 kept linked v0 in
      let (v2, still) = end_channel-IsConsistent (w.chan c).juped w1 c v1 in
      rw t (v2, λ k. no_invites _ c v2 (still ∙ none_left))
]
