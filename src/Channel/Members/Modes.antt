-- ===== src/Channel/Members/Modes.antt =====
-- The changes of members and invitations in src/channel.c leave the channel's modes, and a change
-- of a member's flags leaves who is a member.
use igniteircd.Prelude.{
  ℕ, zero, suc, ◌≡◌, refl, ap, ◌∙◌, inl, inr, Bool, true, false, List, [], ◌∷◌, Bool-cases, leb,
  length, ◌==◌,
}
use igniteircd.Channel.{World, Channel, Member}
use igniteircd.Channel.Bans.{free_bans_exceptions_denies}
use igniteircd.Channel.Bans.Keep.{free_bans-KeepsRest}
use igniteircd.Channel.Members.{
  del_invite, next_invite, free_invites, free_channel, end_channel, sub1_from_channel, change_first,
  change_chan_flag, set_deopped,
}
use igniteircd.Channel.Members.Links.{member_ids, set-All}
use igniteircd.Channel.Members.Invite.{field-set}

-- A part of a channel that has neither its invitations, its bans nor its count of users.
module _ {ℓ} {B : Type ℓ} (g : Channel → B)
    (any_invites : (ch : Channel) (links : List ℕ) → g (record ch { invites = links }) ≡ g ch)
    (any_users : (ch : Channel) (n : ℕ) → g (record ch { users = n }) ≡ g ch)
    (freed : (ch : Channel) → g (free_bans_exceptions_denies ch) ≡ g ch) where
  next_invite-field :
      (rest : World → World) (w : World) (c d : ℕ) (links : List ℕ)
      → ((w' : World) → g ((rest w').chan d) ≡ g (w'.chan d))
      → g ((next_invite rest w c links).chan d) ≡ g (w.chan d)
  unfolding next_invite del_invite
  next_invite-field rest w c d [] h = refl
  next_invite-field rest w c d (u ∷ links) h =
      h (del_invite w u c) ∙ field-set g w.chan c _ (any_invites (w.chan c) _) d

  free_invites-field :
      (n : ℕ) (w : World) (c d : ℕ) → g ((free_invites n w c).chan d) ≡ g (w.chan d)
  unfolding free_invites
  free_invites-field zero w c d = refl
  free_invites-field (suc n) w c d =
      next_invite-field (λ w'. free_invites n w' c) w c d (w.chan c).invites
        (λ w'. free_invites-field n w' c d)

  end_channel-field :
      (j : Bool) (w : World) (c d : ℕ) → g ((end_channel j w c).chan d) ≡ g (w.chan d)
  unfolding end_channel free_channel
  end_channel-field true w c d = refl
  end_channel-field false w c d = field-set g w.chan c _ (freed (w.chan c)) d

  sub1_from_channel-field :
      (w : World) (c d : ℕ) → g ((sub1_from_channel w c).chan d) ≡ g (w.chan d)
  unfolding sub1_from_channel
  sub1_from_channel-field w c d = elim (Bool-cases (leb (w.chan c).users 1)) [
    | inr f ↦ rw f (field-set g w.chan c _ (any_users (w.chan c) _) d)
    | inl t ↦ rw t (
        end_channel-field (w.chan c).juped _ c d
        ∙ free_invites-field (length (w.chan c).invites) _ c d
        ∙ field-set g w.chan c _ (any_users (w.chan c) 0) d)
  ]

freed_mode : (ch : Channel) → (free_bans_exceptions_denies ch).mode ≡ ch.mode
freed_mode ch = (free_bans-KeepsRest ch).mode

pub free_invites-mode :
    (n : ℕ) (w : World) (c d : ℕ) → ((free_invites n w c).chan d).mode ≡ (w.chan d).mode
free_invites-mode = free_invites-field (λ ch. ch.mode) (λ ch links. refl) (λ ch n. refl) freed_mode

-- The end of a channel leaves its modes and its members in the freed block.
pub sub1_from_channel-mode :
    (w : World) (c d : ℕ) → ((sub1_from_channel w c).chan d).mode ≡ (w.chan d).mode
sub1_from_channel-mode =
    sub1_from_channel-field (λ ch. ch.mode) (λ ch links. refl) (λ ch n. refl) freed_mode

pub sub1_from_channel-members :
    (w : World) (c d : ℕ) → ((sub1_from_channel w c).chan d).members ≡ (w.chan d).members
sub1_from_channel-members =
    sub1_from_channel-field (λ ch. ch.members) (λ ch links. refl) (λ ch n. refl)
      (λ ch. (free_bans-KeepsRest ch).members)

pub member_ids-change_first :
    (f : ℕ → ℕ) (members : List Member) (p : ℕ)
    → member_ids (change_first f members p) ≡ member_ids members
unfolding change_first
member_ids-change_first f [] p = refl
member_ids-change_first f (m ∷ members) p = elim (Bool-cases (m.cptr == p)) [
  | inl t ↦ rw t refl
  | inr e ↦ rw e (ap (◌∷◌ m.cptr) (member_ids-change_first f members p))
]

-- The parts of a channel that a change of a member's flags leaves.
pub record KeepsModes (ch ch' : Channel) : Type 0 where
  pub mode : ch'.mode ≡ ch.mode
  pub member_ids : member_ids ch'.members ≡ member_ids ch.members
  pub invites : ch'.invites ≡ ch.invites
  pub users : ch'.users ≡ ch.users
  pub bans :
      (ch'.num_bed ≡ ch.num_bed) × (ch'.banlist ≡ ch.banlist) × (ch'.exceptlist ≡ ch.exceptlist)

pub change_chan_flag-KeepsModes :
    (ch : Channel) (p flag : ℕ) → KeepsModes ch (change_chan_flag ch p flag)
unfolding change_chan_flag
change_chan_flag-KeepsModes ch p flag = record {
  mode = refl;
  member_ids = member_ids-change_first _ ch.members p;
  invites = refl;
  users = refl;
  bans = (refl, refl, refl);
}

pub set_deopped-KeepsModes :
    (p : ℕ) (ch : Channel) (flag : ℕ) → KeepsModes ch (set_deopped p ch flag)
unfolding set_deopped
set_deopped-KeepsModes p ch flag = record {
  mode = refl;
  member_ids = member_ids-change_first _ ch.members p;
  invites = refl;
  users = refl;
  bans = (refl, refl, refl);
}

next_invite-client :
    (rest : World → World) (w : World) (c : ℕ) (links : List ℕ)
    → ((w' : World) → (rest w').client ≡ w'.client)
    → (next_invite rest w c links).client ≡ w.client
unfolding next_invite del_invite
next_invite-client rest w c [] h = refl
next_invite-client rest w c (u ∷ links) h = h (del_invite w u c)

end_channel-client : (j : Bool) (w : World) (c : ℕ) → (end_channel j w c).client ≡ w.client
unfolding end_channel free_channel
end_channel-client true w c = refl
end_channel-client false w c = refl

pub free_invites-client : (n : ℕ) (w : World) (c : ℕ) → (free_invites n w c).client ≡ w.client
unfolding free_invites
free_invites-client zero w c = refl
free_invites-client (suc n) w c =
    next_invite-client (λ w'. free_invites n w' c) w c _ (λ w'. free_invites-client n w' c)

pub sub1_from_channel-client : (w : World) (c : ℕ) → (sub1_from_channel w c).client ≡ w.client
unfolding sub1_from_channel
sub1_from_channel-client w c = elim (Bool-cases (leb (w.chan c).users 1)) [
  | inr f ↦ rw f refl
  | inl t ↦ rw t (end_channel-client _ _ c ∙ free_invites-client _ _ c)
]

-- A predicate on channels that holds whatever their invitations and their count of users are.
module _ {ℓ} (P : Channel → Type ℓ)
    (any_invites : (ch : Channel) (links : List ℕ) → P ch → P (record ch { invites = links }))
    (any_users : (ch : Channel) (n : ℕ) → P ch → P (record ch { users = n }))
    (freed : (ch : Channel) → P ch → P (free_bans_exceptions_denies ch)) where
  next_invite-All :
      (n : ℕ) (w : World) (c : ℕ) (links : List ℕ)
      → ((d : ℕ) → P (w.chan d))
      → ((w' : World) → ((d : ℕ) → P (w'.chan d)) → (d : ℕ) → P ((free_invites n w' c).chan d))
      → (d : ℕ) → P ((next_invite (λ w'. free_invites n w' c) w c links).chan d)
  unfolding next_invite del_invite
  next_invite-All n w c [] h ih = h
  next_invite-All n w c (u ∷ links) h ih =
      ih (del_invite w u c) (set-All P w.chan c _ h (any_invites (w.chan c) _ (h c)))

  pub free_invites-All :
      (n : ℕ) (w : World) (c : ℕ)
      → ((d : ℕ) → P (w.chan d))
      → (d : ℕ) → P ((free_invites n w c).chan d)
  unfolding free_invites
  free_invites-All zero w c h = h
  free_invites-All (suc n) w c h =
      next_invite-All n w c (w.chan c).invites h (λ w' h'. free_invites-All n w' c h')

  end_channel-All :
      (j : Bool) (w : World) (c : ℕ)
      → ((d : ℕ) → P (w.chan d))
      → (d : ℕ) → P ((end_channel j w c).chan d)
  unfolding end_channel free_channel
  end_channel-All true w c h = h
  end_channel-All false w c h = set-All P w.chan c _ h (freed (w.chan c) (h c))

  pub sub1_from_channel-All :
      (w : World) (c : ℕ) → ((d : ℕ) → P (w.chan d)) → (d : ℕ) → P ((sub1_from_channel w c).chan d)
  unfolding sub1_from_channel
  sub1_from_channel-All w c h = elim (Bool-cases (leb (w.chan c).users 1)) [
    | inr f ↦ rw f (set-All P w.chan c _ h (any_users (w.chan c) _ (h c)))
    | inl t ↦ rw t (
        end_channel-All (w.chan c).juped _ c (
          free_invites-All (length (w.chan c).invites) _ c
            (set-All P w.chan c _ h (any_users (w.chan c) 0 (h c)))))
  ]
