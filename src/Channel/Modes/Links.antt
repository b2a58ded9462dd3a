-- ===== src/Channel/Modes/Links.antt =====
-- What set_channel_mode of src/channel.c keeps: the links between users and channels, the counters
-- of bans and the length of the keys.
use igniteircd.Prelude.{
  ℕ, ◌≤◌, ◌≡◌, refl, sym, ap, ◌∙◌, Bool, some, none, List, [], Text, length, arith, subst,
}
use igniteircd.Channel.{World, Channel, Mode}
use igniteircd.Channel.Bans.{free_bans_exceptions_denies}
use igniteircd.Channel.Bans.Count
use igniteircd.Channel.Bans.Count.{num_bed-IsCounted}
use igniteircd.Channel.Bans.Keep.{
  KeepsRest, add_banid-KeepsRest, del_banid-KeepsRest, del_exceptid-KeepsRest, free_bans-KeepsRest,
}
use igniteircd.Channel.Members.Links.{
  occurs, member_ids, length-member_ids, set-All, IsConsistent, IsCounted,
}
use igniteircd.Channel.Members.{sub1_from_channel}
use igniteircd.Channel.Samples.{visitor}
use igniteircd.Channel.Members.Invite.{field-set}
use igniteircd.Channel.Members.Emptied.{sub1_from_channel-IsConsistent, free_invites-IsConsistent}
use igniteircd.Channel.Members.Modes.{
  KeepsModes, change_chan_flag-KeepsModes, set_deopped-KeepsModes, free_invites-All,
  sub1_from_channel-All,
}
use igniteircd.Channel.Modes.Run.{Call, Rights, Run, rights, source, write, channel, keylen}
use igniteircd.Channel.Modes.Flags.{uninvite}
use igniteircd.Channel.Modes.Loop.{finish, started, set_channel_mode}
use igniteircd.Channel.Modes.Step.{
  Quiet, Ticket, local_client, other, Step, quiet, flag_set, flag_cleared, invites_ended, limit_set,
  limit_cleared, key_changed, status_changed, marked_deopped, ban_set, ban_removed,
  exception_removed, juped, ended, Steps-kept,
}
use igniteircd.Channel.Modes.Sound.Loop.{set_channel_mode-Ends}
use igniteircd.Channel.Modes.Sound.Finish.{finish-fields}

-- A channel whose bans are counted and whose key fits.
record IsFit (ch : Channel) : Type 0 where
  counted : Count.IsCounted ch
  key : length ch.mode.key ≤ keylen

IsKept : World → Type 0
IsKept w = IsConsistent w × ((d : ℕ) → IsFit (w.chan d))

-- The parts of a channel that name users.
record KeepsLinks (ch ch' : Channel) : Type 0 where
  member_ids : member_ids ch'.members ≡ member_ids ch.members
  invites : ch'.invites ≡ ch.invites
  users : ch'.users ≡ ch.users

abbrev of_modes : (ch ch' : Channel) → KeepsModes ch ch' → KeepsLinks ch ch'
of_modes ch ch' k = record { member_ids = k.member_ids; invites = k.invites; users = k.users }

abbrev of_bans : (ch ch' : Channel) → KeepsRest ch ch' → KeepsLinks ch ch'
of_bans ch ch' k = record {
  member_ids = ap member_ids k.members;
  invites = k.invites;
  users = k.users;
}

freed-IsFit : (ch : Channel) → IsFit ch → IsFit (free_bans_exceptions_denies ch)
freed-IsFit ch f = record {
  counted = (num_bed-IsCounted visitor 0 ch [] none f.counted).5;
  key = omega (arith, ap (λ m. length m.key) (free_bans-KeepsRest ch).mode, f.key);
}

module _ (c : Call) where
  -- A write that leaves who is in the channel and who is invited.
  write-IsKept :
      (ch : Channel) (r : Run)
      → KeepsLinks (channel c r) ch
      → IsFit ch
      → IsKept r.world
      → IsKept (write c ch r).world
  unfolding IsKept
  write-IsKept ch r k f (v, fit) = (
    record {
      members = λ u d.
          ap (occurs u)
            (field-set (λ x. member_ids x.members) r.world.chan c.chptr ch k.member_ids d)
          ∙ v.members u d;
      invites = λ u d.
          ap (occurs u) (field-set (λ x. x.invites) r.world.chan c.chptr ch k.invites d)
          ∙ v.invites u d;
      joined = v.joined;
      counted = set-All IsCounted r.world.chan c.chptr ch v.counted (
          k.users
          ∙ v.counted c.chptr
          ∙ sym (length-member_ids (channel c r).members)
          ∙ sym (ap length k.member_ids)
          ∙ length-member_ids ch.members);
    },
    set-All IsFit r.world.chan c.chptr ch fit f,
  )

  uninvite-IsKept : (r : Run) → IsKept r.world → IsKept (uninvite c r).world
  unfolding IsKept
  uninvite-IsKept r (v, fit) = (
    free_invites-IsConsistent r.world c.chptr v,
    free_invites-All IsFit (λ ch l f. record { counted = f.counted; key = f.key })
        (λ ch n f. record { counted = f.counted; key = f.key }) freed-IsFit
        (length (channel c r).invites) r.world c.chptr fit,
  )

  ended-IsKept :
      (r : Run)
      → (channel c r).users ≡ 0
      → IsKept r.world
      → IsKept (record r { world = sub1_from_channel r.world c.chptr }).world
  unfolding IsKept
  ended-IsKept r e (v, fit) = (
    sub1_from_channel-IsConsistent r.world c.chptr v e,
    sub1_from_channel-All IsFit (λ ch l f. record { counted = f.counted; key = f.key })
        (λ ch n f. record { counted = f.counted; key = f.key }) freed-IsFit r.world c.chptr fit,
  )

  here : (r : Run) → IsKept r.world → IsFit (channel c r)
  unfolding IsKept
  here r (v, fit) = fit c.chptr

  -- A write that leaves the bans and the key, too.
  modes-IsKept :
      (ch : Channel) (r : Run)
      → KeepsLinks (channel c r) ch
      → length ch.mode.key ≤ keylen
      → (ch.num_bed ≡ (channel c r).num_bed)
        × (ch.banlist ≡ (channel c r).banlist)
        × (ch.exceptlist ≡ (channel c r).exceptlist)
      → IsKept r.world
      → IsKept (write c ch r).world
  modes-IsKept ch r k key (n, b, e) h =
      let f = here r h in
      write-IsKept ch r k
        (record { counted = omega (arith, n, ap length b, ap length e, f.counted); key = key }) h

  -- A write to the modes, or to `juped`.
  bits-IsKept :
      (m : Mode) (j : Bool) (r : Run)
      → length m.key ≤ keylen
      → IsKept r.world
      → IsKept (write c (record (channel c r) { mode = m; juped = j }) r).world
  bits-IsKept m j r key h =
      modes-IsKept _ r (record { member_ids = refl; invites = refl; users = refl }) key
        (refl, refl, refl) h

  -- A write to the bans.
  bans-IsKept :
      (ch : Channel) (r : Run)
      → KeepsRest (channel c r) ch
      → Count.IsCounted ch
      → IsKept r.world
      → IsKept (write c ch r).world
  bans-IsKept ch r k n h =
      write-IsKept ch r (of_bans _ _ k)
        (record { counted = n; key = omega (arith, ap (λ m. length m.key) k.mode, (here r h).key) })
        h

  Ticket-world : (letter : ℕ) (r r' : Run) → Ticket c letter r r' → IsKept r.world → IsKept r'.world
  Ticket-world letter r _ (local_client _ d) h = h
  Ticket-world letter r _ (other _ m) h = h

  Quiet-world : (r r' : Run) → Quiet r r' → IsKept r.world → IsKept r'.world
  Quiet-world r r' q h = subst IsKept (sym q.world) h

  Step-IsKept : (g : Rights) (r r' : Run) → Step c g r r' → IsKept r.world → IsKept r'.world
  Step-IsKept g r r' (quiet _ _ q) h = Quiet-world r r' q h
  Step-IsKept g r _ (flag_set letter bit _ r' k t tk) h =
      let h' = Ticket-world letter r r' tk h in bits-IsKept _ _ r' (here r' h').key h'
  Step-IsKept g r _ (flag_cleared letter bit _ r' k t tk) h =
      let h' = Ticket-world letter r r' tk h in bits-IsKept _ _ r' (here r' h').key h'
  Step-IsKept g r _ (invites_ended _ r' ok tk) h =
      let h' = uninvite-IsKept r' (Ticket-world b'i' r r' tk h) in
      bits-IsKept _ _ (uninvite c r') (here (uninvite c r') h').key h'
  Step-IsKept g r _ (limit_set n arg _ r' ok z q one) h =
      let h' = Quiet-world r r' q h in bits-IsKept _ _ r' (here r' h').key h'
  Step-IsKept g r _ (limit_cleared _ r' ok z q one) h =
      let h' = Quiet-world r r' q h in bits-IsKept _ _ r' (here r' h').key h'
  Step-IsKept g r _ (key_changed arg key tmp _ r' ok z q one hk n) h =
      bits-IsKept _ _ r' hk (Quiet-world r r' q h)
  Step-IsKept g r _ (status_changed letter arg who _ ok room l n) h =
      let k = change_chan_flag-KeepsModes (channel c r) who _ in
      modes-IsKept _ r (of_modes _ _ k)
        (omega (arith, ap (λ m. length m.key) k.mode, (here r h).key)) (k.bans) h
  Step-IsKept g r _ (marked_deopped letter who _ d) h =
      let k = set_deopped-KeepsModes who (channel c r) _ in
      modes-IsKept _ r (of_modes _ _ k)
        (omega (arith, ap (λ m. length m.key) k.mode, (here r h).key)) (k.bans) h
  Step-IsKept g r _ (ban_set arg shown ch _ ok room n e) h =
      bans-IsKept ch r (add_banid-KeepsRest _ _ (channel c r) ch arg _ e)
        (subst (λ a. Count.IsCounted a.1) e
          (num_bed-IsCounted (source c r) c.whowas.now (channel c r) arg none (here r h).counted).0)
        h
  Step-IsKept g r _ (ban_removed arg _ ok room n) h =
      bans-IsKept _ r (del_banid-KeepsRest (channel c r) arg)
        (num_bed-IsCounted (source c r) 0 (channel c r) arg (some arg) (here r h).counted).2 h
  Step-IsKept g r _ (exception_removed arg _ ok room) h =
      bans-IsKept _ r (del_exceptid-KeepsRest (channel c r) arg)
        (num_bed-IsCounted (source c r) 0 (channel c r) arg (some arg) (here r h).counted).3 h
  Step-IsKept g r _ (juped b _ p) h = bits-IsKept _ _ r (here r h).key h
  Step-IsKept g r _ (ended _ p e) h = ended-IsKept r e h

-- Whatever a call of set_channel_mode is given, it keeps the world in order: both sides of all
-- links between users and channels in step and all members counted, and with it, when `num_bed`
-- counts the bans and exceptions of each channel and each key has at most KEYLEN characters,
-- these still hold.
pub set_channel_mode-IsConsistent :
    (c : Call) (w : World) (curr : Text) (parv : List Text)
    → IsConsistent w
    → ((d : ℕ) → Count.IsCounted (w.chan d))
    → ((d : ℕ) → length (w.chan d).mode.key ≤ keylen)
    → (r : Run) × (set_channel_mode c w curr parv ≡ some r)
      × IsConsistent r.world
      × ((d : ℕ) → Count.IsCounted (r.world.chan d))
      × ((d : ℕ) → length (r.world.chan d).mode.key ≤ keylen)
unfolding IsKept
set_channel_mode-IsConsistent c w curr parv v counted key =
    let (r, done, steps) = set_channel_mode-Ends c w curr parv in
    let (v', fit) = subst IsKept (sym (finish-fields r).0) (
      Steps-kept (λ r'. IsKept r'.world) (Step-IsKept c (rights c w)) (started w parv) r steps
        (v, λ d. record { counted = counted d; key = key d })) in
    (finish r, done, v', λ d. (fit d).counted, λ d. (fit d).key)
