-- ===== src/Channel/Modes/Announce.antt =====
-- The mode string that set_channel_mode of src/channel.c announces, against what it
-- did.
use igniteircd.Prelude.{
  ℕ, ◌≡◌, refl, sym, ap, ◌∙◌, true, false, none, some, List, [], ◌∷◌, ◌++◌, Text, ◌==◌, arith,
  bit_or,
}
use mathlib.Core.Bool.{true≢false}
use igniteircd.Channel.{World, Channel, mode_inviteonly}
use igniteircd.Channel.Members.{without}
use igniteircd.Channel.Modes.Text.{is_sign}
use igniteircd.Channel.Modes.Run.{
  Call, Rights, Run, Sign, adding, deleting, querying, plus, is_querying, rights, channel, write,
}
use igniteircd.Channel.Modes.Flags.{uninvite}
use igniteircd.Channel.Modes.Loop.{finish, started, set_channel_mode}
use igniteircd.Channel.Modes.Step.{
  Quiet, Flag, moderated, no_messages, is_private, is_secret, topic_limit, invite_only, registered,
  Ticket, local_client, other, Step, quiet, flag_set, flag_cleared, invites_ended, limit_set,
  limit_cleared, key_changed, status_changed, marked_deopped, ban_set, ban_removed,
  exception_removed, juped, ended, Steps-kept,
}
use igniteircd.Channel.Modes.Sound.Loop.{set_channel_mode-Ends}
use igniteircd.Channel.Modes.Sound.Finish.{finish-fields}
use igniteircd.Channel.Modes.Replay.{bit_of, effect, replay, replay-append, replay-collapse_signs}
use igniteircd.Channel.Set.{set_at}
use igniteircd.Channel.Bans.Keep.{add_banid-KeepsRest, del_banid-KeepsRest, del_exceptid-KeepsRest}
use igniteircd.Channel.Members.Modes.{
  free_invites-mode, sub1_from_channel-mode, change_chan_flag-KeepsModes, set_deopped-KeepsModes,
}

-- The mode bits of the channel at any time, against those at the start.
IsAnnounced : Call → ℕ → Run → Type 0
IsAnnounced c bits r = (channel c r).mode.mode ≡ replay true r.mbuf bits

module _ (c : Call) (bits : ℕ) where
  unseen :
      (r r' : Run)
      → r'.mbuf ≡ r.mbuf
      → (channel c r').mode.mode ≡ (channel c r).mode.mode
      → IsAnnounced c bits r
      → IsAnnounced c bits r'
  unfolding IsAnnounced
  unseen r r' m e h = e ∙ h ∙ ap (λ s. replay true s bits) (sym m)

  shown :
      (r r' : Run) (p x : ℕ)
      → is_sign p ≡ true
      → is_sign x ≡ false
      → r'.mbuf ≡ r.mbuf ++ p ∷ x ∷ []
      → (channel c r').mode.mode ≡ effect (p == b'+') x (channel c r).mode.mode
      → IsAnnounced c bits r
      → IsAnnounced c bits r'
  unfolding IsAnnounced
  shown r r' p x hp hx m e h =
      e
      ∙ ap (effect (p == b'+') x) h
      ∙ sym (ap (λ s. replay true s bits) m ∙ replay-append true r.mbuf p x bits hp hx)

  -- A letter that stands for no mode bit.
  shown_other :
      (r r' : Run) (sign : Sign) (x : ℕ)
      → is_querying sign ≡ false
      → is_sign x ≡ false
      → bit_of x ≡ none
      → r'.mbuf ≡ r.mbuf ++ plus sign ∷ x ∷ []
      → (channel c r').mode.mode ≡ (channel c r).mode.mode
      → IsAnnounced c bits r
      → IsAnnounced c bits r'
  unfolding effect
  shown_other r r' adding x q hx b m e = shown r r' b'+' x refl hx m (rw b e)
  shown_other r r' deleting x q hx b m e = shown r r' b'-' x refl hx m (rw b e)
  shown_other r r' querying x q hx b m e = absurd (true≢false q)

  written-mode : (ch : Channel) (r : Run) → (channel c (write c ch r)).mode ≡ ch.mode
  written-mode ch r = ap (λ d. d.mode) (set_at r.world.chan c.chptr ch)

  Flag-effect :
      (letter bit : ℕ)
      → Flag letter bit
      → ((b : ℕ) → (effect true letter b ≡ bit_or b bit) × (effect false letter b ≡ without b bit))
        × (is_sign letter ≡ false)
  unfolding effect
  Flag-effect _ _ moderated = (λ b. (refl, refl), refl)
  Flag-effect _ _ no_messages = (λ b. (refl, refl), refl)
  Flag-effect _ _ is_private = (λ b. (refl, refl), refl)
  Flag-effect _ _ is_secret = (λ b. (refl, refl), refl)
  Flag-effect _ _ topic_limit = (λ b. (refl, refl), refl)
  Flag-effect _ _ invite_only = (λ b. (refl, refl), refl)
  Flag-effect _ _ registered = (λ b. (refl, refl), refl)

  Ticket-unseen :
      (letter : ℕ) (r r' : Run)
      → Ticket c letter r r'
      → IsAnnounced c bits r
      → IsAnnounced c bits r'
  Ticket-unseen letter r _ (local_client _ d) h = unseen r _ refl refl h
  Ticket-unseen letter r _ (other _ m) h = h

  Quiet-unseen : (r r' : Run) → Quiet r r' → IsAnnounced c bits r → IsAnnounced c bits r'
  Quiet-unseen r r' q = unseen r r' q.mbuf (ap (λ w. (w.chan c.chptr).mode.mode) q.world)

  Step-IsAnnounced :
      (g : Rights) (r r' : Run) → Step c g r r' → IsAnnounced c bits r → IsAnnounced c bits r'
  unfolding effect
  Step-IsAnnounced g r r' (quiet _ _ q) h = Quiet-unseen r r' q h
  Step-IsAnnounced g r _ (flag_set letter bit _ r' k t tk) h =
      let (e, x) = Flag-effect letter bit k in
      shown r' _ b'+' letter refl x refl
        (ap (λ m. m.mode) (written-mode _ r') ∙ sym (e (channel c r').mode.mode).0)
        (Ticket-unseen letter r r' tk h)
  Step-IsAnnounced g r _ (flag_cleared letter bit _ r' k t tk) h =
      let (e, x) = Flag-effect letter bit k in
      shown r' _ b'-' letter refl x refl
        (ap (λ m. m.mode) (written-mode _ r') ∙ sym (e (channel c r').mode.mode).1)
        (Ticket-unseen letter r r' tk h)
  Step-IsAnnounced g r _ (invites_ended _ r' ok tk) h =
      let same = ap (λ m. m.mode) (free_invites-mode _ r'.world c.chptr c.chptr) in
      shown r' _ b'-' b'i' refl refl refl
        (ap (λ m. m.mode) (written-mode _ (uninvite c r'))
          ∙ ap (λ b. without b mode_inviteonly) same)
        (Ticket-unseen b'i' r r' tk h)
  Step-IsAnnounced g r _ (limit_set n arg _ r' ok z q one) h =
      shown r' _ b'+' b'l' refl refl refl (ap (λ m. m.mode) (written-mode _ r'))
        (Quiet-unseen r r' q h)
  Step-IsAnnounced g r _ (limit_cleared _ r' ok z q one) h =
      shown r' _ b'-' b'l' refl refl refl (ap (λ m. m.mode) (written-mode _ r'))
        (Quiet-unseen r r' q h)
  Step-IsAnnounced g r _ (key_changed arg key tmp _ r' ok z q one hk n) h =
      shown_other r' _ r'.sign b'k' n refl refl refl (ap (λ m. m.mode) (written-mode _ r'))
        (Quiet-unseen r r' q h)
  Step-IsAnnounced g r _ (status_changed letter arg who _ ok room l n) h =
      shown_other r _ r.sign letter n (ground (arith, l)) (ground (arith, l)) refl
        (ap (λ m. m.mode)
          (written-mode _ r ∙ (change_chan_flag-KeepsModes (channel c r) who _).mode))
        h
  Step-IsAnnounced g r _ (marked_deopped letter who _ d) h =
      unseen r _ refl
        (ap (λ m. m.mode) (written-mode _ r ∙ (set_deopped-KeepsModes who (channel c r) _).mode)) h
  Step-IsAnnounced g r _ (ban_set arg shown_arg ch _ ok room n e) h =
      shown_other r _ r.sign b'b' n refl refl refl
        (ap (λ m. m.mode)
          (written-mode ch r ∙ (add_banid-KeepsRest _ _ (channel c r) ch arg _ e).mode))
        h
  Step-IsAnnounced g r _ (ban_removed arg _ ok room n) h =
      shown_other r _ r.sign b'b' n refl refl refl
        (ap (λ m. m.mode) (written-mode _ r ∙ (del_banid-KeepsRest (channel c r) arg).mode)) h
  Step-IsAnnounced g r _ (exception_removed arg _ ok room) h =
      unseen r _ refl
        (ap (λ m. m.mode) (written-mode _ r ∙ (del_exceptid-KeepsRest (channel c r) arg).mode)) h
  Step-IsAnnounced g r _ (juped b _ p) h = unseen r _ refl (ap (λ m. m.mode) (written-mode _ r)) h
  Step-IsAnnounced g r _ (ended _ p e) h =
      unseen r _ refl (ap (λ m. m.mode) (sub1_from_channel-mode r.world c.chptr c.chptr)) h

-- What is announced is what was done: read as a mode string from the bits before the call, the
-- text that set_channel_mode announces, without the signs that collapse_signs took out, gives the
-- mode bits that the channel has afterwards.
pub set_channel_mode-announced :
    (c : Call) (w : World) (curr : Text) (parv : List Text)
    → (r : Run) × (set_channel_mode c w curr parv ≡ some r)
      × ((channel c r).mode.mode ≡ replay true r.mbuf (w.chan c.chptr).mode.mode)
unfolding IsAnnounced replay
set_channel_mode-announced c w curr parv =
    let bits = (w.chan c.chptr).mode.mode in
    let (r, done, steps) = set_channel_mode-Ends c w curr parv in
    let h =
      Steps-kept (IsAnnounced c bits) (Step-IsAnnounced c bits (rights c w)) (started w parv) r
        steps refl in
    let (same, cut, _) = finish-fields r in
    (
      finish r,
      done,
      ap (λ w'. (w'.chan c.chptr).mode.mode) same
          ∙ h
          ∙ sym (replay-collapse_signs r.mbuf bits)
          ∙ ap (λ s. replay true s bits) (sym cut),
    )
