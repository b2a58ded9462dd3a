-- ===== src/Channel/Modes/Rights.antt =====
-- Who may change a channel by set_channel_mode in src/channel.c.
use igniteircd.Prelude.{
  ◌≡◌, refl, sym, ap, ◌∙◌, Bool, true, false, some, List, [], Text, arith, ◌&&◌,
}
use mathlib.Core.Bool.{false≢true}
use igniteircd.Channel.{World, has, is_server, is_empowered, chfl_chanop, chfl_deopped}
use igniteircd.Channel.Access.{user_channel_mode}
use igniteircd.Channel.Modes.Text.{collapse_signs, collapse_from}
use igniteircd.Channel.Modes.Run.{Call, Rights, Run, rights, source}
use igniteircd.Channel.Modes.Loop.{finish, started, set_channel_mode}
use igniteircd.Channel.Modes.Step.{
  Step, quiet, flag_set, flag_cleared, invites_ended, limit_set, limit_cleared, key_changed,
  status_changed, marked_deopped, ban_set, ban_removed, exception_removed, juped, ended, Steps-kept,
  may_flag,
}
use igniteircd.Channel.Modes.Sound.Loop.{set_channel_mode-Ends}

-- The world of before, and nothing to announce.
abbrev IsUntouched : World → Run → Type 0
IsUntouched w r = (r.world ≡ w) × (r.mbuf ≡ []) × (r.mbuf_new ≡ [])

no_right {ℓ} : {A : Type ℓ} {b : Bool} → b ≡ false → b ≡ true → A
no_right f t = absurd (false≢true (sym f ∙ t))

module _ (c : Call) (g : Rights) (w : World) (ok : g.isok ≡ false) (deop : g.isdeop ≡ false)
    (server : is_server (w.client c.cptr) ≡ false)
    (power : is_empowered (w.client c.sptr) ≡ false) where
  may_flag_not : (bit : _) (r : Run) → r.world ≡ w → may_flag c g bit r ≡ false
  may_flag_not bit r e =
      let s : is_server (r.world.client c.cptr) ≡ false =
        ap (λ w'. is_server (w'.client c.cptr)) e ∙ server in
      ground (arith, s, ok)

  no_power :
      (r : Run) → r.world ≡ w → ((source c r).local_flag && is_empowered (source c r)) ≡ false
  no_power r e =
      let p : is_empowered (source c r) ≡ false =
        ap (λ w'. is_empowered (w'.client c.sptr)) e ∙ power in
      ground (arith, p)

  Step-IsUntouched : (r r' : Run) → Step c g r r' → IsUntouched w r → IsUntouched w r'
  Step-IsUntouched r r' (quiet _ _ q) (h, m, n) = (q.world ∙ h, q.mbuf ∙ m, q.mbuf_new ∙ n)
  Step-IsUntouched r _ (flag_set letter bit _ r' k t _) (h, _, _) =
      no_right (may_flag_not bit r h) t
  Step-IsUntouched r _ (flag_cleared letter bit _ r' k t _) (h, _, _) =
      no_right (may_flag_not bit r h) t
  Step-IsUntouched r _ (invites_ended _ r' t _) h = no_right ok t
  Step-IsUntouched r _ (limit_set _ _ _ _ t _ _ _) h = no_right ok t
  Step-IsUntouched r _ (limit_cleared _ _ t _ _ _) h = no_right ok t
  Step-IsUntouched r _ (key_changed _ _ _ _ _ t _ _ _ _ _) h = no_right ok t
  Step-IsUntouched r _ (status_changed _ _ _ _ t _ _ _) h = no_right ok t
  Step-IsUntouched r _ (marked_deopped _ _ _ t) h = no_right deop t
  Step-IsUntouched r _ (ban_set _ _ _ _ t _ _ _) h = no_right ok t
  Step-IsUntouched r _ (ban_removed _ _ t _ _) h = no_right ok t
  Step-IsUntouched r _ (exception_removed _ _ t _) h = no_right ok t
  Step-IsUntouched r _ (juped _ _ t) (h, _, _) = no_right (no_power r h) t
  Step-IsUntouched r _ (ended _ t _) (h, _, _) = no_right (no_power r h) t

finish-IsUntouched : (w : World) (r : Run) → IsUntouched w r → IsUntouched w (finish r)
unfolding collapse_signs collapse_from
finish-IsUntouched w r (h, m, n) = rw (m, n) (h, refl, refl)

-- Whoever has no right changes nothing: when the client is no server, comes from no server, has
-- neither MODE_CHANOP nor MODE_DEOPPED on the channel and is no operator, then after
-- set_channel_mode all channels, clients, tables and counters are what they were, whatever modes
-- and parameters were given, and nothing is left to announce.
pub set_channel_mode-no_rights :
    (c : Call) (w : World) (curr : Text) (parv : List Text)
    → is_server (w.client c.sptr) ≡ false
    → is_server (w.client c.cptr) ≡ false
    → is_empowered (w.client c.sptr) ≡ false
    → has (user_channel_mode c.sptr (some (w.chan c.chptr))) chfl_chanop ≡ false
    → has (user_channel_mode c.sptr (some (w.chan c.chptr))) chfl_deopped ≡ false
    → (r : Run) × (set_channel_mode c w curr parv ≡ some r)
      × (r.world ≡ w)
      × (r.mbuf ≡ [])
      × (r.mbuf_new ≡ [])
unfolding rights
set_channel_mode-no_rights c w curr parv s p e o d =
    let g = rights c w in
    let admin : (w.client c.sptr).admin ≡ false = ground (arith, e) in
    let ok : g.isok ≡ false = ground (arith, s, p, o, d, admin) in
    let deop : g.isdeop ≡ false = ground (arith, s, o, d, admin) in
    let (r, done, steps) = set_channel_mode-Ends c w curr parv in
    let (h, m, n) = finish-IsUntouched w r (
      Steps-kept (IsUntouched w) (Step-IsUntouched c g w ok deop p e) (started w parv) r steps
        (refl, refl, refl)) in
    (finish r, done, h, m, n)
