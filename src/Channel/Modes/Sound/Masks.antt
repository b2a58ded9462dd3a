-- ===== src/Channel/Modes/Sound/Masks.antt =====
-- The cases b and e of set_channel_mode in src/channel.c make steps of the relation.
use igniteircd.Prelude.{
  ℕ, ◌+◌, ◌≡◌, refl, subst, true, false, not, ◌&&◌, List, [], ◌∷◌, Text, length, leb, arith,
}
use igniteircd.Mask.Collapse.{collapse}
use igniteircd.Channel.{Channel, Ban, has}
use igniteircd.Channel.Bans.{Answer, added, list_full, covered, add_banid}
use igniteircd.Channel.Modes.Text.{pretty_mask}
use igniteircd.Channel.Modes.Run.{
  Call, Rights, Run, Sign, adding, deleting, querying, channel, source, is_mine, is_adding,
  is_querying, need_ops, marked, eat, modebuflen, maxmodeparams,
}
use igniteircd.Channel.Modes.Masks.{
  send_list, sm_err_rpl_b, sm_err_rpl_e, list_bans, list_exceptions, starts_colon, ban_added,
  ban_change, ban_mask, ban_arg, ban_param, ban_case, exception_change, exception_mask,
  exception_arg, exception_param, exception_case,
}
use igniteircd.Channel.Modes.Step.{HasRoom, ban_set, ban_removed, exception_removed, Steps, after}
use igniteircd.Channel.Modes.Sound.{
  aside, by_if, quietly, say-Steps, marked-Steps, eat-Steps, mark_and_refuse-Steps,
}

module _ (c : Call) (g : Rights) (r₀ : Run) where
  send_list-Steps :
      (line end : ℕ) (bans : List Ban) (r : Run)
      → Steps c g r₀ r
      → Steps c g r₀ (send_list line end bans r)
  send_list-Steps line end bans r = quietly c g r₀ r _ (aside r _ _ _ _ (omega arith))

  list_bans-Steps : (r : Run) → Steps c g r₀ r → Steps c g r₀ (list_bans c r)
  unfolding list_bans
  list_bans-Steps r s =
      by_if c g r₀ (not (is_mine c r)) _ _ (λ _. s)
        (λ _.
          by_if c g r₀ (has r.errors_sent sm_err_rpl_b) _ _ (λ _. s)
            (λ _. send_list-Steps _ _ _ (marked sm_err_rpl_b r) (marked-Steps c g r₀ _ r s)))

  list_exceptions-Steps : (r : Run) → Steps c g r₀ r → Steps c g r₀ (list_exceptions c g r)
  unfolding list_exceptions
  list_exceptions-Steps r s =
      let s' = marked-Steps c g r₀ sm_err_rpl_e r s in
      by_if c g r₀ (not (is_mine c r)) _ _ (λ _. s)
        (λ _.
          by_if c g r₀ (has r.errors_sent sm_err_rpl_e) _ _ (λ _. s)
            (λ _.
              by_if c g r₀ g.isok _ _ (λ _. send_list-Steps _ _ _ (marked sm_err_rpl_e r) s')
                (λ _. say-Steps c g r₀ need_ops (marked sm_err_rpl_e r) s')))

  ban_added-Steps :
      (arg : Text) (answer : Answer) (ch : Channel) (r : Run)
      → g.isok ≡ true
      → HasRoom c r
      → is_querying r.sign ≡ false
      → add_banid (source c r) c.whowas.now (channel c r) arg ≡ (answer, ch)
      → Steps c g r₀ r
      → Steps c g r₀ (ban_added c arg (answer, ch) r)
  unfolding ban_added
  ban_added-Steps arg added ch r ok room n e s = after r _ s (ban_set arg _ ch r ok room n e)
  ban_added-Steps arg list_full ch r ok room n e s = s
  ban_added-Steps arg covered ch r ok room n e s = s

  ban_change-Steps :
      (sign : Sign) (arg : Text) (r : Run)
      → sign ≡ r.sign
      → g.isok ≡ true
      → HasRoom c r
      → Steps c g r₀ r
      → Steps c g r₀ (ban_change c sign arg r)
  unfolding ban_change
  ban_change-Steps adding arg r e ok room s =
      let made = add_banid (source c r) c.whowas.now (channel c r) arg in
      ban_added-Steps arg made.0 made.1 r ok room (subst (λ x. is_querying x ≡ false) e refl) refl s
  ban_change-Steps deleting arg r e ok room s =
      after r _ s (ban_removed arg r ok room (subst (λ x. is_querying x ≡ false) e refl))
  ban_change-Steps querying arg r e ok room s = s

  ban_mask-Steps :
      (arg : Text) (r : Run)
      → g.isok ≡ true
      → HasRoom c r
      → Steps c g r₀ r
      → Steps c g r₀ (ban_mask c arg r)
  unfolding ban_mask
  ban_mask-Steps arg r ok room s =
      by_if c g r₀ (leb modebuflen (r.len + length arg + 2)) _ _ (λ _. s)
        (λ _. ban_change-Steps r.sign arg r refl ok room s)

  ban_arg-Steps : (arg : Text) (r : Run) → Steps c g r₀ r → Steps c g r₀ (ban_arg c g arg r)
  unfolding ban_arg
  ban_arg-Steps arg r s =
      by_if c g r₀ (is_mine c r && leb maxmodeparams r.opcnt) _ _ (λ _. s)
        (λ f.
          by_if c g r₀ (not g.isok) _ _ (λ _. mark_and_refuse-Steps c g r₀ r s)
            (λ ok.
              by_if c g r₀ (is_mine c r) _ _
                (λ _.
                  by_if c g r₀ (starts_colon arg && is_adding r.sign) _ _
                    (λ _. eat-Steps c g r₀ r s)
                    (λ _.
                      ban_mask-Steps (collapse (pretty_mask arg)) r (ground (arith, ok))
                        (λ m. ground (arith, f, m)) s))
                (λ o. ban_mask-Steps arg r (ground (arith, ok)) (λ m. ground (arith, f, m)) s)))

  ban_param-Steps :
      (parv : List Text) (r : Run) → Steps c g r₀ r → Steps c g r₀ (ban_param c g parv r)
  unfolding ban_param
  ban_param-Steps [] r s = list_bans-Steps r s
  ban_param-Steps (p ∷ parv) r s = ban_arg-Steps _ (eat r) (eat-Steps c g r₀ r s)

  pub ban_case-Steps : (r : Run) → Steps c g r₀ r → Steps c g r₀ (ban_case c g r)
  unfolding ban_case
  ban_case-Steps r s =
      by_if c g r₀ (is_querying r.sign) _ _ (λ _. list_bans-Steps r s)
        (λ _. ban_param-Steps r.parv r s)

  exception_change-Steps :
      (sign : Sign) (arg : Text) (r : Run)
      → g.isok ≡ true
      → HasRoom c r
      → Steps c g r₀ r
      → Steps c g r₀ (exception_change c sign arg r)
  unfolding exception_change
  exception_change-Steps adding arg r ok room s = s
  exception_change-Steps deleting arg r ok room s = after r _ s (exception_removed arg r ok room)
  exception_change-Steps querying arg r ok room s = s

  exception_mask-Steps :
      (arg : Text) (r : Run)
      → g.isok ≡ true
      → HasRoom c r
      → Steps c g r₀ r
      → Steps c g r₀ (exception_mask c arg r)
  unfolding exception_mask
  exception_mask-Steps arg r ok room s =
      by_if c g r₀ (starts_colon arg) _ _ (λ _. eat-Steps c g r₀ r s)
        (λ _.
          by_if c g r₀ (leb modebuflen (r.len + length arg + 2)) _ _ (λ _. s)
            (λ _. exception_change-Steps r.sign arg r ok room s))

  exception_param-Steps :
      (parv : List Text) (r : Run) → Steps c g r₀ r → Steps c g r₀ (exception_param c g parv r)
  unfolding exception_param exception_arg
  exception_param-Steps [] r s = list_exceptions-Steps r s
  exception_param-Steps (p ∷ parv) r s =
      let s' = eat-Steps c g r₀ r s in
      by_if c g r₀ (is_mine c r && leb maxmodeparams r.opcnt) _ _ (λ _. s')
        (λ f.
          by_if c g r₀ (not g.isok) _ _ (λ _. mark_and_refuse-Steps c g r₀ (eat r) s')
            (λ ok.
              exception_mask-Steps _ (eat r) (ground (arith, ok)) (λ m. ground (arith, f, m)) s'))

  pub exception_case-Steps : (r : Run) → Steps c g r₀ r → Steps c g r₀ (exception_case c g r)
  unfolding exception_case
  exception_case-Steps r s =
      by_if c g r₀ (is_querying r.sign) _ _ (λ _. list_exceptions-Steps r s)
        (λ _. exception_param-Steps r.parv r s)
