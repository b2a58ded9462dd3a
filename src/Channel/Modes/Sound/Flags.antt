-- ===== src/Channel/Modes/Sound/Flags.antt =====
-- The cases of set_channel_mode in src/channel.c without a parameter, and +l, make steps of the
-- relation.
use igniteircd.Prelude.{
  ℕ, zero, suc, ◌+◌, ◌≡◌, refl, ℤ, pos, negsuc, true, false, not, List, some, [], ◌∷◌, Text, length,
  ◌==◌, ◌&&◌, leb, arith,
}
use igniteircd.Channel.{is_server, is_empowered, mode_inviteonly}
use igniteircd.Channel.Modes.Run.{
  Call, Rights, Run, Sign, numeric, adding, deleting, querying, source, is_mine, is_adding,
  is_querying, eat, tail, modebuflen, need_ops,
}
use igniteircd.Channel.Modes.Flags.{
  put_flag, mark_done, put_once, flag_case, registered_case, put_invite, invite_case, end_if_empty,
  jupe_change, jupe_case, put_limit, limit_param, limit_change, skip_if_adding, limit_case,
}
use igniteircd.Channel.Names.{check_string}
use igniteircd.Channel.Modes.Number.{print_int}
use igniteircd.Channel.Modes.Step.{
  Quiet, Flag, invite_only, registered, Ticket, local_client, other, may_flag, flag_set,
  flag_cleared, invites_ended, limit_set, limit_cleared, juped, ended, Steps, after,
}
use igniteircd.Channel.Modes.Sound.{
  by_if, quietly, say-Steps, eat-Steps, refuse-Steps, weight-tail, limit_counted, mark_done-Quiet,
}

module _ (c : Call) (g : Rights) (r₀ : Run) where
  -- With the right and the ticket of the letter.
  put_flag-Steps :
      (letter bit : ℕ) (r r' : Run)
      → Flag letter bit
      → may_flag c g bit r ≡ true
      → Ticket c letter r r'
      → Steps c g r₀ r
      → Steps c g r₀ r'
      → Steps c g r₀ (put_flag c letter bit r')
  unfolding put_flag
  put_flag-Steps letter bit r r' k h t s s' =
      by_if c g r₀ (leb modebuflen (r'.len + 2)) _ _ (λ _. s')
        (λ _.
          by_if c g r₀ (is_adding r'.sign) _ _ (λ _. after r _ s (flag_set letter bit r r' k h t))
            (λ _. after r _ s (flag_cleared letter bit r r' k h t)))

  put_once-Steps :
      (letter : ℕ) (put : Run → Run) (r : Run)
      → ((r' : Run) → Ticket c letter r r' → Steps c g r₀ r' → Steps c g r₀ (put r'))
      → Steps c g r₀ r
      → Steps c g r₀ (put_once c letter put r)
  unfolding put_once
  put_once-Steps letter put r p s =
      by_if c g r₀ (is_mine c r) _ _
        (λ m.
          by_if c g r₀ (r.done letter) _ _ (λ _. s)
            (λ d.
              p (mark_done letter r) (local_client r d)
                (quietly c g r₀ r (mark_done letter r) (mark_done-Quiet r letter) s)))
        (λ o. p r (other r o) s)

  pub flag_case-Steps :
      (letter bit : ℕ) (r : Run)
      → Flag letter bit
      → (bit == 16384) ≡ false
      → Steps c g r₀ r
      → Steps c g r₀ (flag_case c g letter bit r)
  unfolding flag_case
  flag_case-Steps letter bit r k e s =
      by_if c g r₀ (not g.isok) _ _ (λ _. refuse-Steps c g r₀ need_ops r s)
        (λ ok.
          put_once-Steps letter (put_flag c letter bit) r
            (λ r' t s'. put_flag-Steps letter bit r r' k (ground (arith, e, ok)) t s s') s)

  pub registered_case-Steps : (r : Run) → Steps c g r₀ r → Steps c g r₀ (registered_case c 16384 r)
  unfolding registered_case
  registered_case-Steps r s =
      by_if c g r₀ (not (is_server (r.world.client c.cptr))) _ _
        (λ _. refuse-Steps c g r₀ (numeric 481 []) r s)
        (λ ok.
          put_once-Steps b'r' (put_flag c b'r' 16384) r
            (λ r' t s'. put_flag-Steps b'r' 16384 r r' registered (ground (arith, ok)) t s s') s)

  put_invite-Steps :
      (r r' : Run)
      → g.isok ≡ true
      → Ticket c b'i' r r'
      → Steps c g r₀ r
      → Steps c g r₀ r'
      → Steps c g r₀ (put_invite c r')
  unfolding put_invite
  put_invite-Steps r r' ok t s s' =
      by_if c g r₀ (leb modebuflen (r'.len + 2)) _ _ (λ _. s')
        (λ _.
          by_if c g r₀ (is_adding r'.sign) _ _
            (λ _. after r _ s (flag_set b'i' mode_inviteonly r r' invite_only ok t))
            (λ _. after r _ s (invites_ended r r' ok t)))

  pub invite_case-Steps : (r : Run) → Steps c g r₀ r → Steps c g r₀ (invite_case c g r)
  unfolding invite_case
  invite_case-Steps r s =
      by_if c g r₀ (is_querying r.sign) _ _ (λ _. s)
        (λ _.
          by_if c g r₀ (not g.isok) _ _ (λ _. refuse-Steps c g r₀ need_ops r s)
            (λ ok.
              put_once-Steps b'i' (put_invite c) r
                (λ r' t s'. put_invite-Steps r r' (ground (arith, ok)) t s s') s))

  jupe_change-Steps :
      (sign : Sign) (r : Run)
      → ((source c r).local_flag && is_empowered (source c r)) ≡ true
      → Steps c g r₀ r
      → Steps c g r₀ (jupe_change c sign r)
  unfolding jupe_change end_if_empty
  jupe_change-Steps adding r h s = say-Steps c g r₀ _ _ (after r _ s (juped true r h))
  jupe_change-Steps deleting r h s =
      let s' = say-Steps c g r₀ _ _ (after r _ s (juped false r h)) in
      by_if c g r₀ _ _ _ (λ e. after _ _ s' (ended _ h (ground (arith, e)))) (λ _. s')
  jupe_change-Steps querying r h s = s

  pub jupe_case-Steps : (r : Run) → Steps c g r₀ r → Steps c g r₀ (jupe_case c r)
  unfolding jupe_case
  jupe_case-Steps r s = by_if c g r₀ _ _ _ (λ h. jupe_change-Steps r.sign r h s) (λ _. s)

  put_limit-Steps :
      (n : ℤ) (r r' : Run)
      → g.isok ≡ true
      → r.limitset ≡ 0
      → Quiet r r'
      → r'.limitset ≡ 1
      → Steps c g r₀ r
      → Steps c g r₀ (put_limit c n r')
  unfolding put_limit
  put_limit-Steps (pos zero) r r' ok h q l s = quietly c g r₀ r r' q s
  put_limit-Steps (negsuc n) r r' ok h q l s = quietly c g r₀ r r' q s
  put_limit-Steps (pos (suc n)) r r' ok h q l s =
      let arg = print_int (pos (suc n)) in
      by_if c g r₀ (leb modebuflen (r'.len + length arg + 2)) _ _ (λ _. quietly c g r₀ r r' q s)
        (λ _. after r _ s (limit_set (suc n) arg r r' ok h q l))

  limit_param-Steps :
      (r r' : Run) (parv : List Text)
      → parv ≡ r'.parv
      → g.isok ≡ true
      → r.limitset ≡ 0
      → Quiet r r'
      → Quiet r (eat r')
      → r'.limitset ≡ 1
      → Steps c g r₀ r
      → Steps c g r₀ (limit_param c parv r')
  unfolding limit_param
  limit_param-Steps r r' [] e ok h q q' l s =
      let s' = quietly c g r₀ r r' q s in
      by_if c g r₀ (is_mine c r') _ _ (λ _. say-Steps c g r₀ _ r' s') (λ _. s')
  limit_param-Steps r r' (p ∷ parv) e ok h q q' l s =
      put_limit-Steps (c.atoi (check_string (some p))) r (eat r') ok h q' l s

  skip_if_adding-Steps : (r : Run) → Steps c g r₀ r → Steps c g r₀ (skip_if_adding r)
  skip_if_adding-Steps r s = by_if c g r₀ _ _ _ (λ _. eat-Steps c g r₀ r s) (λ _. s)

  pub limit_case-Steps : (r : Run) → Steps c g r₀ r → Steps c g r₀ (limit_case c g r)
  unfolding limit_case limit_change
  limit_case-Steps r s =
      let counted = record r { limitset = r.limitset + 1 } in
      let q = limit_counted r r.parv (omega arith) in
      let q' = limit_counted r (tail r.parv) (weight-tail r.parv) in
      by_if c g r₀ (is_querying r.sign) _ _ (λ _. s)
        (λ _.
          by_if c g r₀ (not g.isok) _ _ (λ _. skip_if_adding-Steps r s)
            (λ ok.
              by_if c g r₀ (r.limitset == 0) _ _
                (λ z.
                  by_if c g r₀ (is_adding r.sign) _ _
                    (λ _.
                      limit_param-Steps r counted r.parv refl (ground (arith, ok))
                        (ground (arith, z)) q q' (ground (arith, z)) s)
                    (λ _. after r _ s (
                      limit_cleared r counted (ground (arith, ok)) (ground (arith, z)) q
                        (ground (arith, z)))))
                (λ _. skip_if_adding-Steps counted (quietly c g r₀ r counted q s))))
