-- ===== src/Channel/Modes/Sound.antt =====
-- Every letter of set_channel_mode in src/channel.c makes steps of the relation: what
-- the cases share.
pub mod Flags
pub mod Params
pub mod Masks
pub mod Loop
pub mod Finish
use igniteircd.Prelude.{
  ℕ, zero, suc, ◌+◌, ◌≤◌, ◌<◌, ◌≡◌, refl, ℤ, pos, negsuc, Bool, true, false, not, List, some, [],
  ◌∷◌, Text, length, ◌==◌, ◌&&◌, leb, if◌then◌else◌, arith, Bool-cases, ==_iff,
}
use igniteircd.Channel.{has, is_server, is_empowered, set, mode_inviteonly}
use igniteircd.Channel.Modes.Run.{
  Call, Rights, Run, Sign, Sent, numeric, adding, deleting, querying, source, channel, is_mine,
  is_adding, is_querying, say, say_once, refuse, marked, mark_and_refuse, eat, tail, modebuflen,
  need_ops, sm_err_noops,
}
use igniteircd.Channel.Modes.Flags.{
  flag_on, flag_off, put_flag, mark_done, put_once, flag_case, registered_case, uninvite,
  put_invite, invite_case, set_juped, end_if_empty, jupe_change, jupe_case, put_limit, limit_param,
  limit_change, skip_if_adding, limit_case,
}
use igniteircd.Channel.Names.{check_string}
use igniteircd.Channel.Modes.Number.{print_int}
use igniteircd.Channel.Modes.Loop.{weight}
use igniteircd.Channel.Modes.Step.{
  Quiet, Flag, invite_only, registered, Ticket, local_client, other, may_flag, Step, quiet,
  flag_set, flag_cleared, invites_ended, limit_set, limit_cleared, juped, ended, Steps, after,
  letters_done, count,
}

pub weight-tail : (parv : List Text) → weight (tail parv) ≤ weight parv
weight-tail [] = omega arith
weight-tail (p ∷ parv) = omega arith

-- A step that moves only what no announcement shows.
pub aside :
    (r : Run) (parv : List Text) (sign : Sign) (errs : ℕ) (sent : List Sent)
    → weight parv ≤ weight r.parv
    → Quiet r (record r { parv = parv; sign = sign; errors_sent = errs; sent = sent })
aside r parv sign errs sent h = record {
  world = refl;
  opcnt = refl;
  mbuf = refl;
  mbuf_new = refl;
  keychange = omega arith;
  limitset = omega arith;
  done = omega arith;
  left = h;
}

-- The counters of `k` and `l`, with parameters read.
pub key_counted :
    (r : Run) (parv : List Text)
    → weight parv ≤ weight r.parv
    → Quiet r (record r { parv = parv; keychange = r.keychange + 1 })
key_counted r parv h = record {
  world = refl;
  opcnt = refl;
  mbuf = refl;
  mbuf_new = refl;
  keychange = omega arith;
  limitset = omega arith;
  done = omega arith;
  left = h;
}

pub limit_counted :
    (r : Run) (parv : List Text)
    → weight parv ≤ weight r.parv
    → Quiet r (record r { parv = parv; limitset = r.limitset + 1 })
limit_counted r parv h = record {
  world = refl;
  opcnt = refl;
  mbuf = refl;
  mbuf_new = refl;
  keychange = omega arith;
  limitset = omega arith;
  done = omega arith;
  left = h;
}

count-set : (done : ℕ → Bool) (letter x : ℕ) → count (done x) ≤ count (set done letter true x)
count-set done letter x = ground arith

pub mark_done-Quiet : (r : Run) (letter : ℕ) → Quiet r (mark_done letter r)
mark_done-Quiet r letter = record {
  world = refl;
  opcnt = refl;
  mbuf = refl;
  mbuf_new = refl;
  keychange = omega arith;
  limitset = omega arith;
  done =
      let up = count-set r.done letter in
      omega (arith, up b'm', up b'n', up b'p', up b's', up b't', up b'i', up b'r');
  left = omega arith;
}

module _ (c : Call) (g : Rights) (r₀ : Run) where
  pub by_if :
      (b : Bool) (x y : Run)
      → (b ≡ true → Steps c g r₀ x)
      → (b ≡ false → Steps c g r₀ y)
      → Steps c g r₀ (if b then x else y)
  by_if true x y t f = t refl
  by_if false x y t f = f refl

  pub quietly : (r r' : Run) → Quiet r r' → Steps c g r₀ r → Steps c g r₀ r'
  quietly r r' q s = after r r' s (quiet r r' q)

  pub say-Steps : (m : Sent) (r : Run) → Steps c g r₀ r → Steps c g r₀ (say m r)
  say-Steps m r = quietly r _ (aside r _ _ _ _ (omega arith))

  pub marked-Steps : (err : ℕ) (r : Run) → Steps c g r₀ r → Steps c g r₀ (marked err r)
  marked-Steps err r = quietly r _ (aside r _ _ _ _ (omega arith))

  pub eat-Steps : (r : Run) → Steps c g r₀ r → Steps c g r₀ (eat r)
  eat-Steps r = quietly r _ (aside r _ _ _ _ (weight-tail r.parv))

  pub say_once-Steps :
      (err : ℕ) (m : Sent) (r : Run) → Steps c g r₀ r → Steps c g r₀ (say_once err m r)
  unfolding say_once
  say_once-Steps err m r s =
      by_if _ _ _ (λ _. s) (λ _. say-Steps m (marked err r) (marked-Steps err r s))

  pub refuse-Steps : (m : Sent) (r : Run) → Steps c g r₀ r → Steps c g r₀ (refuse c m r)
  unfolding refuse
  refuse-Steps m r s = by_if _ _ _ (λ _. say_once-Steps sm_err_noops m r s) (λ _. s)

  pub mark_and_refuse-Steps : (r : Run) → Steps c g r₀ r → Steps c g r₀ (mark_and_refuse c r)
  unfolding mark_and_refuse
  mark_and_refuse-Steps r s =
      let noted = marked-Steps sm_err_noops r s in
      by_if (has r.errors_sent sm_err_noops) _ _ (λ _. s)
        (λ _.
          by_if (is_mine c r) _ _ (λ _. say-Steps need_ops (marked sm_err_noops r) noted)
            (λ _. noted))
