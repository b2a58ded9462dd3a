-- ===== src/Channel/Modes/Sound/Params.antt =====
-- The cases o, v and k of set_channel_mode in src/channel.c make steps of the relation.
use igniteircd.Prelude.{
  ℕ, ◌+◌, ◌≤◌, ◌≡◌, true, false, not, ◌&&◌, ◌||◌, Option, none, some, List, [], ◌∷◌, Text, length,
  take, ◌==◌, leb, arith, Bool-cases, inl, inr,
}
use igniteircd.Channel.Names.{check_string}
use igniteircd.Channel.Names.Laws.{length-take_le}
use igniteircd.Channel.Modes.Run.{
  Call, Rights, Run, source, is_mine, is_adding, is_deleting, is_querying, need_ops, opped_himself,
  say, eat, tail, is_member, find_chasing, modebuflen, maxmodeparams, keylen,
}
use igniteircd.Channel.Modes.Params.{
  op_change, deop, log_own_op, deop_marked, mark_deopped, op_or_deop, op_found, op_param, op_case,
  same_text, key_written, key_added, key_deleted, key_cut, key_once, key_param, key_case,
}
use igniteircd.Channel.Modes.Step.{
  Quiet, HasRoom, status_changed, marked_deopped, key_changed, Steps, after,
}
use igniteircd.Channel.Modes.Sound.{
  by_if, quietly, say-Steps, eat-Steps, say_once-Steps, refuse-Steps, mark_and_refuse-Steps,
  key_counted, weight-tail,
}

module _ (c : Call) (g : Rights) (r₀ : Run) where
  op_change-Steps :
      (letter : ℕ) (arg : Text) (who : ℕ) (r : Run)
      → HasRoom c r
      → (letter == b'o' || letter == b'v') ≡ true
      → is_querying r.sign ≡ false
      → Steps c g r₀ r
      → Steps c g r₀ (op_change c g letter arg who r)
  unfolding op_change
  op_change-Steps letter arg who r room l q s =
      by_if c g r₀ (not g.isok) _ _ (λ _. refuse-Steps c g r₀ need_ops r s)
        (λ ok.
          by_if c g r₀ (leb modebuflen (r.len + length arg + 2)) _ _ (λ _. s)
            (λ _. after r _ s (status_changed letter arg who r (ground (arith, ok)) room l q)))

  op_or_deop-Steps :
      (letter : ℕ) (arg : Text) (who : ℕ) (r : Run)
      → HasRoom c r
      → (letter == b'o' || letter == b'v') ≡ true
      → is_querying r.sign ≡ false
      → Steps c g r₀ r
      → Steps c g r₀ (op_or_deop c g letter arg who r)
  unfolding op_or_deop deop
  op_or_deop-Steps letter arg who r room l q s =
      let w = r.world in
      let go = op_change-Steps letter arg who r room l q s in
      by_if c g r₀ (letter == b'o' && is_deleting r.sign) _ _
        (λ _.
          by_if c g r₀ ((w.client c.sptr).admin && (w.client who).admin && c.sptr == who) _ _
            (λ _. say-Steps c g r₀ _ r s)
            (λ _. by_if c g r₀ (w.client who).admin _ _ (λ _. say-Steps c g r₀ _ r s) (λ _. go)))
        (λ _. go)

  -- Neither the log nor the mark touches the tests that follow.
  mark_deopped-Steps :
      (letter : ℕ) (arg : Text) (who : ℕ) (r : Run)
      → HasRoom c r
      → (letter == b'o' || letter == b'v') ≡ true
      → is_querying r.sign ≡ false
      → Steps c g r₀ r
      → Steps c g r₀ (op_or_deop c g letter arg who (mark_deopped c g letter who r))
  mark_deopped-Steps letter arg who r room l q s =
      elim (Bool-cases (g.isdeop && letter == b'o' && is_adding r.sign)) [
        | inl t ↦ rw t (
            op_or_deop-Steps letter arg who (deop_marked c letter who r) room l q
              (after r _ s (marked_deopped letter who r (ground (arith, t)))))
        | inr f ↦ rw f (op_or_deop-Steps letter arg who r room l q s)
      ]

  log_own_op-Steps :
      (letter : ℕ) (arg : Text) (who : ℕ) (r : Run)
      → HasRoom c r
      → (letter == b'o' || letter == b'v') ≡ true
      → is_querying r.sign ≡ false
      → Steps c g r₀ r
      → Steps c g r₀ (
          op_or_deop c g letter arg who (mark_deopped c g letter who (log_own_op c g letter who r)))
  log_own_op-Steps letter arg who r room l q s =
      elim (Bool-cases (
        who == c.sptr
        && letter == b'o'
        && is_adding r.sign
        && (source c r).admin
        && not g.chan_op)) [
          | inl t ↦ rw t (
              mark_deopped-Steps letter arg who (say opped_himself r) room l q
                (say-Steps c g r₀ opped_himself r s))
          | inr f ↦ rw f (mark_deopped-Steps letter arg who r room l q s)
        ]

  op_found-Steps :
      (letter : ℕ) (arg : Text) (o : Option ℕ) (r : Run)
      → HasRoom c r
      → (letter == b'o' || letter == b'v') ≡ true
      → is_querying r.sign ≡ false
      → Steps c g r₀ r
      → Steps c g r₀ (op_found c g letter arg o r)
  unfolding op_found
  op_found-Steps letter arg none r room l q s = say-Steps c g r₀ _ r s
  op_found-Steps letter arg (some who) r room l q s =
      by_if c g r₀ (not (r.world.client who).has_user) _ _ (λ _. s)
        (λ _.
          by_if c g r₀ (not (is_member r.world who c.chptr)) _ _
            (λ _. by_if c g r₀ (is_mine c r) _ _ (λ _. say-Steps c g r₀ _ r s) (λ _. s))
            (λ _. log_own_op-Steps letter arg who r room l q s))

  op_param-Steps :
      (letter : ℕ) (parv : List Text) (r : Run)
      → (letter == b'o' || letter == b'v') ≡ true
      → is_querying r.sign ≡ false
      → Steps c g r₀ r
      → Steps c g r₀ (op_param c g letter parv r)
  unfolding op_param
  op_param-Steps letter [] r l q s = s
  op_param-Steps letter (p ∷ parv) r l q s =
      let arg = check_string (some p) in
      by_if c g r₀ (is_mine c r && leb maxmodeparams r.opcnt) _ _ (λ _. s)
        (λ f.
          op_found-Steps letter arg (find_chasing c r.world arg) r (λ m. ground (arith, f, m)) l q
            s)

  pub op_case-Steps :
      (letter : ℕ) (r : Run)
      → (letter == b'o' || letter == b'v') ≡ true
      → Steps c g r₀ r
      → Steps c g r₀ (op_case c g letter r)
  unfolding op_case
  op_case-Steps letter r l s =
      by_if c g r₀ (is_mine c r && not (is_member r.world c.sptr c.chptr)) _ _
        (λ _. eat-Steps c g r₀ _ (say_once-Steps c g r₀ 0x40 _ r s))
        (λ _.
          by_if c g r₀ (is_querying r.sign) _ _ (λ _. s)
            (λ q. op_param-Steps letter r.parv (eat r) l q (eat-Steps c g r₀ r s)))

  -- From the state before the counter, which lets only the first `k` of a call through.
  module _ (r r' : Run) (z : r.keychange ≡ 0) (q : Quiet r r') (one : r'.keychange ≡ 1)
      (n : is_querying r'.sign ≡ false) (s : Steps c g r₀ r) where
    key_change-Steps :
        (arg key : Text) (tmp : ℕ)
        → g.isok ≡ true
        → length key ≤ keylen
        → Steps c g r₀ (key_written c arg tmp key r')
    key_change-Steps arg key tmp ok h = after r _ s (key_changed arg key tmp r r' ok z q one h n)

    key_added-Steps : (arg old : Text) → g.isok ≡ true → Steps c g r₀ (key_added c arg old r')
    unfolding key_added
    key_added-Steps arg [] ok = key_change-Steps arg _ _ ok (length-take_le keylen arg)
    key_added-Steps arg (d ∷ old) ok =
        by_if c g r₀ (same_text (d ∷ old) arg) _ _ (λ _. quietly c g r₀ r r' q s)
          (λ _. say-Steps c g r₀ _ _ (key_change-Steps arg _ _ ok (length-take_le keylen arg)))

    key_deleted-Steps : (arg key : Text) → g.isok ≡ true → Steps c g r₀ (key_deleted c arg key r')
    unfolding key_deleted
    key_deleted-Steps arg key ok =
        by_if c g r₀ (same_text arg (b'*' ∷ [])) _ _
          (λ _. key_change-Steps key [] _ ok (omega arith))
          (λ _.
            by_if c g r₀ (same_text arg key) _ _ (λ _. key_change-Steps arg [] _ ok (omega arith))
              (λ _. quietly c g r₀ r r' q s))

    key_once-Steps : (arg : Text) → Steps c g r₀ (key_once c g arg r')
    unfolding key_once key_cut
    key_once-Steps [] = quietly c g r₀ r r' q s
    key_once-Steps (d ∷ arg) =
        let s' = quietly c g r₀ r r' q s in
        by_if c g r₀ (not g.isok) _ _ (λ _. mark_and_refuse-Steps c g r₀ r' s')
          (λ ok.
            by_if c g r₀ (leb modebuflen (r'.len + length (take keylen (d ∷ arg)) + 2)) _ _
              (λ _. s')
              (λ _.
                by_if c g r₀ (is_deleting r'.sign) _ _
                  (λ _. key_deleted-Steps _ _ (ground (arith, ok)))
                  (λ _. key_added-Steps _ _ (ground (arith, ok)))))

  key_param-Steps :
      (r : Run) (o : Option Text)
      → is_querying r.sign ≡ false
      → Steps c g r₀ r
      → Steps c g r₀ (key_param c g o (eat r))
  unfolding key_param
  key_param-Steps r none n s = eat-Steps c g r₀ r s
  key_param-Steps r (some arg) n s =
      let q = key_counted r (tail r.parv) (weight-tail r.parv) in
      by_if c g r₀ (r.keychange == 0) _ _
        (λ z. key_once-Steps r _ (ground (arith, z)) q (ground (arith, z)) n s arg)
        (λ _. quietly c g r₀ r _ q s)

  pub key_case-Steps : (r : Run) → Steps c g r₀ r → Steps c g r₀ (key_case c g r)
  unfolding key_case
  key_case-Steps r s = by_if c g r₀ (is_querying r.sign) _ _ (λ _. s) (λ n. key_param-Steps r _ n s)
