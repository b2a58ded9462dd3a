-- ===== src/Channel/Modes/Sound/Loop.antt =====
-- The loop of set_channel_mode in src/channel.c ends, by steps of the relation.
use igniteircd.Prelude.{
  ℕ, zero, suc, ◌+◌, ◌≤◌, ◌≡◌, refl, ap, Option, some, List, [], ◌∷◌, Text, length, ◌==◌, ◌||◌,
  arith, if◌then◌else◌,
}
use igniteircd.Channel.{World, mode_moderated, mode_noprivmsgs}
use igniteircd.Channel.Modes.Run.{
  Call, Rights, Run, Sign, adding, deleting, querying, is_mine, is_querying, rights,
}
use igniteircd.Channel.Modes.Flags.{flag_case, registered_case, invite_case, jupe_case}
use igniteircd.Channel.Modes.Loop.{
  with_sign, unknown_case, mode_char, next_string, mode_loop, finish, finished, started, weight,
  set_channel_mode,
}
use igniteircd.Channel.Modes.Step.{
  moderated, no_messages, is_private, is_secret, topic_limit, Ticket, local_client, other, Step,
  quiet, flag_set, flag_cleared, invites_ended, limit_set, limit_cleared, key_changed,
  status_changed, marked_deopped, ban_set, ban_removed, exception_removed, juped, ended, Steps,
  start, Steps-kept,
}
use igniteircd.Channel.Modes.Sound.{aside, by_if, quietly, say_once-Steps}
use igniteircd.Channel.Modes.Sound.Flags.{
  flag_case-Steps, registered_case-Steps, invite_case-Steps, jupe_case-Steps, limit_case-Steps,
}
use igniteircd.Channel.Modes.Sound.Params.{op_case-Steps, key_case-Steps}
use igniteircd.Channel.Modes.Sound.Masks.{ban_case-Steps, exception_case-Steps}

module _ (c : Call) (g : Rights) (r₀ : Run) where
  with_sign-Steps : (sign : Sign) (r : Run) → Steps c g r₀ r → Steps c g r₀ (with_sign sign r)
  with_sign-Steps sign r = quietly c g r₀ r _ (aside r _ _ _ _ (omega arith))

  unknown_case-Steps :
      (letter : ℕ) (r : Run) → Steps c g r₀ r → Steps c g r₀ (unknown_case c letter r)
  unfolding unknown_case
  unknown_case-Steps letter r s =
      by_if c g r₀ (is_querying r.sign) _ _ (λ _. s)
        (λ _. by_if c g r₀ (is_mine c r) _ _ (λ _. say_once-Steps c g r₀ 4 _ r s) (λ _. s))

  -- The letters of the flags and the others without a parameter.
  abbrev flag_letters : ℕ → Run → Run
  flag_letters letter r =
      if letter == b'i'
      then invite_case c g r
      else if letter == b'j'
      then jupe_case c r
      else if letter == b'm'
      then flag_case c g b'm' mode_moderated r
      else if letter == b'n'
      then flag_case c g b'n' mode_noprivmsgs r
      else if letter == b'p'
      then flag_case c g b'p' 8 r
      else if letter == b's'
      then flag_case c g b's' 16 r
      else if letter == b'r'
      then registered_case c 16384 r
      else if letter == b't'
      then flag_case c g b't' 64 r
      else unknown_case c letter r

  flag_letters-Steps :
      (letter : ℕ) (r : Run) → Steps c g r₀ r → Steps c g r₀ (flag_letters letter r)
  flag_letters-Steps letter r s =
      by_if c g r₀ (letter == b'i') _ _ (λ _. invite_case-Steps c g r₀ r s)
        (λ _.
          by_if c g r₀ (letter == b'j') _ _ (λ _. jupe_case-Steps c g r₀ r s)
            (λ _.
              by_if c g r₀ (letter == b'm') _ _
                (λ _. flag_case-Steps c g r₀ b'm' _ r moderated refl s)
                (λ _.
                  by_if c g r₀ (letter == b'n') _ _
                    (λ _. flag_case-Steps c g r₀ b'n' _ r no_messages refl s)
                    (λ _.
                      by_if c g r₀ (letter == b'p') _ _
                        (λ _. flag_case-Steps c g r₀ b'p' _ r is_private refl s)
                        (λ _.
                          by_if c g r₀ (letter == b's') _ _
                            (λ _. flag_case-Steps c g r₀ b's' _ r is_secret refl s)
                            (λ _.
                              by_if c g r₀ (letter == b'r') _ _
                                (λ _. registered_case-Steps c g r₀ r s)
                                (λ _.
                                  by_if c g r₀ (letter == b't') _ _
                                    (λ _. flag_case-Steps c g r₀ b't' _ r topic_limit refl s)
                                    (λ _. unknown_case-Steps letter r s))))))))

  -- A letter makes steps of the relation.
  pub mode_char-Steps :
      (letter : ℕ) (r : Run) → Steps c g r₀ r → Steps c g r₀ (mode_char c g letter r)
  unfolding mode_char
  mode_char-Steps letter r s =
      by_if c g r₀ (letter == b'+') _ _ (λ _. with_sign-Steps adding r s)
        (λ _.
          by_if c g r₀ (letter == b'-') _ _ (λ _. with_sign-Steps deleting r s)
            (λ _.
              by_if c g r₀ (letter == b'=') _ _ (λ _. with_sign-Steps querying r s)
                (λ _.
                  by_if c g r₀ (letter == b'o' || letter == b'v') _ _
                    (λ l. op_case-Steps c g r₀ letter r l s)
                    (λ _.
                      by_if c g r₀ (letter == b'k') _ _ (λ _. key_case-Steps c g r₀ r s)
                        (λ _.
                          by_if c g r₀ (letter == b'e') _ _ (λ _. exception_case-Steps c g r₀ r s)
                            (λ _.
                              by_if c g r₀ (letter == b'b') _ _ (λ _. ban_case-Steps c g r₀ r s)
                                (λ _.
                                  by_if c g r₀ (letter == b'l') _ _
                                    (λ _. limit_case-Steps c g r₀ r s)
                                    (λ _. flag_letters-Steps letter r s))))))))

Ticket-left : (c : Call) (letter : ℕ) (r r' : Run) → Ticket c letter r r' → r'.parv ≡ r.parv
Ticket-left c letter r _ (local_client _ d) = refl
Ticket-left c letter r _ (other _ m) = refl

-- No step adds to what is left to read.
Step-left : (c : Call) (g : Rights) (r r' : Run) → Step c g r r' → weight r'.parv ≤ weight r.parv
Step-left c g r r' (quiet _ _ q) = q.left
Step-left c g r _ (flag_set letter bit _ r' k h t) =
    omega (arith, ap weight (Ticket-left c letter r r' t))
Step-left c g r _ (flag_cleared letter bit _ r' k h t) =
    omega (arith, ap weight (Ticket-left c letter r r' t))
Step-left c g r _ (invites_ended _ r' ok t) = omega (arith, ap weight (Ticket-left c b'i' r r' t))
Step-left c g r _ (limit_set n arg _ r' ok z q one) = q.left
Step-left c g r _ (limit_cleared _ r' ok z q one) = q.left
Step-left c g r _ (key_changed arg key tmp _ r' ok z q one h n) = q.left
Step-left c g r _ (status_changed letter arg who _ ok room l q) = omega arith
Step-left c g r _ (marked_deopped letter who _ h) = omega arith
Step-left c g r _ (ban_set arg shown ch _ ok room n e) = omega arith
Step-left c g r _ (ban_removed arg _ ok room n) = omega arith
Step-left c g r _ (exception_removed arg _ ok room) = omega arith
Step-left c g r _ (juped b _ h) = omega arith
Step-left c g r _ (ended _ h e) = omega arith

mode_char-left :
    (c : Call) (g : Rights) (letter : ℕ) (r : Run)
    → weight (mode_char c g letter r).parv ≤ weight r.parv
mode_char-left c g letter r =
    Steps-kept (λ r'. weight r'.parv ≤ weight r.parv)
      (λ r' r'' step h. omega (arith, Step-left c g r' r'' step, h)) r (mode_char c g letter r)
      (mode_char-Steps c g r letter r start) (omega arith)

-- A result that steps lead to.
abbrev pub Ends : Call → Rights → Run → Option Run → Type 0
Ends c g r₀ o = (r : Run) × (o ≡ some r) × Steps c g r₀ r

next_string-Ends :
    (c : Call) (g : Rights) (r₀ : Run) (go : Text → Run → Option Run) (parv : List Text) (r : Run)
    → parv ≡ r.parv
    → Steps c g r₀ r
    → ((p : Text) (r' : Run)
        → length p + weight r'.parv + 1 ≤ weight r.parv
        → Steps c g r₀ r'
        → Ends c g r₀ (go p r'))
    → Ends c g r₀ (next_string go parv r)
unfolding next_string
next_string-Ends c g r₀ go [] r e s h = (r, refl, s)
next_string-Ends c g r₀ go (p ∷ parv) r e s h =
    h p (record r { parv = parv }) (omega (arith, ap weight e))
      (quietly c g r₀ r _ (aside r _ _ _ _ (omega (arith, ap weight e))) s)

weight_pos : (parv : List Text) → 1 ≤ weight parv
weight_pos [] = omega arith
weight_pos (p ∷ parv) = let ih = weight_pos parv in omega arith

mode_loop-Ends :
    (fuel : ℕ) (c : Call) (g : Rights) (r₀ : Run) (curr : Text) (r : Run)
    → length curr + weight r.parv ≤ fuel
    → Steps c g r₀ r
    → Ends c g r₀ (mode_loop fuel c g curr r)
unfolding mode_loop
mode_loop-Ends zero c g r₀ curr r h s = absurd (omega (arith, weight_pos r.parv))
mode_loop-Ends (suc fuel) c g r₀ [] r h s =
    next_string-Ends c g r₀ (λ curr r'. mode_loop fuel c g curr r') r.parv r refl s
      (λ p r' h' s'. mode_loop-Ends fuel c g r₀ p r' (omega (arith, h, h')) s')
mode_loop-Ends (suc fuel) c g r₀ (letter ∷ curr) r h s =
    mode_loop-Ends fuel c g r₀ curr (mode_char c g letter r)
      (omega (arith, mode_char-left c g letter r)) (mode_char-Steps c g r₀ letter r s)

-- The call always ends: its loop reads every character of its parameters at most once, in steps
-- of the relation from the variables that the call starts with.
pub set_channel_mode-Ends :
    (c : Call) (w : World) (curr : Text) (parv : List Text)
    → (r : Run) × (set_channel_mode c w curr parv ≡ some (finish r))
      × Steps c (rights c w) (started w parv) r
unfolding set_channel_mode
set_channel_mode-Ends c w curr parv =
    let (r, e, s) =
      mode_loop-Ends (length curr + weight parv) c (rights c w) (started w parv) curr
        (started w parv) (omega arith) start in
    (r, ap finished e, s)
