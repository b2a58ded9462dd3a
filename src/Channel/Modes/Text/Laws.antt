-- ===== src/Channel/Modes/Text/Laws.antt =====
-- The keys and masks that set_channel_mode of src/channel.c makes of its parameters.
use igniteircd.Prelude.{
  ℕ, ◌≤◌, ◌<◌, ◌≡◌, ◌≢◌, refl, ap, ◌∙◌, inl, inr, true, false, not, ◌&&◌, none, some, [], ◌∷◌, ◌++◌,
  Text, length, take_all, All, ltb, ◌==◌, Bool-cases, arith, ==-refl,
}
use igniteircd.Channel.Names.{is_space, make_nick_user_host, nicklen, userlen, hostlen}
use igniteircd.Channel.Names.Laws.{check_string-same}
use igniteircd.Channel.Modes.Text.{
  split_first, split_last, contains, pretty_user, pretty_split, pretty_mask, fix_key, fix_key_old,
  low7,
}

abbrev pub IsKeyChar : ℕ → Type 0
IsKeyChar c = (b' ' < c) × (c < 128) × (c ≢ b':')

kept_char : (c : ℕ) → (not (c == b':') && ltb b' ' c) ≡ true → c < 128 → IsKeyChar c
kept_char c h s = (ground arith, s, λ e. ground arith)

kept_char_test : (c : ℕ) → IsKeyChar c → (not (c == b':') && ltb b' ' c) ≡ true
kept_char_test c (h, s, n) = ground (arith, h, n)

low7_same : (c : ℕ) → c < 128 → low7 c ≡ c
low7_same c h = omega arith

fix_key-All : (s : Text) → All IsKeyChar (fix_key s)
unfolding fix_key
fix_key-All [] = tt
fix_key-All (c ∷ s) = elim (Bool-cases (not (low7 c == b':') && ltb b' ' (low7 c))) [
  | inl t ↦ rw t (kept_char (low7 c) t (omega arith), fix_key-All s)
  | inr f ↦ rw f (fix_key-All s)
]

fix_key-same : (s : Text) → All IsKeyChar s → fix_key s ≡ s
unfolding fix_key
fix_key-same [] h = refl
fix_key-same (c ∷ s) ((g, l, n), hs) =
    rw (low7_same c l) (rw (kept_char_test c (g, l, n)) (ap (◌∷◌ c) (fix_key-same s hs)))

fix_key_old-same : (s : Text) → All IsKeyChar s → fix_key_old s ≡ s
unfolding fix_key_old
fix_key_old-same [] h = refl
fix_key_old-same (c ∷ s) ((g, l, n), hs) =
    let newline : (c == 10) ≡ false = ground arith in
    let colon : (c == b':') ≡ false = ground (arith, n) in
    let nul : (c == 0) ≡ false = ground arith in
    rw (low7_same c l) (rw (newline, colon, nul) (ap (◌∷◌ c) (fix_key_old-same s hs)))

-- The key that a local client gives holds, when it is fixed, only characters above the space and
-- below 128, and no colon, and passes on as it is: neither fix_key nor the fix_key_old of another
-- server changes it again.
pub fix_key-stable :
    (s : Text)
    → All IsKeyChar (fix_key s)
      × (fix_key (fix_key s) ≡ fix_key s)
      × (fix_key_old (fix_key s) ≡ fix_key s)
fix_key-stable s =
    let h = fix_key-All s in (h, fix_key-same (fix_key s) h, fix_key_old-same (fix_key s) h)

split_first-append :
    (c : ℕ) (s t : Text) → contains c s ≡ false → split_first c (s ++ c ∷ t) ≡ some (s, t)
unfolding split_first contains
split_first-append c [] t h = rw (==-refl c) refl
split_first-append c (d ∷ s) t h = elim (Bool-cases (d == c)) [
  | inl e ↦ ground (arith, e, h)
  | inr f ↦ rw (f, split_first-append c s t (ground (arith, f, h))) refl
]

split_last-none : (c : ℕ) (s : Text) → contains c s ≡ false → split_last c s ≡ none
unfolding split_last contains
split_last-none c [] h = refl
split_last-none c (d ∷ s) h = elim (Bool-cases (d == c)) [
  | inl e ↦ ground (arith, e, h)
  | inr f ↦ rw (split_last-none c s (ground (arith, f, h))) (rw f refl)
]

split_last-append :
    (c : ℕ) (s t : Text) → contains c t ≡ false → split_last c (s ++ c ∷ t) ≡ some (s, t)
unfolding split_last
split_last-append c [] t h = rw (split_last-none c t h) (rw (==-refl c) refl)
split_last-append c (d ∷ s) t h = rw (split_last-append c s t h) refl

append_assoc : (a b s : Text) (c : ℕ) → (a ++ c ∷ b) ++ s ≡ a ++ c ∷ (b ++ s)
append_assoc [] b s c = refl
append_assoc (d ∷ a) b s c = ap (◌∷◌ d) (append_assoc a b s c)

-- A part of a mask that is taken whole.
pub record IsPart (n : ℕ) (s : Text) : Type 0 where
  pub filled : 1 ≤ length s
  pub short : length s ≤ n
  pub solid : All (λ c. is_space c ≡ false) s

-- A complete mask nick!user@host is left as it is, when its parts are not empty, hold no space and
-- have at most NICKLEN, USERLEN and HOSTLEN characters, the nick has no `!` and the host no `@`.
pub pretty_mask_complete :
    (nick user host : Text)
    → IsPart nicklen nick
    → IsPart userlen user
    → IsPart hostlen host
    → contains b'!' nick ≡ false
    → contains b'@' host ≡ false
    → pretty_mask (nick ++ b'!' ∷ (user ++ b'@' ∷ host)) ≡ nick ++ b'!' ∷ (user ++ b'@' ∷ host)
unfolding pretty_mask pretty_split pretty_user make_nick_user_host
pretty_mask_complete nick user host n u h bang at =
    let mask = nick ++ b'!' ∷ (user ++ b'@' ∷ host) in
    ap (pretty_split mask) (split_first-append b'!' nick (user ++ b'@' ∷ host) bang)
    ∙ ap (pretty_user nick (user ++ b'@' ∷ host)) (split_last-append b'@' user host at)
    ∙ rw
        (
          check_string-same nick n.filled n.solid,
          check_string-same user u.filled u.solid,
          check_string-same host h.filled h.solid,
          take_all nicklen nick n.short,
          take_all userlen user u.short,
          take_all hostlen host h.short,
        )
        (append_assoc nick user (b'@' ∷ host) b'!')
