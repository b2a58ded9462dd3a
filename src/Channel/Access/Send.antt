-- ===== src/Channel/Access/Send.antt =====
-- What can_send of src/channel.c answers.
use igniteircd.Prelude.{
  ℕ, ◌<◌, ◌≡◌, refl, sym, ap, ◌∙◌, ◌↔◌, ◌⊎◌, inl, inr, true, false, ◌&&◌, List, [], ◌∷◌, ◌++◌, ◌==◌,
  Bool-cases, arith, subst, ==_iff,
}
use igniteircd.Channel.{Channel, Member, World, find_user_link, has, my_client}
use igniteircd.Channel.Members.Links.{occurs, member_ids}
use igniteircd.Channel.Access.{is_some, may_speak, can_send}
use igniteircd.Channel.Access.Flags.{has-either}

-- The client's first link in the list of members has CHFL_CHANOP, 1, or CHFL_VOICE, 2.
abbrev pub Speaks : List Member → ℕ → Type 0
Speaks members p =
    (front back : List Member) × (m : Member) × (members ≡ front ++ m ∷ back)
    × (occurs p (member_ids front) ≡ 0)
    × (m.cptr ≡ p)
    × ((has m.flags 1 ≡ true) ⊎ (has m.flags 2 ≡ true))

nil-Speaks : (p : ℕ) → Speaks [] p → ⊥
nil-Speaks p ([], back, m, q, f, e, s) = cc
nil-Speaks p (d ∷ front, back, m, q, f, e, s) = cc

head-Speaks :
    (d : Member) (members : List Member) (p : ℕ)
    → (d.cptr == p) ≡ true
    → Speaks (d ∷ members) p
    → (has d.flags 1 ≡ true) ⊎ (has d.flags 2 ≡ true)
head-Speaks d members p t ([], back, m, q, f, e, s) =
    let same : m ≡ d = cc in subst (λ x. (has x.flags 1 ≡ true) ⊎ (has x.flags 2 ≡ true)) same s
head-Speaks d members p t (a ∷ front, back, m, q, f, e, s) =
    let same : a ≡ d = cc in
    let own : a.cptr ≡ p = ap (λ x. x.cptr) same ∙ (==_iff d.cptr p).0 t in
    absurd (ground (arith, f, own))

tail-Speaks :
    (d : Member) (members : List Member) (p : ℕ)
    → (d.cptr == p) ≡ false
    → Speaks (d ∷ members) p
    → Speaks members p
tail-Speaks d members p n ([], back, m, q, f, e, s) =
    let same : m ≡ d = cc in
    let own : d.cptr ≡ p = ap (λ x. x.cptr) (sym same) ∙ e in absurd (ground (arith, n, own))
tail-Speaks d members p n (a ∷ front, back, m, q, f, e, s) =
    let rest : members ≡ front ++ m ∷ back = cc in
    let none_before : occurs p (member_ids front) ≡ 0 = ground (arith, f) in
    (front, back, m, rest, none_before, e, s)

cons-Speaks :
    (d : Member) (members : List Member) (p : ℕ)
    → (d.cptr == p) ≡ false
    → Speaks members p
    → Speaks (d ∷ members) p
cons-Speaks d members p n (front, back, m, q, f, e, s) =
    let none_before : occurs p (member_ids (d ∷ front)) ≡ 0 = ground (arith, n, f) in
    (d ∷ front, back, m, ap (◌∷◌ d) q, none_before, e, s)

may_speak_iff :
    (members : List Member) (p : ℕ)
    → (may_speak (find_user_link members p) ≡ true) ↔ Speaks members p
unfolding find_user_link may_speak
may_speak_iff [] p = (λ e. cc, λ h. absurd (nil-Speaks p h))
may_speak_iff (d ∷ members) p =
    let (there, back) = may_speak_iff members p in
    let (either, both) = has-either d.flags in
    elim (Bool-cases (d.cptr == p)) [
      | inl t ↦ rw t (
        λ h. ([], members, d, refl, refl, (==_iff d.cptr p).0 t, either h),
        λ h. both (head-Speaks d members p t h),
      )
      | inr f ↦
          rw f (λ h. cons-Speaks d members p f (there h), λ h. back (tail-Speaks d members p f h))
    ]

is_some_iff :
    (members : List Member) (p : ℕ)
    → (is_some (find_user_link members p) ≡ true) ↔ (0 < occurs p (member_ids members))
unfolding find_user_link
is_some_iff [] p = (λ e. cc, λ h. absurd (omega arith))
is_some_iff (d ∷ members) p = let ih = is_some_iff members p in ground arith

-- Who may send to a channel: not a local client to a juped channel; under +m a member whose
-- link has +o or +v, and under +n a member.
abbrev pub MaySend : World → ℕ → Channel → Type 0
MaySend w cptr ch =
    ((my_client (w.client cptr) && ch.juped) ≡ false)
    × ((has ch.mode.mode 32 ≡ false) ⊎ Speaks ch.members cptr)
    × ((has ch.mode.mode 256 ≡ false) ⊎ (0 < occurs cptr (member_ids ch.members)))

-- `can_send` answers 0 exactly to a client that is not a local one on a juped channel, whose
-- first link among the members has +o or +v if the channel is +m, and that is among the members
-- if the channel is +n.
pub can_send_iff :
    (w : World) (cptr : ℕ) (ch : Channel) → (can_send w cptr ch ≡ 0) ↔ MaySend w cptr ch
unfolding can_send
can_send_iff w cptr ch =
    let speaks = may_speak_iff ch.members cptr in
    let member = is_some_iff ch.members cptr in ground arith
