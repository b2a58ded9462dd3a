-- ===== src/Channel/Bans/Keep.antt =====
-- The ban lists of src/channel.c stand apart from the members, the user count and the
-- invitations.
use igniteircd.Prelude.{
  ℕ, ◌≡◌, refl, sym, ap, ◌∙◌, inl, inr, Bool-cases, List, Option, none, some, Text, arith,
}
use igniteircd.Channel.{Ban, Channel, Client, is_person}
use igniteircd.Channel.Bans.{
  Answer, add_banid, del_banid, del_exceptid, drop_ban, drop_exception, take_out, hits,
  del_matching_exception, free_bans_exceptions_denies,
}

abbrev pub KeepsMembers : Channel → Channel → Type 0
KeepsMembers ch ch' =
    (ch'.members ≡ ch.members) × (ch'.users ≡ ch.users) × (ch'.invites ≡ ch.invites)

drop_exception-KeepsMembers :
    (ch : Channel) (o : Option (List Ban)) → KeepsMembers ch (drop_exception ch o)
unfolding drop_exception
drop_exception-KeepsMembers ch none = (refl, refl, refl)
drop_exception-KeepsMembers ch (some bans) = (refl, refl, refl)

pub del_matching_exception-KeepsMembers :
    (c : Client) (ch : Channel) → KeepsMembers ch (del_matching_exception c ch)
unfolding del_matching_exception
del_matching_exception-KeepsMembers c ch = elim (Bool-cases (is_person c)) [
  | inr f ↦ rw f (refl, refl, refl)
  | inl s ↦ rw s (drop_exception-KeepsMembers ch (take_out (hits c) ch.exceptlist))
]

pub free_bans-KeepsMembers : (ch : Channel) → KeepsMembers ch (free_bans_exceptions_denies ch)
unfolding free_bans_exceptions_denies
free_bans-KeepsMembers ch = (refl, refl, refl)

abbrev pub KeepsName : Channel → Channel → Type 0
KeepsName ch ch' = (ch'.chname ≡ ch.chname) × (ch'.juped ≡ ch.juped)

drop_exception-KeepsName :
    (ch : Channel) (o : Option (List Ban)) → KeepsName ch (drop_exception ch o)
unfolding drop_exception
drop_exception-KeepsName ch none = (refl, refl)
drop_exception-KeepsName ch (some bans) = (refl, refl)

pub del_matching_exception-KeepsName :
    (c : Client) (ch : Channel) → KeepsName ch (del_matching_exception c ch)
unfolding del_matching_exception
del_matching_exception-KeepsName c ch = elim (Bool-cases (is_person c)) [
  | inr f ↦ rw f (refl, refl)
  | inl s ↦ rw s (drop_exception-KeepsName ch (take_out (hits c) ch.exceptlist))
]

-- The parts of a channel that no change of its bans touches.
pub record KeepsRest (ch ch' : Channel) : Type 0 where
  pub mode : ch'.mode ≡ ch.mode
  pub members : ch'.members ≡ ch.members
  pub invites : ch'.invites ≡ ch.invites
  pub users : ch'.users ≡ ch.users

abbrev keeps_all : (ch : Channel) → KeepsRest ch ch
keeps_all ch = record { mode = refl; members = refl; invites = refl; users = refl }

pub add_banid-KeepsRest :
    (c : Client) (now : ℕ) (ch ch' : Channel) (id : Text) (answer : Answer)
    → add_banid c now ch id ≡ (answer, ch')
    → KeepsRest ch ch'
unfolding add_banid
add_banid-KeepsRest c now ch ch' id answer e = record {
  mode = sym (ap (λ a. a.1.mode) e) ∙ ground arith;
  members = sym (ap (λ a. a.1.members) e) ∙ ground arith;
  invites = sym (ap (λ a. a.1.invites) e) ∙ ground arith;
  users = sym (ap (λ a. a.1.users) e) ∙ ground arith;
}

drop_ban-KeepsRest : (ch : Channel) (o : Option (List Ban)) → KeepsRest ch (drop_ban ch o)
unfolding drop_ban
drop_ban-KeepsRest ch none = keeps_all ch
drop_ban-KeepsRest ch (some bans) = record {
  mode = refl;
  members = refl;
  invites = refl;
  users = refl;
}

pub del_banid-KeepsRest : (ch : Channel) (id : Text) → KeepsRest ch (del_banid ch (some id))
unfolding del_banid
del_banid-KeepsRest ch id = drop_ban-KeepsRest ch _

drop_exception-KeepsRest :
    (ch : Channel) (o : Option (List Ban)) → KeepsRest ch (drop_exception ch o)
unfolding drop_exception
drop_exception-KeepsRest ch none = keeps_all ch
drop_exception-KeepsRest ch (some bans) = record {
  mode = refl;
  members = refl;
  invites = refl;
  users = refl;
}

pub del_exceptid-KeepsRest : (ch : Channel) (id : Text) → KeepsRest ch (del_exceptid ch (some id))
unfolding del_exceptid
del_exceptid-KeepsRest ch id = drop_exception-KeepsRest ch _

pub free_bans-KeepsRest : (ch : Channel) → KeepsRest ch (free_bans_exceptions_denies ch)
unfolding free_bans_exceptions_denies
free_bans-KeepsRest ch = record { mode = refl; members = refl; invites = refl; users = refl }
