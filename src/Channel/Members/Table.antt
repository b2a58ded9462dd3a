-- ===== src/Channel/Members/Table.antt =====
-- The end of a channel in src/channel.c takes it out of the hash table of channels.
use igniteircd.Prelude.{
  ℕ, zero, suc, ◌≤◌, ◌≡◌, refl, ap, ◌∙◌, inl, inr, Bool, true, false, ◌&&◌, Option, none, some,
  List, [], ◌∷◌, Text, length, leb, All, arith, Bool-cases, if◌then◌else◌,
}
use mathlib.Core.Path.{ap₂}
use igniteircd.Chars.Tables.{IsChar}
use igniteircd.Mask.Compare.{same_name}
use igniteircd.Hash.{hash_channel_name, hash_find_channel, del_from_channel_hash_table}
use igniteircd.Hash.Chain.{IsNamed}
use igniteircd.Hash.Lookup.{IsValid}
use igniteircd.Hash.Names.{IsIndexed, hash_find_channel-del}
use igniteircd.Channel.{Channel, Member, World, set, find_user_link, has, chfl_exception}
use igniteircd.Channel.Access.{channel_objects}
use igniteircd.Channel.Bans.Keep.{KeepsName, del_matching_exception-KeepsName}
use igniteircd.Channel.Members.{
  drop_member, del_invite, next_invite, free_invites, free_channel, end_channel, sub1_from_channel,
  charmed_out, remove_user_from_channel,
}
use igniteircd.Channel.Members.Invite.{field-set, set-here}
use igniteircd.Channel.Members.Leave.{charmed_out-KeepsMembers, unlinked}

-- The table and the names in the channels stay.
abbrev KeepsNames : World → World → Type 0
KeepsNames w w' = (w'.table ≡ w.table) × ((c : ℕ) → (w'.chan c).chname ≡ (w.chan c).chname)

del_invite-KeepsNames : (w : World) (u c : ℕ) → KeepsNames w (del_invite w u c)
unfolding del_invite
del_invite-KeepsNames w u c = (refl, field-set (λ ch. ch.chname) w.chan c _ refl)

next_invite-KeepsNames :
    (rest : World → World) (w : World) (c : ℕ) (links : List ℕ)
    → ((w' : World) → KeepsNames w' (rest w'))
    → KeepsNames w (next_invite rest w c links)
unfolding next_invite
next_invite-KeepsNames rest w c [] ih = (refl, λ d. refl)
next_invite-KeepsNames rest w c (p ∷ links) ih =
    let (table, names) = ih (del_invite w p c) in
    let (table', names') = del_invite-KeepsNames w p c in (table ∙ table', λ d. names d ∙ names' d)

free_invites-KeepsNames : (n : ℕ) (w : World) (c : ℕ) → KeepsNames w (free_invites n w c)
unfolding free_invites
free_invites-KeepsNames zero w c = (refl, λ d. refl)
free_invites-KeepsNames (suc n) w c =
    next_invite-KeepsNames (λ w'. free_invites n w' c) w c (w.chan c).invites
      (λ w'. free_invites-KeepsNames n w' c)

table-end_channel :
    (j : Bool) (w : World) (c : ℕ)
    → j ≡ false
    → (end_channel j w c).table ≡ del_from_channel_hash_table (w.chan c).chname c w.table
unfolding end_channel free_channel
table-end_channel true w c e = cc
table-end_channel false w c e = refl

table-sub1_from_channel :
    (w : World) (c : ℕ)
    → (w.chan c).users ≤ 1
    → (w.chan c).juped ≡ false
    → (sub1_from_channel w c).table ≡ del_from_channel_hash_table (w.chan c).chname c w.table
unfolding sub1_from_channel
table-sub1_from_channel w c few j =
    let t : leb (w.chan c).users 1 ≡ true = ground arith in
    let w0 = record w { chan = set w.chan c (record (w.chan c) { users = 0 }) } in
    let n = length (w.chan c).invites in
    let (table, names) = free_invites-KeepsNames n w0 c in
    let own = field-set (λ ch. ch.chname) w.chan c (record (w.chan c) { users = 0 }) refl c in
    rw t (
      table-end_channel (w.chan c).juped (free_invites n w0 c) c j
      ∙ ap₂ (λ s x. del_from_channel_hash_table s c x) (names c ∙ own) table)

charmed_out-KeepsName :
    (w : World) (u : ℕ) (ch : Channel) (k : Bool) (o : Option Member)
    → KeepsName ch (charmed_out w u ch k o)
unfolding charmed_out
charmed_out-KeepsName w u ch k none = (refl, refl)
charmed_out-KeepsName w u ch k (some m) = elim (Bool-cases (k && has m.flags chfl_exception)) [
  | inr f ↦ rw f (refl, refl)
  | inl t ↦ rw t (del_matching_exception-KeepsName (w.client u) ch)
]

table-remove_user_from_channel :
    (w : World) (u c : ℕ) (was_kicked : Bool)
    → (w.chan c).users ≤ 1
    → (w.chan c).juped ≡ false
    → (remove_user_from_channel w u c was_kicked).table
      ≡ del_from_channel_hash_table (w.chan c).chname c w.table
unfolding remove_user_from_channel
table-remove_user_from_channel w u c k few j =
    let o = find_user_link (w.chan c).members u in
    let ch = charmed_out w u (w.chan c) k o in
    let (name, juped) = charmed_out-KeepsName w u (w.chan c) k o in
    let kept = charmed_out-KeepsMembers w u (w.chan c) k o in
    let here : (unlinked w u c ch).chan c ≡ record ch { members = drop_member u ch.members } =
      set-here w.chan c (record ch { members = drop_member u ch.members }) in
    let users : ((unlinked w u c ch).chan c).users ≡ (w.chan c).users =
      ap (λ x. x.users) here ∙ kept.1 in
    table-sub1_from_channel (unlinked w u c ch) c (omega (arith, users, few))
      (ap (λ x. x.juped) here ∙ juped ∙ j)
    ∙ ap (λ s. del_from_channel_hash_table s c w.table) (ap (λ x. x.chname) here ∙ name)

-- When the last member leaves a channel that is not juped, a search by its name in any case
-- finds no channel, a search by another name finds what it found, and the table stays valid. The
-- channel lies in a valid table, and the names, those before it left, hold bytes and no NUL.
pub hash_find_channel-remove_user :
    (w : World) (u c : ℕ) (was_kicked : Bool) (name : Text)
    → IsNamed (channel_objects w)
    → All IsChar name
    → IsValid hash_channel_name (channel_objects w) w.table
    → IsIndexed hash_channel_name (channel_objects w) w.table c
    → (w.chan c).users ≤ 1
    → (w.chan c).juped ≡ false
    → (hash_find_channel
          (channel_objects w)
          (remove_user_from_channel w u c was_kicked).table
          name
          none
        ≡ (if same_name name (w.chan c).chname
            then none
            else hash_find_channel (channel_objects w) w.table name none))
      × IsValid hash_channel_name
          (channel_objects w)
          (remove_user_from_channel w u c was_kicked).table
hash_find_channel-remove_user w u c k name named h v i few j =
    rw (table-remove_user_from_channel w u c k few j)
      (hash_find_channel-del (channel_objects w) w.table name c named h v i)
