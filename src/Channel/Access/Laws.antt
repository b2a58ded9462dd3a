-- ===== src/Channel/Access/Laws.antt =====
-- What can_join and get_channel of src/channel.c answer.
use igniteircd.Prelude.{
  ℕ, zero, suc, ◌≤◌, ◌<◌, ◌≡◌, ◌≢◌, refl, sym, ap, ◌∙◌, ◌↔◌, ◌⊎◌, inl, inr, Bool, true, false, not,
  ◌&&◌, Option, none, some, List, [], ◌∷◌, Text, length, take, ltb, if◌then◌else◌, Bool-cases,
  arith, All,
}
use mathlib.Core.Bool.{false≢true}
use igniteircd.Chars.Tables.{IsChar}
use igniteircd.Mask.Compare.{same_name}
use igniteircd.Mask.Compare.Laws.{same_name_refl}
use igniteircd.Hash.{hash_find_channel, add_to_channel_hash_table}
use igniteircd.Hash.Chain.{IsNamed}
use igniteircd.Hash.Names.{hash_find_channel-add}
use igniteircd.Channel.{Client, World, has, my_client, chfl_ban, mode_inviteonly}
use igniteircd.Channel.Bans.{is_banned}
use igniteircd.Channel.Members.{add_user_to_channel}
use igniteircd.Channel.Members.Links.{occurs, set-All}
use igniteircd.Channel.Members.Invite.{set-here}
use igniteircd.Channel.Members.Ending.{users-add_user_to_channel}
use igniteircd.Channel.Access.{
  is_invited, is_wrong_key, can_join, channel_objects, new_channel, create_channel,
  found_or_created, cut_name, get_channel, channellen,
}

is_invited_iff : (c : ℕ) (links : List ℕ) → (is_invited c links ≡ true) ↔ (0 < occurs c links)
unfolding is_invited
is_invited_iff c [] = (λ e. cc, λ h. absurd (omega arith))
is_invited_iff c (q ∷ links) = let ih = is_invited_iff c links in ground arith

-- A channel without a key, or the key up to the case of letters.
abbrev pub OpensKey : Text → Text → Type 0
OpensKey need key = (need ≡ []) ⊎ ((key ≢ []) × (same_name need key ≡ true))

no_empty_key : (c : ℕ) (need : Text) → OpensKey (c ∷ need) [] → ⊥
no_empty_key c need (inl e) = cc
no_empty_key c need (inr (n, e)) = n refl

some_key :
    (c : ℕ) (need key : Text) → OpensKey (c ∷ need) key → not (same_name (c ∷ need) key) ≡ false
some_key c need key (inl e) = cc
some_key c need key (inr (n, e)) = ap not e

not-false : {b : Bool} → not b ≡ false → b ≡ true
not-false {b = true} e = refl
not-false {b = false} e = cc

is_wrong_key_iff : (need key : Text) → (is_wrong_key need key ≡ false) ↔ OpensKey need key
unfolding is_wrong_key
is_wrong_key_iff [] key = (λ _. inl refl, λ _. refl)
is_wrong_key_iff (c ∷ need) [] = (λ e. cc, λ h. absurd (no_empty_key c need h))
is_wrong_key_iff (c ∷ need) (d ∷ key) =
    (λ e. inr (λ n. cc, not-false e), λ h. some_key c need (d ∷ key) h)

-- Who may join a channel that is not juped: an administrator, and any other client that no ban
-- matches, that is invited if the channel is +i, that has the key if there is one, and
-- if the channel has no limit or fewer users.
abbrev pub MayJoin : World → ℕ → ℕ → Text → Type 0
MayJoin w sptr chptr key =
    ((w.client sptr).admin ≡ true)
    ⊎ ((is_banned (w.client sptr) (w.chan chptr) ≢ chfl_ban)
        × ((has (w.chan chptr).mode.mode mode_inviteonly ≡ false)
            ⊎ (0 < occurs chptr (w.user sptr).invited))
        × OpensKey (w.chan chptr).mode.key key
        × (((w.chan chptr).mode.limit ≡ 0) ⊎ ((w.chan chptr).users < (w.chan chptr).mode.limit)))

-- `can_join` answers 0 exactly if the channel is not juped and the client is an administrator,
-- or no ban of the channel matches it, it is invited if the channel is +i, it gives the
-- key if there is one, and the channel has no limit or fewer users.
pub can_join_iff :
    (w : World) (sptr chptr : ℕ) (key : Text) (flags : ℕ)
    → ((can_join w sptr chptr key flags).0 ≡ 0)
      ↔ (((w.chan chptr).juped ≡ false) × MayJoin w sptr chptr key)
unfolding can_join
can_join_iff w sptr chptr key flags =
    let invited = is_invited_iff chptr (w.user sptr).invited in
    let opened = is_wrong_key_iff (w.chan chptr).mode.key key in ground arith

-- A client who is no administrator and whom `can_join` lets in does not bring the channel over
-- its limit.
pub can_join-limit :
    (w : World) (sptr chptr : ℕ) (key : Text) (flags member_flags : ℕ)
    → (can_join w sptr chptr key flags).0 ≡ 0
    → (w.client sptr).admin ≡ false
    → (w.chan chptr).mode.limit ≢ 0
    → ((add_user_to_channel w chptr sptr member_flags).chan chptr).users ≤ (w.chan chptr).mode.limit
can_join-limit w sptr chptr key flags mf e a l =
    let (open_door, may) = (can_join_iff w sptr chptr key flags).0 e in
    let more = users-add_user_to_channel w sptr chptr mf in
    elim may [
      | inl admin ↦ absurd (false≢true (sym a ∙ admin))
      | inr (banned, invited, opened, inl none_set) ↦ absurd (l none_set)
      | inr (banned, invited, opened, inr below) ↦ omega (arith, more, below)
    ]

All-take : (n : ℕ) (s : Text) → All IsChar s → All IsChar (take n s)
All-take zero s h = tt
All-take (suc n) [] h = h
All-take (suc n) (c ∷ s) h = (h.0, All-take n s h.1)

cut_name-IsChar : (c : Client) (s : Text) → All IsChar s → All IsChar (cut_name c s)
unfolding cut_name
cut_name-IsChar c s h = elim (Bool-cases (my_client c && ltb channellen (length s))) [
  | inl t ↦ rw t (All-take channellen s h)
  | inr f ↦ rw f h
]

create_channel-found :
    (w : World) (name : Text) (now fresh : ℕ)
    → IsNamed (channel_objects w)
    → All IsChar name
    → hash_find_channel
        (channel_objects (create_channel w name now fresh))
        (create_channel w name now fresh).table
        name
        none
      ≡ some fresh
unfolding create_channel new_channel
create_channel-found w name now fresh named h =
    let w' = create_channel w name now fresh in
    let own : (w'.chan fresh).chname ≡ name =
      ap (λ ch. ch.chname) (set-here w.chan fresh (new_channel name now)) in
    let named' : IsNamed (channel_objects w') =
      set-All (λ ch. All IsChar ch.chname) w.chan fresh (new_channel name now) named h in
    let same : same_name name ((w'.chan fresh).chname) ≡ true =
      ap (same_name name) own ∙ same_name_refl name in
    ap
      (λ s.
        hash_find_channel (channel_objects w') (add_to_channel_hash_table s fresh w.table) name
          none)
      (sym own)
    ∙ hash_find_channel-add (channel_objects w') w.table name fresh named' h
    ∙ ap (λ b. if b then some fresh else hash_find_channel (channel_objects w') w.table name none)
        same

found_or_created_lem :
    (w : World) (name : Text) (now fresh : ℕ) (o : Option ℕ)
    → IsNamed (channel_objects w)
    → All IsChar name
    → hash_find_channel (channel_objects w) w.table name none ≡ o
    → (p : ℕ) × ((found_or_created w name true now fresh o).1 ≡ some p)
      × (hash_find_channel
            (channel_objects (found_or_created w name true now fresh o).0)
            (found_or_created w name true now fresh o).0.table
            name
            none
          ≡ some p)
unfolding found_or_created
found_or_created_lem w name now fresh (some p) named h e = (p, refl, e)
found_or_created_lem w name now fresh none named h e =
    (fresh, refl, create_channel-found w name now fresh named h)

-- With CREATE a name that is not empty leads to a channel, and it is the one that a search by
-- the name, cut off for a local client, finds afterwards. All names hold bytes and no NUL.
pub get_channel-found :
    (w : World) (cptr : ℕ) (chname : Text) (now fresh : ℕ)
    → IsNamed (channel_objects w)
    → All IsChar chname
    → chname ≢ []
    → (p : ℕ) × ((get_channel w cptr chname true now fresh).1 ≡ some p)
      × (hash_find_channel
            (channel_objects (get_channel w cptr chname true now fresh).0)
            (get_channel w cptr chname true now fresh).0.table
            (cut_name (w.client cptr) chname)
            none
          ≡ some p)
unfolding get_channel
get_channel-found w cptr [] now fresh named h e = absurd (e refl)
get_channel-found w cptr (c ∷ cs) now fresh named h e =
    let name = cut_name (w.client cptr) (c ∷ cs) in
    found_or_created_lem w name now fresh (hash_find_channel (channel_objects w) w.table name none)
      named (cut_name-IsChar (w.client cptr) (c ∷ cs) h) refl
