-- ===== src/Channel/Members/Invite.antt =====
-- Invitations in src/channel.c: what del_invite and add_invite keep.
use igniteircd.Prelude.{
  ℕ, ◌-◌, ◌≡◌, refl, ap, ◌∙◌, List, [], ◌∷◌, ◌++◌, length, leb, drop, if◌then◌else◌, ==-refl,
}
use igniteircd.Channel.{World, set}
use igniteircd.Channel.Members.{drop_link, del_invite, max_channels_per_user}
use igniteircd.Channel.Members.Links.{
  Linked, Linked-set, Linked-write, set-map, set-same, IsConsistent, occurs-drop_link, invites_of,
  invited_of,
}

-- What the operations on invitations keep: the members and the counters, in any state.
pub record Keeps (w w' : World) : Type 0 where
  pub chan_members : (c : ℕ) → (w'.chan c).members ≡ (w.chan c).members
  pub chan_users : (c : ℕ) → (w'.chan c).users ≡ (w.chan c).users
  pub user_channel : (u : ℕ) → (w'.user u).channel ≡ (w.user u).channel
  pub user_joined : (u : ℕ) → (w'.user u).joined ≡ (w.user u).joined

pub Keeps-trans : (w w' w'' : World) → Keeps w w' → Keeps w' w'' → Keeps w w''
Keeps-trans w w' w'' a b = record {
  chan_members = λ c. b.chan_members c ∙ a.chan_members c;
  chan_users = λ c. b.chan_users c ∙ a.chan_users c;
  user_channel = λ u. b.user_channel u ∙ a.user_channel u;
  user_joined = λ u. b.user_joined u ∙ a.user_joined u;
}

pub Keeps-refl : (w : World) → Keeps w w
Keeps-refl w = record {
  chan_members = λ c. refl;
  chan_users = λ c. refl;
  user_channel = λ u. refl;
  user_joined = λ u. refl;
}

-- A write that leaves a field.
pub field-set {ℓ κ} :
    {A : Type ℓ} {B : Type κ} (g : A → B) (f : ℕ → A) (i : ℕ) (x : A)
    → g x ≡ g (f i)
    → (j : ℕ) → g (set f i x j) ≡ g (f j)
field-set g f i x e j =
    set-map g f i x j ∙ ap (λ y. set (λ k. g (f k)) i y j) e ∙ set-same (λ k. g (f k)) i j

pub del_invite-Keeps : (w : World) (u c : ℕ) → Keeps w (del_invite w u c)
unfolding del_invite
del_invite-Keeps w u c = record {
  chan_members = field-set (λ ch. ch.members) w.chan c _ refl;
  chan_users = field-set (λ ch. ch.users) w.chan c _ refl;
  user_channel = field-set (λ user. user.channel) w.user u _ refl;
  user_joined = field-set (λ user. user.joined) w.user u _ refl;
}

pub del_invite-Linked :
    (w : World) (u c : ℕ)
    → Linked (invites_of w) (invited_of w)
    → Linked (invites_of (del_invite w u c)) (invited_of (del_invite w u c))
unfolding del_invite
del_invite-Linked w u c h =
    Linked-write (λ ch. ch.invites) (λ user. user.invited) w.chan w.user c u _ _
      (Linked-set (λ k. k - 1) (invites_of w) (invited_of w) u c _ _ h
        (λ v. occurs-drop_link v u (invites_of w c)) (λ d. occurs-drop_link d c (invited_of w u)))

pub Keeps-IsConsistent :
    (w w' : World)
    → Keeps w w'
    → Linked (invites_of w') (invited_of w')
    → IsConsistent w
    → IsConsistent w'
Keeps-IsConsistent w w' k l v = record {
  members = λ u c. rw (k.chan_members c, k.user_channel u) (v.members u c);
  invites = l;
  joined = λ u. rw (k.user_joined u, k.user_channel u) (v.joined u);
  counted = λ c. rw (k.chan_users c, k.chan_members c) (v.counted c);
}

-- The removal of an invitation keeps both sides of all links in step.
pub del_invite-IsConsistent :
    (w : World) (u c : ℕ) → IsConsistent w → IsConsistent (del_invite w u c)
del_invite-IsConsistent w u c v =
    Keeps-IsConsistent w (del_invite w u c) (del_invite-Keeps w u c)
      (del_invite-Linked w u c v.invites) v

abbrev invite_step : World → ℕ → ℕ → World
invite_step w u c = record w {
  chan = set w.chan c (record (w.chan c) { invites = u ∷ (w.chan c).invites });
  user = set w.user u (record (w.user u) { invited = (w.user u).invited ++ c ∷ [] });
}

pub set-here {ℓ} : {A : Type ℓ} (f : ℕ → A) (i : ℕ) (x : A) → set f i x i ≡ x
set-here f i x = rw (==-refl i) refl

pub drop_link-head : (p : ℕ) (links : List ℕ) → drop_link p (p ∷ links) ≡ links
unfolding drop_link
drop_link-head p links = rw (==-refl p) refl

-- The client's older invitations, without one to the channel itself: all of them if there are
-- fewer than MAXCHANNELSPERUSER, else all but the first, which is the oldest.
abbrev pub older : World → ℕ → ℕ → List ℕ
older w u c =
    let left = drop_link c (invited_of w u) in
    if leb max_channels_per_user (length left) then drop 1 left else left
