-- ===== src/Channel/Modes/Bounds.antt =====
-- How much set_channel_mode of src/channel.c announces for a local client, and the length of the
-- key.
use igniteircd.Prelude.{
  ℕ, ◌+◌, ◌*◌, ◌≤◌, ◌≡◌, refl, sym, ap, ◌∙◌, Bool, true, false, some, List, [], ◌∷◌, ◌++◌, Text,
  length, length-append, arith, ◌==◌, if◌then◌else◌,
}
use mathlib.Core.Bool.{false≢true}
use igniteircd.Channel.{World, set, my_client}
use igniteircd.Channel.Members.Modes.{free_invites-client, sub1_from_channel-client}
use igniteircd.Channel.Modes.Text.{collapse_from, collapse_signs}
use igniteircd.Channel.Modes.Run.{Call, Rights, Run, plus, rights, is_mine, maxmodeparams}
use igniteircd.Channel.Modes.Loop.{finish, started, set_channel_mode}
use igniteircd.Channel.Modes.Step.{
  Quiet, Flag, moderated, no_messages, is_private, is_secret, topic_limit, invite_only, registered,
  Ticket, local_client, other, Step, quiet, flag_set, flag_cleared, invites_ended, limit_set,
  limit_cleared, key_changed, status_changed, marked_deopped, ban_set, ban_removed,
  exception_removed, juped, ended, Steps-kept, letters_done, HasRoom,
}
use igniteircd.Channel.Modes.Sound.Loop.{set_channel_mode-Ends}

length-collapse_from : (plus : ℕ) (s : Text) → length (collapse_from plus s) ≤ length s
unfolding collapse_from
length-collapse_from plus [] = omega arith
length-collapse_from plus (c ∷ s) =
    let same = length-collapse_from plus s in let next = length-collapse_from c s in ground arith

pub length-collapse_signs : (s : Text) → length (collapse_signs s) ≤ length s
unfolding collapse_signs
length-collapse_signs s = length-collapse_from 0 s

-- What the counters of a local client's call allow: two characters for each.
abbrev once : ℕ → ℕ
once n = if n == 0 then 0 else 1

-- With room for `k` characters more.
record IsShort (w : World) (c : Call) (k : ℕ) (r : Run) : Type 0 where
  client : r.world.client ≡ w.client
  opcnt : r.opcnt ≤ maxmodeparams
  mbuf :
      length r.mbuf + k ≤ 2 * (r.opcnt + letters_done r.done + once r.keychange + once r.limitset)
  mbuf_new : length r.mbuf_new ≤ 2 * r.opcnt

letters_done-mark :
    (letter bit : ℕ) (done : ℕ → Bool)
    → Flag letter bit
    → done letter ≡ false
    → letters_done (set done letter true) ≡ letters_done done + 1
letters_done-mark _ _ done moderated h = ground (arith, h)
letters_done-mark _ _ done no_messages h = ground (arith, h)
letters_done-mark _ _ done is_private h = ground (arith, h)
letters_done-mark _ _ done is_secret h = ground (arith, h)
letters_done-mark _ _ done topic_limit h = ground (arith, h)
letters_done-mark _ _ done invite_only h = ground (arith, h)
letters_done-mark _ _ done registered h = ground (arith, h)

module _ (c : Call) (w : World) (mine : my_client (w.client c.sptr) ≡ true) where
  still_mine : (k : ℕ) (r : Run) → IsShort w c k r → is_mine c r ≡ true
  still_mine k r h = ap (λ f. my_client (f c.sptr)) h.client ∙ mine

  Quiet-IsShort : (r r' : Run) → Quiet r r' → IsShort w c 0 r → IsShort w c 0 r'
  Quiet-IsShort r r' q h =
      let key : once r.keychange ≤ once r'.keychange = let up = q.keychange in ground arith in
      let limit : once r.limitset ≤ once r'.limitset = let up = q.limitset in ground arith in
      record {
        client = ap (λ w'. w'.client) q.world ∙ h.client;
        opcnt = omega (arith, q.opcnt, h.opcnt);
        mbuf = omega (arith, ap length q.mbuf, q.opcnt, q.done, key, limit, h.mbuf);
        mbuf_new = omega (arith, ap length q.mbuf_new, q.opcnt, h.mbuf_new);
      }

  -- The first time that the letter k or l counts.
  key_room :
      (r r' : Run)
      → Quiet r r'
      → r.keychange ≡ 0
      → r'.keychange ≡ 1
      → IsShort w c 0 r
      → IsShort w c 2 r'
  key_room r r' q z one h =
      let limit : once r.limitset ≤ once r'.limitset = let up = q.limitset in ground arith in
      let key : once r'.keychange ≡ once r.keychange + 1 = ground (arith, z, one) in
      let kept = Quiet-IsShort r r' q h in
      record {
        client = kept.client;
        opcnt = kept.opcnt;
        mbuf = omega (arith, ap length q.mbuf, q.opcnt, q.done, key, limit, h.mbuf);
        mbuf_new = kept.mbuf_new;
      }

  limit_room :
      (r r' : Run)
      → Quiet r r'
      → r.limitset ≡ 0
      → r'.limitset ≡ 1
      → IsShort w c 0 r
      → IsShort w c 2 r'
  limit_room r r' q z one h =
      let key : once r.keychange ≤ once r'.keychange = let up = q.keychange in ground arith in
      let limit : once r'.limitset ≡ once r.limitset + 1 = ground (arith, z, one) in
      let kept = Quiet-IsShort r r' q h in
      record {
        client = kept.client;
        opcnt = kept.opcnt;
        mbuf = omega (arith, ap length q.mbuf, q.opcnt, q.done, key, limit, h.mbuf);
        mbuf_new = kept.mbuf_new;
      }

  letter_room :
      (letter bit : ℕ) (r r' : Run)
      → Flag letter bit
      → Ticket c letter r r'
      → IsShort w c 0 r
      → IsShort w c 2 r'
  letter_room letter bit r _ k (local_client _ d) h = record {
    client = h.client;
    opcnt = h.opcnt;
    mbuf = omega (arith, letters_done-mark letter bit r.done k d, h.mbuf);
    mbuf_new = h.mbuf_new;
  }
  letter_room letter bit r _ k (other _ m) h = absurd (false≢true (sym m ∙ still_mine 0 r h))

  -- Two characters that there is room for.
  grown :
      (r : Run) (w' : World) (p x len : ℕ) (pbuf : Text)
      → w'.client ≡ r.world.client
      → IsShort w c 2 r
      → IsShort w c 0 (record r { world = w'; mbuf = r.mbuf ++ p ∷ x ∷ []; pbuf = pbuf; len = len })
  grown r w' p x len pbuf e h = record {
    client = e ∙ h.client;
    opcnt = h.opcnt;
    mbuf = omega (arith, length-append r.mbuf (p ∷ x ∷ []), h.mbuf);
    mbuf_new = h.mbuf_new;
  }

  -- One parameter more.
  counted :
      (r : Run) (w' : World) (p x len : ℕ) (pbuf : Text)
      → w'.client ≡ r.world.client
      → HasRoom c r
      → IsShort w c 0 r
      → IsShort w c 0 (record r {
        world = w';
        mbuf = r.mbuf ++ p ∷ x ∷ [];
        pbuf = pbuf;
        len = len;
        opcnt = r.opcnt + 1;
      })
  counted r w' p x len pbuf e room h = record {
    client = e ∙ h.client;
    opcnt = omega (arith, room (still_mine 0 r h));
    mbuf = omega (arith, length-append r.mbuf (p ∷ x ∷ []), h.mbuf);
    mbuf_new = omega (arith, h.mbuf_new);
  }

  same_counts :
      (r : Run) (w' : World)
      → w'.client ≡ r.world.client
      → IsShort w c 0 r
      → IsShort w c 0 (record r { world = w' })
  same_counts r w' e h = record {
    client = e ∙ h.client;
    opcnt = h.opcnt;
    mbuf = h.mbuf;
    mbuf_new = h.mbuf_new;
  }

  Step-IsShort : (g : Rights) (r r' : Run) → Step c g r r' → IsShort w c 0 r → IsShort w c 0 r'
  Step-IsShort g r r' (quiet _ _ q) h = Quiet-IsShort r r' q h
  Step-IsShort g r _ (flag_set letter bit _ r' k t tk) h =
      grown r' _ _ _ _ _ refl (letter_room letter bit r r' k tk h)
  Step-IsShort g r _ (flag_cleared letter bit _ r' k t tk) h =
      grown r' _ _ _ _ _ refl (letter_room letter bit r r' k tk h)
  Step-IsShort g r _ (invites_ended _ r' ok tk) h =
      grown r' _ _ _ _ _ (free_invites-client _ r'.world c.chptr)
        (letter_room b'i' _ r r' invite_only tk h)
  Step-IsShort g r _ (limit_set n arg _ r' ok z q one) h =
      grown r' _ _ _ _ _ refl (limit_room r r' q z one h)
  Step-IsShort g r _ (limit_cleared _ r' ok z q one) h =
      grown r' _ _ _ _ _ refl (limit_room r r' q z one h)
  Step-IsShort g r _ (key_changed arg key tmp _ r' ok z q one hk n) h =
      grown r' _ _ _ _ _ refl (key_room r r' q z one h)
  Step-IsShort g r _ (status_changed letter arg who _ ok room l n) h =
      counted r _ _ _ _ _ refl room h
  Step-IsShort g r _ (marked_deopped letter who _ d) h = same_counts r _ refl h
  Step-IsShort g r _ (ban_set arg shown ch _ ok room n e) h = counted r _ _ _ _ _ refl room h
  Step-IsShort g r _ (ban_removed arg _ ok room n) h = counted r _ _ _ _ _ refl room h
  Step-IsShort g r _ (exception_removed arg _ ok room) h = record {
    client = h.client;
    opcnt = omega (arith, room (still_mine 0 r h));
    mbuf = omega (arith, h.mbuf);
    mbuf_new = omega (arith, h.mbuf_new, length-append r.mbuf_new (plus r.sign ∷ b'e' ∷ []));
  }
  Step-IsShort g r _ (juped b _ p) h = same_counts r _ refl h
  Step-IsShort g r _ (ended _ p e) h = same_counts r _ (sub1_from_channel-client r.world c.chptr) h

letters_done_max : (done : ℕ → Bool) → letters_done done ≤ 7
letters_done_max done = ground arith

-- A local client cannot make `modebuf` and `modebuf_new` overflow: whatever letters and
-- parameters he gives, the loop over the letters ends, the counter `opcnt` does not pass
-- MAXMODEPARAMS, and what is written into `modebuf` has at most 28 characters, into `modebuf_new`
-- at most 10, of the 200 that fit.
pub set_channel_mode-bounds :
    (c : Call) (w : World) (curr : Text) (parv : List Text)
    → my_client (w.client c.sptr) ≡ true
    → (r : Run) × (set_channel_mode c w curr parv ≡ some (finish r))
      × (r.opcnt ≤ maxmodeparams)
      × (length r.mbuf ≤ 28)
      × (length r.mbuf_new ≤ 10)
set_channel_mode-bounds c w curr parv mine =
    let (r, done, steps) = set_channel_mode-Ends c w curr parv in
    let h =
      Steps-kept (IsShort w c 0) (Step-IsShort c w mine (rights c w)) (started w parv) r steps
        (record {
          client = refl;
          opcnt = omega arith;
          mbuf = omega arith;
          mbuf_new = omega arith;
        }) in
    let letters = letters_done_max r.done in
    let key : once r.keychange ≤ 1 = ground arith in
    let limit : once r.limitset ≤ 1 = ground arith in
    (
      r,
      done,
      h.opcnt,
      omega (arith, h.mbuf, h.opcnt, letters, key, limit),
      omega (arith, h.mbuf_new, h.opcnt),
    )
