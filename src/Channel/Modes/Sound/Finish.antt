-- ===== src/Channel/Modes/Sound/Finish.antt =====
-- What the end of set_channel_mode in src/channel.c leaves of its variables.
use igniteircd.Prelude.{◌≡◌, refl, ◌∙◌, [], ◌∷◌, Text}
use igniteircd.Channel.Modes.Run.{Run, Sent, mode_change, new_mode_change}
use igniteircd.Channel.Modes.Text.{collapse_signs}
use igniteircd.Channel.Modes.Loop.{say_modes, finish}

say_modes-fields :
    (change : Text → Text → Sent) (s p : Text) (r : Run)
    → ((say_modes change s p r).world ≡ r.world)
      × ((say_modes change s p r).mbuf ≡ r.mbuf)
      × ((say_modes change s p r).mbuf_new ≡ r.mbuf_new)
say_modes-fields change [] p r = (refl, refl, refl)
say_modes-fields change (x ∷ s) p r = (refl, refl, refl)

-- What the end of the call leaves.
pub finish-fields :
    (r : Run)
    → ((finish r).world ≡ r.world)
      × ((finish r).mbuf ≡ collapse_signs r.mbuf)
      × ((finish r).mbuf_new ≡ collapse_signs r.mbuf_new)
finish-fields r =
    let cut = record r { mbuf = collapse_signs r.mbuf; mbuf_new = collapse_signs r.mbuf_new } in
    let (w, m, n) = say_modes-fields (λ m p. mode_change m p) (collapse_signs r.mbuf) r.pbuf cut in
    let (w', m', n') =
      say_modes-fields (λ m p. new_mode_change m p) (collapse_signs r.mbuf_new) r.pbuf_new
        (say_modes (λ m p. mode_change m p) (collapse_signs r.mbuf) r.pbuf cut) in
    (w' ∙ w, m' ∙ m, n' ∙ n)
