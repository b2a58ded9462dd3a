-- ===== src/Whowas/Tests.antt =====
-- src/whowas.c on two clients.
use igniteircd.Prelude.{ℕ, ◌≡◌, ◌≢◌, refl, some, none, [], codes, arith}
use igniteircd.Chars.Tables.{to_upper}
use igniteircd.Mask.Compare.{same_name}
use igniteircd.Whowas.{Client, State, initwhowas, add_history, off_history, get_history}
use igniteircd.Whowas.Ring.{IsValid, initwhowas-IsValid, add_history-IsValid}
use igniteircd.Whowas.History.{off_history_safe, get_history-add_history}

abbrev nick : Client
nick = record {
  name = codes "Nick";
  username = codes "u";
  host = codes "h";
  info = codes "i";
  server = codes "s";
}

abbrev now : ℕ
now = 1000

abbrev one : State
one = add_history nick (some 7) (initwhowas now)

one-IsValid : IsValid one
one-IsValid = add_history-IsValid (initwhowas now) nick (some 7) (initwhowas-IsValid now)

add_history-IsValid_example : IsValid (add_history nick none one)
add_history-IsValid_example = add_history-IsValid one nick none one-IsValid

get_history-add_history_example :
    get_history (codes "nICK") 60 (add_history nick (some 8) one) ≡ some 8
unfolding same_name to_upper
get_history-add_history_example =
    get_history-add_history one nick 8 (codes "nICK") 60 (omega arith) (ground arith) (ground arith)
      refl

found : get_history (codes "nICK") 60 one ≡ some 7
unfolding same_name to_upper
found =
    get_history-add_history (initwhowas now) nick 7 (codes "nICK") 60 (omega arith) (ground arith)
      (ground arith) refl

off_history_safe_example :
    IsValid (off_history 7 one)
    × ((off_history 7 one).of_client 7 ≡ [])
    × (get_history (codes "nICK") 60 (off_history 7 one) ≢ some 7)
off_history_safe_example = off_history_safe one 7 (codes "nICK") 60 one-IsValid
