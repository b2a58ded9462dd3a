-- ===== src/Parse/Dispatch/Laws.antt =====
-- What `parse` of src/parse.c promises about the handler it calls.
use igniteircd.Prelude.{
  ℕ, ◌+◌, ◌≤◌, ◌≡◌, ◌≢◌, ◌⊎◌, inl, inr, refl, Bool, true, false, not, ◌&&◌, Option, none, some,
  List, [], ◌∷◌, Text, length, ◌==◌, if◌then◌else◌, Bool-cases, arith, ==-refl,
}
use igniteircd.Hash.{hash_find_client}
use igniteircd.Parse.Tree.{tree_parse}
use igniteircd.Parse.Line.{maxpara, prefix_of, is_numeric, split_command, params}
use igniteircd.Parse.Line.Split.{params-bounds}
use igniteircd.Parse.Dispatch.{
  State, is_server, is_registered, is_server_link, Action, find_from, checked_from, origin_of,
  size_of_rest, charge, count_use, admit, run_message, run_command, run_line, from_origin, parse,
}

-- The sender is the connection itself, or a client behind it.
abbrev pub IsBehind : State → ℕ → ℕ → Type 0
IsBehind st cptr from = (from ≡ cptr) ⊎ (st.from_of from ≡ cptr)

-- When `parse` may end in an action.
abbrev pub IsAllowed : State → ℕ → Action → Type 0
IsAllowed st cptr (Action.call msg from para0 paras) =
    ((is_registered st.source.status ≡ true) ⊎ ((st.messages msg).allow_unregistered_use ≡ true))
    × ((st.source.doing_list ≡ false) ⊎ ((st.messages msg).is_list ≡ true))
    × IsBehind st cptr from
    × (length paras + 1 ≤ maxpara)
IsAllowed st cptr (Action.numeric from para0 paras cmd) =
    IsBehind st cptr from × (length paras + 1 ≤ maxpara)
IsAllowed st cptr (Action.cancel_client from) =
    (is_server st.source.status ≡ true) × (st.from_of from ≢ cptr)
IsAllowed st cptr Action.unknown_prefix = is_server st.source.status ≡ true
IsAllowed st cptr Action.not_registered =
    (is_registered st.source.status ≡ false) × (is_server_link st.source.status ≡ false)
IsAllowed st cptr Action.ignored = is_registered st.source.status ≡ false
IsAllowed st cptr Action.list_blocked = st.source.doing_list ≡ true
IsAllowed st cptr Action.dead = st.source.is_dead ≡ true
IsAllowed st cptr _ = Unit

stranger-cases :
    (a b : Bool)
    → (((not a && not b) ≡ true) × (a ≡ false))
      ⊎ (((not a && not b) ≡ false) × ((a ≡ true) ⊎ (b ≡ true)))
stranger-cases true b = inr (refl, inl refl)
stranger-cases false true = inr (refl, inr refl)
stranger-cases false false = inl (refl, refl)

blocked-cases :
    (a b : Bool)
    → (((a && not b) ≡ true) × (a ≡ true)) ⊎ (((a && not b) ≡ false) × ((a ≡ false) ⊎ (b ≡ true)))
blocked-cases false b = inr (refl, inl refl)
blocked-cases true true = inr (refl, inr refl)
blocked-cases true false = inl (refl, refl)

-- The counters do not change what is allowed.
used-IsAllowed :
    (st : State) (cptr : ℕ) (msg : ℕ) (from : ℕ) (i : ℕ) (para0 : Text) (paras : List Text)
    → IsBehind st cptr from
    → length paras + 1 ≤ maxpara
    → IsAllowed st cptr ((admit (count_use (charge st msg i) msg) msg from para0 paras).1)
unfolding admit charge count_use
used-IsAllowed st cptr msg from i para0 paras behind few =
    elim (stranger-cases (is_registered st.source.status)
      (st.messages msg).allow_unregistered_use) [
        | inl (g, r) ↦ elim (Bool-cases (is_server_link st.source.status)) [
          | inl l ↦ rw (==-refl msg, g, l) r
          | inr l ↦ rw (==-refl msg, g, l) (r, l)
        ]
        | inr (g, r) ↦ elim (blocked-cases st.source.doing_list (st.messages msg).is_list) [
          | inl (d, l) ↦ rw (==-refl msg, g, d) l
          | inr (d, l) ↦ rw (==-refl msg, g, d) (r, l, behind, few)
        ]
      ]

run_message-IsAllowed :
    (st : State) (cptr : ℕ) (from : ℕ) (para0 cmd : Text) (s : Option Text) (found : Option ℕ)
    → IsBehind st cptr from
    → IsAllowed st cptr ((run_message st from para0 cmd s found).1)
unfolding run_message
run_message-IsAllowed st cptr from para0 cmd s none behind = tt
run_message-IsAllowed st cptr from para0 cmd s (some msg) behind =
    used-IsAllowed st cptr msg from (size_of_rest cmd s) para0
      (params (st.messages msg).parameters s) behind (params-bounds (st.messages msg).parameters s)

run_line-IsAllowed :
    (st : State) (cptr : ℕ) (from : ℕ) (para0 ch : Text)
    → IsBehind st cptr from
    → IsAllowed st cptr ((run_line st from para0 ch).1)
unfolding run_line run_command
run_line-IsAllowed st cptr from para0 [] behind = tt
run_line-IsAllowed st cptr from para0 (c ∷ ch) behind =
    let (cmd, s) = split_command (c ∷ ch) in
    elim (Bool-cases (is_numeric (c ∷ ch))) [
      | inl n ↦ rw n (behind, params-bounds maxpara s)
      | inr n ↦
          rw n (run_message-IsAllowed st cptr from para0 cmd s (tree_parse st.tree cmd) behind)
    ]

checked_from-IsAllowed :
    (st : State) (cptr : ℕ) (sender ch : Text) (from : Option ℕ)
    → is_server st.source.status ≡ true
    → IsAllowed st cptr ((from_origin st ch (checked_from st cptr sender from)).1)
unfolding from_origin checked_from
checked_from-IsAllowed st cptr sender ch none server = server
checked_from-IsAllowed st cptr sender ch (some from) server =
    elim (Bool-cases (st.from_of from == cptr)) [
      | inl e ↦ rw e (run_line-IsAllowed st cptr from sender ch (inr (ground (arith, e))))
      | inr e ↦ rw e (server, ground (arith, e))
    ]

origin-IsAllowed :
    (st : State) (cptr : ℕ) (ch : Text) (sender : Option Text)
    → IsAllowed st cptr ((from_origin st ch (origin_of st cptr sender)).1)
unfolding from_origin origin_of
origin-IsAllowed st cptr ch none =
    run_line-IsAllowed st cptr cptr (st.objects.name_of cptr) ch (inl refl)
origin-IsAllowed st cptr ch (some []) =
    run_line-IsAllowed st cptr cptr (st.objects.name_of cptr) ch (inl refl)
origin-IsAllowed st cptr ch (some (c ∷ sender)) = elim (Bool-cases (is_server st.source.status)) [
  | inl e ↦ rw e (
      checked_from-IsAllowed st cptr (c ∷ sender) ch
        (find_from st (c ∷ sender) (hash_find_client st.objects st.clients (c ∷ sender) none)) e)
  | inr e ↦ rw e (run_line-IsAllowed st cptr cptr (st.objects.name_of cptr) ch (inl refl))
]

living-IsAllowed :
    (st : State) (cptr : ℕ) (gone : Bool)
    → st.source.is_dead ≡ gone
    → (ran : State × Action) → IsAllowed st cptr (ran.1)
    → IsAllowed st cptr ((if gone then (st, Action.dead) else ran).1)
living-IsAllowed st cptr true e ran h = e
living-IsAllowed st cptr false e ran h = h

-- Whatever line is parsed, a handler is called only for a registered connection or for a message
-- that allows unregistered use, with no list under way or by the one message that goes with it,
-- for a sender that is the connection or is reached through it, and with less than MAXPARA
-- parameters behind the sender; the same sender and number of parameters go to do_numeric.
-- Clients are cancelled only if a server spoke for one that it does not lead to, an unknown
-- prefix is answered only to a server, and "Register first" goes to no server link.
pub parse-IsAllowed :
    (st : State) (cptr : ℕ) (line : Text) → IsAllowed st cptr ((parse st cptr line).1)
unfolding parse
parse-IsAllowed st cptr line =
    let (sender, ch) = prefix_of line in
    living-IsAllowed st cptr st.source.is_dead refl (from_origin st ch (origin_of st cptr sender))
      (origin-IsAllowed st cptr ch sender)
