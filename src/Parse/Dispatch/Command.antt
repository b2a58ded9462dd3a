-- ===== src/Parse/Dispatch/Command.antt =====
-- How `parse` of src/parse.c reads a line as clients write it: a command and its parameters.
use igniteircd.Prelude.{
  ℕ, ◌<◌, ◌≡◌, refl, sym, ap, ◌∙◌, Bool, true, false, some, List, ◌∷◌, ◌++◌, Text, length,
  if◌then◌else◌,
}
use mathlib.Core.Bool.{false≢true}
use igniteircd.Chars.Tables.{is_digit}
use igniteircd.Parse.Tree.{tree_parse}
use igniteircd.Parse.Line.{maxpara, prefix_of, behind_space}
use igniteircd.Parse.Line.Split.{IsPlain, ArePlain, line_of}
use igniteircd.Parse.Dispatch.{
  State, is_registered, Action, origin_of, admit, size_of_rest, charge, count_use, run_message,
  run_command, run_line, from_origin, parse,
}
use igniteircd.Parse.Line.{maxpara, prefix_of, behind_space}
use igniteircd.Parse.Line.Split.{IsPlain, ArePlain, line_of}
use igniteircd.Parse.Line.Words.{
  split_command-line, prefix_of-line, is_numeric-letter, params-line_of,
}

run_command-line :
    (st : State) (from : ℕ) (para0 : Text) (c : ℕ) (cmd : Text) (ps : List Text)
    → IsPlain (c ∷ cmd)
    → is_digit c ≡ false
    → run_command st from para0 ((c ∷ cmd) ++ line_of ps)
      ≡ run_message st from para0
          (c ∷ cmd)
          (behind_space (line_of ps))
          (tree_parse st.tree (c ∷ cmd))
unfolding run_command
run_command-line st from para0 c cmd ps plain no_digit =
    rw (split_command-line (c ∷ cmd) ps plain.1, is_numeric-letter c (cmd ++ line_of ps) no_digit)
      refl

-- An admitted message.
admit_calls :
    (st : State) (msg : ℕ) (from : ℕ) (i : ℕ) (para0 : Text) (paras : List Text)
    → is_registered st.source.status ≡ true
    → st.source.doing_list ≡ false
    → ((admit (count_use (charge st msg i) msg) msg from para0 paras).1)
      ≡ Action.call msg from para0 paras
unfolding admit charge count_use
admit_calls st msg from i para0 paras known free = rw (known, free) refl

else_branch : (b : Bool) (x y : State × Action) → b ≡ false → (if b then x else y) ≡ y
else_branch true x y e = absurd (false≢true (sym e))
else_branch false x y e = refl

parse_alive :
    (st : State) (cptr : ℕ) (line : Text)
    → st.source.is_dead ≡ false
    → (parse st cptr line).1
      ≡ (from_origin st ((prefix_of line).1) (origin_of st cptr ((prefix_of line).0))).1
unfolding parse
parse_alive st cptr line alive =
    let (sender, ch) = prefix_of line in
    ap (λ r. r.1)
      (else_branch st.source.is_dead (st, Action.dead)
        (from_origin st ch (origin_of st cptr sender)) alive)

-- On a connection that is alive, registered and has no list under way, a line that is written of
-- a command and its parameters calls the handler that tree_parse finds for the command, for the
-- connection itself and with exactly these parameters. The command holds bytes, no NUL and no
-- space, and begins with no colon and no digit; there are less parameters than the command
-- takes and less than MAXPARA, and only the last one may be empty, hold spaces or begin with a
-- colon.
pub parse-line_of :
    (st : State) (cptr : ℕ) (c : ℕ) (cmd : Text) (ps : List Text) (msg : ℕ)
    → st.source.is_dead ≡ false
    → is_registered st.source.status ≡ true
    → st.source.doing_list ≡ false
    → IsPlain (c ∷ cmd)
    → is_digit c ≡ false
    → tree_parse st.tree (c ∷ cmd) ≡ some msg
    → ArePlain ps
    → length ps < (st.messages msg).parameters
    → length ps < maxpara
    → (parse st cptr ((c ∷ cmd) ++ line_of ps)).1
      ≡ Action.call msg cptr (st.objects.name_of cptr) ps
unfolding from_origin origin_of run_line run_message
parse-line_of st cptr c cmd ps msg alive known free plain no_digit found args few short =
    let para0 = st.objects.name_of cptr in
    let start = prefix_of-line c (cmd ++ line_of ps) plain.0 plain.1.0.1 in
    let ran = run_command-line st cptr para0 c cmd ps plain no_digit in
    let paras = params-line_of (st.messages msg).parameters ps args few short in
    let size = size_of_rest (c ∷ cmd) (behind_space (line_of ps)) in
    parse_alive st cptr ((c ∷ cmd) ++ line_of ps) alive
    ∙ rw (start, ran, found, paras) (admit_calls st msg cptr size para0 ps known free)
