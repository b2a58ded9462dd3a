-- ===== src/Parse/Dispatch/Tests.antt =====
-- `parse` of src/parse.c on lines of one client.
use igniteircd.Prelude.{◌≡◌, refl, arith, [], ◌∷◌, ◌++◌, codes}
use igniteircd.Chars.Tables.{is_digit, has_class}
use igniteircd.Parse.Line.Split.{line_of}
use igniteircd.Parse.Tree.Samples.{nick_found}
use igniteircd.Parse.Samples.{client}
use igniteircd.Parse.Dispatch.{Action, parse}
use igniteircd.Parse.Dispatch.Laws.{IsAllowed, parse-IsAllowed}
use igniteircd.Parse.Dispatch.Command.{parse-line_of}

parse-IsAllowed_example : IsAllowed client 1 ((parse client 1 (codes ":me NICK a :b c")).1)
parse-IsAllowed_example = parse-IsAllowed client 1 (codes ":me NICK a :b c")

parse-line_of_example :
    (parse client 1 (codes "Nick" ++ line_of (codes "new" ∷ codes ": " ∷ []))).1
    ≡ Action.call 0 1 (codes "Nick") (codes "new" ∷ codes ": " ∷ [])
unfolding is_digit has_class
parse-line_of_example =
    parse-line_of client 1 b'N' (codes "ick") (codes "new" ∷ codes ": " ∷ []) 0 refl refl refl
      (ground arith) refl nick_found (ground arith) (omega arith) (omega arith)
