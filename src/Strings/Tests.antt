-- ===== src/Strings/Tests.antt =====
-- src/irc_string.c on sample texts.
use igniteircd.Prelude.{◌≡◌, none, some, codes, arith}
use igniteircd.Strings.{strtoken}
use igniteircd.Strings.Tokens.{tokens_on, words, strtoken_all}

strtoken_all_example :
    tokens_on 9 (codes ",") (strtoken none (some (codes ",#a,,#b")) (codes ","))
    ≡ words (codes ",") (codes ",#a,,#b")
strtoken_all_example = strtoken_all 9 (codes ",") (codes ",#a,,#b") none (omega arith)
