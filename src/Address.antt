-- ===== src/Address.antt =====
-- `inetntoa` of src/irc_string.c: the dotted text of an internet address.
pub mod Dotted
mod Tests
use igniteircd.Prelude.{ℕ, List, [], ◌∷◌, ◌++◌, Text, codes, get_or}

abbrev pub ip_quad_tab : List Text
ip_quad_tab =
    codes "0"
    ∷ codes "1"
    ∷ codes "2"
    ∷ codes "3"
    ∷ codes "4"
    ∷ codes "5"
    ∷ codes "6"
    ∷ codes "7"
    ∷ codes "8"
    ∷ codes "9"
    ∷ codes "10"
    ∷ codes "11"
    ∷ codes "12"
    ∷ codes "13"
    ∷ codes "14"
    ∷ codes "15"
    ∷ codes "16"
    ∷ codes "17"
    ∷ codes "18"
    ∷ codes "19"
    ∷ codes "20"
    ∷ codes "21"
    ∷ codes "22"
    ∷ codes "23"
    ∷ codes "24"
    ∷ codes "25"
    ∷ codes "26"
    ∷ codes "27"
    ∷ codes "28"
    ∷ codes "29"
    ∷ codes "30"
    ∷ codes "31"
    ∷ codes "32"
    ∷ codes "33"
    ∷ codes "34"
    ∷ codes "35"
    ∷ codes "36"
    ∷ codes "37"
    ∷ codes "38"
    ∷ codes "39"
    ∷ codes "40"
    ∷ codes "41"
    ∷ codes "42"
    ∷ codes "43"
    ∷ codes "44"
    ∷ codes "45"
    ∷ codes "46"
    ∷ codes "47"
    ∷ codes "48"
    ∷ codes "49"
    ∷ codes "50"
    ∷ codes "51"
    ∷ codes "52"
    ∷ codes "53"
    ∷ codes "54"
    ∷ codes "55"
    ∷ codes "56"
    ∷ codes "57"
    ∷ codes "58"
    ∷ codes "59"
    ∷ codes "60"
    ∷ codes "61"
    ∷ codes "62"
    ∷ codes "63"
    ∷ codes "64"
    ∷ codes "65"
    ∷ codes "66"
    ∷ codes "67"
    ∷ codes "68"
    ∷ codes "69"
    ∷ codes "70"
    ∷ codes "71"
    ∷ codes "72"
    ∷ codes "73"
    ∷ codes "74"
    ∷ codes "75"
    ∷ codes "76"
    ∷ codes "77"
    ∷ codes "78"
    ∷ codes "79"
    ∷ codes "80"
    ∷ codes "81"
    ∷ codes "82"
    ∷ codes "83"
    ∷ codes "84"
    ∷ codes "85"
    ∷ codes "86"
    ∷ codes "87"
    ∷ codes "88"
    ∷ codes "89"
    ∷ codes "90"
    ∷ codes "91"
    ∷ codes "92"
    ∷ codes "93"
    ∷ codes "94"
    ∷ codes "95"
    ∷ codes "96"
    ∷ codes "97"
    ∷ codes "98"
    ∷ codes "99"
    ∷ codes "100"
    ∷ codes "101"
    ∷ codes "102"
    ∷ codes "103"
    ∷ codes "104"
    ∷ codes "105"
    ∷ codes "106"
    ∷ codes "107"
    ∷ codes "108"
    ∷ codes "109"
    ∷ codes "110"
    ∷ codes "111"
    ∷ codes "112"
    ∷ codes "113"
    ∷ codes "114"
    ∷ codes "115"
    ∷ codes "116"
    ∷ codes "117"
    ∷ codes "118"
    ∷ codes "119"
    ∷ codes "120"
    ∷ codes "121"
    ∷ codes "122"
    ∷ codes "123"
    ∷ codes "124"
    ∷ codes "125"
    ∷ codes "126"
    ∷ codes "127"
    ∷ codes "128"
    ∷ codes "129"
    ∷ codes "130"
    ∷ codes "131"
    ∷ codes "132"
    ∷ codes "133"
    ∷ codes "134"
    ∷ codes "135"
    ∷ codes "136"
    ∷ codes "137"
    ∷ codes "138"
    ∷ codes "139"
    ∷ codes "140"
    ∷ codes "141"
    ∷ codes "142"
    ∷ codes "143"
    ∷ codes "144"
    ∷ codes "145"
    ∷ codes "146"
    ∷ codes "147"
    ∷ codes "148"
    ∷ codes "149"
    ∷ codes "150"
    ∷ codes "151"
    ∷ codes "152"
    ∷ codes "153"
    ∷ codes "154"
    ∷ codes "155"
    ∷ codes "156"
    ∷ codes "157"
    ∷ codes "158"
    ∷ codes "159"
    ∷ codes "160"
    ∷ codes "161"
    ∷ codes "162"
    ∷ codes "163"
    ∷ codes "164"
    ∷ codes "165"
    ∷ codes "166"
    ∷ codes "167"
    ∷ codes "168"
    ∷ codes "169"
    ∷ codes "170"
    ∷ codes "171"
    ∷ codes "172"
    ∷ codes "173"
    ∷ codes "174"
    ∷ codes "175"
    ∷ codes "176"
    ∷ codes "177"
    ∷ codes "178"
    ∷ codes "179"
    ∷ codes "180"
    ∷ codes "181"
    ∷ codes "182"
    ∷ codes "183"
    ∷ codes "184"
    ∷ codes "185"
    ∷ codes "186"
    ∷ codes "187"
    ∷ codes "188"
    ∷ codes "189"
    ∷ codes "190"
    ∷ codes "191"
    ∷ codes "192"
    ∷ codes "193"
    ∷ codes "194"
    ∷ codes "195"
    ∷ codes "196"
    ∷ codes "197"
    ∷ codes "198"
    ∷ codes "199"
    ∷ codes "200"
    ∷ codes "201"
    ∷ codes "202"
    ∷ codes "203"
    ∷ codes "204"
    ∷ codes "205"
    ∷ codes "206"
    ∷ codes "207"
    ∷ codes "208"
    ∷ codes "209"
    ∷ codes "210"
    ∷ codes "211"
    ∷ codes "212"
    ∷ codes "213"
    ∷ codes "214"
    ∷ codes "215"
    ∷ codes "216"
    ∷ codes "217"
    ∷ codes "218"
    ∷ codes "219"
    ∷ codes "220"
    ∷ codes "221"
    ∷ codes "222"
    ∷ codes "223"
    ∷ codes "224"
    ∷ codes "225"
    ∷ codes "226"
    ∷ codes "227"
    ∷ codes "228"
    ∷ codes "229"
    ∷ codes "230"
    ∷ codes "231"
    ∷ codes "232"
    ∷ codes "233"
    ∷ codes "234"
    ∷ codes "235"
    ∷ codes "236"
    ∷ codes "237"
    ∷ codes "238"
    ∷ codes "239"
    ∷ codes "240"
    ∷ codes "241"
    ∷ codes "242"
    ∷ codes "243"
    ∷ codes "244"
    ∷ codes "245"
    ∷ codes "246"
    ∷ codes "247"
    ∷ codes "248"
    ∷ codes "249"
    ∷ codes "250"
    ∷ codes "251"
    ∷ codes "252"
    ∷ codes "253"
    ∷ codes "254"
    ∷ codes "255"
    ∷ []

-- The four bytes of an address, in network order.
pub record InAddr : Type 0 where
  pub b1 : ℕ
  pub b2 : ℕ
  pub b3 : ℕ
  pub b4 : ℕ

unfoldable pub inetntoa : InAddr → Text
inetntoa a =
    get_or ip_quad_tab a.b1 []
    ++ b'.' ∷ get_or ip_quad_tab a.b2 []
    ++ b'.' ∷ get_or ip_quad_tab a.b3 []
    ++ b'.' ∷ get_or ip_quad_tab a.b4 []
