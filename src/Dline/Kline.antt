-- ===== src/Dline/Kline.antt =====
-- match_ip_Kline of src/dline_conf.c: which of the E-, K- and I-lines of an address decides.
use igniteircd.Prelude.{
  ℕ, Bool, true, false, ◌&&◌, Option, none, some, List, [], ◌∷◌, Text, leb, ◌==◌, if◌then◌else◌,
  bit_and,
}
use igniteircd.Mask.Match.{match}
pub mod Kinds
pub mod Winner

-- CONF_FLAGS_E_LINED, CONF_KILL and CONF_CLIENT.
pub record Kline : Type 0 where
  pub ip : ℕ
  pub ip_mask : ℕ
  pub user : Text
  pub is_e_lined : Bool
  pub is_kill : Bool
  pub is_client : Bool

pub data Kind : Type 0 where
  e_line k_line i_line no_line : Kind

-- What the tests on an item come to: each asks for the network and for the name.
pub kind_for : ℕ → Text → Kline → Kind
kind_for ip name scan =
    if (scan.ip == bit_and ip scan.ip_mask) && match scan.user name
    then (if scan.is_e_lined
        then e_line
        else if scan.is_kill
        then k_line
        else if scan.is_client
        then i_line
        else no_line)
    else no_line

-- A round of the loop. The flag is `winnertype == 'K'`, `rest` the later rounds.
pub take_kind :
    Kind → Kline → (Option Kline → Bool → Option Kline) → Option Kline → Bool → Option Kline
take_kind e_line scan later winner is_k = some scan
take_kind k_line scan later winner is_k = later (some scan) true
take_kind i_line scan later winner true = later winner true
take_kind i_line scan later none false = later (some scan) false
take_kind i_line scan later (some c) false =
    if leb scan.ip_mask c.ip_mask then later (some c) false else later (some scan) false
take_kind no_line scan later winner is_k = later winner is_k

pub find_winner : ℕ → Text → List Kline → Option Kline → Bool → Option Kline
find_winner ip name [] winner is_k = winner
find_winner ip name (scan ∷ next) winner is_k =
    take_kind (kind_for ip name scan) scan (find_winner ip name next) winner is_k
