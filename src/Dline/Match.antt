-- ===== src/Dline/Match.antt =====
-- What match_Dline of src/dline_conf.c answers.
use igniteircd.Prelude.{
  ℕ, inl, inr, ◌⊎◌, ◌≡◌, refl, ap, sym, ◌∙◌, subst, ◌++◌, Bool, true, false, ◌&&◌, Option, none,
  some, List, [], ◌∷◌, ◌==◌, bit_and, Bool-cases, All, ==_iff,
}
use mathlib.Core.Bool.{false≢true}
use igniteircd.Dline.{
  Conf, Node, State, find_ip_subtree, first_byte, find_e_line, first_conf, or_first, match_node,
  match_dline,
}

-- An exception for the address.
abbrev pub excepts : ℕ → Conf → Bool
excepts ip c = c.is_e_lined && (c.ip == bit_and ip c.ip_mask)

-- The item stands in the list, and no exception for the address before it.
abbrev pub IsFirst : ℕ → Conf → List Conf → Type 0
IsFirst ip c conf =
    (front back : List Conf) × (conf ≡ front ++ c ∷ back) × All (λ e. excepts ip e ≡ false) front

-- The answer is the first exception for the address in the node's list, or where the list has no
-- exception for the address, the item at its head, whose network has the address.
abbrev pub IsAnswer : Node → ℕ → Conf → Type 0
IsAnswer n ip c =
    ((excepts ip c ≡ true) × IsFirst ip c n.conf)
    ⊎ (All (λ e. excepts ip e ≡ false) n.conf
        × ((back : List Conf) × (n.conf ≡ c ∷ back))
        × (bit_and c.ip c.ip_mask ≡ bit_and ip c.ip_mask))

-- What the scan for exceptions gives.
abbrev IsScanned : ℕ → List Conf → Option Conf → Type 0
IsScanned ip conf none = All (λ e. excepts ip e ≡ false) conf
IsScanned ip conf (some c) = (excepts ip c ≡ true) × IsFirst ip c conf

IsScanned-on :
    (ip : ℕ) (d : Conf) (conf : List Conf) (o : Option Conf)
    → excepts ip d ≡ false
    → IsScanned ip conf o
    → IsScanned ip (d ∷ conf) o
IsScanned-on ip d conf none e h = (e, h)
IsScanned-on ip d conf (some c) e (h, (front, back, q, none_before)) =
    (h, (d ∷ front, back, ap (◌∷◌ d) q, (e, none_before)))

find_e_line-IsScanned : (ip : ℕ) (conf : List Conf) → IsScanned ip conf (find_e_line conf ip)
unfolding find_e_line
find_e_line-IsScanned ip [] = tt
find_e_line-IsScanned ip (d ∷ conf) = elim (Bool-cases (excepts ip d)) [
  | inl t ↦ rw t (t, ([], conf, refl, tt))
  | inr f ↦ rw f (IsScanned-on ip d conf (find_e_line conf ip) f (find_e_line-IsScanned ip conf))
]

-- The list has no exception for the address, and no item at its head whose network has it.
abbrev pub IsSilent : Node → ℕ → Type 0
IsSilent n ip =
    All (λ e. excepts ip e ≡ false) n.conf
    × ((c : Conf) (back : List Conf)
        → n.conf ≡ c ∷ back
        → bit_and c.ip c.ip_mask ≡ bit_and ip c.ip_mask
        → ⊥)

-- What a node answers, or why it does not.
abbrev pub IsAnswered : Node → ℕ → Option Conf → Type 0
IsAnswered n ip none = IsSilent n ip
IsAnswered n ip (some c) = IsAnswer n ip c

nil≢cons : {c : Conf} {back : List Conf} → [] ≡ c ∷ back → ⊥
nil≢cons e = cc

head_apart :
    (n : Node) (ip : ℕ) (c : Conf) (conf : List Conf)
    → n.conf ≡ c ∷ conf
    → (bit_and c.ip c.ip_mask == bit_and ip c.ip_mask) ≡ false
    → (d : Conf) (back : List Conf) → n.conf ≡ d ∷ back
    → bit_and d.ip d.ip_mask ≡ bit_and ip d.ip_mask
    → ⊥
head_apart n ip c conf q f d back e h =
    let same : d ≡ c = cc in
    let own = subst (λ x. bit_and x.ip x.ip_mask ≡ bit_and ip x.ip_mask) same h in
    false≢true (sym f ∙ (==_iff (bit_and c.ip c.ip_mask) (bit_and ip c.ip_mask)).1 own)

first_conf-IsAnswered :
    (n : Node) (ip : ℕ) (conf : List Conf)
    → n.conf ≡ conf
    → All (λ e. excepts ip e ≡ false) n.conf
    → IsAnswered n ip (first_conf conf ip)
unfolding first_conf
first_conf-IsAnswered n ip [] q h = (h, λ c back e _. nil≢cons (sym q ∙ e))
first_conf-IsAnswered n ip (c ∷ conf) q h =
    elim (Bool-cases (bit_and c.ip c.ip_mask == bit_and ip c.ip_mask)) [
      | inl t ↦
          rw t (inr (h, (conf, q), (==_iff (bit_and c.ip c.ip_mask) (bit_and ip c.ip_mask)).0 t))
      | inr f ↦ rw f (h, head_apart n ip c conf q f)
    ]

or_first-IsAnswered :
    (n : Node) (ip : ℕ) (o : Option Conf)
    → IsScanned ip n.conf o
    → IsAnswered n ip (or_first o n.conf ip)
unfolding or_first
or_first-IsAnswered n ip none h = first_conf-IsAnswered n ip n.conf refl h
or_first-IsAnswered n ip (some c) h = inl h

-- The node that answers, or that there is none or it does not.
abbrev pub IsMatch : Option Node → ℕ → Option Conf → Type 0
IsMatch found ip none = (found ≡ none) ⊎ ((n : Node) × (found ≡ some n) × IsSilent n ip)
IsMatch found ip (some c) = (n : Node) × (found ≡ some n) × IsAnswer n ip c

IsMatch-of : (n : Node) (ip : ℕ) (o : Option Conf) → IsAnswered n ip o → IsMatch (some n) ip o
IsMatch-of n ip none h = inr (n, refl, h)
IsMatch-of n ip (some c) h = (n, refl, h)

match_node-IsMatch : (node : Option Node) (ip : ℕ) → IsMatch node ip (match_node node ip)
unfolding match_node
match_node-IsMatch none ip = inl refl
match_node-IsMatch (some n) ip =
    IsMatch-of n ip (or_first (find_e_line n.conf ip) n.conf ip)
      (or_first-IsAnswered n ip (find_e_line n.conf ip) (find_e_line-IsScanned ip n.conf))

-- Where the oracle of the address's first byte lacks a bit of the address, match_Dline answers
-- nothing. Else it answers from the node that find_ip_subtree finds in the tree of that byte: the
-- first exception of the node's list whose network has the address, or, where no exception of the
-- list has it, the item at the head of the list if its network has it. It answers nothing only if
-- no node is found or the node's list has neither.
pub match_dline-IsMatch :
    (s : State) (ip : ℕ)
    → (((bit_and (s.oracle (first_byte ip)) ip ≡ ip) → ⊥) × (match_dline s ip ≡ none))
      ⊎ ((bit_and (s.oracle (first_byte ip)) ip ≡ ip)
          × IsMatch (find_ip_subtree (s.dline (first_byte ip)) ip) ip (match_dline s ip))
unfolding match_dline
match_dline-IsMatch s ip =
    let (there, back) = ==_iff (bit_and (s.oracle (first_byte ip)) ip) ip in
    elim (Bool-cases (bit_and (s.oracle (first_byte ip)) ip == ip)) [
      | inl t ↦
          rw t (inr (there t, match_node-IsMatch (find_ip_subtree (s.dline (first_byte ip)) ip) ip))
      | inr f ↦ rw f (inl (λ e. false≢true (sym f ∙ back e), refl))
    ]
