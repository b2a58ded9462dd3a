-- ===== src/Parse/Line/Split.antt =====
-- The parameters that `parse` of src/parse.c splits off.
use igniteircd.Prelude.{
  ℕ, zero, suc, ◌+◌, ◌-◌, ◌≤◌, ◌≡◌, ◌≢◌, refl, sym, ap, subst, true, false, Option, none, some,
  List, [], ◌∷◌, ◌++◌, Text, length, ◌==◌, ltb, if◌then◌else◌, All, arith,
}
use igniteircd.Chars.Tables.{IsChar, is_non_eos}
use igniteircd.Chars.Folding.{is_non_eos_lem}
use igniteircd.Parse.Line.{
  maxpara, skip_spaces, non_eos, last_param, next_param, split_params, params,
}

max_one : ℕ → ℕ
max_one k = if k == 0 then 1 else k

length-last_param : (s : Text) → length (last_param s) ≤ 1
unfolding last_param
length-last_param [] = omega arith
length-last_param (c ∷ s) = ground arith

length-next_param :
    (k : ℕ) (next : Text → List Text) (s : Text)
    → ((t : Text) → length (next t) ≤ max_one k)
    → length (next_param k next s) ≤ suc k
unfolding next_param max_one
length-next_param k next [] h = omega arith
length-next_param k next (c ∷ s) h = let later = h (non_eos (c ∷ s)).1 in ground (arith, later)

length-split_params : (k : ℕ) (s : Text) → length (split_params k s) ≤ max_one k
unfolding split_params max_one
length-split_params zero s = length-last_param (skip_spaces s)
length-split_params (suc k) s =
    ground
      (arith, length-next_param k (split_params k) (skip_spaces s) (λ t. length-split_params k t))

-- A line gives at most MAXPARA - 1 parameters, so that with the sender and the NULL behind the
-- last one they fit in `para`, which has MAXPARA + 1 places.
pub params-bounds : (paramcount : ℕ) (s : Option Text) → length (params paramcount s) + 1 ≤ maxpara
unfolding params max_one
params-bounds paramcount none = omega arith
params-bounds paramcount (some s) =
    let n = if ltb maxpara paramcount then maxpara else paramcount in
    let few = length-split_params (n - 1) s in ground (arith, few)

-- A parameter that may stand before others: it is not empty, begins with no colon, and holds
-- bytes, no NUL and no space.
abbrev pub IsPlain : Text → Type 0
IsPlain [] = ⊥
IsPlain (c ∷ s) = (c ≢ b':') × All (λ d. IsChar d × (d ≢ b' ')) (c ∷ s)

abbrev pub ArePlain : List Text → Type 0
ArePlain [] = Unit
ArePlain (p ∷ []) = Unit
ArePlain (p ∷ q ∷ ps) = IsPlain p × ArePlain (q ∷ ps)

-- A line's parameters as servers write them: the last one behind a colon.
abbrev pub line_of : List Text → Text
line_of [] = []
line_of (p ∷ []) = b' ' ∷ b':' ∷ p
line_of (p ∷ q ∷ ps) = b' ' ∷ p ++ line_of (q ∷ ps)

non_eos-line :
    (w : Text) (s : Text)
    → All (λ d. IsChar d × (d ≢ b' ')) w
    → non_eos (w ++ b' ' ∷ s) ≡ (w, b' ' ∷ s)
unfolding non_eos
non_eos-line [] s h =
    let stop : is_non_eos 32 ≡ false = is_non_eos_lem 32 (omega arith) in rw stop refl
non_eos-line (c ∷ w) s h =
    let go : is_non_eos c ≡ true = ground (arith, is_non_eos_lem c h.0.0.1, h.0) in
    rw (go, non_eos-line w s h.1) refl

pub space_first : (p : Text) (ps : List Text) → (s : Text) × (line_of (p ∷ ps) ≡ b' ' ∷ s)
space_first p [] = (b':' ∷ p, refl)
space_first p (q ∷ ps) = (p ++ line_of (q ∷ ps), refl)

-- Splitting gives the parameters back that a line was written from, all if there are no more
-- than the command takes.
pub split_params-line_of :
    (k : ℕ) (ps : List Text) → ArePlain ps → length ps ≤ k → split_params k (line_of ps) ≡ ps
unfolding split_params skip_spaces next_param last_param
split_params-line_of zero [] h n = refl
split_params-line_of zero (p ∷ ps) h n = absurd (omega arith)
split_params-line_of (suc k) [] h n = refl
split_params-line_of (suc k) (p ∷ []) h n = refl
split_params-line_of (suc k) ([] ∷ q ∷ ps) h n = absurd h.0
split_params-line_of (suc k) ((c ∷ p) ∷ q ∷ ps) h n =
    let no_space : (c == b' ') ≡ false = ground (arith, h.0.1.0.1) in
    let no_colon : (c == b':') ≡ false = ground (arith, h.0.0) in
    let more : (k == 0) ≡ false = ground (arith, n) in
    let (s, e) = space_first q ps in
    let cut : non_eos (c ∷ p ++ line_of (q ∷ ps)) ≡ (c ∷ p, line_of (q ∷ ps)) =
      subst (λ l. non_eos (c ∷ p ++ l) ≡ (c ∷ p, l)) (sym e) (non_eos-line (c ∷ p) s h.0.1) in
    rw (no_space, no_colon, more, cut)
      (ap (◌∷◌ (c ∷ p)) (split_params-line_of k (q ∷ ps) h.1 (omega (arith, n))))
