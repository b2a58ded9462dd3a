-- ===== src/Channel/Access/Flags.antt =====
-- The flags CHFL_CHANOP and CHFL_VOICE of a member, tested together and one by one.
use Prim.Native.Nat.{digits, bit_and-bitwise, min}
use native.Mathlib.Numerals.{unary_clauses}
use igniteircd.Prelude.{
  ℕ, zero, suc, ◌+◌, ◌*◌, ◌/◌, ◌%◌, ◌≤◌, ◌<◌, ◌≡◌, refl, ◌∙◌, ◌⊎◌, ◌↔◌, true, arith,
}
use igniteircd.Channel.{has}

min_zero : (a : ℕ) → min a 0 ≡ 0
min_zero a = simp unary_clauses refl

min_one : (a : ℕ) → a < 2 → min a 1 ≡ a
min_one zero h = refl
min_one (suc zero) h = refl
min_one (suc (suc a)) h = absurd (omega arith)

no_digits : (n a : ℕ) → digits (λ b. zero) min n a 0 ≡ 0
no_digits zero a = refl
no_digits (suc n) zero = refl
no_digits (suc n) (suc a) =
    let rest = no_digits n (suc a / 2) in omega (arith, rest, min_zero (suc a % 2))

digits_one : (n a : ℕ) → a ≤ n → digits (λ b. zero) min n a 1 ≡ a % 2
digits_one zero a h = let z : a ≡ 0 = omega arith in omega (arith, z)
digits_one (suc n) zero h = omega arith
digits_one (suc n) (suc a) h =
    omega (arith, no_digits n (suc a / 2), min_one (suc a % 2) (omega arith))

digits_two : (n a : ℕ) → a ≤ n → digits (λ b. zero) min n a 2 ≡ a / 2 % 2 * 2
digits_two zero a h = let z : a ≡ 0 = omega arith in omega (arith, z)
digits_two (suc n) zero h = omega arith
digits_two (suc n) (suc a) h =
    omega (arith, digits_one n (suc a / 2) (omega arith), min_zero (suc a % 2))

digits_three : (n a : ℕ) → a ≤ n → digits (λ b. zero) min n a 3 ≡ a / 2 % 2 * 2 + a % 2
digits_three zero a h = let z : a ≡ 0 = omega arith in omega (arith, z)
digits_three (suc n) zero h = omega arith
digits_three (suc n) (suc a) h =
    omega (arith, digits_one n (suc a / 2) (omega arith), min_one (suc a % 2) (omega arith))

-- `flags & (CHFL_CHANOP|CHFL_VOICE)` is not 0 exactly if one of the two flags is set.
pub has-either : (flags : ℕ) → (has flags 3 ≡ true) ↔ ((has flags 1 ≡ true) ⊎ (has flags 2 ≡ true))
has-either flags =
    let one = bit_and-bitwise flags 1 ∙ digits_one flags flags (omega arith) in
    let two = bit_and-bitwise flags 2 ∙ digits_two flags flags (omega arith) in
    let both = bit_and-bitwise flags 3 ∙ digits_three flags flags (omega arith) in
    rw (one, two, both) (ground arith)
