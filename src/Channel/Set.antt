-- ===== src/Channel/Set.antt =====
-- A table with one entry replaced.
use igniteircd.Prelude.{ℕ, ◌≡◌, ◌≢◌, refl, false, ◌==◌, arith, ==-refl}
use igniteircd.Channel.{set}

pub set-same {ℓ} : {A : Type ℓ} (f : ℕ → A) (i j : ℕ) (x : A) → j ≢ i → set f i x j ≡ f j
set-same f i j x h = let e : (j == i) ≡ false = ground (arith, h) in rw e refl

pub set_at {ℓ} : {A : Type ℓ} (f : ℕ → A) (i : ℕ) (x : A) → set f i x i ≡ x
set_at f i x = rw (==-refl i) refl
