-- ===== src/FdList/Priority.antt =====
-- What a round over all descriptors in src/fdlist.c leaves behind.
use igniteircd.Prelude.{
  ℕ, zero, suc, inl, inr, ◌<◌, ◌≤◌, ◌≡◌, ◌≢◌, refl, sym, ap, subst, ◌∙◌, Bool, true, false, Option,
  none, some, ◌==◌, Bool-cases, arith,
}
use igniteircd.Channel.{set}
use igniteircd.Channel.Set.{set-same, set_at}
use igniteircd.FdList.{
  unless_exempt, Local, State, busy_client, mark, check_local, check_at, fdlist_check,
}
use igniteircd.FdList.Bits.{is_busy, others, mark_lem}
use igniteircd.FdList.Check.{next_priority, checked, check_local_lem}

-- What the round makes of a client that is exempt or not.
abbrev pub IsCheckedLocal : Bool → Bool → ℕ → Local → ℕ → Option Local → Type 0
IsCheckedLocal true lifesux flags l flags' client' = (flags' ≡ flags) × (client' ≡ some l)
IsCheckedLocal false lifesux flags l flags' client' =
    (flags' < 256)
    × (is_busy flags' ≡ busy_client lifesux (next_priority l))
    × (others flags' ≡ others flags)
    × (client' ≡ some (checked l))

-- What the round makes of a descriptor with these flags and this client, where `flags'` and
-- `client'` are what it leaves.
abbrev pub IsChecked : Bool → ℕ → Option Local → ℕ → Option Local → Type 0
IsChecked lifesux flags none flags' client' = (flags' ≡ flags) × (client' ≡ none)
IsChecked lifesux flags (some l) flags' client' =
    IsCheckedLocal l.is_exempt lifesux flags l flags' client'

abbrev IsKept : State → ℕ → State → Type 0
IsKept s fd s' =
    (s'.fd_list fd ≡ s.fd_list fd) × (s'.local fd ≡ s.local fd) × (s'.lifesux ≡ s.lifesux)

unless_exempt-same :
    (exempt : Bool) (s : State) (i : ℕ) (l : Local) (fd : ℕ)
    → fd ≢ i
    → IsKept s fd (unless_exempt exempt s i l)
unfolding unless_exempt
unless_exempt-same true s i l fd h = (refl, refl, refl)
unless_exempt-same false s i l fd h =
    let (l', flags) = check_local s.lifesux l (s.fd_list i) in
    (set-same s.fd_list i fd flags h, set-same s.local i fd (some l') h, refl)

check_at-same :
    (s : State) (i : ℕ) (o : Option Local) (fd : ℕ) → fd ≢ i → IsKept s fd (check_at s i o)
unfolding check_at
check_at-same s i none fd h = (refl, refl, refl)
check_at-same s i (some l) fd h = unless_exempt-same l.is_exempt s i l fd h

check_at-lifesux : (s : State) (i : ℕ) (o : Option Local) → (check_at s i o).lifesux ≡ s.lifesux
check_at-lifesux s i o = (check_at-same s i o (suc i) (λ e. omega (arith, e))).2

unless_exempt_checks :
    (exempt : Bool) (s : State) (i : ℕ) (l : Local)
    → s.local i ≡ some l
    → s.fd_list i < 256
    → IsCheckedLocal exempt s.lifesux
        (s.fd_list i)
        l
        ((unless_exempt exempt s i l).fd_list i)
        ((unless_exempt exempt s i l).local i)
unfolding unless_exempt
unless_exempt_checks true s i l e small = (refl, e)
unless_exempt_checks false s i l e small =
    let flags = s.fd_list i in
    let c = check_local_lem s.lifesux l flags in
    let (m, bit, rest) = mark_lem (busy_client s.lifesux (next_priority l)) flags small in
    let f : set s.fd_list i ((check_local s.lifesux l flags).1) i
        ≡ mark (busy_client s.lifesux (next_priority l)) flags =
      set_at s.fd_list i _ ∙ ap (λ r. r.1) c in
    (
      subst (λ x. x < 256) (sym f) m,
      ap is_busy f ∙ bit,
      ap others f ∙ rest,
      set_at s.local i _ ∙ ap (λ r. some (r.0)) c,
    )

check_at_checks :
    (s : State) (i : ℕ) (o : Option Local)
    → s.local i ≡ o
    → s.fd_list i < 256
    → IsChecked s.lifesux (s.fd_list i) o ((check_at s i o).fd_list i) ((check_at s i o).local i)
unfolding check_at
check_at_checks s i none e small = (refl, e)
check_at_checks s i (some l) e small = unless_exempt_checks l.is_exempt s i l e small

-- Descriptors from n on are as they were.
fdlist_check-same : (n : ℕ) (s : State) (fd : ℕ) → n ≤ fd → IsKept s fd (fdlist_check n s)
unfolding fdlist_check
fdlist_check-same zero s fd h = (refl, refl, refl)
fdlist_check-same (suc i) s fd h =
    let s' = check_at s i (s.local i) in
    let now = check_at-same s i (s.local i) fd (λ e. omega (arith, e, h)) in
    let then_ = fdlist_check-same i s' fd (omega (arith, h)) in
    (then_.0 ∙ now.0, then_.1 ∙ now.1, then_.2 ∙ now.2)

moved :
    (a b : Bool) (f g : ℕ) (c d : Option Local) (f' g' : ℕ) (c' d' : Option Local)
    → a ≡ b
    → f ≡ g
    → c ≡ d
    → f' ≡ g'
    → c' ≡ d'
    → IsChecked b g d g' d'
    → IsChecked a f c f' c'
moved a b f g c d f' g' c' d' e e1 e2 e3 e4 h = rw (e, e1, e2, e3, e4) h

pub fdlist_check_lem :
    (n : ℕ) (s : State) (fd : ℕ)
    → fd < n
    → s.fd_list fd < 256
    → IsChecked s.lifesux
        (s.fd_list fd)
        (s.local fd)
        ((fdlist_check n s).fd_list fd)
        ((fdlist_check n s).local fd)
unfolding fdlist_check
fdlist_check_lem zero s fd h small = absurd (omega (arith, h))
fdlist_check_lem (suc i) s fd h small =
    let s' = check_at s i (s.local i) in
    elim (Bool-cases (fd == i)) [
      | inl t ↦
          let e : fd ≡ i = ground (arith, t) in
          let now = check_at_checks s i (s.local i) refl (subst (λ x. s.fd_list x < 256) e small) in
          let later = fdlist_check-same i s' i (omega arith) in
          subst
            (λ x.
              IsChecked s.lifesux (s.fd_list x) (s.local x) ((fdlist_check i s').fd_list x)
                ((fdlist_check i s').local x))
            (sym e) (moved s.lifesux _ _ _ _ _ _ _ _ _ refl refl refl later.0 later.1 now)
      | inr f ↦
          let (flags, client, lx) = check_at-same s i (s.local i) fd (ground (arith, f)) in
          let later =
            fdlist_check_lem i s' fd (ground (arith, h, f))
              (subst (λ x. x < 256) (sym flags) small) in
          moved _ _ _ _ _ _ _ _ _ _ (sym lx) (sym flags) (sym client) refl refl later
    ]
