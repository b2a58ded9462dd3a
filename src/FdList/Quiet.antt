-- ===== src/FdList/Quiet.antt =====
-- A client of src/fdlist.c that sends nothing.
use igniteircd.Prelude.{
  ℕ, zero, suc, inl, inr, ◌+◌, ◌*◌, ◌<◌, ◌≤◌, ◌⊎◌, ◌≡◌, refl, sym, subst, ◌∙◌, Bool, true, false,
  Option, none, some, ltb, if◌then◌else◌, Bool-cases, arith,
}
use igniteircd.FdList.{Local, State, busy_client, fdlist_check}
use igniteircd.FdList.Bits.{is_busy}
use igniteircd.FdList.Check.{next_priority, checked}
use igniteircd.FdList.Priority.{IsChecked, IsCheckedLocal, fdlist_check_lem}

-- So many rounds over the descriptors, one after the other.
pub checks : ℕ → ℕ → State → State
checks zero n s = s
checks (suc k) n s = fdlist_check n (checks k n s)

-- An idle client that is no server and no operator, with a priority from p on.
abbrev IsIdle : ℕ → Option Local → Type 0
IsIdle p none = ⊥
IsIdle p (some l) = (l.is_exempt ≡ false) × (l.receive_m ≡ l.lastrecv_m) × (p ≤ l.priority)

abbrev IsAfter : ℕ → ℕ → Option Local → Type 0
IsAfter q flags client = (flags < 256) × IsIdle q client × ((is_busy flags ≡ false) ⊎ (q < 75))

IsIdle-checked :
    (p q : ℕ) (l : Local) → IsIdle p (some l) → q ≤ p + 2 → q ≤ 90 → IsIdle q (some (checked l))
IsIdle-checked p q l h up top =
    let raised : q ≤ next_priority l = ground (arith, h.1, h.2, up, top) in (h.0, refl, raised)

busy_client-high :
    (lifesux : Bool) (priority : ℕ) → 75 ≤ priority → busy_client lifesux priority ≡ false
unfolding busy_client
busy_client-high true priority h = ground (arith, h)
busy_client-high false priority h = ground (arith, h)

quiet_if :
    (b : Bool) (lifesux : Bool) (priority q : ℕ)
    → q ≤ priority
    → b ≡ busy_client lifesux priority
    → (b ≡ false) ⊎ (q < 75)
quiet_if b lifesux priority q h e = elim (Bool-cases (ltb q 75)) [
  | inl t ↦ inr (ground (arith, t))
  | inr f ↦ inl (e ∙ busy_client-high lifesux priority (ground (arith, f, h)))
]

IsAfter-check :
    (p q : ℕ) (lifesux : Bool) (flags : ℕ) (o : Option Local) (flags' : ℕ) (o' : Option Local)
    → IsIdle p o
    → q ≤ p + 2
    → q ≤ 90
    → IsChecked lifesux flags o flags' o'
    → IsAfter q flags' o'
IsAfter-check p q lifesux flags none flags' o' h up top c = absurd h
IsAfter-check p q lifesux flags (some l) flags' o' h up top c =
    let here = subst (λ b. IsCheckedLocal b lifesux flags l flags' o') h.0 c in
    let idle = IsIdle-checked p q l h up top in
    (
      here.0,
      subst (IsIdle q) (sym here.3) idle,
      quiet_if (is_busy flags') lifesux (next_priority l) q idle.2 here.1,
    )

-- What is known of the priority after k rounds.
abbrev level : ℕ → ℕ
level k = if ltb 38 k then 76 else 2 * k

level-suc : (k : ℕ) → (level (suc k) ≤ level k + 2) × (level (suc k) ≤ 90)
level-suc k = ground arith

checks_idle :
    (k : ℕ) (n : ℕ) (s : State) (fd : ℕ)
    → fd < n
    → s.fd_list fd < 256
    → IsIdle 0 (s.local fd)
    → IsAfter (level k) ((checks k n s).fd_list fd) ((checks k n s).local fd)
unfolding checks
checks_idle zero n s fd inside small idle = (small, idle, inr (omega arith))
checks_idle (suc k) n s fd inside small idle =
    let t = checks k n s in
    let (below, still, quiet) = checks_idle k n s fd inside small idle in
    let (up, top) = level-suc k in
    IsAfter-check (level k) (level (suc k)) t.lifesux (t.fd_list fd) (t.local fd) _ _ still up top
      (fdlist_check_lem n t fd inside below)

-- A client that is no server and no operator and sends no message is off the busy list after 38
-- rounds of fdlist_check, and after any more, whatever its priority was at first.
pub checks_quiet :
    (k : ℕ) (n : ℕ) (s : State) (fd : ℕ) (l : Local)
    → 38 ≤ k
    → fd < n
    → s.fd_list fd < 256
    → s.local fd ≡ some l
    → l.is_exempt ≡ false
    → l.receive_m ≡ l.lastrecv_m
    → is_busy ((checks k n s).fd_list fd) ≡ false
checks_quiet k n s fd l long inside small here plain silent =
    let (below, still, quiet) =
      checks_idle k n s fd inside small
        (subst (IsIdle 0) (sym here) (plain, silent, omega arith)) in
    elim quiet [ inl e ↦ e | inr e ↦ absurd (ground (arith, e, long)) ]
