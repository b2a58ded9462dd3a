-- ===== src/FdList/Check.antt =====
-- What a check of one client in src/fdlist.c makes of its priority.
use igniteircd.Prelude.{
  ℕ, inl, inr, ◌+◌, ◌-◌, ◌<◌, ◌≡◌, ◌≢◌, refl, sym, ap, ◌∙◌, Bool, true, false, ltb, ◌==◌,
  if◌then◌else◌, Bool-cases, arith,
}
use igniteircd.FdList.{Local, State, busy_client, mark, check_idle, check_active, check_local}

-- All flags are unsigned chars.
abbrev pub IsState : State → Type 0
IsState s = (fd : ℕ) → s.fd_list fd < 256

-- The priority of a client with no new message goes up by 2, to 90 at most; with a new one it
-- goes down by 30, to 0 at least.
abbrev pub next_priority : Local → ℕ
next_priority l =
    if l.receive_m == l.lastrecv_m
    then (if ltb 88 l.priority then 90 else l.priority + 2)
    else l.priority - 30

abbrev pub checked : Local → Local
checked l = record l { lastrecv_m = l.receive_m; priority = next_priority l }

if_then {ℓ} : {A : Type ℓ} (b : Bool) (x y : A) → b ≡ true → (if b then x else y) ≡ x
if_then b x y e = rw e refl

if_else {ℓ} : {A : Type ℓ} (b : Bool) (x y : A) → b ≡ false → (if b then x else y) ≡ y
if_else b x y e = rw e refl

idle_priority :
    (l : Local)
    → l.receive_m ≡ l.lastrecv_m
    → next_priority l ≡ (if ltb 88 l.priority then 90 else l.priority + 2)
idle_priority l e = ground (arith, e)

active_priority : (l : Local) → l.receive_m ≢ l.lastrecv_m → next_priority l ≡ l.priority - 30
active_priority l e = ground (arith, e)

-- The client with other counters, and its flags marked by the priority.
abbrev result : Bool → Local → ℕ → ℕ → ℕ → Local × ℕ
result lifesux l flags m p =
    (record l { lastrecv_m = m; priority = p }, mark (busy_client lifesux p) flags)

same_result :
    (lifesux : Bool) (l : Local) (flags : ℕ) (m n p q : ℕ)
    → m ≡ n
    → p ≡ q
    → result lifesux l flags m p ≡ result lifesux l flags n q
same_result lifesux l flags m n p q e e' = rw (e, e') refl

busy-top : (lifesux : Bool) → busy_client lifesux 90 ≡ false
unfolding busy_client
busy-top true = refl
busy-top false = refl

busy-bottom : (lifesux : Bool) → busy_client lifesux 0 ≡ true
unfolding busy_client
busy-bottom lifesux = refl

check_idle_lem :
    (lifesux : Bool) (l : Local) (flags : ℕ)
    → l.receive_m ≡ l.lastrecv_m
    → check_idle lifesux l flags ≡ result lifesux l flags l.receive_m (next_priority l)
unfolding check_idle
check_idle_lem lifesux l flags e = elim (Bool-cases (ltb 90 (l.priority + 2))) [
  | inl t ↦
      if_then (ltb 90 (l.priority + 2)) _ _ t
      ∙ ap (λ b. ((record l { priority = 90 }), mark b flags)) (sym (busy-top lifesux))
      ∙ same_result lifesux l flags l.lastrecv_m l.receive_m 90 (next_priority l) (sym e)
          (ground (arith, t, idle_priority l e))
  | inr f ↦
      if_else (ltb 90 (l.priority + 2)) _ _ f
      ∙ same_result lifesux l flags l.lastrecv_m l.receive_m (l.priority + 2) (next_priority l)
          (sym e) (ground (arith, f, idle_priority l e))
]

check_active_lem :
    (lifesux : Bool) (l : Local) (flags : ℕ)
    → l.receive_m ≢ l.lastrecv_m
    → check_active lifesux l flags ≡ result lifesux l flags l.receive_m (next_priority l)
unfolding check_active
check_active_lem lifesux l flags e = elim (Bool-cases (ltb l.priority 30)) [
  | inl t ↦
      if_then (ltb l.priority 30) _ _ t
      ∙ ap (λ b. (record l { lastrecv_m = l.receive_m; priority = 0 }, mark b flags))
          (sym (busy-bottom lifesux))
      ∙ same_result lifesux l flags l.receive_m l.receive_m 0 (next_priority l) refl
          (ground (arith, t, active_priority l e))
  | inr f ↦
      if_else (ltb l.priority 30) _ _ f
      ∙ same_result lifesux l flags l.receive_m l.receive_m (l.priority - 30) (next_priority l) refl
          (sym (active_priority l e))
]

-- The client after a check, and its flags.
pub check_local_lem :
    (lifesux : Bool) (l : Local) (flags : ℕ)
    → check_local lifesux l flags ≡ (checked l, mark (busy_client lifesux (next_priority l)) flags)
unfolding check_local
check_local_lem lifesux l flags = elim (Bool-cases (l.receive_m == l.lastrecv_m)) [
  | inl t ↦
      if_then (l.receive_m == l.lastrecv_m) _ _ t
      ∙ check_idle_lem lifesux l flags (ground (arith, t))
  | inr f ↦
      if_else (l.receive_m == l.lastrecv_m) _ _ f
      ∙ check_active_lem lifesux l flags (ground (arith, f))
]
