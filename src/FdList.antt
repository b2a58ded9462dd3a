-- ===== src/FdList.antt =====
-- src/fdlist.c: which descriptors are busy. The options are CLIENT_SERVER and no NO_PRIORITY.
pub mod Bits
pub mod Check
pub mod Priority
pub mod Quiet
mod Tests
use igniteircd.Prelude.{
  ℕ, zero, suc, ◌+◌, ◌-◌, ◌%◌, Bool, true, false, not, ◌&&◌, ◌||◌, Option, none, some, List, [],
  ◌∷◌, leb, ltb, ◌==◌, if◌then◌else◌, bit_and, bit_or,
}
use igniteircd.Channel.{set}

abbrev pub fdl_busy : ℕ
fdl_busy = 0x02

-- A client of `local`: `IsServer(cptr) || IsEmpowered(cptr)`, and what decides its priority.
pub record Local : Type 0 where
  pub is_exempt : Bool
  pub receive_m : ℕ
  pub lastrecv_m : ℕ
  pub priority : ℕ

-- GlobalFDList and `local` by descriptor, and GlobalSetOptions.lifesux.
pub record State : Type 0 where
  pub fd_list : ℕ → ℕ
  pub local : ℕ → Option Local
  pub lifesux : Bool

-- The memset.
pub fdlist_init : ℕ → ℕ
fdlist_init fd = 0

pub fdlist_add : ℕ → ℕ → State → State
fdlist_add fd mask s = record s { fd_list = set s.fd_list fd (bit_or (s.fd_list fd) mask) }

-- `~mask` in the eight bits of an unsigned char.
pub fdlist_delete : ℕ → ℕ → State → State
fdlist_delete fd mask s = record s {
  fd_list = set s.fd_list fd (bit_and (s.fd_list fd) (255 - mask));
}

-- BUSY_CLIENT
pub busy_client : Bool → ℕ → Bool
busy_client lifesux priority = ltb priority 55 || (not lifesux && ltb priority 75)

-- `GlobalFDList[i] &= ~FDL_BUSY;` and, where it is busy, `GlobalFDList[i] |= FDL_BUSY;`.
pub mark : Bool → ℕ → ℕ
mark busy flags =
    let quiet = bit_and flags (255 - fdl_busy) in if busy then bit_or quiet fdl_busy else quiet

-- `cptr->receiveM == cptr->lastrecvM`
pub check_idle : Bool → Local → ℕ → Local × ℕ
check_idle lifesux l flags =
    let p = l.priority + 2 in
    if ltb 90 p
    then (record l { priority = 90 }, mark false flags)
    else (record l { priority = p }, mark (busy_client lifesux p) flags)

-- A priority below 0 is set to 0.
pub check_active : Bool → Local → ℕ → Local × ℕ
check_active lifesux l flags =
    if ltb l.priority 30
    then (record l { lastrecv_m = l.receive_m; priority = 0 }, mark true flags)
    else (
      record l { lastrecv_m = l.receive_m; priority = l.priority - 30 },
      mark (busy_client lifesux (l.priority - 30)) flags,
    )

pub check_local : Bool → Local → ℕ → Local × ℕ
check_local lifesux l flags =
    if l.receive_m == l.lastrecv_m then check_idle lifesux l flags else check_active lifesux l flags

-- `if (IsServer(cptr) || IsEmpowered(cptr)) continue;` and what follows it.
pub unless_exempt : Bool → State → ℕ → Local → State
unless_exempt true s i l = s
unless_exempt false s i l =
    let (l', flags) = check_local s.lifesux l (s.fd_list i) in
    record s { fd_list = set s.fd_list i flags; local = set s.local i (some l') }

-- A round of the loop for descriptor i.
pub check_at : State → ℕ → Option Local → State
check_at s i none = s
check_at s i (some l) = unless_exempt l.is_exempt s i l

-- The loop, where n is `highest_fd + 1`.
pub fdlist_check : ℕ → State → State
fdlist_check zero s = s
fdlist_check (suc i) s = fdlist_check i (check_at s i (s.local i))
