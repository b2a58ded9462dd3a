-- ===== src/FdList/Tests.antt =====
-- src/fdlist.c on an idle and an active client.
use igniteircd.Prelude.{◌≡◌, refl, true, false, some, if◌then◌else◌, ◌==◌, arith}
use igniteircd.FdList.{Local, State}
use igniteircd.FdList.Bits.{is_busy}
use igniteircd.FdList.Quiet.{checks, checks_quiet}

abbrev idle : Local
idle = record { is_exempt = false; receive_m = 4; lastrecv_m = 4; priority = 7 }

abbrev active : Local
active = record { is_exempt = false; receive_m = 5; lastrecv_m = 4; priority = 90 }

abbrev sample : State
sample = record {
  fd_list = λ fd. if fd == 1 then 10 else 8;
  local = λ fd. if fd == 1 then some idle else some active;
  lifesux = true;
}

checks_quiet_example : is_busy ((checks 40 3 sample).fd_list 1) ≡ false
checks_quiet_example =
    checks_quiet 40 3 sample 1 idle (omega arith) (omega arith) (omega arith) refl refl refl
