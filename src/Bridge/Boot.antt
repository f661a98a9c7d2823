-- ===== src/Bridge/Boot.antt =====
-- Boot-up, network states and emergencies: `OnBoot`, `Boot`, `wait_for_boot`, `OnState`,
-- `async_request_nmt`, `OnEmcy`
-- (canopen_base_driver/include/canopen_base_driver/lely_driver_bridge.hpp,
-- canopen_base_driver/src/lely_driver_bridge.cpp).
pub mod Laws
use ros2_canopen.Base.{
  ℕ, ◌+◌, ◌&&◌, ◌==◌, Bool, true, false, not, if◌then◌else◌, List, [], ◌∷◌, ◌++◌,
}

-- The characters 'L' and 'T' of `LelyBridgeErrc`, as their codes; 0 stands for no error.
abbrev pub nmt_slave_initially_operational : ℕ
nmt_slave_initially_operational = 76

abbrev pub time_out : ℕ
time_out = 84

-- The members that boot-up uses. `boot_status` has no initial value in the source.
pub record Boot : Type 0 where
  pub booted : Bool
  pub boot_status : ℕ
  pub boot_state : ℕ

-- `st` is the network state and `es` the error status of the boot process.
unfoldable pub on_boot : ℕ → ℕ → Boot → Boot
on_boot st es s = record s {
  booted = if es == 0 then true else s.booted;
  boot_state = st;
  boot_status = es;
}

-- The member `Boot()`, as far as the driver's own state goes.
unfoldable pub boot : Boot → Boot
boot s = record s { booted = false }

-- What a wait at `boot_cond` ends by.
pub data Wake : Type 0 where
  timeout : Wake
  notified : ℕ → ℕ → Wake

-- `true`, or the code of the `std::system_error`.
pub data Waited : Type 0 where
  ready : Waited
  failed : ℕ → Waited

abbrev pub judge : Boot → Waited × Boot
judge s =
    if not (s.boot_status == 0) && not (s.boot_status == nmt_slave_initially_operational)
    then (failed s.boot_status, s)
    else (ready, record s { booted = true })

abbrev pub wait : Wake → Boot → Waited × Boot
wait timeout s = (failed time_out, s)
wait (notified st es) s = judge (on_boot st es s)

unfoldable pub wait_for_boot : Wake → Boot → Waited × Boot
unfolding on_boot
wait_for_boot w s = if s.booted then (ready, s) else wait w s

-- The states of `canopen::NmtState` that the code tells apart.
pub data NmtState : Type 0 where
  bootup start : NmtState
  other : ℕ → NmtState

-- Each request makes a promise, known by a number; `current` is the last, and `granted` holds what
-- the promises got, the latest first.
pub record Nmt : Type 0 where
  pub is_set : Bool
  pub current : ℕ
  pub granted : List (ℕ × NmtState)

abbrev pub reported : NmtState → NmtState
reported bootup = start
reported st = st

-- `free` is the result of `try_lock`.
unfoldable pub on_state : Bool → NmtState → Nmt → Nmt
on_state free state s =
    if s.is_set
    then s
    else if free
    then record s { is_set = true; granted = (s.current, reported state) ∷ s.granted }
    else s

unfoldable pub async_request_nmt : Nmt → Nmt
async_request_nmt s = record s { is_set = false; current = s.current + 1 }

-- `COEmcy`
pub record CoEmcy : Type 0 where
  pub eec : ℕ
  pub er : ℕ
  pub msef : List ℕ

unfoldable pub on_emcy : ℕ → ℕ → List ℕ → List CoEmcy → List CoEmcy
on_emcy eec er msef queue = queue ++ (record { eec = eec; er = er; msef = msef } ∷ [])
