-- ===== src/Nodes/Base.antt =====
-- The base of the driver nodes: `NodeCanopenBaseDriver`
-- (canopen_base_driver/include/canopen_base_driver/node_interfaces/node_canopen_base_driver_impl.hpp).
-- Log lines and diagnostics texts are left out.
pub mod Boots
pub mod Polls
use ros2_canopen.Base.{
  ℕ, zero, suc, ◌+◌, Bool, true, false, not, if◌then◌else◌, Option, none, some, List, [], ◌∷◌,
}
use ros2_canopen.Core.Manager.{value_or}
use ros2_canopen.Bridge.Dictionary.{CoData}
use ros2_canopen.Bridge.Boot.{
  Boot, on_boot, boot, Wake, Waited, ready, failed, wait_for_boot, CoEmcy,
}

-- What `configure` reads, none where the entry is missing or cannot be converted.
pub record Options : Type 0 where
  pub non_transmit_timeout : Option ℕ
  pub polling : Option Bool
  pub period : Option ℕ
  pub diagnostics_enable : Option Bool
  pub diagnostics_period : Option ℕ
  pub sdo_timeout_ms : Option ℕ
  pub boot_timeout_ms : Option ℕ

pub record Settings : Type 0 where
  pub non_transmit_timeout : ℕ
  pub polling : Bool
  pub period_ms : ℕ
  pub diagnostic_enabled : Bool
  pub diagnostic_period_ms : ℕ
  pub sdo_timeout_ms : ℕ
  pub boot_timeout_ms : ℕ

-- The periods are read only where they are used.
abbrev pub read_polling : Options → Settings → Settings
read_polling o s =
    let polling = value_or true o.polling in
    record s {
      polling = polling;
      period_ms = if polling then value_or 10 o.period else s.period_ms;
    }

abbrev pub read_diagnostics : Options → Settings → Settings
read_diagnostics o s =
    let enabled = value_or false o.diagnostics_enable in
    record s {
      diagnostic_enabled = enabled;
      diagnostic_period_ms =
          if enabled then value_or 1000 o.diagnostics_period else s.diagnostic_period_ms;
    }

unfoldable pub configure : Options → Settings → Settings
configure o s = record (read_diagnostics o (read_polling o s)) {
  non_transmit_timeout = value_or s.non_transmit_timeout o.non_transmit_timeout;
  sdo_timeout_ms = value_or 20 o.sdo_timeout_ms;
  boot_timeout_ms = value_or 1000 o.boot_timeout_ms;
}

-- The bridge's boot-up and the number of NMT resets that were sent.
pub record Device : Type 0 where
  pub boot : Boot
  pub resets : ℕ

-- One attempt: the calls of `OnBoot` before the wait, and what the wait ends by.
pub record Attempt : Type 0 where
  pub before : List (ℕ × ℕ)
  pub ends : Wake

pub data Added : Type 0 where
  added adding_timed_out boot_failed : Added

abbrev pub on_boots : List (ℕ × ℕ) → Boot → Boot
on_boots [] s = s
on_boots ((st, es) ∷ rest) s = on_boots rest (on_boot st es s)

-- `nmt_command(RESET_NODE)` and `Boot()`.
abbrev pub retry : Device → Device
retry d = record d { boot = boot d.boot; resets = d.resets + 1 }

-- After a wait, with `left` attempts to go: the last one is not followed by a reset.
abbrev pub after_wait : Waited → ℕ → (Device → Added × Device) → Device → Added × Device
after_wait ready left next d = (added, d)
after_wait (failed code) zero next d = (boot_failed, d)
after_wait (failed code) (suc left) next d = next (retry d)

-- The loop of attempts, the `i`th being next.
unfoldable pub boot_loop : (ℕ → Attempt) → ℕ → ℕ → Device → Added × Device
boot_loop attempts zero i d = (boot_failed, d)
boot_loop attempts (suc left) i d =
    let a = attempts i in
    let (r, b) = wait_for_boot a.ends (on_boots a.before d.boot) in
    after_wait r left (boot_loop attempts left (suc i)) (record d { boot = b })

-- `in_time` tells whether the bridge was made in time, and `is_ready` what its `IsReady` gives.
unfoldable pub add_to_master : (ℕ → Attempt) → Bool → Bool → Device → Added × Device
add_to_master attempts in_time is_ready d =
    if not in_time
    then (adding_timed_out, d)
    else if is_ready
    then (added, d)
    else boot_loop attempts 3 0 d

-- At most `n` elements are taken out and handled, in turn. A handler that throws ends the loop, and
-- its element is gone.
unfoldable pub drain {ℓ} :
    {A : Type ℓ} {W : Type 0} → ℕ → (A → W → Bool × W) → List A → W → List A × W
drain zero handle queue w = (queue, w)
drain (suc n) handle [] w = ([], w)
drain (suc n) handle (x ∷ queue) w =
    let (ok, w') = handle x w in
    let rest = drain n handle queue w' in if ok then rest else (queue, w')

-- The callbacks with the virtual functions, false where they throw.
pub record Handlers (W : Type 0) : Type 0 where
  pub on_emcy : CoEmcy → W → Bool × W
  pub on_rpdo : CoData → W → Bool × W

pub record Queues (W : Type 0) : Type 0 where
  pub emcy_queue : List CoEmcy
  pub rpdo_queue : List CoData
  pub world : W

unfoldable pub poll_timer_callback : {W : Type 0} → Handlers W → Queues W → Queues W
unfolding drain
poll_timer_callback handlers q =
    let (emcy, w) = drain 10 handlers.on_emcy q.emcy_queue q.world in
    let (rpdo, w') = drain 10 handlers.on_rpdo q.rpdo_queue w in
    record { emcy_queue = emcy; rpdo_queue = rpdo; world = w' }
