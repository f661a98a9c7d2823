-- ===== src/Nodes/Base/Boots.antt =====
-- How a device is added to the master
-- (canopen_base_driver/include/canopen_base_driver/node_interfaces/node_canopen_base_driver_impl.hpp).
use ros2_canopen.Base.{ℕ, ◌+◌, ◌≤◌, ◌≡◌, ◌⊎◌, true, false}
use ros2_canopen.Bridge.Boot.{Boot, wait_for_boot}
use ros2_canopen.Nodes.Base.{Device, Attempt, Added, added, boot_failed, on_boots, retry}

-- A device that booted with at most `left - 1` further resets, or one that did not with that many.
abbrev pub IsBooted : ℕ → Device → Added × Device → Type 0
IsBooted left d (r, d') =
    ((r ≡ added) × (d'.boot.booted ≡ true) × (d'.resets + 1 ≤ d.resets + left))
    ⊎ ((r ≡ boot_failed) × (d'.boot.booted ≡ false) × (d'.resets + 1 ≡ d.resets + left))

-- What an attempt's wait leaves, for the next attempt.
abbrev failed_device : Attempt → Device → Device
failed_device a d = retry (record d { boot = (wait_for_boot a.ends (on_boots a.before d.boot)).1 })
