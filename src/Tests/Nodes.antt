-- ===== src/Tests/Nodes.antt =====
-- The driver nodes at concrete inputs.
use ros2_canopen.Base.{ℕ, zero, suc, some, ◌+◌, ◌*◌, Bool, true, false, List, [], ◌∷◌}
use ros2_canopen.Bridge.Boot.{CoEmcy, timeout, notified}
use ros2_canopen.Bridge.Dictionary.{CoData}
use ros2_canopen.Nodes.Drive.{Doubles, MotorCalls, Channel, Node, default_scales}
use ros2_canopen.Nodes.Base.{Device, Attempt, Handlers, Queues}

-- The first wait is in vain, and in the second the device reports that it has booted.
abbrev second_boots : ℕ → Attempt
second_boots zero = record { before = []; ends = timeout }
second_boots (suc i) = record { before = []; ends = notified 5 0 }

abbrev off : Device
off = record { boot = record { booted = false; boot_status = 0; boot_state = 0 }; resets = 0 }

-- Handlers that write down what they got.
abbrev write_down : Handlers (List ℕ)
write_down = record { on_emcy = λ x w. (true, x.eec ∷ w); on_rpdo = λ x w. (true, x.word ∷ w) }

abbrev emergency : CoEmcy
emergency = record { eec = 4096; er = 1; msef = [] }

abbrev value : ℕ → CoData
value n = record { index = 24641; subindex = 0; word = n }

abbrev two_values : Queues (List ℕ)
two_values = record { emcy_queue = emergency ∷ []; rpdo_queue = value 1 ∷ value 2 ∷ []; world = [] }

-- Whole numbers in place of the doubles, and motors that count what they are told.
abbrev whole : Doubles ℕ
whole = record {
  plus = λ a b. a + b;
  times = λ a b. a * b;
  thousand = 1000;
  thousandth = 0;
  nought = 0;
}

abbrev tell : ℕ → Bool × ℕ
tell m = (true, suc m)

abbrev counters : MotorCalls ℕ ℕ
counters = record {
  handle_init = tell;
  handle_recover = tell;
  handle_halt = tell;
  handle_enable = tell;
  handle_disable = tell;
  get_mode = λ m. 1;
  enter_mode_and_wait = λ mode m. tell m;
  set_target = λ t m. (true, m + t);
  handle_read = λ m. m;
  handle_write = λ m. m;
}

abbrev plain_channel : Channel ℕ ℕ
plain_channel = record { motor = some 0; scales = default_scales whole }

abbrev two_channels : Node ℕ ℕ
two_channels = record { activated = true; channels = plain_channel ∷ plain_channel ∷ [] }
