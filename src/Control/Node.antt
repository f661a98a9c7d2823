-- ===== src/Control/Node.antt =====
-- What the hardware interfaces keep of a node: `Ros2ControlEmcyData`, `Ros2ControlNmtState` and
-- `CanopenNodeData` (canopen_ros2_control/include/canopen_ros2_control/canopen_system.hpp). The
-- unused `rsdo`, `wsdo` and the copies of what was received last for log lines are left out.
pub mod Laws
use ros2_canopen.Base.{
  ℕ, ◌+◌, ◌*◌, Bool, true, false, if◌then◌else◌, Option, none, some, List, [], ◌∷◌, find, insert,
  store, is_some,
}
use ros2_canopen.Base.Int.{ℤ, pos}
use ros2_canopen.Bridge.Dictionary.{CoData}
use ros2_canopen.Bridge.Boot.{CoEmcy}
use ros2_canopen.Core.Manager.{value_or}
use ros2_canopen.Control.Value.{
  Floats, Shared, Command, int32_t, of_nat, is_active, prepare_read, set_data,
}

-- `Ros2ControlEmcyData`
pub record EmcyData (F : Type 0) : Type 0 where
  pub error_code : F
  pub error_register : F
  pub manufacturer_error_codes : List F

-- `Ros2ControlNmtState`
pub record NmtState (F : Type 0) : Type 0 where
  pub state : F
  pub reset_ons : F
  pub reset_fbk : F
  pub start_ons : F
  pub start_fbk : F

-- `CanopenNodeData`, the maps under `pdo_key`.
pub record NodeData (F : Type 0) : Type 0 where
  pub nmt_state : NmtState F
  pub rpdo_data : Shared F
  pub tpdo_data : Command F
  pub emcy_data : EmcyData F
  pub rpdo_data_map : List (ℕ × F)
  pub rpdo_raw_data_map : List (ℕ × ℕ)

-- `PDO_INDICES`, an index and a subindex below 256, as one number.
abbrev pub pdo_key : ℕ → ℕ → ℕ
pdo_key index subindex = index * 256 + subindex

-- `if (map.find(key) != map.end()) map.at(key) = value; else map.emplace(key, value);`
unfoldable pub update_or_emplace {ℓ} : {A : Type ℓ} → ℕ → A → List (ℕ × A) → List (ℕ × A)
unfolding find store insert
update_or_emplace k v m = if is_some (find k m) then store k v m else insert k v m

-- Two neighbouring bytes, `memcpy` of a `uint16_t`; `next` is the byte behind them.
abbrev pub pairs : List ℕ → ℕ → List ℕ
pairs [] next = []
pairs (b ∷ []) next = (b + 256 * next) ∷ []
pairs (b ∷ c ∷ bytes) next = (b + 256 * c) ∷ pairs (c ∷ bytes) next

module _ {F : Type 0} (floats : Floats F) where
  abbrev pub of_nats : List ℕ → List F
  of_nats [] = []
  of_nats (n ∷ ns) = of_nat floats n ∷ of_nats ns

  -- `behind` is the byte behind the emergency, which the last `memcpy` reads.
  unfoldable pub set_emcy : ℕ → CoEmcy → EmcyData F → EmcyData F
  set_emcy behind e s = record {
    error_code = of_nat floats e.eec;
    error_register = of_nat floats e.er;
    manufacturer_error_codes = of_nats (pairs e.msef behind);
  }

  abbrev pub set_state : ℕ → NmtState F → NmtState F
  set_state s n = record n { state = of_nat floats s }

  -- The test, and the command set back.
  abbrev pub reset_command : NmtState F → Bool × NmtState F
  reset_command n = (is_active floats n.reset_ons, record n { reset_ons = floats.quiet_nan })

  abbrev pub start_command : NmtState F → Bool × NmtState F
  start_command n = (is_active floats n.start_ons, record n { start_ons = floats.quiet_nan })

  abbrev pub no_data : Shared F
  no_data = record {
    original_data = record { index = 0; subindex = 0; word = 0 };
    index = of_nat floats 0;
    subindex = of_nat floats 0;
    value = of_nat floats 0;
    co_type = int32_t;
  }

  -- `CanopenNodeData()`
  abbrev pub make : NodeData F
  make = record {
    nmt_state = record {
      state = of_nat floats 0;
      reset_ons = floats.quiet_nan;
      reset_fbk = floats.quiet_nan;
      start_ons = floats.quiet_nan;
      start_fbk = floats.quiet_nan;
    };
    rpdo_data = no_data;
    tpdo_data = record { shared = no_data; one_shot = floats.quiet_nan };
    emcy_data = record {
      error_code = of_nat floats 0;
      error_register = of_nat floats 0;
      manufacturer_error_codes = of_nats (0 ∷ 0 ∷ 0 ∷ 0 ∷ 0 ∷ []);
    };
    rpdo_data_map = [];
    rpdo_raw_data_map = [];
  }

  unfoldable pub set_rpdo_data : CoData → NodeData F → NodeData F
  unfolding prepare_read update_or_emplace
  set_rpdo_data d s =
      let rpdo = prepare_read floats (set_data floats d s.rpdo_data) in
      let k = pdo_key d.index d.subindex in
      record s {
        rpdo_data = rpdo;
        rpdo_raw_data_map = update_or_emplace k d.word s.rpdo_raw_data_map;
        rpdo_data_map = update_or_emplace k rpdo.value s.rpdo_data_map;
      }

  unfoldable pub get_rpdo_data : ℕ → ℕ → NodeData F → F
  unfolding find
  get_rpdo_data index subindex s =
      value_or floats.quiet_nan (find (pdo_key index subindex) s.rpdo_data_map)

module _ {F : Type 0} where
  -- `numeric_limits<uint32_t>::quiet_NaN()` is 0.
  unfoldable pub get_rpdo_raw_data : ℕ → ℕ → NodeData F → ℕ
  unfolding find
  get_rpdo_raw_data index subindex s =
      value_or 0 (find (pdo_key index subindex) s.rpdo_raw_data_map)
