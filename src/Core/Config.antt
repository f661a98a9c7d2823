-- ===== src/Core/Config.antt =====
-- The configuration of the bus: `ConfigurationManager`
-- (canopen_core/src/configuration_manager.cpp,
-- canopen_core/include/canopen_core/configuration_manager.hpp). A node of yaml-cpp is a parameter, and
-- the file is what `YAML::LoadFile` gives: the names at the top with their nodes, in the file's order.
pub mod Names
pub mod Laws
use ros2_canopen.Base.{ℕ, suc, Bool, true, false, if◌then◌else◌, Option, none, some, List, [], ◌∷◌}
use ros2_canopen.Core.Manager.{Name, same_name, less_name}

-- `node["dcf_path"]`: on a node that is no map it throws; else there is none, or one that cannot be
-- converted to a text, or a text.
pub data Found : Type 0 where
  not_a_map missing malformed : Found
  path : Name → Found

-- `node["dcf_path"]`, to ask for it and to read it, and to set it.
pub record Yaml (N : Type 0) : Type 0 where
  pub dcf_path : N → Found
  pub set_dcf_path : Name → N → N

-- `std::map<std::string, YAML::Node>`, in the order of the names.
abbrev pub Devices : Type 0 → Type 0
Devices N = List (Name × N)

abbrev pub options_name : Name
options_name = 111 ∷ 112 ∷ 116 ∷ 105 ∷ 111 ∷ 110 ∷ 115 ∷ []

module _ {N : Type 0} where
  -- `devices_.insert`, which keeps a node that is there.
  unfoldable pub insert_device : Name → N → Devices N → Devices N
  insert_device name node [] = (name, node) ∷ []
  insert_device name node ((other, n) ∷ rest) =
      let tail = insert_device name node rest in
      if same_name name other
      then (other, n) ∷ rest
      else if less_name name other
      then (name, node) ∷ (other, n) ∷ rest
      else (other, n) ∷ tail

  -- `devices_.at`, none where it throws.
  unfoldable pub device_at : Name → Devices N → Option N
  device_at name [] = none
  device_at name ((other, n) ∷ rest) = if same_name name other then some n else device_at name rest

  -- The names and their count.
  unfoldable pub get_all_devices : Devices N → List Name × ℕ
  get_all_devices [] = ([], 0)
  get_all_devices ((name, n) ∷ rest) =
      let (names, count) = get_all_devices rest in (name ∷ names, suc count)

module _ {A N : Type 0} where
  abbrev pub read_entry : (N → Option A) → Option N → Option A
  read_entry read none = none
  read_entry read (some n) = read n

  -- `read` gives none where the entry is missing or cannot be converted.
  unfoldable pub get_entry : (N → Option A) → Name → Devices N → Option A
  get_entry read name devices = read_entry read (device_at name devices)

-- The path after a section with options, none where that throws.
abbrev pub section_path : Name → Found → Option Name
section_path current not_a_map = none
section_path current missing = some current
section_path current malformed = none
section_path current (path text) = some text

abbrev pub then_path : Option Name → (Name → Option Name) → Option Name
then_path none rest = none
then_path (some current) rest = rest current

module _ {N : Type 0} where
  -- The end of an exception leaves what was entered; `false` tells that it was thrown.
  abbrev pub enter_one :
      Name → Option N → (Devices N → Bool × Devices N) → Devices N → Bool × Devices N
  enter_one name none rest devices = (false, devices)
  enter_one name (some n) rest devices = rest (insert_device name n devices)

module _ {N : Type 0} (yaml : Yaml N) where
  -- The first loop: the path of the last section with options.
  unfoldable pub default_path : Name → Devices N → Option Name
  default_path current [] = some current
  default_path current ((name, n) ∷ rest) =
      then_path
        (if same_name name options_name
          then section_path current (yaml.dcf_path n)
          else some current)
        (λ next. default_path next rest)

  abbrev pub with_path : Name → N → Found → Option N
  with_path current n not_a_map = none
  with_path current n missing = some (yaml.set_dcf_path current n)
  with_path current n malformed = some n
  with_path current n (path text) = some n

  -- The second loop.
  unfoldable pub enter_devices : Name → Devices N → Devices N → Bool × Devices N
  enter_devices current [] devices = (true, devices)
  enter_devices current ((name, n) ∷ rest) devices =
      if same_name name options_name
      then enter_devices current rest devices
      else enter_one name (with_path current n (yaml.dcf_path n)) (enter_devices current rest)
          devices

  abbrev pub enter_root : Option Name → Devices N → Bool × Devices N
  enter_root none root = (false, [])
  enter_root (some current) root = enter_devices current root []

  unfoldable pub init_config : Devices N → Bool × Devices N
  unfolding default_path enter_devices
  init_config root = enter_root (default_path [] root) root
