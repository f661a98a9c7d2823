-- ===== src/Tests/Container.antt =====
-- The device container and the configuration of the bus at concrete inputs.
use ros2_canopen.Base.{
  find, assign, ℕ, suc, ◌≡◌, refl, true, false, if◌then◌else◌, none, some, [], ◌∷◌,
}
use ros2_canopen.Core.Manager.{Name, master_name, same_name}
use ros2_canopen.Core.Config.{
  Found, missing, path, Yaml, Devices, options_name, device_at, insert_device, default_path,
  init_config, enter_devices,
}
use ros2_canopen.Core.Config.Laws.{
  IsAscending, IsLastPath, completed, map_option, device_at-init_config,
}
use ros2_canopen.Core.Container.{
  Ros, Container, load_all, load_master, find_master, load_component, load_drivers, load_each,
  load_driver, load_manager,
}
use ros2_canopen.Core.Container.Start.{IsStarted, load_all-IsStarted}

-- A section of the file: its node_id and its path.
abbrev Section : Type 0
Section = ℕ × Name

abbrev found : Name → Found
found [] = missing
found (c ∷ cs) = path (c ∷ cs)

abbrev sections : Yaml Section
sections = record { dcf_path = λ n. found n.1; set_dcf_path = λ path n. (n.0, path) }

-- The names "a" and "b".
abbrev first_drive : Name
first_drive = 97 ∷ []

abbrev second_drive : Name
second_drive = 98 ∷ []

abbrev bus_file : Devices Section
bus_file =
    (master_name, (1, []))
    ∷ (second_drive, (3, []))
    ∷ (options_name, (0, 47 ∷ []))
    ∷ (first_drive, (2, 46 ∷ []))
    ∷ []

second_drive-in_file :
    IsAscending (init_config sections bus_file).1
    × ((current : Name) × IsLastPath sections [] current bus_file
        × (device_at second_drive (init_config sections bus_file).1 ≡ (
            if same_name second_drive options_name
            then none
            else map_option (completed sections current) (device_at second_drive bus_file))))
unfolding init_config
second_drive-in_file = device_at-init_config sections bus_file second_drive refl

-- Components that load and nodes that start; a node is its id, and the world counts the calls.
abbrev simple : Ros ℕ Section ℕ
simple = record {
  load_file = λ name w. some bus_file;
  entry = λ n. record {
    node_id = some n.0;
    driver = some first_drive;
    package_name = some first_drive;
  };
  has_component = λ package_name driver w. (true, suc w);
  create = λ driver name id w. (some id, suc w);
  is_lifecycle = λ node. true;
  init_node = λ node w. (true, suc w);
  set_master = λ node master w. (true, suc w);
  create_manager = λ w. (true, suc w);
}

abbrev empty_container : Container ℕ Section ℕ
empty_container = record {
  config = (init_config sections bus_file).1;
  can_master = none;
  can_master_id = 0;
  lifecycle_operation = false;
  registered = [];
  has_manager = false;
  world = 0;
}

container-IsStarted : IsStarted simple empty_container.config (load_all simple empty_container)
container-IsStarted = load_all-IsStarted simple empty_container refl refl

-- It comes up.
container_registers : (load_all simple empty_container).1.registered ≡ (2, 2) ∷ (3, 3) ∷ []
unfolding load_all load_master find_master load_component load_drivers load_each load_driver
    load_manager init_config enter_devices insert_device default_path find assign
container_registers = refl
