-- ===== src/Core/Container.antt =====
-- The device container, which loads the master and the drivers: `DeviceContainer`
-- (canopen_core/src/device_container.cpp). Parameters of nodes, remappings, namespaces and log lines
-- are left out.
pub mod Laws
pub mod Loop
pub mod Start
use ros2_canopen.Base.{
  ℕ, ◌==◌, Bool, true, false, not, ◌&&◌, ◌||◌, if◌then◌else◌, Option, none, some, List, [], ◌∷◌,
  find, assign, is_some,
}
use ros2_canopen.Core.Manager.{Name, master_name, contains, same_name}
use ros2_canopen.Core.Config.{Yaml, Devices, options_name, init_config}

-- Why a call throws. `null_pointer` is a use of a null pointer, which has no defined behaviour.
pub data Error : Type 0 where
  no_parameter empty_parameter bad_bus_config : Error
  component_threw wrong_kind node_threw null_pointer : Error
  master_failed drivers_failed manager_failed : Error

-- What a method that returns a Boolean or throws gives.
pub data Loaded : Type 0 where
  loaded not_loaded : Loaded
  thrown : Error → Loaded

-- The entries of a device that have to be there.
pub record Entry : Type 0 where
  pub node_id : Option ℕ
  pub driver : Option Name
  pub package_name : Option Name

pub record Parameters : Type 0 where
  pub can_interface_name : Option Name
  pub master_config : Option Name
  pub master_bin : Option Name
  pub bus_config : Option Name

-- Nodes `D` of master and drivers, yaml nodes `N`, and the world `W`: the loading of files and of
-- component libraries, the constructors and `init` of nodes, none and false where they throw.
pub record Ros (D N W : Type 0) : Type 0 where
  pub load_file : Name → W → Option (Devices N)
  pub entry : N → Entry
  pub has_component : Name → Name → W → Bool × W
  pub create : Name → Name → ℕ → W → Option D × W
  pub is_lifecycle : D → Bool
  pub init_node : D → W → Bool × W
  pub set_master : D → D → W → Bool × W
  pub create_manager : W → Bool × W

-- `registered_drivers_` in the order of registration.
pub record Container (D N W : Type 0) : Type 0 where
  pub config : Devices N
  pub can_master : Option D
  pub can_master_id : ℕ
  pub lifecycle_operation : Bool
  pub registered : List (ℕ × D)
  pub has_manager : Bool
  pub world : W

abbrev pub Method : Type 0 → Type 0 → Type 0 → Type 0
Method D N W = Container D N W → Loaded × Container D N W

abbrev pub same_kind : Bool → Bool → Bool
same_kind true b = b
same_kind false b = not b

abbrev pub is_driver : Name → Bool
is_driver name = not (contains master_name name) && not (contains options_name name)

abbrev pub is_empty : Name → Bool
is_empty [] = true
is_empty (c ∷ cs) = false

module _ {D N W : Type 0} where
  abbrev pub then_do : Loaded × Container D N W → Method D N W → Loaded × Container D N W
  then_do (loaded, s) k = k s
  then_do (not_loaded, s) k = (not_loaded, s)
  then_do (thrown e, s) k = (thrown e, s)

  abbrev pub load_entries :
      Option ℕ → Option Name → Option Name → (ℕ → Name → Name → Method D N W) → Method D N W
  load_entries (some id) (some driver) (some package_name) k s = k id driver package_name s
  load_entries _ _ _ k s = (not_loaded, s)

  abbrev pub if_any : Devices N → Method D N W → Method D N W
  if_any [] k s = (not_loaded, s)
  if_any (d ∷ ds) k s = k s

  -- `if (!this->load()) throw e;`
  abbrev pub or_throw : Error → Loaded × Container D N W → Loaded × Container D N W
  or_throw e (not_loaded, s) = (thrown e, s)
  or_throw e (loaded, s) = (loaded, s)
  or_throw e (thrown e', s) = (thrown e', s)

  abbrev pub enter_config : Yaml N → Option (Devices N) → Method D N W
  enter_config yaml none s = (thrown bad_bus_config, s)
  enter_config yaml (some root) s =
      let (ok, config) = init_config yaml root in
      (if ok then loaded else thrown bad_bus_config, record s { config = config })

module _ {D N W : Type 0} (ros : Ros D N W) where
  -- A node that the component's constructor made.
  abbrev pub register : Name → ℕ → Option D → Method D N W
  register name id none s = (thrown component_threw, s)
  register name id (some node) s =
      if same_name name master_name
      then (loaded, record s { can_master = some node })
      else if same_kind s.lifecycle_operation (ros.is_lifecycle node)
      then (loaded, record s { registered = assign id node s.registered })
      else (thrown wrong_kind, s)

  abbrev pub create_node : Bool → Name → Name → ℕ → Method D N W
  create_node false driver name id s = (not_loaded, s)
  create_node true driver name id s =
      let (node, w) = ros.create driver name id s.world in
      register name id node (record s { world = w })

  unfoldable pub load_component : Name → Name → ℕ → Name → Method D N W
  load_component package_name driver id name s =
      let (found, w) = ros.has_component package_name driver s.world in
      create_node found driver name id (record s { world = w })

  -- `init()` of the node, and then `k`.
  abbrev pub init_then : D → Method D N W → Method D N W
  init_then node k s =
      let (ok, w) = ros.init_node node s.world in
      if ok then k (record s { world = w }) else (thrown node_threw, record s { world = w })

  -- What follows in `load_master`, through the pointer `can_master_`.
  abbrev pub use_master : Option D → ℕ → Method D N W
  use_master none id s = (thrown null_pointer, s)
  use_master (some node) id s =
      init_then node
        (λ s'.
          (loaded, record s' { can_master_id = id; lifecycle_operation = ros.is_lifecycle node }))
        s

  abbrev pub load_master_device : Name → Entry → Method D N W
  load_master_device name e =
      load_entries e.node_id e.driver e.package_name (λ id driver package_name s.
        then_do (load_component package_name driver id name s)
          (λ s'. use_master s'.can_master id s'))

  -- The loop of `load_master`: the first device with the word in its name counts.
  unfoldable pub find_master : Devices N → Method D N W
  find_master [] s = (not_loaded, s)
  find_master ((name, n) ∷ rest) s =
      if contains master_name name
      then load_master_device name (ros.entry n) s
      else find_master rest s

  unfoldable pub load_master : Method D N W
  load_master s = find_master s.config s

  abbrev pub use_driver : Option D → Method D N W
  use_driver none s = (thrown null_pointer, s)
  use_driver (some node) s = init_then node (λ s'. (loaded, s')) s

  unfoldable pub load_driver : Name → ℕ → Name → Name → Method D N W
  load_driver name id driver package_name s =
      if id == s.can_master_id
      then (not_loaded, s)
      else if is_some (find id s.registered)
      then (not_loaded, s)
      else then_do (load_component package_name driver id name s)
          (λ s'. use_driver (find id s'.registered) s')

  -- The loop of `load_drivers`.
  unfoldable pub load_each : Devices N → Method D N W
  load_each [] s = (loaded, s)
  load_each ((name, n) ∷ rest) s =
      let e = ros.entry n in
      if is_driver name
      then then_do
          (load_entries e.node_id e.driver e.package_name
            (λ id driver package_name. load_driver name id driver package_name) s)
          (load_each rest)
      else load_each rest s

  unfoldable pub load_drivers : Method D N W
  load_drivers s = if_any s.config (load_each s.config) s

  unfoldable pub load_manager : Method D N W
  load_manager s =
      let (ok, w) = ros.create_manager s.world in
      if s.lifecycle_operation
      then (if ok
          then (loaded, record s { has_manager = true; world = w })
          else (thrown node_threw, record s { world = w }))
      else (loaded, s)

  -- From the configuration on, in both versions of `init`.
  unfoldable pub load_all : Method D N W
  load_all s = then_do (or_throw master_failed (load_master s)) (λ s1.
      then_do (or_throw drivers_failed (load_drivers s1))
        (λ s2. or_throw manager_failed (load_manager s2)))

  abbrev pub check_parameters : Yaml N → Name → Name → Name → Method D N W
  check_parameters yaml can_interface_name master_config bus_config s =
      if is_empty can_interface_name || (is_empty master_config || is_empty bus_config)
      then (thrown empty_parameter, s)
      else enter_config yaml (ros.load_file bus_config s.world) s

  abbrev pub read_parameters :
      Yaml N → Option Name → Option Name → Option Name → Option Name → Method D N W
  read_parameters yaml (some a) (some b) (some bin) (some c) s = check_parameters yaml a b c s
  read_parameters yaml _ _ _ _ s = (thrown no_parameter, s)

  unfoldable pub configure : Yaml N → Parameters → Method D N W
  configure yaml p s =
      read_parameters yaml p.can_interface_name p.master_config p.master_bin p.bus_config s

  unfoldable pub init : Yaml N → Parameters → Method D N W
  init yaml p s = then_do (configure yaml p s) load_all

  -- `init` with its parameters, of which it checks none.
  unfoldable pub init_with : Yaml N → Name → Method D N W
  init_with yaml bus_config s =
      then_do (enter_config yaml (ros.load_file bus_config s.world) s) load_all

  abbrev pub give_master : Option D → Option D → Method D N W
  give_master (some node) (some master) s =
      let (ok, w) = ros.set_master node master s.world in
      (if ok then loaded else thrown node_threw, record s { world = w })
  give_master _ _ s = (thrown null_pointer, s)

  -- The service that a driver calls to get its master.
  unfoldable pub init_driver : ℕ → Method D N W
  init_driver id s = give_master (find id s.registered) s.can_master s

  -- `list_components`, as the entries of the answer, where a later one overwrites an earlier.
  abbrev pub manager_entry : Name → Bool → List (ℕ × Name) → List (ℕ × Name)
  manager_entry name lifecycle answer = if lifecycle then assign 256 name answer else answer

  abbrev pub driver_entries : (D → Name) → List (ℕ × D) → List (ℕ × Name) → List (ℕ × Name)
  driver_entries name_of [] answer = answer
  driver_entries name_of ((id, node) ∷ rest) answer =
      driver_entries name_of rest (assign id (name_of node) answer)

  abbrev pub list_from : (D → Name) → Name → Option D → Container D N W → Option (List (ℕ × Name))
  list_from name_of manager none s = none
  list_from name_of manager (some master) s = some (
      driver_entries name_of s.registered
        (manager_entry manager s.lifecycle_operation ((s.can_master_id, name_of master) ∷ [])))

  -- None where `can_master_` is a null pointer.
  unfoldable pub list_components : (D → Name) → Name → Container D N W → Option (List (ℕ × Name))
  list_components name_of manager s = list_from name_of manager s.can_master s
