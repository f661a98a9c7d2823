-- ===== src/Core/Manager.antt =====
-- `LifecycleManager`, which brings the master and the drivers up and down by the services of their
-- lifecycle nodes (canopen_core/src/lifecycle_manager.cpp). Names are lists of character codes, and
-- logging is left out.
pub mod Laws
pub mod Down
use ros2_canopen.Base.{
  ℕ, Bool, true, false, not, ◌&&◌, ◌||◌, ◌==◌, if◌then◌else◌, Option, none, some, List, [], ◌∷◌,
  ◌++◌, ltb,
}

-- `lifecycle_msgs::msg::State` and `lifecycle_msgs::msg::Transition`, as far as they are used.
pub data PrimaryState : Type 0 where
  unknown unconfigured inactive active finalized : PrimaryState

pub data Transition : Type 0 where
  configure cleanup activate deactivate : Transition

abbrev pub is_unconfigured : PrimaryState → Bool
is_unconfigured unconfigured = true
is_unconfigured _ = false

abbrev pub is_active : PrimaryState → Bool
is_active active = true
is_active _ = false

-- The service clients, by node id: whether the service shows up in time, and the answer, `none`
-- where it does not come in time.
pub record Clients (W : Type 0) : Type 0 where
  pub wait_for_service : ℕ → W → Bool × W
  pub ask_state : ℕ → W → Option PrimaryState × W
  pub ask_change : ℕ → Transition → W → Option Bool × W

abbrev pub value_or {ℓ} : {A : Type ℓ} → A → Option A → A
value_or a none = a
value_or a (some b) = b

abbrev pub Name : Type 0
Name = List ℕ

abbrev pub master_name : Name
master_name = 109 ∷ 97 ∷ 115 ∷ 116 ∷ 101 ∷ 114 ∷ []

abbrev pub starts_with : Name → Name → Bool
starts_with [] name = true
starts_with (_ ∷ _) [] = false
starts_with (c ∷ cs) (d ∷ ds) = (c == d) && starts_with cs ds

-- `name.find(part) != npos`, for a part that is not empty.
abbrev pub contains : Name → Name → Bool
contains part [] = starts_with part []
contains part (c ∷ cs) = starts_with part (c ∷ cs) || contains part cs

abbrev pub same_name : Name → Name → Bool
same_name [] [] = true
same_name (c ∷ cs) (d ∷ ds) = (c == d) && same_name cs ds
same_name _ _ = false

-- `std::less<std::string>`.
abbrev pub less_name : Name → Name → Bool
less_name [] [] = false
less_name [] (_ ∷ _) = true
less_name (_ ∷ _) [] = false
less_name (c ∷ cs) (d ∷ ds) = ltb c d || ((c == d) && less_name cs ds)

-- `std::map::emplace`, which keeps the id of a name that is there.
unfoldable pub emplace : Name → ℕ → List (Name × ℕ) → List (Name × ℕ)
emplace name id [] = (name, id) ∷ []
emplace name id ((other, i) ∷ rest) =
    let tail = emplace name id rest in
    if same_name name other
    then (other, i) ∷ rest
    else if less_name name other
    then (name, id) ∷ (other, i) ∷ rest
    else (other, i) ∷ tail

-- The id that `operator[]` gives, after it has entered 0 for a missing name.
abbrev pub id_of : Name → List (Name × ℕ) → ℕ
id_of name [] = 0
id_of name ((other, i) ∷ rest) = if same_name name other then i else id_of name rest

-- `device_names_to_ids` in the map's order, `master_id_`, and the world of the nodes.
pub record Manager (W : Type 0) : Type 0 where
  pub devices : List (Name × ℕ)
  pub master_id : ℕ
  pub world : W

module _ {W : Type 0} where
  -- `load_from_config`, for the devices of the configuration with their node_id entries.
  unfoldable pub load_device : Name × Option ℕ → Manager W → Manager W
  unfolding emplace
  load_device (name, none) m = m
  load_device (name, some id) m = record m {
    devices = emplace name id m.devices;
    master_id = if contains master_name name then id else m.master_id;
  }

  unfoldable pub load_from_config : List (Name × Option ℕ) → Manager W → Manager W
  unfolding load_device
  load_from_config [] m = m
  load_from_config (d ∷ ds) m = load_from_config ds (load_device d m)

module _ {W : Type 0} (clients : Clients W) where
  abbrev pub reply_state : Bool → ℕ → W → PrimaryState × W
  reply_state false id w = (unknown, w)
  reply_state true id w = let (reply, w') = clients.ask_state id w in (value_or unknown reply, w')

  unfoldable pub get_state : ℕ → W → PrimaryState × W
  get_state id w = let (ready, w') = clients.wait_for_service id w in reply_state ready id w'

  abbrev pub reply_change : Bool → ℕ → Transition → W → Bool × W
  reply_change false id t w = (false, w)
  reply_change true id t w =
      let (reply, w') = clients.ask_change id t w in (value_or false reply, w')

  unfoldable pub change_state : ℕ → Transition → W → Bool × W
  change_state id t w =
      let (ready, w') = clients.wait_for_service id w in reply_change ready id t w'

  -- The two transitions up, each behind the success of the one before.
  unfoldable pub bring_up_node : ℕ → W → Bool × W
  bring_up_node id w =
      let (state, w1) = get_state id w in
      let (configured, w2) = change_state id configure w1 in
      let (activated, w3) = change_state id activate w2 in
      if not (is_unconfigured state)
      then (false, w1)
      else if not configured
      then (false, w2)
      else (activated, w3)

  unfoldable pub bring_down_node : ℕ → W → Bool × W
  bring_down_node id w =
      let (_, w1) = change_state id deactivate w in
      let (_, w2) = change_state id cleanup w1 in
      let (state, w3) = get_state id w2 in (is_unconfigured state, w3)

  unfoldable pub bring_up_master : ℕ → W → Bool × W
  bring_up_master master_id w = bring_up_node master_id w

  unfoldable pub bring_down_master : ℕ → W → Bool × W
  bring_down_master master_id w = bring_down_node master_id w

  unfoldable pub bring_up_driver : ℕ → List (Name × ℕ) → Name → W → Bool × W
  bring_up_driver master_id devices name w =
      let (master_state, w1) = get_state master_id w in
      let up = bring_up_node (id_of name devices) w1 in
      if is_active master_state then up else (false, w1)

  unfoldable pub bring_down_driver : List (Name × ℕ) → Name → W → Bool × W
  bring_down_driver devices name w = bring_down_node (id_of name devices) w

  -- The loops over the map, with the names that are left.
  unfoldable pub bring_up_drivers : ℕ → List (Name × ℕ) → List (Name × ℕ) → W → Bool × W
  bring_up_drivers master_id devices [] w = (true, w)
  bring_up_drivers master_id devices ((name, _) ∷ rest) w =
      let (up, w') = bring_up_driver master_id devices name w in
      let skipped = bring_up_drivers master_id devices rest w in
      let others = bring_up_drivers master_id devices rest w' in
      if contains master_name name then skipped else if up then others else (false, w')

  unfoldable pub bring_down_drivers : List (Name × ℕ) → List (Name × ℕ) → W → Bool × W
  bring_down_drivers devices [] w = (true, w)
  bring_down_drivers devices ((name, _) ∷ rest) w =
      let (down, w') = bring_down_driver devices name w in
      let skipped = bring_down_drivers devices rest w in
      let others = bring_down_drivers devices rest w' in
      if same_name name master_name then skipped else if down then others else (false, w')

  unfoldable pub bring_up_all : Manager W → Bool × W
  bring_up_all m =
      let (up, w) = bring_up_master m.master_id m.world in
      let drivers = bring_up_drivers m.master_id m.devices m.devices w in
      if up then drivers else (false, w)

  unfoldable pub bring_down_all : Manager W → Bool × W
  bring_down_all m =
      let (down, w) = bring_down_drivers m.devices m.devices m.world in
      let master = bring_down_master m.master_id w in if down then master else (false, w)
