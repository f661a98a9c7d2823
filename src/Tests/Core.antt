-- ===== src/Tests/Core.antt =====
-- The nodes of canopen_core at concrete inputs.
use ros2_canopen.Base.{
  ℕ, suc, ◌≡◌, inl, inr, refl, arith, Bool, true, some, List, [], ◌∷◌, ◌==◌, if◌then◌else◌,
}
use ros2_canopen.Core.Driver.{Node, Hooks, make}
use ros2_canopen.Core.Driver.Laws.{
  IsSound, Call, call_init, call_configure, call_set_master, call_activate, call_shutdown, calls,
  calls-IsSound,
}
use ros2_canopen.Core.Manager.{
  PrimaryState, unconfigured, active, Clients, Manager, master_name, id_of, bring_up_all,
  bring_up_master, bring_up_node, get_state, change_state, bring_up_drivers, bring_up_driver,
}
use ros2_canopen.Core.Manager.{
  bring_down_all, bring_down_master, bring_down_node, bring_down_drivers, bring_down_driver,
}
use ros2_canopen.Core.Manager.Down.{bring_down_all-unconfigured}
use ros2_canopen.Core.Manager.Laws.{target, Truthful, bring_up_all-active}

-- Virtual functions that count their calls, and a container that sends the master 7.
abbrev hook : ℕ → Bool × ℕ
hook w = (true, suc w)

abbrev hooks : Hooks ℕ ℕ
hooks = record {
  create_interfaces = hook;
  on_init = hook;
  read_parameters = hook;
  on_configure = hook;
  add_to_master = hook;
  on_activate = hook;
  remove_from_master = hook;
  on_deactivate = hook;
  on_shutdown = hook;
  init_driver = λ w. record { ready = true; sent = some (some 7); world = w };
}

abbrev running : Node ℕ ℕ
running = record {
  master = some 7;
  master_set = true;
  initialised = true;
  configured = true;
  activated = true;
  world = 0;
}

running-IsSound : IsSound running
unfolding IsSound
running-IsSound = ground arith

abbrev up_and_down : List (Call ℕ)
up_and_down =
    call_init ∷ call_configure ∷ call_set_master (some 7) ∷ call_activate ∷ call_shutdown ∷ []

driver-IsSound : IsSound (calls hooks up_and_down (make 0))
driver-IsSound = calls-IsSound hooks up_and_down 0

-- Nodes that do what they are asked.
abbrev Nodes : Type 0
Nodes = ℕ → PrimaryState

abbrev clients : Clients Nodes
clients = record {
  wait_for_service = λ id w. (true, w);
  ask_state = λ id w. (some (w id), w);
  ask_change = λ id t w. (some true, λ j. if id == j then target t else w j);
}

clients-Truthful : Truthful clients (λ w. w)
clients-Truthful = record {
  wait_keeps = λ id w j. refl;
  ask_keeps = λ id w j. refl;
  ask_tells = λ id w. inr refl;
  change_others = λ id t w j n. ground arith;
  change_succeeds = λ id t w e. ground arith;
}

-- The devices "a", with id 2, and "master", with id 1.
abbrev two_devices : Manager Nodes
two_devices = record {
  devices = ((97 ∷ []), 2) ∷ (master_name, 1) ∷ [];
  master_id = 1;
  world = λ j. unconfigured;
}

all_up :
    let w = (bring_up_all clients two_devices).1 in
    (w 1 ≡ active)
    × (w (id_of (97 ∷ []) two_devices.devices) ≡ active)
    × (two_devices.world 1 ≡ unconfigured)
unfolding bring_up_all bring_up_master bring_up_node get_state change_state bring_up_drivers
    bring_up_driver
all_up =
    bring_up_all-active clients (λ w. w) clients-Truthful two_devices (97 ∷ []) (inl refl) refl refl

all_down :
    let m = record two_devices { world = λ j. active } in
    let w = (bring_down_all clients m).1 in
    (w 1 ≡ unconfigured) × (w (id_of (97 ∷ []) m.devices) ≡ unconfigured)
unfolding bring_down_all bring_down_master bring_down_node get_state change_state bring_down_drivers
    bring_down_driver
all_down =
    bring_down_all-unconfigured clients (λ w. w) clients-Truthful
      (record two_devices { world = λ j. active }) (97 ∷ []) (inl refl) refl refl
