-- ===== src/Tests/Proxy.antt =====
-- The SDO services of the proxy driver and of the master on a dictionary with a position and a name, whose type the code
-- does not know
-- (canopen_proxy_driver/include/canopen_proxy_driver/node_interfaces/node_canopen_proxy_driver_impl.hpp).
use ros2_canopen.Base.{
  ℕ, ◌≡◌, ◌⊎◌, refl, true, false, ◌==◌, ◌&&◌, if◌then◌else◌, Option, none, some, [], ◌∷◌,
}
use ros2_canopen.Bridge.Dictionary.{CoType, integer8, integer32, other, is_supported, CoData}
use ros2_canopen.Bridge.Sdo.{answered, refused, begin}
use ros2_canopen.Bridge.Sdo.Once.{after_reply, resolved}
use ros2_canopen.Bridge.Access.{Lely}
use ros2_canopen.Nodes.Master
use ros2_canopen.Nodes.Master.Laws
use ros2_canopen.Nodes.Proxy.{
  Node, Service, Response, ok, blocked, responds, write_request, on_sdo_read, on_sdo_write, on_nmt,
  on_rpdo, start, nmt_state, rpdo,
}
use ros2_canopen.Nodes.Proxy.Laws.{read_expected, write_expected, on_sdo_write_lem}

abbrev kinds : ℕ → Option CoType
kinds i = if i == 0x6064 then some integer32 else if i == 0x1008 then some (other 9) else none

abbrev Values : Type 0
Values = ℕ → ℕ → ℕ

abbrev lely : Lely Values ℕ
lely = record {
  dictionary = record {
    kind = λ d i j. kinds i;
    get_val = λ t d i j. d i j;
    set_val = λ t i j v d. λ k l. if (k == i) && (l == j) then v else d k l;
  };
  accepts = λ r. true;
  read_rpdo = λ t i j w. w;
  write_tpdo = λ t i j v w. (true, v);
  write_event = λ i j w. (true, w);
}

abbrev zeros : Values
zeros i j = 0

abbrev node : Node Values ℕ
node = record {
  activated = true;
  driver = record {
    pdo_map = [];
    sdo = record {
      dictionary = zeros;
      running = false;
      read_promise = none;
      write_promise = none;
      submitted = [];
      waiting = [];
      woken = [];
      outcome = λ id. none;
    };
    rpdo_queue = [];
    bus = 0;
  };
  level = ok;
  nmt_commands = [];
  published = [];
}

abbrev new_position : CoData
new_position = record { index = 0x6064; subindex = 0; word = 7 }

position_refused :
    let (r, s') = on_sdo_write lely 1 (some refused) new_position node in
    let kind = kinds 0x6064 in
    ((true ≡ false) × (r ≡ responds false) × (s' ≡ node))
    ⊎ ((true ≡ true)
        × (((kind ≡ none) × (r ≡ responds false))
            ⊎ (((n : ℕ) × (kind ≡ some (other n)) × (r ≡ blocked))
                ⊎ ((t : CoType) × (kind ≡ some t)
                    × (is_supported t ≡ true)
                    × (r ≡ write_expected (some refused))
                    × (s'.driver.sdo.dictionary
                        ≡ after_reply lely.dictionary
                            (resolved t (write_request new_position))
                            (some refused)
                            zeros)))))
position_refused =
    on_sdo_write_lem lely 1 new_position (some refused) node (refl, refl, refl, refl) refl
      (λ x. refl)

name_blocks : (on_sdo_read lely 1 none 0x1008 0 node).0 ≡ blocked
unfolding on_sdo_read begin
name_blocks = refl

state_published :
    (on_rpdo new_position (on_nmt start node)).published ≡ nmt_state start ∷ rpdo new_position ∷ []
unfolding on_rpdo on_nmt
state_published = refl

abbrev expected_byte : Service Response
expected_byte = Laws.read_expected integer8 (some (answered 300))
