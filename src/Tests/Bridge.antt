-- ===== src/Tests/Bridge.antt =====
-- The bridge to lely on a small dictionary: the status word and the position of a drive, and an
-- object of a type that the code does not know
-- (canopen_base_driver/include/canopen_base_driver/lely_driver_bridge.hpp,
-- canopen_base_driver/src/lely_driver_bridge.cpp).
use ros2_canopen.Base.{
  ℕ, ◌≡◌, ◌⊎◌, inr, refl, arith, Bool, true, false, ◌==◌, ◌&&◌, if◌then◌else◌, Option, none, some,
  List, [], ◌∷◌,
}
use ros2_canopen.Bridge.Dictionary.{
  CoType, unsigned16, integer32, other, Library, IsDictionary, CoData,
}
use ros2_canopen.Bridge.Pdo.{Objects, lookup, create_pdo_mapping, rpdo_entry, tpdo_entry}
use ros2_canopen.Bridge.Pdo.Laws.{in_pdo, lookup-create_pdo_mapping}
use ros2_canopen.Bridge.Sdo.{Request, answered, State, call, complete, begin}
use ros2_canopen.Bridge.Sdo.Steps.{starts, continues, calls}
use ros2_canopen.Bridge.Sdo.Order.{IsOrderly}
use ros2_canopen.Bridge.Sdo.Threads.{reach-IsOrderly}
use ros2_canopen.Bridge.Sdo.Stuck.{IsStuck, unsupported_blocks}
use ros2_canopen.Bridge.Sdo.Sync.{returns, typed_read}
use ros2_canopen.Bridge.Access.{
  Driver, Lely, is_tpdo_in, is_rpdo_in, universal_get_value, universal_set_value,
}
use ros2_canopen.Bridge.Access.Laws.{universal_get_value_lem}
use ros2_canopen.Bridge.Access.Writes.{IsWritten, IsRequested, universal_set_value_lem}
use ros2_canopen.Bridge.Boot.{Boot, bootup, start}
use ros2_canopen.Bridge.Boot.Laws.{
  Event, requests, reports, events, IsOnce, events-IsOnce_from_start, first_promise,
}

-- TPDO 1 carries the status word, RPDO 1 the control word and the status word.
abbrev mapped : Objects
mapped index subindex =
    if (index == 0x1A00) && (subindex == 1)
    then some 0x60410010
    else if (index == 0x1600) && (subindex == 1)
    then some 0x60400010
    else if (index == 0x1600) && (subindex == 2)
    then some 0x60410010
    else none

control_word-mapped : lookup 0x6040 0 (create_pdo_mapping mapped) ≡ (
    if in_pdo mapped 0x1A00 0x6040 0
    then some tpdo_entry
    else if in_pdo mapped 0x1600 0x6040 0
    then some rpdo_entry
    else none)
control_word-mapped = lookup-create_pdo_mapping mapped 0x6040 0 (λ e. ground (arith, e))

-- Values by index and subindex.
abbrev Values : Type 0
Values = ℕ → ℕ → ℕ

abbrev kinds : ℕ → Option CoType
kinds i =
    if i == 0x6041
    then some unsigned16
    else if i == 0x6064
    then some integer32
    else if i == 0x1008
    then some (other 9)
    else none

abbrev small : Library Values
small = record {
  kind = λ d i j. kinds i;
  get_val = λ t d i j. d i j;
  set_val = λ t i j v d. λ k l. if (k == i) && (l == j) then v else d k l;
}

small-IsDictionary : IsDictionary small
small-IsDictionary = (λ d t i j v h. ground arith, λ d t i j v k l. refl)

abbrev taken : Request → Bool
taken r = true

abbrev zeros : Values
zeros i j = 0

abbrev idle : State Values
idle = record {
  dictionary = zeros;
  running = false;
  read_promise = none;
  write_promise = none;
  submitted = [];
  waiting = [];
  woken = [];
  outcome = λ id. none;
}

abbrev position : Request
position = typed_read integer32 0x6064 0

abbrev is_typed : Request → Bool
is_typed r = if r.plain then false else true

typed-taken : (r : Request) → is_typed r ≡ true → (r.plain ≡ false) × (taken r ≡ true)
typed-taken r e = ground (arith, e)

-- Two threads ask for the position, the second while the first waits for lely.
abbrev asked : State Values
asked = call small taken 1 position idle

abbrev twice : State Values
twice = call small taken 2 position asked

asked-woken : asked.woken ≡ []
unfolding call begin
asked-woken = refl

twice-IsOrderly : IsOrderly twice
twice-IsOrderly =
    reach-IsOrderly small taken is_typed idle twice typed-taken (refl, refl, refl, refl)
      (continues asked twice (continues idle asked starts (calls 1 position idle refl (inr refl)))
        (calls 2 position asked refl (inr asked-woken)))

-- The device's name, whose type is none of the switch.
abbrev name_request : Request
name_request = record {
  plain = true;
  write = false;
  T = integer32;
  index = 0x1008;
  subindex = 0;
  word = 0;
}

abbrev name_asked : State Values
name_asked = call small taken 1 name_request idle

name_asked-IsStuck : IsStuck idle name_asked
name_asked-IsStuck =
    unsupported_blocks small taken idle taken true 1 9 name_request name_asked
      (refl, refl, refl, refl) refl refl starts

abbrev plain_position : Request
plain_position = record position { plain = true }

-- A bus that is one number, which the mapped objects write and read.
abbrev wire : Lely Values ℕ
wire = record {
  dictionary = small;
  accepts = taken;
  read_rpdo = λ t i j w. w;
  write_tpdo = λ t i j v w. (true, v);
  write_event = λ i j w. (true, w);
}

abbrev drive : Driver Values ℕ
drive = record { pdo_map = []; sdo = idle; rpdo_queue = []; bus = 7 }

-- A map with the position in an RPDO.
abbrev mapped_drive : Driver Values ℕ
mapped_drive = record drive { pdo_map = (0x6064, (0, rpdo_entry) ∷ []) ∷ [] }

read-position :
    let (r, s') = universal_get_value wire integer32 1 (some (answered 500)) 0x6064 0 drive in
    (r ≡ returns (s'.sdo.dictionary 0x6064 0))
    × (((is_tpdo_in (lookup 0x6064 0 []) ≡ true) × (s' ≡ drive))
        ⊎ ((is_tpdo_in (lookup 0x6064 0 []) ≡ false) × (r ≡ returns 500)))
read-position =
    universal_get_value_lem wire integer32 1 0x6064 0 (some (answered 500)) drive small-IsDictionary
      refl (refl, refl, refl, refl) refl refl (λ x. refl)

write-position :
    let r = universal_set_value wire integer32 1 none 0x6064 0 42 mapped_drive in
    ((is_rpdo_in (lookup 0x6064 0 mapped_drive.pdo_map) ≡ true)
      × IsWritten wire integer32 0x6064 0 42 mapped_drive r.after r.error)
    ⊎ ((is_rpdo_in (lookup 0x6064 0 mapped_drive.pdo_map) ≡ false)
        × (r.error ≡ none)
        × IsRequested wire integer32 0x6064 0 42 none mapped_drive r.after)
write-position =
    universal_set_value_lem wire integer32 1 0x6064 0 42 none mapped_drive small-IsDictionary refl
      (refl, refl, refl, refl) refl refl (λ x. refl)

abbrev large_word : CoData
large_word = record { index = 0x6041; subindex = 0; word = 65543 }

abbrev unbooted : Boot
unbooted = record { booted = false; boot_status = 0; boot_state = 0 }

abbrev two_requests : List Event
two_requests = requests ∷ reports true bootup ∷ reports true start ∷ requests ∷ []

two_requests-IsOnce : IsOnce (events two_requests first_promise)
two_requests-IsOnce = events-IsOnce_from_start two_requests

-- Lely answers the first thread and the second is woken, but a third calls before it has the mutex:
-- then lely has two requests, and `running` is the flag of both.
abbrev answered_first : State Values
answered_first = complete small 1 position (answered 500) (record twice { submitted = [] })

abbrev overtaken : State Values
overtaken = call small taken 3 position answered_first

overtaken_requests :
    (begin small taken 2 position (record overtaken { woken = [] })).submitted
    ≡ (3, position) ∷ (2, position) ∷ []
unfolding call begin complete
overtaken_requests = refl
