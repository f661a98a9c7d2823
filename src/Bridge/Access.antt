-- ===== src/Bridge/Access.antt =====
-- The reads and writes that choose between PDO and SDO, and what PDOs bring and take:
-- `universal_get_value`, `universal_set_value`, `OnRpdoWrite`, `tpdo_transmit`
-- (canopen_base_driver/include/canopen_base_driver/lely_driver_bridge.hpp,
-- canopen_base_driver/src/lely_driver_bridge.cpp).
pub mod Laws
pub mod Pdos
pub mod Writes
use ros2_canopen.Base.{ℕ, Bool, true, false, if◌then◌else◌, Option, none, some, List, [], ◌∷◌, ◌++◌}
use ros2_canopen.Core.Action.{Result, Action, throw, return, ◌>>◌, modify}
use ros2_canopen.Bridge.Dictionary.{
  CoType, boolean, unsigned8, integer8, unsigned16, integer16, unsigned32, integer32, real32, other,
  Library, CoData, low_bytes,
}
use ros2_canopen.Bridge.Pdo.{PdoMapping, PdoMap, lookup}
use ros2_canopen.Bridge.Sdo.{Request, Answer, State}
use ros2_canopen.Bridge.Sdo.Sync.{Sync, thrown, returns, sync_sdo_read_typed, sync_sdo_write_typed}

-- `bus` is what lely's mapped objects write to and are read from.
pub record Driver (D W : Type 0) : Type 0 where
  pub pdo_map : PdoMap
  pub sdo : State D
  pub rpdo_queue : List CoData
  pub bus : W

-- Lely's `rpdo_mapped` and `tpdo_mapped`: `write_tpdo` and `write_event` give false where they throw.
pub record Lely (D W : Type 0) : Type 0 where
  pub dictionary : Library D
  pub accepts : Request → Bool
  pub read_rpdo : CoType → ℕ → ℕ → W → ℕ
  pub write_tpdo : CoType → ℕ → ℕ → ℕ → W → Bool × W
  pub write_event : ℕ → ℕ → W → Bool × W

-- `SdoError`
pub data Error : Type 0 where
  sdo_error : Error

abbrev pub is_tpdo_in : Option PdoMapping → Bool
is_tpdo_in none = false
is_tpdo_in (some entry) = entry.is_tpdo

abbrev pub is_rpdo_in : Option PdoMapping → Bool
is_rpdo_in none = false
is_rpdo_in (some entry) = entry.is_rpdo

abbrev pub Method : Type 0 → Type 0 → Type 0
Method D W = Action Error (Driver D W)

module _ {D W : Type 0} (lely : Lely D W) where
  -- The tests of `typeid(T)`, past which the value is still 0.
  abbrev pub stored_value : CoType → D → ℕ → ℕ → ℕ
  stored_value boolean d i j = 0
  stored_value real32 d i j = 0
  stored_value (other n) d i j = 0
  stored_value T d i j = lely.dictionary.get_val T d i j

  -- The result of the SDO read, and the dictionary's value where there is none.
  abbrev pub value_or_stored :
      CoType → ℕ → ℕ → Driver D W → Sync (Option ℕ) × State D → Sync ℕ × Driver D W
  value_or_stored T i j s (thrown, sdo) = (thrown, record s { sdo = sdo })
  value_or_stored T i j s (returns none, sdo) =
      (returns (stored_value T sdo.dictionary i j), record s { sdo = sdo })
  value_or_stored T i j s (returns (some v), sdo) = (returns v, record s { sdo = sdo })

  -- `id` and `reply` are the number of the SDO request and how it is answered, if there is one.
  unfoldable pub universal_get_value :
      CoType → ℕ → Option Answer → ℕ → ℕ → Driver D W → Sync ℕ × Driver D W
  universal_get_value T id reply index subindex s =
      if is_tpdo_in (lookup index subindex s.pdo_map)
      then (returns (stored_value T s.sdo.dictionary index subindex), s)
      else value_or_stored T index subindex s
          (sync_sdo_read_typed lely.dictionary lely.accepts id T index subindex reply s.sdo)

  abbrev pub set_stored : CoType → ℕ → ℕ → ℕ → Driver D W → Driver D W
  set_stored T i j v s =
      let d = lely.dictionary.set_val T i j v s.sdo.dictionary in
      record s { sdo = record s.sdo { dictionary = d } }

  abbrev pub on_bus : (W → Bool × W) → Method D W
  on_bus f s =
      let (ok, w) = f s.bus in
      if ok then return (record s { bus = w }) else throw sdo_error (record s { bus = w })

  -- The result of the SDO write is not looked at.
  abbrev pub ignore_result : Sync Bool × State D → Method D W
  ignore_result (thrown, sdo) s = throw sdo_error (record s { sdo = sdo })
  ignore_result (returns ok, sdo) s = return (record s { sdo = sdo })

  unfoldable pub universal_set_value : CoType → ℕ → Option Answer → ℕ → ℕ → ℕ → Method D W
  universal_set_value T id reply index subindex value s =
      if is_rpdo_in (lookup index subindex s.pdo_map)
      then (modify (set_stored T index subindex value)
            >> on_bus (lely.write_tpdo T index subindex value)
            >> on_bus (lely.write_event index subindex))
          s
      else ignore_result
          (sync_sdo_write_typed lely.dictionary lely.accepts id T index subindex value reply s.sdo)
          s

  abbrev pub push : CoData → Driver D W → Driver D W
  push d s = record s { rpdo_queue = s.rpdo_queue ++ (d ∷ []) }

  -- The mapped value goes to the dictionary, and from there to the queue.
  abbrev pub receive : CoType → ℕ → ℕ → Driver D W → Driver D W
  receive (other n) idx subidx s = push (record { index = idx; subindex = subidx; word = 0 }) s
  receive T idx subidx s =
      let s' = set_stored T idx subidx (lely.read_rpdo T idx subidx s.bus) s in
      push
        (record {
          index = idx;
          subindex = subidx;
          word = lely.dictionary.get_val T s'.sdo.dictionary idx subidx;
        })
        s'

  abbrev pub receive_if : Option CoType → ℕ → ℕ → Driver D W → Driver D W
  receive_if none idx subidx s = s
  receive_if (some T) idx subidx s = receive T idx subidx s

  unfoldable pub on_rpdo_write : ℕ → ℕ → Driver D W → Driver D W
  on_rpdo_write idx subidx s =
      receive_if (lely.dictionary.kind s.sdo.dictionary idx subidx) idx subidx s

  -- A case of the switch: first the mapped object, which may throw, then the dictionary.
  abbrev pub transmit_as : CoType → CoData → Method D W
  transmit_as T d =
      on_bus (lely.write_tpdo T d.index d.subindex (low_bytes T d.word))
      >> modify (set_stored T d.index d.subindex (low_bytes T d.word))

  -- There is no case for `CO_DEFTYPE_REAL32`.
  abbrev pub transmit_switch : CoType → CoData → Method D W
  transmit_switch (other n) d = return
  transmit_switch real32 d = return
  transmit_switch T d = transmit_as T d

  abbrev pub transmit_if : Option CoType → CoData → Driver D W → Driver D W
  transmit_if none d s = s
  transmit_if (some T) d s =
      ((transmit_switch T d >> on_bus (lely.write_event d.index d.subindex)) s).after

  -- The exception is caught.
  unfoldable pub tpdo_transmit : CoData → Driver D W → Driver D W
  tpdo_transmit d s = transmit_if (lely.dictionary.kind s.sdo.dictionary d.index d.subindex) d s
