-- ===== src/Bridge/Pdo.antt =====
-- The map of the objects that PDOs carry: `DriverDictionary`
-- (canopen_base_driver/include/canopen_base_driver/lely_driver_bridge.hpp).
-- The dictionary itself is lely's `CODev`; the code asks it for a 32-bit object by index and
-- subindex, and gets none where the object does not exist.
pub mod Laws
use ros2_canopen.Base.{
  ℕ, suc, ◌+◌, ◌/◌, ◌%◌, zero, Bool, true, false, ◌&&◌, ◌==◌, if◌then◌else◌, Option, none, some,
  List, [], find, assign, for_below, any_below,
}

pub record PdoMapping : Type 0 where
  pub is_tpdo : Bool
  pub is_rpdo : Bool

abbrev pub PdoMap : Type 0
PdoMap = List (ℕ × List (ℕ × PdoMapping))

abbrev pub Objects : Type 0
Objects = ℕ → ℕ → Option ℕ

-- An entry of a mapping parameter holds the index, the subindex and the length of an object.
abbrev pub entry_subindex : ℕ → ℕ
entry_subindex word = word / 256 % 256

abbrev pub entry_index : ℕ → ℕ
entry_index word = word / 65536 % 65536

abbrev pub inner : Option (List (ℕ × PdoMapping)) → List (ℕ × PdoMapping)
inner none = []
inner (some m) = m

-- `(*map)[index][subindex] = mapping`
unfoldable pub put : ℕ → ℕ → PdoMapping → PdoMap → PdoMap
put index subindex mapping m = assign index (assign subindex mapping (inner (find index m))) m

-- `map->find(index)` and then `object.find(subindex)`
unfoldable pub lookup : ℕ → ℕ → PdoMap → Option PdoMapping
lookup index subindex m = find subindex (inner (find index m))

abbrev pub rpdo_entry : PdoMapping
rpdo_entry = record { is_tpdo = false; is_rpdo = true }

abbrev pub tpdo_entry : PdoMapping
tpdo_entry = record { is_tpdo = true; is_rpdo = false }

abbrev pub read_entry : PdoMapping → Option ℕ → PdoMap → PdoMap
read_entry mapping none m = m
read_entry mapping (some word) m =
    if entry_index word == 0 then m else put (entry_index word) (entry_subindex word) mapping m

abbrev pub check_entry : Option ℕ → ℕ → ℕ → Bool → Bool
check_entry none idx subindex rest = false
check_entry (some word) idx subindex rest =
    if (entry_subindex word == subindex) && (entry_index word == idx) then true else rest

module _ (objects : Objects) where
  -- The loops of `fetchRPDO` and `fetchTPDO`, the subindex counted from 0.
  unfoldable pub fetch_record : ℕ → PdoMapping → PdoMap → PdoMap
  fetch_record index mapping m = for_below 8 (λ i. read_entry mapping (objects index (suc i))) m

  unfoldable pub fetch : ℕ → PdoMapping → PdoMap → PdoMap
  fetch first mapping m = for_below 256 (λ i. fetch_record (first + i) mapping) m

  abbrev pub fetch_rpdo : PdoMap → PdoMap
  fetch_rpdo = fetch 0x1600 rpdo_entry

  abbrev pub fetch_tpdo : PdoMap → PdoMap
  fetch_tpdo = fetch 0x1A00 tpdo_entry

  unfoldable pub create_pdo_mapping : PdoMap
  create_pdo_mapping = fetch_tpdo (fetch_rpdo [])

  -- The loop of `checkObjInPDO` with `left` subindices to go, which ends at the first that the
  -- dictionary does not have.
  unfoldable pub check_entries : ℕ → ℕ → ℕ → ℕ → ℕ → Bool
  check_entries index i zero idx subindex = false
  check_entries index i (suc left) idx subindex =
      let rest = check_entries index (suc i) left idx subindex in
      check_entry (objects index i) idx subindex rest

  unfoldable pub check_obj_in_pdo : ℕ → ℕ → ℕ → ℕ → Bool
  check_obj_in_pdo pdo mapping_idx idx subindex = check_entries (mapping_idx + pdo) 1 8 idx subindex

  abbrev pub check_obj_rpdo : ℕ → ℕ → Bool
  check_obj_rpdo idx subidx = any_below 256 (λ i. check_obj_in_pdo i 0x1600 idx subidx)

  abbrev pub check_obj_tpdo : ℕ → ℕ → Bool
  check_obj_tpdo idx subidx = any_below 256 (λ i. check_obj_in_pdo i 0x1A00 idx subidx)
