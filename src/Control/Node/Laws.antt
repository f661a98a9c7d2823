-- ===== src/Control/Node/Laws.antt =====
-- What is received last under an address is what is read under it.
use ros2_canopen.Base.{
  ℕ, ◌<◌, ◌==◌, ◌&&◌, ◌≡◌, if◌then◌else◌, some, List, find, find-store, find-insert, store, insert,
  arith,
}
use ros2_canopen.Bridge.Dictionary.{CoData}
use ros2_canopen.Core.Manager.{value_or}
use ros2_canopen.Control.Value.{Floats, value_of, prepare_read}
use ros2_canopen.Control.Node.{
  NodeData, pdo_key, update_or_emplace, set_rpdo_data, get_rpdo_raw_data, get_rpdo_data,
}

find-update_or_emplace {ℓ} :
    {A : Type ℓ} (k j : ℕ) (v : A) (m : List (ℕ × A))
    → find j (update_or_emplace k v m) ≡ (if k == j then some v else find j m)
unfolding update_or_emplace find store insert
find-update_or_emplace k j v m = ground (arith, find-store k j v m, find-insert k j v m)

value_or-update_or_emplace {ℓ} :
    {A : Type ℓ} (fallback : A) (k j : ℕ) (v : A) (m : List (ℕ × A))
    → value_or fallback (find j (update_or_emplace k v m))
      ≡ (if k == j then v else value_or fallback (find j m))
value_or-update_or_emplace fallback k j v m = ground (arith, find-update_or_emplace k j v m)

pdo_key_same :
    (i j k l : ℕ) → j < 256 → l < 256 → (pdo_key i j == pdo_key k l) ≡ ((i == k) && (j == l))
pdo_key_same i j k l h g = ground arith

module _ {F : Type 0} (floats : Floats F) where
  -- A received value is found, with its raw word, under its index and subindex; what other addresses
  -- hold stays, and an address that nothing was received for gives 0 as the raw word and NaN as the
  -- value. Subindices are bytes.
  pub get_rpdo-set_rpdo_data :
      (d : CoData) (i j : ℕ) (s : NodeData F)
      → d.subindex < 256
      → j < 256
      → (get_rpdo_raw_data i j (set_rpdo_data floats d s)
          ≡ (if (d.index == i) && (d.subindex == j) then d.word else get_rpdo_raw_data i j s))
        × (get_rpdo_data floats i j (set_rpdo_data floats d s) ≡ (
            if (d.index == i) && (d.subindex == j)
            then floats.of_int (value_of s.rpdo_data.co_type d.word)
            else get_rpdo_data floats i j s))
  unfolding get_rpdo_raw_data get_rpdo_data set_rpdo_data prepare_read
  get_rpdo-set_rpdo_data d i j s h g =
      let same = pdo_key_same d.index d.subindex i j h g in
      (
        rw (← same) (
            value_or-update_or_emplace 0 (pdo_key d.index d.subindex) (pdo_key i j) d.word
              s.rpdo_raw_data_map),
        rw (← same) (
            value_or-update_or_emplace floats.quiet_nan (pdo_key d.index d.subindex) (pdo_key i j)
              (floats.of_int (value_of s.rpdo_data.co_type d.word)) s.rpdo_data_map),
      )
