-- ===== src/Bridge/Sdo/Sync.antt =====
-- One thread at a time: a request with its answer, and the calls that wait for it,
-- `sync_sdo_read_typed` and `sync_sdo_write_typed`
-- (canopen_base_driver/include/canopen_base_driver/lely_driver_bridge.hpp).
use ros2_canopen.Base.{
  ℕ, Bool, true, false, not, ◌&&◌, if◌then◌else◌, Option, none, some, List, [], ◌∷◌,
}
use ros2_canopen.Bridge.Dictionary.{CoType, Library, exists_in}
use ros2_canopen.Bridge.Sdo.{
  Request, Answer, Outcome, written, read_value, Call, State, call, complete,
}

-- What a call that throws or returns gives.
pub data Sync (A : Type 0) : Type 0 where
  thrown : Sync A
  returns : A → Sync A

abbrev pub typed_read : CoType → ℕ → ℕ → Request
typed_read T idx subidx = record {
  plain = false;
  write = false;
  T = T;
  index = idx;
  subindex = subidx;
  word = 0;
}

abbrev pub typed_write : CoType → ℕ → ℕ → ℕ → Request
typed_write T idx subidx value = record {
  plain = false;
  write = true;
  T = T;
  index = idx;
  subindex = subidx;
  word = value;
}

-- The future after `wait_for`, a missing outcome being the timeout.
abbrev pub write_result : Option Outcome → Bool
write_result (some (written b)) = b
write_result _ = false

abbrev pub read_result : Option Outcome → Option ℕ
read_result (some (read_value v)) = some v
read_result _ = none

module _ {D : Type 0} (library : Library D) where
  -- Lely answers the request that it has in time, or does not (`none`).
  abbrev pub deliver : List Call → Option Answer → State D → State D
  deliver [] reply s = s
  deliver (c ∷ rest) none s = s
  deliver ((id, r) ∷ rest) (some a) s = complete library id r a (record s { submitted = rest })

  module _ (accepts : Request → Bool) where
    unfoldable pub exchange : ℕ → Request → Option Answer → State D → State D
    unfolding call
    exchange id r reply s = let s' = call library accepts id r s in deliver s'.submitted reply s'

    -- A typed call throws what `SubmitRead` and `SubmitWrite` throw.
    abbrev pub throws : Request → State D → Bool
    throws r s = exists_in (library.kind s.dictionary r.index r.subindex) && not (accepts r)

    unfoldable pub sync_sdo_write_typed :
        ℕ → CoType → ℕ → ℕ → ℕ → Option Answer → State D → Sync Bool × State D
    sync_sdo_write_typed id T idx subidx value reply s =
        let r = typed_write T idx subidx value in
        let s' = exchange id r reply s in
        (if throws r s then thrown else returns (write_result (s'.outcome id)), s')

    -- `none` is the result false, which leaves `value` as it was.
    unfoldable pub sync_sdo_read_typed :
        ℕ → CoType → ℕ → ℕ → Option Answer → State D → Sync (Option ℕ) × State D
    sync_sdo_read_typed id T idx subidx reply s =
        let r = typed_read T idx subidx in
        let s' = exchange id r reply s in
        (if throws r s then thrown else returns (read_result (s'.outcome id)), s')
