-- ===== src/Nodes/Master.antt =====
-- The SDO services of the master's node: `NodeCanopenBasicMaster` and `LelyMasterBridge`
-- (canopen_master_driver/include/canopen_master_driver/node_interfaces/node_canopen_basic_master_impl.hpp,
-- canopen_master_driver/src/lely_master_bridge.cpp,
-- canopen_master_driver/include/canopen_master_driver/lely_master_bridge.hpp). It shares the flag
-- `running`, the promises and the waiting threads with Bridge.Sdo, and has no dictionary: `State` is
-- that of Bridge.Sdo, whose dictionary stays as it is. The node that a request names is only passed on
-- to lely, which is a parameter, and log lines are left out.
pub mod Laws
use ros2_canopen.Base.{
  ℕ, ◌&&◌, Bool, true, false, if◌then◌else◌, Option, none, some, List, [], ◌∷◌, ◌++◌,
}
use ros2_canopen.Bridge.Dictionary.{
  CoType, integer8, integer16, integer32, unsigned8, unsigned16, unsigned32, CoData, Library,
  low_bytes,
}
use ros2_canopen.Bridge.Sdo.{
  Request, Answer, refused, answered, Outcome, error, written, read_value, Call, State, settle,
  release, make_promise, member_promise, submit, settle_member,
}
use ros2_canopen.Nodes.Proxy.{Service, Response, responds, read_response, write_response}

-- The cases of the switches.
abbrev pub is_submitted : CoType → Bool
is_submitted integer8 = true
is_submitted integer16 = true
is_submitted integer32 = true
is_submitted unsigned8 = true
is_submitted unsigned16 = true
is_submitted unsigned32 = true
is_submitted _ = false

abbrev pub read_request : CoType → CoData → Request
read_request T d = record {
  plain = true;
  write = false;
  T = T;
  index = d.index;
  subindex = d.subindex;
  word = 0;
}

-- The data are converted to the type.
abbrev pub write_request : CoType → CoData → Request
write_request T d = record {
  plain = true;
  write = true;
  T = T;
  index = d.index;
  subindex = d.subindex;
  word = low_bytes T d.word;
}

-- The callback's `memcpy`, for a read.
abbrev pub answer_outcome : Request → Answer → Outcome
answer_outcome r refused = error
answer_outcome r (answered v) = if r.write then written true else read_value (low_bytes r.T v)

-- `accepts` gives false where `SubmitRead` or `SubmitWrite` throws.
module _ {D : Type 0} (accepts : Request → Bool) where
  -- From `running = true` on. Where the request is not submitted, no thread is notified.
  unfoldable pub begin : ℕ → Request → State D → State D
  begin id r s =
      let s' = make_promise r.write id (record s { running = true }) in
      if is_submitted r.T && accepts r
      then submit id r s'
      else record (settle id error s') { running = false }

  -- A call, from the lock on.
  unfoldable pub call : ℕ → Request → State D → State D
  unfolding begin
  call id r s =
      if s.running then record s { waiting = s.waiting ++ ((id, r) ∷ []) } else begin id r s

module _ {D : Type 0} (library : Library D) where
  unfoldable pub complete : ℕ → Request → Answer → State D → State D
  complete id r a s = settle_member library (member_promise r.write s) (answer_outcome r a) s

  -- Lely answers the request that it has, or does not (`none`).
  abbrev pub deliver : List Call → Option Answer → State D → State D
  deliver [] reply s = s
  deliver (c ∷ rest) none s = s
  deliver ((id, r) ∷ rest) (some a) s = complete id r a (record s { submitted = rest })

  module _ (accepts : Request → Bool) where
    unfoldable pub exchange : ℕ → Request → Option Answer → State D → State D
    unfolding call complete
    exchange id r reply s = let s' = call accepts id r s in deliver s'.submitted reply s'

    -- `id` and `reply` are the number of the request and how lely answers it, if it does.
    unfoldable pub on_sdo_read :
        Bool → ℕ → Option Answer → CoType → CoData → State D → Service Response × State D
    unfolding exchange
    on_sdo_read activated id reply T d s =
        let s' = exchange id (read_request T d) reply s in
        if activated
        then (read_response (s'.outcome id), s')
        else (responds (record { success = false; word = 0 }), s)

    unfoldable pub on_sdo_write :
        Bool → ℕ → Option Answer → CoType → CoData → State D → Service Bool × State D
    unfolding exchange
    on_sdo_write activated id reply T d s =
        let s' = exchange id (write_request T d) reply s in
        if activated then (write_response (s'.outcome id), s') else (responds false, s)
