-- ===== src/Nodes/Proxy.antt =====
-- The proxy driver node: `NodeCanopenProxyDriver`
-- (canopen_proxy_driver/include/canopen_proxy_driver/node_interfaces/node_canopen_proxy_driver_impl.hpp).
-- It works on the driver of Bridge.Access. The creation of publishers and services, and log lines,
-- are left out.
pub mod Laws
use ros2_canopen.Base.{ℕ, Bool, true, false, if◌then◌else◌, Option, none, some, List, [], ◌∷◌, ◌++◌}
use ros2_canopen.Bridge.Dictionary.{CoData, integer32}
use ros2_canopen.Bridge.Sdo.{Request, Answer, Outcome, written, read_value, State}
use ros2_canopen.Bridge.Sdo.Sync.{exchange}
use ros2_canopen.Bridge.Access
use ros2_canopen.Bridge.Access.{Driver, Lely}

-- `canopen::NmtState`, with a case for every other value.
pub data NmtState : Type 0 where
  bootup preop reset_comm reset_node start stop toggle unknown : NmtState

-- The levels of diagnostics.
pub data Level : Type 0 where
  ok warn error : Level

pub data NmtCommand : Type 0 where
  reset_node_command start_command : NmtCommand

-- What is published: the text for a network state, `unknown` standing for "ERROR", and data.
pub data Message : Type 0 where
  nmt_state : NmtState → Message
  rpdo : CoData → Message

pub record Node (D W : Type 0) : Type 0 where
  pub activated : Bool
  pub driver : Driver D W
  pub level : Level
  pub nmt_commands : List NmtCommand
  pub published : List Message

-- A service that waits without a time limit may not come back.
pub data Service (A : Type 0) : Type 0 where
  blocked : Service A
  responds : A → Service A

-- `CORead::Response`
pub record Response : Type 0 where
  pub success : Bool
  pub word : ℕ

abbrev pub level_of : NmtState → Level
level_of reset_comm = warn
level_of reset_node = warn
level_of unknown = error
level_of _ = ok

module _ {D W : Type 0} where
  abbrev pub publish : Message → Node D W → Node D W
  publish message s = record s { published = s.published ++ (message ∷ []) }

  unfoldable pub on_nmt : NmtState → Node D W → Node D W
  on_nmt state s =
      if s.activated then publish (nmt_state state) (record s { level = level_of state }) else s

  unfoldable pub on_rpdo : CoData → Node D W → Node D W
  on_rpdo d s = if s.activated then publish (rpdo d) s else s

  abbrev pub nmt_command : NmtCommand → Node D W → Node D W
  nmt_command command s = record s { nmt_commands = s.nmt_commands ++ (command ∷ []) }

  unfoldable pub reset_node_nmt_command : Node D W → Bool × Node D W
  reset_node_nmt_command s =
      if s.activated then (true, nmt_command reset_node_command s) else (false, s)

  unfoldable pub start_node_nmt_command : Node D W → Bool × Node D W
  start_node_nmt_command s = if s.activated then (true, nmt_command start_command s) else (false, s)

  abbrev pub with_sdo : State D → Node D W → Node D W
  with_sdo sdo s = record s { driver = record s.driver { sdo = sdo } }

-- `async_sdo_read` and `async_sdo_write` take the type from the object.
abbrev pub read_request : ℕ → ℕ → Request
read_request index subindex = record {
  plain = true;
  write = false;
  T = integer32;
  index = index;
  subindex = subindex;
  word = 0;
}

abbrev pub write_request : CoData → Request
write_request d = record {
  plain = true;
  write = true;
  T = integer32;
  index = d.index;
  subindex = d.subindex;
  word = d.word;
}

-- `f.wait()` and `f.get()`, whose exceptions are caught; the word stays 0 then.
abbrev pub read_response : Option Outcome → Service Response
read_response none = blocked
read_response (some (read_value v)) = responds (record { success = true; word = v })
read_response (some _) = responds (record { success = false; word = 0 })

abbrev pub write_response : Option Outcome → Service Bool
write_response none = blocked
write_response (some (written b)) = responds b
write_response (some _) = responds false

module _ {D W : Type 0} (lely : Lely D W) where
  unfoldable pub tpdo_transmit : CoData → Node D W → Bool × Node D W
  unfolding Access.tpdo_transmit
  tpdo_transmit d s =
      if s.activated
      then (true, record s { driver = Access.tpdo_transmit lely d s.driver })
      else (false, s)

  -- The result is only logged.
  abbrev pub on_tpdo : CoData → Node D W → Node D W
  on_tpdo d s = (tpdo_transmit d s).1

  -- `id` and `reply` are the number of the request and how lely answers it, if it does.
  unfoldable pub on_sdo_read : ℕ → Option Answer → ℕ → ℕ → Node D W → Service Response × Node D W
  unfolding exchange
  on_sdo_read id reply index subindex s =
      let sdo =
        exchange lely.dictionary lely.accepts id (read_request index subindex) reply s.driver.sdo in
      if s.activated
      then (read_response (sdo.outcome id), with_sdo sdo s)
      else (responds (record { success = false; word = 0 }), s)

  unfoldable pub on_sdo_write : ℕ → Option Answer → CoData → Node D W → Service Bool × Node D W
  unfolding exchange
  on_sdo_write id reply d s =
      let sdo = exchange lely.dictionary lely.accepts id (write_request d) reply s.driver.sdo in
      if s.activated then (write_response (sdo.outcome id), with_sdo sdo s) else (responds false, s)
