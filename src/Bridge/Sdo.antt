-- ===== src/Bridge/Sdo.antt =====
-- The SDO requests of a driver: `async_sdo_write`, `async_sdo_read` and their typed versions
-- (canopen_base_driver/include/canopen_base_driver/lely_driver_bridge.hpp,
-- canopen_base_driver/src/lely_driver_bridge.cpp). A thread that finds `running` set waits at
-- `sdo_cond`, and goes on when it is woken without a second test; lely answers a request by a
-- callback. What a call does while it holds `sdo_mutex` is one step.
pub mod Steps
pub mod Order
pub mod Threads
pub mod Stuck
pub mod Sync
pub mod Once
use ros2_canopen.Base.{
  ℕ, ◌==◌, Bool, true, false, if◌then◌else◌, Option, none, some, List, [], ◌∷◌, ◌++◌,
}
use ros2_canopen.Bridge.Dictionary.{CoType, Library, is_supported, low_bytes, other}

-- `plain` tells `async_sdo_read(COData)` and `async_sdo_write(COData)`, whose promise is a member of
-- the driver, from the typed ones. `T` is the type argument, which the plain ones take from the
-- object, and `word` what is to be written.
pub record Request : Type 0 where
  pub plain : Bool
  pub write : Bool
  pub T : CoType
  pub index : ℕ
  pub subindex : ℕ
  pub word : ℕ

-- How lely answers: with an error code, or with the value (which a write does not look at).
pub data Answer : Type 0 where
  refused : Answer
  answered : ℕ → Answer

-- What a promise holds; `error` and `no_object` are exceptions.
pub data Outcome : Type 0 where
  error no_object : Outcome
  written : Bool → Outcome
  read_value : ℕ → Outcome

abbrev pub Call : Type 0
Call = ℕ × Request

-- A call is known by a number, which stands for its promise. `woken` are the threads that left
-- `sdo_cond` and wait for the mutex; the two promises are the members.
pub record State (D : Type 0) : Type 0 where
  pub dictionary : D
  pub running : Bool
  pub read_promise : Option ℕ
  pub write_promise : Option ℕ
  pub submitted : List Call
  pub waiting : List Call
  pub woken : List Call
  pub outcome : ℕ → Option Outcome

-- The outcome where the dictionary has no such object.
abbrev pub missing : Bool → Outcome
missing true = written false
missing false = no_object

module _ {D : Type 0} where
  -- `prom->set_value`, and `set_exception`
  abbrev pub settle : ℕ → Outcome → State D → State D
  settle id o s = record s { outcome = λ j. if j == id then some o else s.outcome j }

  abbrev pub wake : List Call → State D → State D
  wake [] s = s
  wake (c ∷ cs) s = record s { waiting = cs; woken = s.woken ++ (c ∷ []) }

  -- `sdo_cond.notify_one()`
  abbrev pub notify_one : State D → State D
  notify_one s = wake s.waiting s

  -- `running = false; sdo_cond.notify_one();`
  abbrev pub release : State D → State D
  release s = notify_one (record s { running = false })

  -- The member promise that a plain call makes.
  abbrev pub make_promise : Bool → ℕ → State D → State D
  make_promise write id s = record s {
    read_promise = if write then s.read_promise else some id;
    write_promise = if write then some id else s.write_promise;
  }

  abbrev pub member_promise : Bool → State D → Option ℕ
  member_promise write s = if write then s.write_promise else s.read_promise

  abbrev pub submit : ℕ → Request → State D → State D
  submit id r s = record s { submitted = s.submitted ++ ((id, r) ∷ []) }

  -- `sdo_read_data_promise->set_exception`, also from a write; there is no such promise before the
  -- first read.
  abbrev pub settle_read : Option ℕ → State D → State D
  settle_read none s = s
  settle_read (some id) s = settle id error s

module _ {D : Type 0} (library : Library D) (accepts : Request → Bool) where
  -- `accepts` gives false where `SubmitRead` or `SubmitWrite` throws, which the typed calls let pass.
  abbrev pub begin_typed : Option CoType → ℕ → Request → State D → State D
  begin_typed none id r s = release (settle id (missing r.write) s)
  begin_typed (some t) id r s = if accepts r then submit id r s else s

  -- `submit_read<T>` and `submit_write<T>` by the object's type.
  abbrev pub begin_supported : ℕ → Request → State D → State D
  begin_supported id r s =
      if accepts r then submit id r s else release (settle_read s.read_promise s)

  -- No thread is notified where the object is missing, and nothing is submitted where its type is
  -- not one of the switch.
  abbrev pub begin_plain : Option CoType → ℕ → Request → State D → State D
  begin_plain none id r s = record (settle id (missing r.write) s) { running = false }
  begin_plain (some t) id r s =
      if is_supported t then begin_supported id (record r { T = t }) s else s

  -- From `running = true` on.
  unfoldable pub begin : ℕ → Request → State D → State D
  begin id r s =
      if r.plain
      then begin_plain (library.kind s.dictionary r.index r.subindex) id r
          (make_promise r.write id (record s { running = true }))
      else begin_typed (library.kind s.dictionary r.index r.subindex) id r
          (record s { running = true })

  -- A call, from the lock on.
  unfoldable pub call : ℕ → Request → State D → State D
  call id r s =
      if s.running then record s { waiting = s.waiting ++ ((id, r) ∷ []) } else begin id r s

module _ {D : Type 0} (library : Library D) where
  abbrev pub answer_outcome : Request → Answer → Outcome
  answer_outcome r refused = error
  answer_outcome r (answered v) = if r.write then written true else read_value v

  -- The dictionary takes the value over where the request succeeded.
  abbrev pub record_answer : Request → Answer → D → D
  record_answer r refused d = d
  record_answer r (answered v) d =
      library.set_val r.T r.index r.subindex (if r.write then low_bytes r.T r.word else v) d

  abbrev pub is_settled : Option Outcome → Bool
  is_settled none = false
  is_settled (some o) = true

  -- A promise that has its outcome throws at a second one, before `running` is reset.
  abbrev pub settle_member : Option ℕ → Outcome → State D → State D
  settle_member none o s = s
  settle_member (some id) o s = if is_settled (s.outcome id) then s else release (settle id o s)

  -- The callback of a request that lely no longer has.
  unfoldable pub complete : ℕ → Request → Answer → State D → State D
  complete id r a s =
      let s' = record s { dictionary = record_answer r a s.dictionary } in
      if r.plain
      then settle_member (member_promise r.write s') (answer_outcome r a) s'
      else release (settle id (answer_outcome r a) s')
