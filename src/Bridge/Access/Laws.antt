-- ===== src/Bridge/Access/Laws.antt =====
-- The driver's dictionary as a copy of the device's values
-- (canopen_base_driver/include/canopen_base_driver/lely_driver_bridge.hpp,
-- canopen_base_driver/src/lely_driver_bridge.cpp).
use ros2_canopen.Base.{
  ℕ, ◌≡◌, ◌⊎◌, inl, inr, refl, arith, sym, ◌∙◌, ap, Bool, true, false, Option, none, some,
  Bool-cases,
}
use ros2_canopen.Bridge.Dictionary.{
  CoType, boolean, unsigned8, integer8, unsigned16, integer16, unsigned32, integer32, real32, other,
  IsDictionary, is_supported,
}
use ros2_canopen.Bridge.Pdo.{lookup}
use ros2_canopen.Bridge.Sdo.{Request, Answer, refused, answered, State}
use ros2_canopen.Bridge.Sdo.Steps.{IsIdle}
use ros2_canopen.Bridge.Sdo.Sync.{Sync, returns, sync_sdo_read_typed, read_result, typed_read}
use ros2_canopen.Bridge.Sdo.Once.{exchange-IsServed, after_reply, outcome_of}
use ros2_canopen.Bridge.Access.{
  Driver, Lely, is_tpdo_in, stored_value, value_or_stored, universal_get_value,
}

-- The types that `universal_get_value` reads from the dictionary.
abbrev pub is_integer : CoType → Bool
is_integer boolean = false
is_integer real32 = false
is_integer (other n) = false
is_integer T = true

-- What a read gives for each way of answering.
abbrev read_value_of : Option Answer → Option ℕ
read_value_of (some (answered v)) = some v
read_value_of _ = none

-- The device's value, or the one from before where it did not answer with one.
abbrev pub answer_or : Option Answer → ℕ → ℕ
answer_or none old = old
answer_or (some refused) old = old
answer_or (some (answered v)) old = v

module _ {D W : Type 0} (lely : Lely D W) where
  stored_integer :
      (T : CoType) (d : D) (i j : ℕ)
      → is_integer T ≡ true
      → stored_value lely T d i j ≡ lely.dictionary.get_val T d i j
  stored_integer boolean d i j h = absurd (ground (arith, h))
  stored_integer unsigned8 d i j h = refl
  stored_integer integer8 d i j h = refl
  stored_integer unsigned16 d i j h = refl
  stored_integer integer16 d i j h = refl
  stored_integer unsigned32 d i j h = refl
  stored_integer integer32 d i j h = refl
  stored_integer real32 d i j h = absurd (ground (arith, h))
  stored_integer (other n) d i j h = absurd (ground (arith, h))

  supported_integer : (T : CoType) → is_integer T ≡ true → is_supported T ≡ true
  supported_integer (other n) h = absurd (ground (arith, h))
  supported_integer boolean h = refl
  supported_integer real32 h = refl
  supported_integer unsigned8 h = refl
  supported_integer integer8 h = refl
  supported_integer unsigned16 h = refl
  supported_integer integer16 h = refl
  supported_integer unsigned32 h = refl
  supported_integer integer32 h = refl

  read_result-outcome :
      (T : CoType) (i j : ℕ) (reply : Option Answer)
      → read_result (outcome_of lely.dictionary (typed_read T i j) reply) ≡ read_value_of reply
  read_result-outcome T i j none = refl
  read_result-outcome T i j (some refused) = refl
  read_result-outcome T i j (some (answered v)) = refl

  sync_sdo_read_typed_lem :
      (id : ℕ) (T : CoType) (i j : ℕ) (reply : Option Answer) (s : State D)
      → IsIdle s
      → s.outcome id ≡ none
      → lely.dictionary.kind s.dictionary i j ≡ some T
      → is_supported T ≡ true
      → ((x : Request) → lely.accepts x ≡ true)
      → let (r, s') = sync_sdo_read_typed lely.dictionary lely.accepts id T i j reply s in
        (r ≡ returns (read_value_of reply))
        × (s'.dictionary ≡ after_reply lely.dictionary (typed_read T i j) reply s.dictionary)
  unfolding sync_sdo_read_typed
  sync_sdo_read_typed_lem id T i j reply s h f k u q =
      let r = typed_read T i j in
      let (d, o, _) = exchange-IsServed lely.dictionary lely.accepts id r reply s T h f k u q in
      (rw (k, q r, o) (ap (λ x. returns x) (read_result-outcome T i j reply)), d)

  value_or_stored_lem :
      (T : CoType) (i j : ℕ) (reply : Option Answer) (s : Driver D W)
      (got : Sync (Option ℕ) × State D)
      → IsDictionary lely.dictionary
      → is_integer T ≡ true
      → lely.dictionary.kind s.sdo.dictionary i j ≡ some T
      → got.0 ≡ returns (read_value_of reply)
      → got.1.dictionary ≡ after_reply lely.dictionary (typed_read T i j) reply s.sdo.dictionary
      → let (r, s') = value_or_stored lely T i j s got in
        (r ≡ returns (lely.dictionary.get_val T s'.sdo.dictionary i j))
        × (r ≡ returns (answer_or reply (lely.dictionary.get_val T s.sdo.dictionary i j)))
  value_or_stored_lem T i j none s got laws n k e d =
      let e' = stored_integer T got.1.dictionary i j n in
      rw e (
        ap (λ x. returns x) e',
        ap (λ x. returns x) (e' ∙ ap (λ x. lely.dictionary.get_val T x i j) d),
      )
  value_or_stored_lem T i j (some refused) s got laws n k e d =
      let e' = stored_integer T got.1.dictionary i j n in
      rw e (
        ap (λ x. returns x) e',
        ap (λ x. returns x) (e' ∙ ap (λ x. lely.dictionary.get_val T x i j) d),
      )
  value_or_stored_lem T i j (some (answered v)) s got laws n k e d = rw e (
    ap (λ x. returns x)
        (sym (ap (λ x. lely.dictionary.get_val T x i j) d ∙ laws.0 s.sdo.dictionary T i j v k)),
    refl,
  )

  -- Reading an object of an integer type that the dictionary has, by a driver that is idle,
  -- where lely takes every request (`SubmitRead` does not throw): whatever carries the object, and
  -- however a request that lely took ends, the result is the value that the dictionary holds
  -- afterwards. An object in a TPDO leaves the dictionary as it was; for another one the result
  -- is the device's, if it answered in time, and the dictionary's old value otherwise.
  pub universal_get_value_lem :
      (T : CoType) (id i j : ℕ) (reply : Option Answer) (s : Driver D W)
      → IsDictionary lely.dictionary
      → is_integer T ≡ true
      → IsIdle s.sdo
      → s.sdo.outcome id ≡ none
      → lely.dictionary.kind s.sdo.dictionary i j ≡ some T
      → ((x : Request) → lely.accepts x ≡ true)
      → let (r, s') = universal_get_value lely T id reply i j s in
        (r ≡ returns (lely.dictionary.get_val T s'.sdo.dictionary i j))
        × (((is_tpdo_in (lookup i j s.pdo_map) ≡ true) × (s' ≡ s))
            ⊎ ((is_tpdo_in (lookup i j s.pdo_map) ≡ false)
                × (r ≡ returns (answer_or reply (lely.dictionary.get_val T s.sdo.dictionary i j)))))
  unfolding universal_get_value
  universal_get_value_lem T id i j reply s laws n h f k q =
      let sync = sync_sdo_read_typed lely.dictionary lely.accepts id T i j reply s.sdo in
      let (e, d) = sync_sdo_read_typed_lem id T i j reply s.sdo h f k (supported_integer T n) q in
      elim (Bool-cases (is_tpdo_in (lookup i j s.pdo_map))) [
        | inl t ↦
            rw t (ap (λ x. returns x) (stored_integer T s.sdo.dictionary i j n), inl (refl, refl))
        | inr t ↦
            let (now, old) = value_or_stored_lem T i j reply s sync laws n k e d in
            rw t (now, inr (refl, old))
      ]
