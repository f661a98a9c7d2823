-- ===== src/Bridge/Access/Writes.antt =====
-- What `universal_set_value` does to the driver's dictionary
-- (canopen_base_driver/include/canopen_base_driver/lely_driver_bridge.hpp).
use ros2_canopen.Base.{
  ℕ, ◌≡◌, ◌⊎◌, inl, inr, refl, ◌∙◌, ap, true, false, Option, none, some, Bool-cases, if◌then◌else◌,
}
use ros2_canopen.Core.Action.{◌>>◌}
use ros2_canopen.Bridge.Dictionary.{CoType, IsDictionary, is_supported, low_bytes}
use ros2_canopen.Bridge.Pdo.{lookup}
use ros2_canopen.Bridge.Sdo.{Request, Answer, refused, answered}
use ros2_canopen.Bridge.Sdo.Steps.{IsIdle}
use ros2_canopen.Bridge.Sdo.Sync.{exchange, sync_sdo_write_typed, typed_write}
use ros2_canopen.Bridge.Sdo.Once.{exchange-IsServed, after_reply}
use ros2_canopen.Bridge.Access.{
  Driver, Lely, Error, sdo_error, is_rpdo_in, universal_set_value, ignore_result, on_bus,
  set_stored,
}

module _ {D W : Type 0} (lely : Lely D W) where
  -- The ways in which a write ends.
  abbrev pub IsWritten : CoType → ℕ → ℕ → ℕ → Driver D W → Driver D W → Option Error → Type 0
  IsWritten T i j v s s' error =
      let (ok, w) = lely.write_tpdo T i j v s.bus in
      (lely.dictionary.get_val T s'.sdo.dictionary i j ≡ v)
      × (((ok ≡ true)
            × (error ≡ (if (lely.write_event i j w).0 then none else some sdo_error))
            × (s'.bus ≡ (lely.write_event i j w).1))
          ⊎ ((ok ≡ false) × (error ≡ some sdo_error) × (s'.bus ≡ w)))

  abbrev pub IsRequested : CoType → ℕ → ℕ → ℕ → Option Answer → Driver D W → Driver D W → Type 0
  IsRequested T i j v reply s s' =
      (s'.bus ≡ s.bus)
      × (((w : ℕ) × (reply ≡ some (answered w))
            × (lely.dictionary.get_val T s'.sdo.dictionary i j ≡ low_bytes T v))
          ⊎ (((reply ≡ none) ⊎ (reply ≡ some refused)) × (s'.sdo.dictionary ≡ s.sdo.dictionary)))

  replied :
      (T : CoType) (i j v : ℕ) (reply : Option Answer) (s : Driver D W) (d : D)
      → IsDictionary lely.dictionary
      → lely.dictionary.kind s.sdo.dictionary i j ≡ some T
      → d ≡ after_reply lely.dictionary (typed_write T i j v) reply s.sdo.dictionary
      → (((w : ℕ) × (reply ≡ some (answered w)) × (lely.dictionary.get_val T d i j ≡ low_bytes T v))
          ⊎ (((reply ≡ none) ⊎ (reply ≡ some refused)) × (d ≡ s.sdo.dictionary)))
  replied T i j v none s d laws k e = inr (inl refl, e)
  replied T i j v (some refused) s d laws k e = inr (inr refl, e)
  replied T i j v (some (answered w)) s d laws k e = inl (
    w,
    refl,
    ap (λ x. lely.dictionary.get_val T x i j) e ∙ laws.0 s.sdo.dictionary T i j (low_bytes T v) k,
  )

  requested :
      (T : CoType) (id i j v : ℕ) (reply : Option Answer) (s : Driver D W)
      → IsDictionary lely.dictionary
      → is_supported T ≡ true
      → IsIdle s.sdo
      → s.sdo.outcome id ≡ none
      → lely.dictionary.kind s.sdo.dictionary i j ≡ some T
      → ((x : Request) → lely.accepts x ≡ true)
      → let r =
          (ignore_result lely
            (sync_sdo_write_typed lely.dictionary lely.accepts id T i j v reply s.sdo)
            s) in
        (r.error ≡ none) × IsRequested T i j v reply s r.after
  unfolding sync_sdo_write_typed
  requested T id i j v reply s laws n h f k q =
      let r = typed_write T i j v in
      let (d, _, _) = exchange-IsServed lely.dictionary lely.accepts id r reply s.sdo T h f k n q in
      rw (k, q r)
        (
          refl,
          (
            refl,
            replied T i j v reply s
                (exchange lely.dictionary lely.accepts id r reply s.sdo).dictionary laws k d,
          ),
        )

  mapped_write :
      (T : CoType) (i j v : ℕ) (s : Driver D W)
      → IsDictionary lely.dictionary
      → lely.dictionary.kind s.sdo.dictionary i j ≡ some T
      → let r =
          (on_bus lely (lely.write_tpdo T i j v) >> on_bus lely (lely.write_event i j))
            (set_stored lely T i j v s) in
        IsWritten T i j v s r.after r.error
  mapped_write T i j v s laws k = elim (Bool-cases (lely.write_tpdo T i j v s.bus).0) [
    | inl t ↦ elim (Bool-cases (lely.write_event i j (lely.write_tpdo T i j v s.bus).1).0) [
      | inl u ↦ rw (t, u) (laws.0 s.sdo.dictionary T i j v k, inl (refl, refl, refl))
      | inr u ↦ rw (t, u) (laws.0 s.sdo.dictionary T i j v k, inl (refl, refl, refl))
    ]
    | inr t ↦ rw t (laws.0 s.sdo.dictionary T i j v k, inr (refl, refl, refl))
  ]

  -- Writing an object of a supported type that the dictionary has, by a driver that is idle,
  -- where lely takes every request (`SubmitWrite` does not throw). An object that the map has as RPDO is written to the dictionary, to the mapped
  -- object and, unless that throws, announced by the event; the call throws exactly what lely
  -- throws. Any other object is written by SDO: the call returns however the request that lely took ends, and the
  -- dictionary has the value exactly where the device took it.
  pub universal_set_value_lem :
      (T : CoType) (id i j v : ℕ) (reply : Option Answer) (s : Driver D W)
      → IsDictionary lely.dictionary
      → is_supported T ≡ true
      → IsIdle s.sdo
      → s.sdo.outcome id ≡ none
      → lely.dictionary.kind s.sdo.dictionary i j ≡ some T
      → ((x : Request) → lely.accepts x ≡ true)
      → let r = universal_set_value lely T id reply i j v s in
        ((is_rpdo_in (lookup i j s.pdo_map) ≡ true) × IsWritten T i j v s r.after r.error)
        ⊎ ((is_rpdo_in (lookup i j s.pdo_map) ≡ false)
            × (r.error ≡ none)
            × IsRequested T i j v reply s r.after)
  unfolding universal_set_value
  universal_set_value_lem T id i j v reply s laws n h f k q =
      elim (Bool-cases (is_rpdo_in (lookup i j s.pdo_map))) [
        | inl t ↦ inl (t, rw t (mapped_write T i j v s laws k))
        | inr t ↦
            let (e, w) = requested T id i j v reply s laws n h f k q in inr (t, rw t e, rw t w)
      ]
