-- ===== src/Bridge/Access/Pdos.antt =====
-- What PDOs and writes do to the driver's dictionary
-- (canopen_base_driver/include/canopen_base_driver/lely_driver_bridge.hpp,
-- canopen_base_driver/src/lely_driver_bridge.cpp).
use ros2_canopen.Base.{
  ℕ, ◌≡◌, ◌⊎◌, inl, inr, refl, arith, ◌∙◌, ap, Bool, true, false, none, some, [], ◌∷◌, ◌++◌,
  Bool-cases, Option-cases,
}
use ros2_canopen.Core.Action.{◌>>◌}
use ros2_canopen.Bridge.Dictionary.{
  CoType, real32, other, IsDictionary, CoData, is_supported, low_bytes,
}
use ros2_canopen.Bridge.Access.{
  Driver, Lely, on_rpdo_write, receive, tpdo_transmit, transmit_if, transmit_as, on_bus, set_stored,
}

CoType-cases : (T : CoType) → (is_supported T ≡ true) ⊎ ((n : ℕ) × (T ≡ other n))
CoType-cases (other n) = inr (n, refl)
CoType-cases T = inl refl

-- The types that `tpdo_transmit` writes.
abbrev pub is_transmitted : CoType → Bool
is_transmitted (other n) = false
is_transmitted real32 = false
is_transmitted T = true

module _ {D W : Type 0} (lely : Lely D W) where
  -- What a value that a PDO brought leaves behind.
  abbrev pub IsReceived : CoType → ℕ → ℕ → ℕ → Driver D W → Driver D W → Type 0
  IsReceived T i j v s s' =
      (s'.rpdo_queue ≡ s.rpdo_queue ++ (record { index = i; subindex = j; word = v } ∷ []))
      × (lely.dictionary.get_val T s'.sdo.dictionary i j ≡ v)

  receive-IsReceived :
      (T : CoType) (i j : ℕ) (s : Driver D W)
      → IsDictionary lely.dictionary
      → is_supported T ≡ true
      → lely.dictionary.kind s.sdo.dictionary i j ≡ some T
      → IsReceived T i j (lely.read_rpdo T i j s.bus) s (receive lely T i j s)
  receive-IsReceived (other n) i j s laws h k = absurd (ground (arith, h))
  receive-IsReceived T i j s laws h k =
      let e = laws.0 s.sdo.dictionary T i j (lely.read_rpdo T i j s.bus) k in
      (ap (λ v. s.rpdo_queue ++ (record { index = i; subindex = j; word = v } ∷ [])) e, e)

  -- For every object and whatever type it has: an object that the dictionary does not have changes
  -- nothing; the value of one of a supported type is in the dictionary afterwards and, as the same
  -- word, the last in the queue; and one of another type is queued as the value 0.
  pub on_rpdo_write_lem :
      (i j : ℕ) (s : Driver D W)
      → IsDictionary lely.dictionary
      → let s' = on_rpdo_write lely i j s in
        ((lely.dictionary.kind s.sdo.dictionary i j ≡ none) × (s' ≡ s))
        ⊎ (((T : CoType) × (lely.dictionary.kind s.sdo.dictionary i j ≡ some T)
              × (is_supported T ≡ true)
              × IsReceived T i j (lely.read_rpdo T i j s.bus) s s')
            ⊎ ((n : ℕ) × (lely.dictionary.kind s.sdo.dictionary i j ≡ some (other n))
                × (s'.rpdo_queue
                    ≡ s.rpdo_queue ++ (record { index = i; subindex = j; word = 0 } ∷ []))
                × (s'.sdo ≡ s.sdo)))
  unfolding on_rpdo_write
  on_rpdo_write_lem i j s laws = elim (Option-cases (lely.dictionary.kind s.sdo.dictionary i j)) [
    | inl e ↦ inl (e, rw e refl)
    | inr (T, e) ↦ elim (CoType-cases T) [
      | inl h ↦ inr (inl (T, e, h, rw e (receive-IsReceived T i j s laws h e)))
      | inr (n, h) ↦ let e' = e ∙ ap some h in inr (inr (n, e', rw e' refl, rw e' refl))
    ]
  ]

  -- What is left of a value that is sent: where lely throws at the mapped object, nothing but that.
  abbrev pub IsSent : CoType → CoData → ℕ → Driver D W → Driver D W → Type 0
  IsSent T d v s s' =
      let (ok, w) = lely.write_tpdo T d.index d.subindex v s.bus in
      ((ok ≡ true)
        × (lely.dictionary.get_val T s'.sdo.dictionary d.index d.subindex ≡ v)
        × (s'.bus ≡ (lely.write_event d.index d.subindex w).1))
      ⊎ ((ok ≡ false) × (s' ≡ record s { bus = w }))

  after-on_bus :
      (f : W → Bool × W) (s : Driver D W) → (on_bus lely f s).after ≡ record s { bus = (f s.bus).1 }
  after-on_bus f s = elim (Bool-cases (f s.bus).0) [ inl e ↦ rw e refl | inr e ↦ rw e refl ]

  transmit_as-IsSent :
      (T : CoType) (d : CoData) (s : Driver D W)
      → IsDictionary lely.dictionary
      → lely.dictionary.kind s.sdo.dictionary d.index d.subindex ≡ some T
      → IsSent T d
          (low_bytes T d.word)
          s
          ((transmit_as lely T d >> on_bus lely (lely.write_event d.index d.subindex)) s).after
  transmit_as-IsSent T d s laws k =
      let v = low_bytes T d.word in
      let s' = record s { bus = (lely.write_tpdo T d.index d.subindex v s.bus).1 } in
      let e =
        after-on_bus (lely.write_event d.index d.subindex)
          (set_stored lely T d.index d.subindex v s') in
      elim (Bool-cases (lely.write_tpdo T d.index d.subindex v s.bus).0) [
        | inl t ↦
            inl (t, rw (t, e) (laws.0 s.sdo.dictionary T d.index d.subindex v k), rw (t, e) refl)
        | inr t ↦ inr (t, rw t refl)
      ]

  transmit-IsSent :
      (T : CoType) (d : CoData) (s : Driver D W)
      → IsDictionary lely.dictionary
      → is_transmitted T ≡ true
      → lely.dictionary.kind s.sdo.dictionary d.index d.subindex ≡ some T
      → IsSent T d (low_bytes T d.word) s (transmit_if lely (some T) d s)
  transmit-IsSent (other n) d s laws h k = absurd (ground (arith, h))
  transmit-IsSent real32 d s laws h k = absurd (ground (arith, h))
  transmit-IsSent T d s laws h k = transmit_as-IsSent T d s laws k

  IsKept-transmit :
      (T : CoType) (d : CoData) (s : Driver D W)
      → is_transmitted T ≡ false
      → transmit_if lely (some T) d s
        ≡ record s { bus = (lely.write_event d.index d.subindex s.bus).1 }
  IsKept-transmit (other n) d s h = after-on_bus (lely.write_event d.index d.subindex) s
  IsKept-transmit real32 d s h = after-on_bus (lely.write_event d.index d.subindex) s
  IsKept-transmit T d s h = absurd (ground (arith, h))

  -- For every object: `tpdo_transmit` changes nothing for one that the dictionary does not have;
  -- for one of a transmitted type it hands the low bytes of the word to the mapped object and, where
  -- lely takes them, has the same value in the dictionary and raises the event; for every other type,
  -- `CO_DEFTYPE_REAL32` among them, it raises the event alone.
  pub tpdo_transmit_lem :
      (d : CoData) (s : Driver D W)
      → IsDictionary lely.dictionary
      → let s' = tpdo_transmit lely d s in
        ((lely.dictionary.kind s.sdo.dictionary d.index d.subindex ≡ none) × (s' ≡ s))
        ⊎ ((T : CoType) × (lely.dictionary.kind s.sdo.dictionary d.index d.subindex ≡ some T)
            × (((is_transmitted T ≡ true) × IsSent T d (low_bytes T d.word) s s')
                ⊎ ((is_transmitted T ≡ false)
                    × (s' ≡ record s { bus = (lely.write_event d.index d.subindex s.bus).1 }))))
  unfolding tpdo_transmit
  tpdo_transmit_lem d s laws =
      elim (Option-cases (lely.dictionary.kind s.sdo.dictionary d.index d.subindex)) [
        | inl e ↦ inl (e, rw e refl)
        | inr (T, e) ↦ elim (Bool-cases (is_transmitted T)) [
          | inl t ↦ inr (T, e, inl (t, rw e (transmit-IsSent T d s laws t e)))
          | inr t ↦ inr (T, e, inr (t, rw e (IsKept-transmit T d s t)))
        ]
      ]
