-- ===== src/Control/Proxy/Laws.antt =====
-- Data on the way between the controller's topics and the bus, through the hardware interface.
use ros2_canopen.Base.{ℕ, sym, subst, ◌<◌, ◌≡◌, refl, arith, true, none, some, [], ◌∷◌}
use ros2_canopen.Base.Int.{ℤ, pos, negsuc}
use ros2_canopen.Bridge.Dictionary.{CoData}
use ros2_canopen.Nodes.Proxy.{NmtState, rpdo}
use ros2_canopen.Control.Value.{
  Floats, IsFloats, int32_t, of_nat, value_of, word_with, prepare_read, prepare_write,
}
use ros2_canopen.Control.Value.Laws.{cast_unsigned-of_nat, cast-of_int}
use ros2_canopen.Control.Node.{NodeData, set_rpdo_data}
use ros2_canopen.Control.System.{
  CommandName, tpdo_index, tpdo_subindex, tpdo_value, tpdo_ons, Drivers, write_reset, write_start,
  write_tpdo, write_node, rpdo_index, rpdo_subindex, rpdo_value,
}
use ros2_canopen.Control.Proxy.{
  Controller, Access, on_command, update, rpdo_messages, put_input, command_value,
}

value_of-int32_t : (word : ℕ) → word < 2147483648 → value_of int32_t word ≡ pos word
unfolding value_of
value_of-int32_t word k = ground arith

module _ {F : Type 0} (floats : Floats F) (laws : IsFloats floats) where
  word_with-of_nat :
      (old word : ℕ)
      → old < 4294967296
      → word < 2147483648
      → word_with floats int32_t old (of_nat floats word) ≡ word
  unfolding word_with
  word_with-of_nat old word h k =
      rw
        (cast-of_int floats laws (negsuc 2147483647) (pos 2147483647) (pos word) (omega arith)
          (omega arith) (omega arith) (omega arith))
        (omega arith)

  -- The node's data once a command is written to all the interfaces.
  abbrev loaded : CoData → NodeData F → NodeData F
  loaded d n = record n {
    tpdo_data = record {
      shared = record n.tpdo_data.shared {
        index = of_nat floats d.index;
        subindex = of_nat floats d.subindex;
        value = of_nat floats d.word;
      };
      one_shot = command_value floats;
    };
  }

  put_input-loaded :
      (access : Access) (d : CoData) (n : NodeData F)
      → ((name : CommandName) → access.writable name ≡ true)
      → put_input floats access (some d) n ≡ loaded d n
  put_input-loaded access d n all =
      rw (all tpdo_ons, all tpdo_value, all tpdo_subindex, all tpdo_index) refl

  prepare_write-loaded :
      (d : CoData) (n : NodeData F)
      → n.tpdo_data.shared.co_type ≡ int32_t
      → n.tpdo_data.shared.original_data.word < 4294967296
      → d.index < 65536
      → d.subindex < 256
      → d.word < 2147483648
      → (prepare_write floats (loaded d n).tpdo_data.shared).original_data ≡ d
  unfolding prepare_write
  prepare_write-loaded d n t o i j k =
      rw
        (
          t,
          cast_unsigned-of_nat floats laws 65536 d.index i (omega arith),
          cast_unsigned-of_nat floats laws 256 d.subindex j (omega arith),
          word_with-of_nat n.tpdo_data.shared.original_data.word d.word o k,
        )
        refl

  module _ {W : Type 0} (drivers : Drivers W) where
    write_node-loaded :
        (id : ℕ) (d : CoData) (n : NodeData F) (w : W)
        → drivers.registered id ≡ true
        → n.nmt_state.reset_ons ≡ floats.quiet_nan
        → n.nmt_state.start_ons ≡ floats.quiet_nan
        → (write_node floats drivers id (loaded d n, w)).1
          ≡ drivers.tpdo_transmit id
              (prepare_write floats (loaded d n).tpdo_data.shared).original_data
              w
    unfolding write_node write_reset write_start write_tpdo
    write_node-loaded id d n w e a b = rw (e, a, b, laws.0, laws.1 (pos 1)) refl

    -- A message on the controller's topic goes to the bus as it is, once: when the interfaces can be
    -- written and no network command is pending, the update of the controller and the cycle of
    -- `CanopenSystem` send exactly the message's index, subindex and data by the node's driver, and
    -- both forget it. The data are below 2 ^ 31, since the type of the data is `int32_t`; index and
    -- subindex are of 16 and 8 bits.
    pub write_node-update :
        (nmt_of : ℤ → NmtState) (id : ℕ) (d : CoData) (access : Access) (c : Controller)
        (n : NodeData F) (w : W)
        → drivers.registered id ≡ true
        → ((name : CommandName) → access.writable name ≡ true)
        → n.nmt_state.reset_ons ≡ floats.quiet_nan
        → n.nmt_state.start_ons ≡ floats.quiet_nan
        → n.tpdo_data.shared.co_type ≡ int32_t
        → n.tpdo_data.shared.original_data.word < 4294967296
        → d.index < 65536
        → d.subindex < 256
        → d.word < 2147483648
        → let (c', n', messages) = update floats nmt_of access (on_command d c) n in
          let (n'', w') = write_node floats drivers id (n', w) in
          (w' ≡ drivers.tpdo_transmit id d w)
          × (n''.tpdo_data.one_shot ≡ floats.quiet_nan)
          × (c'.input_cmd ≡ none)
    unfolding update write_node write_reset write_start write_tpdo
    write_node-update nmt_of id d access c n w e all a b t o i j k =
        let put = put_input-loaded access d n all in
        (
          subst (λ m. (write_node floats drivers id (m, w)).1 ≡ drivers.tpdo_transmit id d w)
              (sym put)
              (subst
                (λ x.
                  (write_node floats drivers id (loaded d n, w)).1 ≡ drivers.tpdo_transmit id x w)
                (prepare_write-loaded d n t o i j k) (write_node-loaded id d n w e a b)),
          rw e refl,
          refl,
        )

  -- Data that are received are published as they are: after the callback of `CanopenSystem`, the
  -- controller's update publishes the index, subindex and data that came, when the interfaces can be
  -- read and the publisher takes the message, for data below 2 ^ 31.
  pub rpdo_messages-set_rpdo_data :
      (d : CoData) (access : Access) (n : NodeData F)
      → access.readable rpdo_index ≡ true
      → access.readable rpdo_subindex ≡ true
      → access.readable rpdo_value ≡ true
      → access.rpdo_published ≡ true
      → n.rpdo_data.co_type ≡ int32_t
      → d.index < 65536
      → d.subindex < 256
      → d.word < 2147483648
      → rpdo_messages floats access (set_rpdo_data floats d n) ≡ rpdo d ∷ []
  unfolding set_rpdo_data prepare_read
  rpdo_messages-set_rpdo_data d access n r s t p e i j k =
      rw
        (
          r,
          s,
          t,
          p,
          e,
          cast_unsigned-of_nat floats laws 65536 d.index i (omega arith),
          cast_unsigned-of_nat floats laws 256 d.subindex j (omega arith),
          value_of-int32_t d.word k,
          cast_unsigned-of_nat floats laws 4294967296 d.word (omega arith) (omega arith),
        )
        refl
