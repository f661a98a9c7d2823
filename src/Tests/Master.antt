-- ===== src/Tests/Master.antt =====
-- The master of canopen_core at concrete inputs.
use ros2_canopen.Base.{ℕ, suc, ◌≡◌, ◌⊎◌, inl, inr, arith, Bool, true, false, some, List, [], ◌∷◌}
use ros2_canopen.Core.Master.{Master, Libraries, make, get_master, get_executor, no_executor}
use ros2_canopen.Core.Master.Laws.{
  IsSound, Call, call_init, call_configure, call_activate, calls, calls-get_master,
}

-- Libraries that count their calls, with the bridge 5.
abbrev count_call : ℕ → Bool × ℕ
count_call w = (true, suc w)

abbrev libraries : Libraries ℕ ℕ
libraries = record {
  create_interfaces = count_call;
  read_parameters = count_call;
  open_bus = count_call;
  make_bridge = λ w. (some 5, w);
  start_loop = count_call;
  stop_loop = count_call;
}

abbrev running_master : Master ℕ ℕ
running_master = record {
  master = some 5;
  executor = true;
  master_set = true;
  initialised = true;
  configured = true;
  activated = true;
  world = 0;
}

running_master-IsSound : IsSound running_master
unfolding IsSound
running_master-IsSound = ground arith

abbrev bring_up : List Call
bring_up = call_init ∷ call_configure ∷ call_activate ∷ []

master_given :
    let s = calls libraries bring_up (make 0) in
    ((s.activated ≡ false) ⊎ ((m : ℕ) × (get_master s ≡ inr (some m))))
    × ((get_executor s ≡ inl no_executor) ⊎ (get_executor s ≡ inr true))
master_given = calls-get_master libraries bring_up 0
