-- ===== src/Tests/Bridge.antt =====
-- Examples for the bridge: the messages of the controller and the registers that are published.
use loop_charger_inverter.Prelude.{
  ℕ, ◌+◌, ◌<◌, ◌++◌, length, length-append, ◌≡◌, none, List, [], ◌∷◌, arith,
}
use loop_charger_inverter.Prelude.Int.{pos}
use loop_charger_inverter.Cmos.Text.{codes, space}
use loop_charger_inverter.Cmos.Sub.Messages.{IsClean}
use loop_charger_inverter.Cmos.Link.{IsPlain}
use loop_charger_inverter.Cmos.Conns.{SubCtx}
use loop_charger_inverter.Cmos.Spin.{new_ctx}
use loop_charger_inverter.Inverter.Queue.{queue_init}
use loop_charger_inverter.Inverter.Queue.Fifo.{queue_init-IsWellFormed}
use loop_charger_inverter.Inverter.Handlers.Queued.{AreWellFormed, waiting_requests, one_register}
use loop_charger_inverter.Inverter.Handlers.{UnitQueue}
use loop_charger_inverter.Inverter.Bridge.{Handler, bridge_sub_hmi_topic, run_calls}
use loop_charger_inverter.Inverter.Bridge.Dispatch.{hmi_message, hmi_line, calls_for, run_calls_lem}

abbrev units : List UnitQueue
units = record { uid = 1; cmd_queue = queue_init } ∷ []

plain :
    (type key : List ℕ)
    → IsClean type
    → IsClean key
    → length type + length key < 400
    → IsPlain bridge_sub_hmi_topic (hmi_message none type key (codes "50"))
plain type key type_clean key_clean short = record {
  state_clean = tt;
  type_clean = type_clean;
  key_clean = key_clean;
  value_clean = ground arith;
  fits = omega (
    arith,
    length-append type
        (space ∷ ((codes "key=" ++ key) ++ (space ∷ (codes "value=" ++ codes "50")))),
    length-append key (space ∷ (codes "value=" ++ codes "50")),
  );
}

run_calls_lem_example :
    AreWellFormed (
      run_calls
        (λ text. 50)
        (calls_for (hmi_line none (codes "ctrl") (codes "main_pump") (codes "50")))
        units)
    × (waiting_requests (
          run_calls
            (λ text. 50)
            (calls_for (hmi_line none (codes "ctrl") (codes "main_pump") (codes "50")))
            units)
        ≡ (1, one_register 0x2001 50 ∷ []) ∷ [])
    × (run_calls
          (λ text. 50)
          (calls_for
            (hmi_line none (codes "command") (codes "inv_operation_commands") (codes "50")))
          units
        ≡ units)
    × (run_calls
          (λ text. 50)
          (calls_for
            (hmi_line none (codes "command") (codes "inv_frequency_write_commands") (codes "50")))
          units
        ≡ units)
    × (run_calls
          (λ text. 50)
          (calls_for
            (hmi_line none (codes "command") (codes "inv_fault_Control_commands") (codes "50")))
          units
        ≡ units)
run_calls_lem_example =
    run_calls_lem (λ text. 50) units none (codes "50")
      (
        plain (codes "command") (codes "inv_operation_commands") (ground arith) (ground arith)
            (omega arith),
        (
          plain (codes "command") (codes "inv_frequency_write_commands") (ground arith)
              (ground arith) (omega arith),
          (
            plain (codes "command") (codes "inv_fault_Control_commands") (ground arith)
                (ground arith) (omega arith),
            (
              plain (codes "ctrl") (codes "main_pump") (ground arith) (ground arith) (omega arith),
              tt,
            ),
          ),
        ),
      )
      (queue_init-IsWellFormed, tt)

abbrev fresh : SubCtx Handler
fresh = new_ctx (codes "127.0.0.1") 10000 (codes "inverter_sub") (pos 3) (pos 4)
