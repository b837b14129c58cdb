-- ===== src/Bank/Tests.antt =====
-- A CPU with its bank at address 16, stopped and started at 64 by a runner of one instruction.
use subleq_emu.Prelude.{◌≡◌, refl, inl, arith, false, some, add64}
use subleq_emu.Ram.{Ram, readram, writeram}
use subleq_emu.Ram.Words.{readram-writeram}
use subleq_emu.Bank.{Runner, Ap, run, ap_turn, ap_turns}
use subleq_emu.Bank.Stops.{IsStopped, IsStarted, ap_turns-restart}

abbrev runner : Runner
runner = run (some (λ m eip budget. (m, add64 eip 24)))

abbrev asked : Ap
asked = record { mem = writeram (λ q. 0) 16 2; eip = 1000; halted = false }

abbrev start_memory : Ram
start_memory = writeram (writeram (λ q. 0) 24 64) 16 1

runs_on : (ap_turn runner 16 (record { mem = start_memory; eip = 1000; halted = false })).eip ≡ 1024
unfolding ap_turn run readram writeram
runs_on = refl

ap_turns-restart_example :
    IsStopped runner 16 asked (ap_turns runner 16 3 asked)
    × IsStarted runner 16 start_memory
        (readram start_memory 24)
        (ap_turn runner 16 (record (ap_turns runner 16 3 asked) { mem = start_memory }))
ap_turns-restart_example =
    ap_turns-restart runner 16 asked 2 start_memory
      (inl (readram-writeram (λ q. 0) 16 2 (omega arith)))
      (readram-writeram (writeram (λ q. 0) 24 64) 16 1 (omega arith))
