-- ===== src/Subleq/Tests.antt =====
-- The instruction at 0 of the translator's test machine.
use subleq_emu.Prelude.{◌≡◌, arith, some}
use subleq_emu.Jit.Smc.{interp_step}
use subleq_emu.Jit.Tests.{machine, ram}
use subleq_emu.Subleq.{State, interp_cycle, subleq_interp}
use subleq_emu.Subleq.Agree.{
  Executes, cycles, interp_step-interp_cycle, interp_step-Executes, subleq_interp-cycles,
}

interp_step-interp_cycle_example :
    let (after, next) = interp_step machine 0 0 in
    ◌≡◌ {A = State} (after.mem, next) (interp_cycle (ram, 0))
interp_step-interp_cycle_example = interp_step-interp_cycle machine 0 0

interp_step-Executes_example :
    let (after, next) = interp_step machine 0 0 in Executes ram 0 after.mem next
interp_step-Executes_example = interp_step-Executes machine 0 0

subleq_interp-cycles_example : subleq_interp 2 ram 0 8 ≡ some (cycles 8 (ram, 0))
subleq_interp-cycles_example =
    subleq_interp-cycles 2 ram 0 8 (omega arith) (omega arith) (omega arith) (omega arith)
