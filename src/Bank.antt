-- ===== src/Bank.antt =====
-- The loop of each CPU, kernel/src/subleq.c: it looks at its bank in Dawn's memory, where Dawn starts
-- and stops it, and runs a slice of its program. `jit_run` is an argument, as are the writes of
-- others to memory, which come between turns.
pub mod Stops
mod Tests
use subleq_emu.Prelude.{
  ℕ, zero, suc, ◌+◌, ◌*◌, ◌/◌, Bool, true, false, Option, none, some, ◌==◌, if◌then◌else◌,
}
use subleq_emu.Ram.{Ram, readram, writeram}
use subleq_emu.Subleq.{subleq_interp}

-- DAWN_CPU_BANK_BASE
abbrev pub cpu_bank_base : ℕ
cpu_bank_base = 334364672

abbrev pub bank_of : ℕ → ℕ
bank_of cpu = cpu_bank_base + 16 * cpu

abbrev pub jit_slice : ℕ
jit_slice = 65536

abbrev pub interp_slice : ℕ
interp_slice = 4096

-- Memory and the `eip` at which to go on.
abbrev pub Runner : Type 0
Runner = Ram → ℕ → Ram × ℕ

-- The slice of the interpreter, with fuel for a turn of its loop for every four instructions.
unfoldable pub interp_run : Runner
interp_run m eip = elim (subleq_interp (interp_slice / 4) m eip interp_slice) [
  | none ↦ (m, eip)
  | some s ↦ s
]

-- `jit_run` of this CPU, where the translator is in use.
unfoldable pub run : Option (Ram → ℕ → ℕ → Ram × ℕ) → Runner
run none m eip = interp_run m eip
run (some jit_run) m eip = jit_run m eip jit_slice

-- Dawn's memory, and the local variables of `subleq`.
pub record Ap : Type 0 where
  pub mem : Ram
  pub eip : ℕ
  pub halted : Bool

unfoldable pub begin : ℕ → Ram → Ap
begin bank m = record { mem = writeram (writeram m bank 4) (bank + 8) 0; eip = 0; halted = true }

-- A slice from `eip`, and its end noted in the bank.
abbrev pub run_from : Runner → ℕ → Ram → ℕ → Ap
run_from runner bank m eip =
    let (after, next) = runner m eip in
    record { mem = writeram after (bank + 8) next; eip = next; halted = false }

-- One turn of the loop of a CPU other than 0. `wait_stopped` is the turns that find 4 again.
unfoldable pub ap_turn : Runner → ℕ → Ap → Ap
ap_turn runner bank a =
    let status = readram a.mem bank in
    if status == 1
    then run_from runner bank a.mem (if a.halted then readram a.mem (bank + 8) else a.eip)
    else if status == 2
    then record a { mem = writeram a.mem bank 4; halted = true }
    else if status == 4
    then record a { halted = true }
    else a

unfoldable pub ap_turns : Runner → ℕ → ℕ → Ap → Ap
ap_turns runner bank zero a = a
ap_turns runner bank (suc n) a = ap_turns runner bank n (ap_turn runner bank a)

pub data Power : Type 0 where
  shutdown reboot pm_sleep : Power

abbrev pub power_of : ℕ → Option Power
power_of status =
    if status == 8
    then some shutdown
    else if status == 16
    then some reboot
    else if status == 32
    then some pm_sleep
    else none

-- One turn of CPU 0: what it asks of the machine, then a slice, from memory as that leaves it.
unfoldable pub cpu0_turn : Runner → ℕ → (Option Power → Ram → Ram) → Ram → ℕ → Ram × ℕ
cpu0_turn runner bank ask m eip = runner (ask (power_of (readram m bank)) m) eip
