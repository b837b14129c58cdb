-- ===== src/Jit/Reval/Tests.antt =====
-- A machine whose first CPU has a new block to check again.
use subleq_emu.Prelude.{ℕ, arith}
use subleq_emu.Jit.Reval.{revalidate}
use subleq_emu.Jit.Reval.Checked.{IsLowest}
use subleq_emu.Jit.Reval.Loop.{Revalidated, revalidate-Revalidated}
use subleq_emu.Jit.Tests.{machine, machine-IsValid}

revalidate-Revalidated_example :
    (low : ℕ) × IsLowest machine.ncpus machine.quiet low
    × Revalidated 0 low machine (revalidate machine 0)
revalidate-Revalidated_example =
    revalidate-Revalidated machine 0 machine-IsValid (omega arith) (omega arith, omega arith)
