-- ===== src/Jit.antt =====
-- The SUBLEQ translator, kernel/src/jit.c: what the dispatcher keeps of translated code, and how a
-- store to a translated word drops the code again on every CPU.
pub mod State
pub mod Maps
pub mod Cache
pub mod Smc
pub mod Reval
pub mod Emit
pub mod Copy
pub mod Regs
pub mod Tests
