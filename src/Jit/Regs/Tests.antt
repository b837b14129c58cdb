-- ===== src/Jit/Regs/Tests.antt =====
-- A word of memory held back in rax: 16 holds 5, which memory has not got yet.
use subleq_emu.Prelude.{ℕ, ◌≡◌, refl, sym, ◌∙◌, arith, true, false, ◌==◌, ==_iff, if◌then◌else◌, []}
use subleq_emu.Ram.{Ram, writeram}
use subleq_emu.Ram.Words.{IsBytes, readram-writeram, writeram-other, writeram-IsBytes}
use subleq_emu.Jit.Regs.{Translator, alloc_regs, first_index}
use subleq_emu.Jit.Regs.Code.{Processor, run}
use subleq_emu.Jit.Regs.Alloc.{bias, flush_pending, scratch}
use subleq_emu.Jit.Regs.Values.{get_static}
use subleq_emu.Jit.Regs.Pending.{need_on, Holds, Flushed, flush_pending-Flushed}
use subleq_emu.Jit.Regs.Leave.{left, Spares, stub_store-snap_pending}
use subleq_emu.Jit.Regs.Taken.{Taken, scratch-Taken}
use subleq_emu.Jit.Regs.Static.{get_static-Got}
use subleq_emu.Jit.Regs.Load.{Got}

abbrev zeros : Ram
zeros = λ a. 0

abbrev memory : Ram
memory = writeram zeros 16 5

abbrev start : Processor
start = record { gpr = λ q. if q == 15 then bias else 5; ram = zeros }

abbrev holding : Translator
holding = record {
  use_movbe = false;
  pend = true;
  pend_addr = 16;
  flags_live = false;
  regs = λ i. record { used = i == 0; addr = 16; pinned = false; lru = 0 };
  lru_clock = 0;
  consts = λ i. record { used = false; addr = 0; val = 0 };
  const_next = 0;
  aliases = λ i. record { used = false; addr = 0; reg = 0; neg = false };
  alias_next = 0;
  out = [];
}

is_memory : IsBytes memory
is_memory = writeram-IsBytes zeros 16 5 (λ a. omega arith)

holding-Holds : Holds start memory holding
unfolding run first_index alloc_regs
holding-Holds = record {
  bias = refl;
  entries = record {
    regs = λ i lt u.
        let first : i ≡ 0 = (==_iff i 0).0 u in
        (refl, readram-writeram zeros 16 5 (omega arith) ∙ rw first refl);
    consts = λ i lt u. absurd (ground arith);
    aliases = λ i lt u. absurd (ground arith);
  };
  addr = omega arith;
  held = λ e. refl;
  off = λ e q o. sym (writeram-other zeros 16 5 q o);
  same = λ e. absurd (ground arith);
}

flush_pending-Flushed_example : Flushed start memory holding (flush_pending holding)
flush_pending-Flushed_example =
    flush_pending-Flushed start memory holding is_memory (ground (arith, need_on true refl))
      holding-Holds

-- An address inside the word held back.
get_static-Got_example :
    Got start memory 7 holding 20 (get_static holding 20).0 (get_static holding 20).1
get_static-Got_example =
    get_static-Got start memory is_memory holding 20 (ground (arith, need_on true refl))
      holding-Holds (omega arith)

scratch-Taken_example :
    Taken start memory 1 holding (scratch flush_pending holding).0 (scratch flush_pending holding).1
scratch-Taken_example =
    scratch-Taken start memory holding is_memory (ground (arith, need_on true refl)) holding-Holds

-- An exit that needs rcx.
stub_store-snap_pending_example :
    ((q : ℕ) → (left start memory holding 1).ram q ≡ memory q)
    × Spares (run holding.out start) 1 (left start memory holding 1)
stub_store-snap_pending_example =
    stub_store-snap_pending start memory holding 1 is_memory holding-Holds
