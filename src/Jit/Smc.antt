-- ===== src/Jit/Smc.antt =====
-- Stores to translated code: `smc_hit`, `drain_queue`, `store_check`, `interp_step`, `static_hash`
-- and `revalidate` of kernel/src/jit.c. A function that works on `jit_cpu_t *J` takes the machine
-- and the number of that CPU. A call runs as a whole: what other CPUs do meanwhile is another
-- call, before or after it.
pub mod Queue
pub mod Hit
pub mod Step
pub mod Drain
use subleq_emu.Prelude.{
  ℕ, zero, suc, ◌+◌, ◌-◌, ◌*◌, ◌/◌, ◌%◌, ◌^◌, Bool, true, false, not, ◌&&◌, ◌||◌, ◌==◌, leb, ltb,
  if◌then◌else◌, update, add64, sub64, mul64, signed_le, two64, bit_xor, bit_and,
}
use subleq_emu.Prelude.Bitmap
use subleq_emu.Ram.{readram, writeram, load64}
use subleq_emu.Jit.State.{Block, Stats, Pending, Cpu, Machine, queue_len, pending_len}
use subleq_emu.Jit.Maps.{bit_get, bit_set, bit_clr}
use subleq_emu.Jit.Cache.{invalidate_word, flush}

abbrev pub set_cpu : Machine → ℕ → Cpu → Machine
set_cpu m c j = record m { cpus = update m.cpus c j }

abbrev pub on_stats : Cpu → (Stats → Stats) → Cpu
on_stats j f = record j { stats = f j.stats }

-- Whether field `f` of a block is static: `(b->smask[f >> 6] >> (f & 63)) & 1`.
abbrev pub is_static : Block → ℕ → Bool
is_static b f = Bitmap.get 64 b.smask f == 1

-- What `smc_hit` does to another CPU under its `qlock`.
unfoldable pub push_word : Cpu → ℕ → Cpu
push_word o w =
    let next = (o.qtail + 1) % queue_len in
    if next == o.qhead
    then record o { qoverflow = true }
    else record o { queue = update o.queue o.qtail w; qtail = next }

-- The loop over the CPUs, `rounds` of them from `i` on.
unfoldable pub broadcast : ℕ → (ℕ → Cpu) → ℕ → ℕ → ℕ → ℕ → Cpu
broadcast zero cpus c w i = cpus
broadcast (suc rounds) cpus c w i =
    broadcast rounds (if i == c then cpus else update cpus i (push_word (cpus i) w)) c w (i + 1)

unfoldable pub smc_hit : Machine → ℕ → ℕ → Machine
smc_hit m c w =
    let j = on_stats (m.cpus c) (λ s. record s { smc_words = s.smc_words + 1 }) in
    record m {
      dyn_map = bit_set m.dyn_map w;
      static_map = bit_clr m.static_map w;
      cpus = broadcast m.ncpus (update m.cpus c (invalidate_word j w)) c w 0;
    }

-- The loop of `drain_queue`, for at most `rounds` words.
unfoldable pub drain : ℕ → Cpu → Cpu
drain zero j = j
drain (suc rounds) j =
    let rest =
      drain rounds
        (record (invalidate_word j (j.queue j.qhead)) { qhead = (j.qhead + 1) % queue_len }) in
    if j.qhead == j.qtail then j else rest

unfoldable pub drain_queue : Cpu → Cpu
drain_queue j =
    if j.qoverflow
    then flush (record j { qoverflow = false; qhead = j.qtail })
    else drain queue_len j

unfoldable pub store_check : Machine → ℕ → ℕ → Machine
store_check m c b =
    let w0 = b / 8 in
    let w1 = add64 b 7 / 8 in
    let m0 = if ltb w0 (m.mem_size / 8) && bit_get m.static_map w0 then smc_hit m c w0 else m in
    if not (w1 == w0) && (ltb w1 (m.mem_size / 8) && bit_get m0.static_map w1)
    then smc_hit m0 c w1
    else m0

-- One instruction; the number beside the machine is the next `eip`.
unfoldable pub interp_step : Machine → ℕ → ℕ → Machine × ℕ
interp_step m c eip =
    let a = readram m.mem eip in
    let b = readram m.mem (add64 eip 8) in
    let next = readram m.mem (add64 eip 16) in
    let va = readram m.mem a in
    let vb = readram m.mem b in
    let checked = store_check m c b in
    let stored = record checked { mem = writeram checked.mem b (sub64 vb va) } in
    (
      set_cpu stored c
          (on_stats (stored.cpus c) (λ s. record s { interp_steps = s.interp_steps + 1 })),
      if signed_le vb va then next else add64 eip 24,
    )
