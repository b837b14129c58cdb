-- ===== src/Jit/Reval.antt =====
-- `static_hash` and `revalidate` of kernel/src/jit.c: new blocks are checked against memory again,
-- once every CPU has been in its dispatcher since they were made. A pass by one CPU runs as a whole.
pub mod Pending
pub mod Checked
pub mod Round
pub mod Loop
mod Tests
use subleq_emu.Prelude.{
  ℕ, zero, suc, ◌+◌, ◌-◌, ◌*◌, ◌/◌, ◌%◌, Bool, true, false, not, ◌&&◌, ◌||◌, ◌==◌, leb, ltb,
  if◌then◌else◌, mul64, bit_xor, two64,
}
use subleq_emu.Ram.{Ram, load64}
use subleq_emu.Jit.State.{Block, Stats, Cpu, Machine, pending_len}
use subleq_emu.Jit.Smc.{set_cpu, on_stats, is_static, smc_hit}

-- The loop over the fields, `rounds` of them from `f` on.
unfoldable pub hash_fields : ℕ → Ram → Block → ℕ → ℕ → ℕ
hash_fields zero mem b f h = h
hash_fields (suc rounds) mem b f h =
    hash_fields rounds mem b (f + 1)
      (if is_static b f then mul64 (bit_xor h (load64 mem (b.start + 8 * f))) 0x100000001b3 else h)

unfoldable pub static_hash : Ram → Block → ℕ
static_hash mem b = hash_fields (b.n * 3) mem b 0 0x9e3779b97f4a7c15

-- The lowest epoch that any of the CPUs from `c` on has published.
unfoldable pub min_quiet : ℕ → (ℕ → ℕ) → ℕ → ℕ → ℕ
min_quiet zero quiet c low = low
min_quiet (suc rounds) quiet c low =
    min_quiet rounds quiet (c + 1) (if ltb (quiet c) low then quiet c else low)

-- A hit for each static field of `b`; the block's own fields stay as they are meanwhile.
unfoldable pub drop_fields : ℕ → Machine → ℕ → Block → ℕ → Machine
drop_fields zero m c b f = m
drop_fields (suc rounds) m c b f =
    drop_fields rounds (if is_static b f then smc_hit m c (b.start / 8 + f) else m) c b (f + 1)

-- One round, for the block at the head of `pending`.
unfoldable pub revalidate_one : Machine → ℕ → Machine
revalidate_one m c =
    let j = m.cpus c in
    let b = j.blocks (j.pending j.phead).block in
    let m1 = set_cpu m c (record j { phead = (j.phead + 1) % pending_len }) in
    if not b.valid || static_hash m.mem b == b.shash
    then m1
    else drop_fields (b.n * 3)
        (set_cpu m1 c
          (on_stats (m1.cpus c) (λ s. record s { revalidations = s.revalidations + 1 })))
        c b 0

unfoldable pub revalidate_loop : ℕ → Machine → ℕ → ℕ → Machine
revalidate_loop zero m c low = m
revalidate_loop (suc rounds) m c low =
    let j = m.cpus c in
    let rest = revalidate_loop rounds (revalidate_one m c) c low in
    if j.phead == j.ptail then m else if leb (j.pending j.phead).stamp low then rest else m

-- The ring holds fewer than `pending_len` blocks, so these rounds suffice.
unfoldable pub revalidate : Machine → ℕ → Machine
revalidate m c =
    let j = m.cpus c in
    if j.phead == j.ptail
    then m
    else revalidate_loop pending_len m c (min_quiet m.ncpus m.quiet 0 (two64 - 1))
