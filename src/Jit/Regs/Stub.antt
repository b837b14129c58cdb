-- ===== src/Jit/Regs/Stub.antt =====
-- The store of the word held back from an exit of a block: `snap_pending` and `stub_store`.
use subleq_emu.Prelude.{ℕ, ◌+◌, not, ◌||◌, ◌==◌, if◌then◌else◌}
use subleq_emu.Ram.{bswap64}
use subleq_emu.Jit.Emit.Call
use subleq_emu.Jit.Regs.{
  is_known, Translator, Cval, unknown, in_reg, constant, negated, emit, first_index, cache_find,
}
use subleq_emu.Jit.Regs.Alloc.{fits_disp, disp_of, val_reg, r15}
use subleq_emu.Jit.Regs.Code.{call}

-- `pending_t`, its kind, register and value as a `Cval`
pub record Snapshot : Type 0 where
  pub value : Cval
  pub addr : ℕ

unfoldable pub snap_pending : Translator → Translator × Snapshot
snap_pending j =
    let (k, v) = cache_find j j.pend_addr in
    if j.pend
    then (k, record { value = v; addr = j.pend_addr })
    else (j, record { value = unknown; addr = 0 })

-- The first register from `t` on that is neither: two of three at most are.
abbrev pub other_than : ℕ → ℕ → ℕ → ℕ
other_than t reg keep = first_index 3 t (λ r. not (r == reg || r == keep)) 16

-- The store itself, once `base` is there.
unfoldable pub stub_value : Translator → Cval → ℕ → ℕ → ℕ → Translator
stub_value j unknown t base disp = j
stub_value j (constant c) t base disp =
    emit (emit j (call (Call.mov_imm t (bswap64 c)))) (call (Call.op_store t base disp))
stub_value j (in_reg r) t base disp =
    if j.use_movbe
    then emit j (call (Call.movbe_store r base disp))
    else emit (emit (emit j (call (Call.mov_rr t r))) (call (Call.bswap t)))
        (call (Call.op_store t base disp))
stub_value j (negated r) t base disp =
    let k = emit (emit j (call (Call.mov_rr t r))) (call (Call.neg_r t)) in
    if j.use_movbe
    then emit k (call (Call.movbe_store t base disp))
    else emit (emit k (call (Call.bswap t))) (call (Call.op_store t base disp))

unfoldable pub stub_store : Translator → Snapshot → ℕ → Translator
stub_store j p keep =
    let t = other_than 0 (val_reg p.value) keep in
    let base = other_than (t + 1) (val_reg p.value) keep in
    if not (is_known p.value)
    then j
    else if fits_disp p.addr
    then stub_value j p.value t r15 (disp_of p.addr)
    else stub_value (emit j (call (Call.mov_imm base p.addr))) p.value t base 0
