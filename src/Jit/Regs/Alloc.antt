-- ===== src/Jit/Regs/Alloc.antt =====
-- Registers and code: taking a register, reading a word of memory through the cache, and storing.
-- `flush` is `flush_pending` in the code. `flush_pending` itself clears `pend` before it takes
-- registers, so that no further flush can be asked for: there the argument is `idle`.
use subleq_emu.Prelude.{
  ℕ, zero, suc, ◌+◌, ◌-◌, ◌*◌, ◌%◌, Bool, true, false, not, ◌&&◌, ◌||◌, ◌==◌, ltb, if◌then◌else◌,
  update, two32, two64,
}
use subleq_emu.Ram.{bswap64}
use subleq_emu.Jit.Emit.{is_signed32}
use subleq_emu.Jit.Emit.Call
use subleq_emu.Jit.Regs.{
  Translator, Cval, unknown, in_reg, constant, negated, nregs, emit, alloc_regs, reg_index,
  cache_find, aliased, set_pinned, pin, unpin,
}
use subleq_emu.Jit.Regs.Code.{call, not_r, store_imm}

abbrev pub Flush : Type 0
Flush = Translator → Translator

abbrev pub idle : Flush
idle j = j

-- `v.kind == 1 || v.kind == 3`, and `v.reg == r`
abbrev pub is_through : Cval → ℕ → Bool
is_through unknown r = false
is_through (in_reg s) r = s == r
is_through (constant c) r = false
is_through (negated s) r = s == r

-- The words that stood for register `r` are forgotten.
unfoldable pub forget : Translator → ℕ → Translator
forget j r = record j {
  regs = update j.regs (reg_index r) (record (j.regs (reg_index r)) { used = false });
  aliases = λ i.
      if (j.aliases i).used && (j.aliases i).reg == r
      then record (j.aliases i) { used = false }
      else j.aliases i;
}

unfoldable pub release : Flush → Translator → ℕ → Translator
release flush j r =
    let (found, v) = cache_find j j.pend_addr in
    if j.pend then forget (if is_through v r then flush found else found) r else forget j r

-- The loop of `scratch`: `best` is its choice so far, `nregs` for none.
abbrev pub is_better : Translator → ℕ → ℕ → Bool
is_better j i best = best == nregs || ltb (j.regs i).lru (j.regs best).lru

unfoldable pub choose : ℕ → Translator → ℕ → ℕ → ℕ
choose zero j i best = best
choose (suc rounds) j i best =
    let next = if not (j.regs i).pinned && is_better j i best then i else best in
    let rest = choose rounds j (i + 1) next in
    if not (j.regs i).pinned && (not (j.regs i).used && not (aliased j (alloc_regs i)))
    then i
    else rest

unfoldable pub scratch : Flush → Translator → Translator × ℕ
scratch flush j =
    let best = choose nregs j 0 nregs in
    (release flush (set_pinned j best true) (alloc_regs best), alloc_regs best)

-- BIAS, and what r15 holds
abbrev pub bias : ℕ
bias = 0x80000000

abbrev pub r15 : ℕ
r15 = 15

abbrev pub fits_disp : ℕ → Bool
fits_disp a = ltb a (2 * bias)

-- `(int32_t)(a - BIAS)`
abbrev pub disp_of : ℕ → ℕ
disp_of a = (a + two64 - bias) % two32

unfoldable pub load_mem : Translator → ℕ → ℕ → ℕ → Translator
load_mem j r base disp =
    if j.use_movbe
    then emit j (call (Call.movbe_load r base disp))
    else emit (emit j (call (Call.op_load r base disp))) (call (Call.bswap r))

unfoldable pub load_static : Translator → ℕ → ℕ → Translator
load_static j r a =
    if fits_disp a
    then load_mem j r r15 (disp_of a)
    else load_mem (emit j (call (Call.mov_imm r a))) r r 0

unfoldable pub negate : Translator → ℕ → Translator
negate j r =
    if not j.flags_live
    then emit j (call (Call.neg_r r))
    else emit (emit j (not_r r)) (call (Call.op_lea r r 1))

unfoldable pub to_reg : Flush → Translator → Cval → Translator × ℕ
to_reg flush j unknown = let (k, r) = scratch flush j in (emit k (call (Call.mov_imm r 0)), r)
to_reg flush j (in_reg s) = (j, s)
to_reg flush j (constant c) = let (k, r) = scratch flush j in (emit k (call (Call.mov_imm r c)), r)
to_reg flush j (negated s) =
    let (k, r) = scratch flush (pin j s) in (negate (emit k (call (Call.mov_rr r s))) r, r)

-- The native value in `r` to [base + disp].
unfoldable pub store_at : Flush → Translator → ℕ → ℕ → ℕ → Translator
store_at flush j r base disp =
    let (k, t) = scratch flush j in
    if j.use_movbe
    then emit j (call (Call.movbe_store r base disp))
    else emit (emit (emit k (call (Call.mov_rr t r))) (call (Call.bswap t)))
        (call (Call.op_store t base disp))

-- `store_reg`; without `dyn` to the static address `a`, with it to [base].
unfoldable pub store_reg : Flush → Translator → ℕ → Bool → ℕ → ℕ → Translator
store_reg flush j r dyn a base =
    let (k, b) = scratch flush j in
    if dyn
    then store_at flush j r base 0
    else if fits_disp a
    then store_at flush j r r15 (disp_of a)
    else store_at flush (emit k (call (Call.mov_imm b a))) r b 0

-- The constant's bytes in `t` to the static address `a`.
unfoldable pub store_from : Flush → Translator → ℕ → ℕ → Translator
store_from flush j t a =
    let (k, b) = scratch flush j in
    if fits_disp a
    then emit j (call (Call.op_store t r15 (disp_of a)))
    else emit (emit k (call (Call.mov_imm b a))) (call (Call.op_store t b 0))

unfoldable pub store_const : Flush → Translator → ℕ → Bool → ℕ → ℕ → Translator
store_const flush j v dyn a base =
    let be = bswap64 v in
    let (k, t) = scratch flush j in
    let loaded = emit k (call (Call.mov_imm t be)) in
    if not dyn && (fits_disp a && is_signed32 be)
    then emit j (store_imm r15 (disp_of a) (be % two32))
    else if not dyn
    then store_from flush loaded t a
    else emit loaded (call (Call.op_store t base 0))

-- `v.reg`, 16 for -1
abbrev pub val_reg : Cval → ℕ
val_reg unknown = 16
val_reg (in_reg s) = s
val_reg (constant c) = 16
val_reg (negated s) = s

-- The value held back, in register `r` after `to_reg`; `i` is the entry of its own register.
unfoldable pub store_held : Translator → Cval → Translator
store_held j v =
    let i = reg_index (val_reg v) in
    let was = (j.regs i).pinned in
    let (k, r) = to_reg idle (set_pinned j i true) v in
    let stored = store_reg idle k r false j.pend_addr 0 in
    set_pinned (if r == val_reg v then stored else unpin stored r) i was

-- The part of `flush_pending` that stores.
unfoldable pub store_value : Translator → Cval → Translator
store_value j unknown = store_held j unknown
store_value j (in_reg s) = store_held j (in_reg s)
store_value j (constant c) = store_const idle j c false j.pend_addr 0
store_value j (negated s) = store_held j (negated s)

unfoldable pub flush_pending : Flush
flush_pending j =
    let (k, v) = cache_find (record j { pend = false }) j.pend_addr in
    if j.pend then store_value k v else j
