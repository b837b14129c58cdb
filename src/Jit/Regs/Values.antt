-- ===== src/Jit/Regs/Values.antt =====
-- Values: combining them in registers, and reading a word of memory through the cache.
use subleq_emu.Prelude.{
  ℕ, ◌+◌, ◌-◌, bit_or, ◌*◌, ◌/◌, ◌%◌, ◌^◌, Bool, true, false, not, ◌&&◌, ◌||◌, ◌==◌, if◌then◌else◌,
  two32, two64,
}
use subleq_emu.Jit.Emit.{is_signed32}
use subleq_emu.Jit.Emit.Call
use subleq_emu.Jit.Regs.{
  is_known, cacheable, Translator, Cval, unknown, in_reg, constant, negated, emit, cache_find, pin,
  unpin, bind,
}
use subleq_emu.Jit.Regs.Code.{call, mov32, and_imm}
use subleq_emu.Jit.Regs.Alloc.{val_reg, Flush, scratch, load_static, to_reg, flush_pending}

unfoldable pub and_imm64 : Flush → Translator → ℕ → ℕ → Translator
and_imm64 flush j r mask =
    let (k, t) = scratch flush j in
    if is_signed32 mask
    then emit j (and_imm r (mask % two32))
    else if mask == 0xffffffff
    then emit j (mov32 r r)
    else unpin (emit (emit k (call (Call.mov_imm t mask))) (call (Call.and_rr r t))) t

abbrev pub is_zero : Cval → Bool
is_zero (constant c) = c == 0
is_zero v = false

abbrev pub is_in_reg : Cval → Bool
is_in_reg (in_reg s) = true
is_in_reg v = false

unfoldable pub or_val : Flush → Translator → ℕ → Cval → Translator
or_val flush j r v =
    let (k, t) = to_reg flush j v in
    let done = emit k (call (Call.or_rr r t)) in
    if is_zero v then j else if is_in_reg v then done else unpin done t

-- A value in register `s`, shifted into a new one.
unfoldable pub shift_reg : Flush → Translator → ℕ → Bool → ℕ → Translator × Cval
shift_reg flush j s left n =
    let (k, r) = scratch flush j in
    let copied = emit k (call (Call.mov_rr r s)) in
    (emit copied (if left then call (Call.shl_ri r n) else call (Call.shr_ri r n)), in_reg r)

unfoldable pub shifted : Flush → Translator → Cval → Bool → ℕ → Translator × Cval
shifted flush j unknown left n = shift_reg flush j 0 left n
shifted flush j (in_reg s) left n = shift_reg flush j s left n
shifted flush j (constant c) left n = (j, constant (if left then c * 2 ^ n % two64 else c / 2 ^ n))
shifted flush j (negated s) left n =
    let (k, r) = to_reg flush j (negated s) in shift_reg flush k r left n

-- `if (v.kind & 1) pin(J, v.reg)`
abbrev pub pin_val : Translator → Cval → Translator
pin_val j unknown = j
pin_val j (in_reg s) = pin j s
pin_val j (constant c) = j
pin_val j (negated s) = pin j s

-- `get_static` for one word, or for an unaligned one that is loaded.
unfoldable pub load_word : Translator → ℕ → Translator × Cval
load_word j a =
    let covered =
      j.pend && (not (a % 8 == 0) && (j.pend_addr == a / 8 * 8 || j.pend_addr == a / 8 * 8 + 8)) in
    let (k, r) = scratch flush_pending (if covered then flush_pending j else j) in
    (bind (load_static k r a) r a, in_reg r)

-- `get_static` when the cache has said `v`.
unfoldable pub get_found : Translator → ℕ → Cval → Translator × Cval
get_found j a unknown = load_word j a
get_found j a (in_reg s) = (pin j s, in_reg s)
get_found j a (constant c) = (j, constant c)
get_found j a (negated s) = (pin j s, negated s)

unfoldable pub get_word : Translator → ℕ → Translator × Cval
get_word j a = let (k, v) = cache_find j a in get_found k a v

-- `if (!v.kind) v = get_static(J, a)` for an aligned `a`
unfoldable pub get_if : Translator → ℕ → Cval → Translator × Cval
get_if j a unknown = get_word j a
get_if j a (in_reg s) = (j, in_reg s)
get_if j a (constant c) = (j, constant c)
get_if j a (negated s) = (j, negated s)

-- The end of `get_static` for two words: `v | h`.
unfoldable pub combine : Translator → Cval → Cval → Translator × Cval
combine j (constant c) (constant d) = (j, constant (bit_or c d))
combine j (constant c) h = (or_val flush_pending j (val_reg h) (constant c), h)
combine j v h = (or_val flush_pending j (val_reg v) h, v)

-- The word `n` bits into the one at `a`, which is `l` in the cache, and the next, at `b` and `h`.
unfoldable pub get_spanned : Translator → ℕ → ℕ → ℕ → Cval → Cval → Translator × Cval
get_spanned j a b n l h =
    let (k, lo) = get_if (pin_val (pin_val j l) h) a l in
    let (k', hi) = get_if k b h in
    let (x, v) = shifted flush_pending k' lo true n in
    let (y, w) = shifted flush_pending x hi false (64 - n) in combine y v w

unfoldable pub get_static : Translator → ℕ → Translator × Cval
get_static j a =
    let word = a / 8 * 8 in
    let next = (word + 8) % two64 in
    let (k, l) = cache_find j word in
    let (k', h) = cache_find k next in
    if not (a % 8 == 0) && (cacheable word && cacheable next)
    then (if is_known l || is_known h
        then get_spanned k' word next (a % 8 * 8) l h
        else get_word k' a)
    else get_word j a
