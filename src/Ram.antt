-- ===== src/Ram.antt =====
-- Dawn's memory as bytes, and the big-endian words in it: `dawn_readram` and `dawn_writeram`
-- (kernel/src/dawn.c), which `rd` and `wr` (kernel/src/jit.c) repeat. Memory is a function from
-- addresses to bytes; page faults are not modelled, and an access does not wrap at 2 ^ 64.
pub mod Words
mod Tests
use subleq_emu.Prelude.{ℕ, ◌+◌, ◌-◌, ◌*◌, ◌/◌, ◌%◌, ◌^◌, leb, ltb, ◌&&◌, if◌then◌else◌}

abbrev pub Ram : Type 0
Ram = ℕ → ℕ

-- Byte `k` of a number, the lowest first.
abbrev pub byte : ℕ → ℕ → ℕ
byte v k = v / 256 ^ k % 256

-- `*(uint64_t *)a` on x86-64: the byte at the lowest address is the least significant.
unfoldable pub load64 : Ram → ℕ → ℕ
load64 m a =
    m a
    + m (a + 1) * 256
    + m (a + 2) * 256 ^ 2
    + m (a + 3) * 256 ^ 3
    + m (a + 4) * 256 ^ 4
    + m (a + 5) * 256 ^ 5
    + m (a + 6) * 256 ^ 6
    + m (a + 7) * 256 ^ 7

-- The store: the eight bytes from `a` on become those of `v`, and the others stay.
pub store64 : Ram → ℕ → ℕ → Ram
store64 m a v q = if leb a q && ltb q (a + 8) then byte v (q - a) else m q

-- `__builtin_bswap64`
pub bswap64 : ℕ → ℕ
bswap64 v =
    byte v 7
    + byte v 6 * 256
    + byte v 5 * 256 ^ 2
    + byte v 4 * 256 ^ 3
    + byte v 3 * 256 ^ 4
    + byte v 2 * 256 ^ 5
    + byte v 1 * 256 ^ 6
    + byte v 0 * 256 ^ 7

unfoldable pub readram : Ram → ℕ → ℕ
unfolding load64 bswap64
readram m addr = bswap64 (load64 m addr)

unfoldable pub writeram : Ram → ℕ → ℕ → Ram
unfolding store64 bswap64
writeram m addr value = store64 m addr (bswap64 value)
