-- ===== src/Prelude/Word.antt =====
-- Unsigned machine arithmetic: values stay below 2 ^ w, and every operation wraps.
use Prim.Native.Nat.{ℕ, ◌+◌, ◌-◌, ◌*◌, ◌%◌}
use mathlib.Core.Bool.{Bool}
use subleq_emu.Prelude.Tests.{ltb, leb}

abbrev pub two64 : ℕ
two64 = 0x10000000000000000

abbrev pub two63 : ℕ
two63 = 0x8000000000000000

abbrev pub two32 : ℕ
two32 = 0x100000000

abbrev pub add64 : ℕ → ℕ → ℕ
add64 a b = (a + b) % two64

-- The second operand is below 2 ^ 64.
abbrev pub sub64 : ℕ → ℕ → ℕ
sub64 a b = (a + two64 - b) % two64

abbrev pub mul64 : ℕ → ℕ → ℕ
mul64 a b = a * b % two64

-- `(int64_t)a <= (int64_t)b`: flipping the sign bit turns the signed order into the unsigned one.
abbrev pub signed_le : ℕ → ℕ → Bool
signed_le a b = leb (add64 a two63) (add64 b two63)

abbrev pub signed_lt : ℕ → ℕ → Bool
signed_lt a b = ltb (add64 a two63) (add64 b two63)
