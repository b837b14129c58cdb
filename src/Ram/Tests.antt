-- ===== src/Ram/Tests.antt =====
-- A word at address 16 of a memory of zeros.
use subleq_emu.Prelude.{◌%◌, ◌≡◌, refl, inr, arith}
use subleq_emu.Ram.{Ram, readram, writeram}
use subleq_emu.Ram.Words.{readram_big_endian, readram-writeram_disjoint}

abbrev zeros : Ram
zeros a = 0

first_byte : writeram zeros 16 0x0102030405060708 16 ≡ 1
unfolding writeram
first_byte = refl

readram-writeram_disjoint_example : readram (writeram zeros 16 7) 24 ≡ readram zeros 24
readram-writeram_disjoint_example = readram-writeram_disjoint zeros 16 7 24 (inr (omega arith))

readram_big_endian_example : readram (λ a. a % 256) 8 ≡ 0x08090a0b0c0d0e0f
readram_big_endian_example = readram_big_endian (λ a. a % 256) 8 (λ a. omega arith)
