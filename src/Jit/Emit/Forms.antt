-- ===== src/Jit/Emit/Forms.antt =====
-- The forms of kernel/src/jit.c's emitter with an index register, a condition or a bitmap word.
use subleq_emu.Prelude.{
  ℕ, ◌+◌, ◌*◌, ◌/◌, ◌%◌, ◌^◌, ◌<◌, ◌≡◌, ◌≢◌, refl, ap, ap₂, inr, true, false, ◌&&◌, some, List, ◌∷◌,
  ◌++◌, ◌==◌, leb, ltb, two32, arith,
}
use mathlib.Core.List.{append_assoc}
use subleq_emu.Jit.Emit.{e32, mem_operand, rex, load_sib8, cmp_byte_zero, test_bitmap, jcc32, jmp32}
use subleq_emu.Jit.Emit.Decode.{
  load_index8, jump_if, jump, compare_byte, test_byte, modrm, indexed, opcode, wide_opcode,
  long_opcode, decode,
}
use subleq_emu.Jit.Emit.Fields.{fields, modrm-mem_operand}
use subleq_emu.Jit.Emit.RoundTrip.{decode-rex}

modrm-sib8 :
    (r base index : ℕ) (tl : List ℕ)
    → base % 8 ≢ 5
    → index ≢ 4
    → modrm (fields 1 r index base) ((0x04 + r % 8 * 8) ∷ (0xc0 + index % 8 * 8 + base % 8) ∷ tl)
      ≡ some (r, indexed base index 8 0, tl)
modrm-sib8 r base index tl nb ni =
    let m : (0x04 + r % 8 * 8) / 64 ≡ 0 = omega arith in
    let rm : (0x04 + r % 8 * 8) % 8 ≡ 4 = omega arith in
    let reg : (0x04 + r % 8 * 8) / 8 % 8 + 8 * (r / 8) ≡ r = omega arith in
    let scale : (0xc0 + index % 8 * 8 + base % 8) / 64 ≡ 3 = omega arith in
    let low : (0xc0 + index % 8 * 8 + base % 8) % 8 ≡ base % 8 = omega arith in
    let high : (0xc0 + index % 8 * 8 + base % 8) / 8 % 8 + 8 * (index / 8) ≡ index = omega arith in
    let no_base : (base % 8 == 5) ≡ false = ground arith in
    let no_index : (index == 4) ≡ false = ground arith in
    rw (m, rm, reg, low, high, scale, no_base, no_index)
      (ap (λ n. some (r, indexed n index 8 0, tl)) (omega arith))

pub decode-load_sib8 :
    (r base index : ℕ) (tl : List ℕ)
    → r < 16
    → base < 16
    → index < 16
    → base % 8 ≢ 5
    → index ≢ 4
    → decode (load_sib8 r base index ++ tl) ≡ some (load_index8 r base index, tl)
unfolding load_sib8 opcode wide_opcode
decode-load_sib8 r base index tl hr hb hi nb ni =
    rw
      (
        append_assoc,
        decode-rex 1 r index base 0x8b ((0x04 + r % 8 * 8) ∷ (0xc0 + index % 8 * 8 + base % 8) ∷ tl)
            (omega arith) hr hi hb (inr (omega arith)),
      )
      (rw (modrm-sib8 r base index tl nb ni) refl)

pub decode-jcc32 :
    (cc : ℕ) (tl : List ℕ) → cc < 16 → decode (jcc32 cc ++ tl) ≡ some (jump_if cc 0, tl)
unfolding jcc32 decode opcode long_opcode
decode-jcc32 cc tl h =
    let near : (leb 0x80 (0x80 + cc) && ltb (0x80 + cc) 0x90) ≡ true = ground arith in
    rw near (ap (λ n. some (jump_if n 0, tl)) (omega arith))

pub decode-jmp32 : (tl : List ℕ) → decode (jmp32 ++ tl) ≡ some (jump 0, tl)
unfolding jmp32 decode opcode
decode-jmp32 tl = refl

pub decode-cmp_byte_zero :
    (base index disp : ℕ) (tl : List ℕ)
    → base < 16
    → index < 16
    → disp < two32
    → index ≢ 4
    → decode (cmp_byte_zero base index disp ++ tl) ≡ some (compare_byte base index disp 0, tl)
unfolding cmp_byte_zero opcode
decode-cmp_byte_zero base index disp tl hb hi hd ni =
    let scale : (index % 8 * 8 + base % 8) / 64 ≡ 0 = omega arith in
    let low : (index % 8 * 8 + base % 8) % 8 ≡ base % 8 = omega arith in
    let high : (index % 8 * 8 + base % 8) / 8 % 8 + 8 * (index / 8) ≡ index = omega arith in
    let no_index : (index == 4) ≡ false = ground arith in
    rw
      (
        append_assoc,
        decode-rex 0 0 index base 0x80 (0xbc ∷ (index % 8 * 8 + base % 8) ∷ (e32 disp ++ (0 ∷ tl)))
            (omega arith) (omega arith) hi hb (inr (omega arith)),
        low,
        high,
        scale,
        no_index,
      )
      (ap₂ (λ n d. some (compare_byte n index d 0, tl)) (omega arith) (omega arith))

pub decode-test_bitmap :
    (w : ℕ) (tl : List ℕ)
    → w / 8 < two32
    → decode (test_bitmap w ++ tl) ≡ some (test_byte 14 (w / 8) (2 ^ (w % 8)), tl)
unfolding test_bitmap opcode decode rex
decode-test_bitmap w tl h =
    let small : w / 8 % two32 ≡ w / 8 = omega arith in
    rw
      (
        small,
        append_assoc,
        decode-rex 0 0 0 14 0xf6 (mem_operand 0 14 (w / 8) ++ (2 ^ (w % 8) ∷ tl)) (omega arith)
            (omega arith) (omega arith) (omega arith) (inr (omega arith)),
        modrm-mem_operand 0 0 14 (w / 8) (2 ^ (w % 8) ∷ tl) (omega arith) (omega arith) h,
      )
      refl
