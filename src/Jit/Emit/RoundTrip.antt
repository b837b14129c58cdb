-- ===== src/Jit/Emit/RoundTrip.antt =====
-- Every instruction that kernel/src/jit.c emits is the one that the decoder reads.
use subleq_emu.Prelude.{
  ℕ, ◌+◌, ◌%◌, ◌≤◌, ◌<◌, ◌≡◌, refl, ap, ap₂, ◌⊎◌, inl, inr, true, false, ◌&&◌, some, List, ◌∷◌,
  ◌++◌, leb, ltb, Bool-cases, two32, two64, arith,
}
use mathlib.Core.List.{append_assoc}
use subleq_emu.Jit.Emit.{
  e32, e64, rex, mem_operand, modrm_reg, op_mem, movbe_mem, bswap, mov_rr, sub_rr, neg_r, test_rr,
  shr_ri, shl_ri, or_rr, and_rr, bt_rr, is_signed32, mov_imm, alu_imm, jmp_r,
}
use subleq_emu.Jit.Emit.Decode.{
  load, store, load_address, load_be, store_be, byte_swap, negate, move, subtract, or_to, and_to,
  test_with, bit_test, shift_right, shift_left, set_to, add_to, subtract_from, jump_to, direct,
  based, modrm, opcode, long_opcode, wide_opcode, decode,
}
use subleq_emu.Jit.Emit.Fields.{fields, split_prefix-rex, modrm-modrm_reg, modrm-mem_operand}

-- The decoder at an instruction with a prefix.
pub decode-rex :
    (w r x b op : ℕ) (tl : List ℕ)
    → w < 2
    → r < 16
    → x < 16
    → b < 16
    → (op < 0x40) ⊎ (0x50 ≤ op)
    → decode (rex w r x b ++ (op ∷ tl)) ≡ opcode (fields w r x b) (op ∷ tl)
unfolding decode
decode-rex w r x b op tl hw hr hx hb ho =
    ap (λ s. opcode s.0 s.1) (split_prefix-rex w r x b op tl hw hr hx hb ho)

-- Two registers `a` and `b`, the second in the register field.
module _ (a b : ℕ) (tl : List ℕ) (ha : a < 16) (hb : b < 16) where
  wide :
      (op : ℕ) (rest : List ℕ)
      → (op < 0x40) ⊎ (0x50 ≤ op)
      → decode (rex 1 b 0 a ++ (op ∷ rest)) ≡ opcode (fields 1 b 0 a) (op ∷ rest)
  wide op rest h = decode-rex 1 b 0 a op rest (omega arith) hb (omega arith) ha h

  both_registers : modrm (fields 1 b 0 a) (modrm_reg b a ∷ tl) ≡ some (b, direct a, tl)
  both_registers = modrm-modrm_reg 1 0 b a tl hb ha

  pub decode-mov_rr : decode (mov_rr a b ++ tl) ≡ some (move a b, tl)
  unfolding mov_rr opcode wide_opcode
  decode-mov_rr =
      rw (append_assoc, wide 0x89 (modrm_reg b a ∷ tl) (inr (omega arith)), both_registers) refl

  pub decode-sub_rr : decode (sub_rr a b ++ tl) ≡ some (subtract a b, tl)
  unfolding sub_rr opcode wide_opcode
  decode-sub_rr =
      rw (append_assoc, wide 0x29 (modrm_reg b a ∷ tl) (inl (omega arith)), both_registers) refl

  pub decode-or_rr : decode (or_rr a b ++ tl) ≡ some (or_to a b, tl)
  unfolding or_rr opcode wide_opcode
  decode-or_rr =
      rw (append_assoc, wide 0x09 (modrm_reg b a ∷ tl) (inl (omega arith)), both_registers) refl

  pub decode-and_rr : decode (and_rr a b ++ tl) ≡ some (and_to a b, tl)
  unfolding and_rr opcode wide_opcode
  decode-and_rr =
      rw (append_assoc, wide 0x21 (modrm_reg b a ∷ tl) (inl (omega arith)), both_registers) refl

  pub decode-test_rr : decode (test_rr a b ++ tl) ≡ some (test_with a b, tl)
  unfolding test_rr opcode wide_opcode
  decode-test_rr =
      rw (append_assoc, wide 0x85 (modrm_reg b a ∷ tl) (inr (omega arith)), both_registers) refl

  pub decode-bt_rr : decode (bt_rr a b ++ tl) ≡ some (bit_test a b, tl)
  unfolding bt_rr opcode long_opcode
  decode-bt_rr =
      rw (append_assoc, wide 0x0f (0xa3 ∷ modrm_reg b a ∷ tl) (inl (omega arith)), both_registers)
        refl

-- A register `b` and memory at `[a + disp]`.
module _ (a b disp : ℕ) (tl : List ℕ) (ha : a < 16) (hb : b < 16) (hd : disp < two32) where
  memory : modrm (fields 1 b 0 a) (mem_operand b a disp ++ tl) ≡ some (b, based a disp, tl)
  memory = modrm-mem_operand 1 b a disp tl hb ha hd

  pub decode-op_mem_load : decode (op_mem 0x8b b a disp ++ tl) ≡ some (load b a disp, tl)
  unfolding op_mem opcode wide_opcode
  decode-op_mem_load =
      rw
        (
          append_assoc,
          wide a b tl ha hb 0x8b (mem_operand b a disp ++ tl) (inr (omega arith)),
          memory,
        )
        refl

  pub decode-op_mem_store : decode (op_mem 0x89 b a disp ++ tl) ≡ some (store b a disp, tl)
  unfolding op_mem opcode wide_opcode
  decode-op_mem_store =
      rw
        (
          append_assoc,
          wide a b tl ha hb 0x89 (mem_operand b a disp ++ tl) (inr (omega arith)),
          memory,
        )
        refl

  pub decode-op_mem_load_address :
      decode (op_mem 0x8d b a disp ++ tl) ≡ some (load_address b a disp, tl)
  unfolding op_mem opcode wide_opcode
  decode-op_mem_load_address =
      rw
        (
          append_assoc,
          wide a b tl ha hb 0x8d (mem_operand b a disp ++ tl) (inr (omega arith)),
          memory,
        )
        refl

  pub decode-movbe_mem_load_be :
      decode (movbe_mem false b a disp ++ tl) ≡ some (load_be b a disp, tl)
  unfolding movbe_mem opcode long_opcode
  decode-movbe_mem_load_be =
      rw
        (
          append_assoc,
          wide a b tl ha hb 0x0f (0x38 ∷ 0xf0 ∷ (mem_operand b a disp ++ tl)) (inl (omega arith)),
          memory,
        )
        refl

  pub decode-movbe_mem_store_be :
      decode (movbe_mem true b a disp ++ tl) ≡ some (store_be b a disp, tl)
  unfolding movbe_mem opcode long_opcode
  decode-movbe_mem_store_be =
      rw
        (
          append_assoc,
          wide a b tl ha hb 0x0f (0x38 ∷ 0xf1 ∷ (mem_operand b a disp ++ tl)) (inl (omega arith)),
          memory,
        )
        refl

-- One register, with an opcode extension or in the opcode.
module _ (r : ℕ) (tl : List ℕ) (hr : r < 16) where
  single :
      (w op : ℕ) (rest : List ℕ)
      → w < 2
      → (op < 0x40) ⊎ (0x50 ≤ op)
      → decode (rex w 0 0 r ++ (op ∷ rest)) ≡ opcode (fields w 0 0 r) (op ∷ rest)
  single w op rest hw h = decode-rex w 0 0 r op rest hw (omega arith) (omega arith) hr h

  extension :
      (w ext : ℕ) (rest : List ℕ)
      → ext < 8
      → modrm (fields w 0 0 r) (modrm_reg ext r ∷ rest) ≡ some (ext, direct r, rest)
  extension w ext rest h = ground arith

  pub decode-neg_r : decode (neg_r r ++ tl) ≡ some (negate r, tl)
  unfolding neg_r opcode wide_opcode
  decode-neg_r =
      rw
        (
          append_assoc,
          single 1 0xf7 (modrm_reg 3 r ∷ tl) (omega arith) (inr (omega arith)),
          extension 1 3 tl (omega arith),
        )
        refl

  pub decode-jmp_r : decode (jmp_r r ++ tl) ≡ some (jump_to r, tl)
  unfolding jmp_r opcode
  decode-jmp_r =
      rw
        (
          append_assoc,
          single 0 0xff (modrm_reg 4 r ∷ tl) (omega arith) (inr (omega arith)),
          extension 0 4 tl (omega arith),
        )
        refl

  pub decode-shr_ri : (n : ℕ) → decode (shr_ri r n ++ tl) ≡ some (shift_right r n, tl)
  unfolding shr_ri opcode wide_opcode
  decode-shr_ri n =
      rw
        (
          append_assoc,
          single 1 0xc1 (modrm_reg 5 r ∷ n ∷ tl) (omega arith) (inr (omega arith)),
          extension 1 5 (n ∷ tl) (omega arith),
        )
        refl

  pub decode-shl_ri : (n : ℕ) → decode (shl_ri r n ++ tl) ≡ some (shift_left r n, tl)
  unfolding shl_ri opcode wide_opcode
  decode-shl_ri n =
      rw
        (
          append_assoc,
          single 1 0xc1 (modrm_reg 4 r ∷ n ∷ tl) (omega arith) (inr (omega arith)),
          extension 1 4 (n ∷ tl) (omega arith),
        )
        refl

  pub decode-alu_imm_add :
      (v : ℕ) → v < two32 → decode (alu_imm 0 r v ++ tl) ≡ some (add_to r v, tl)
  unfolding alu_imm opcode wide_opcode
  decode-alu_imm_add v h =
      rw
        (
          append_assoc,
          single 1 0x81 (modrm_reg 0 r ∷ (e32 v ++ tl)) (omega arith) (inr (omega arith)),
          extension 1 0 (e32 v ++ tl) (omega arith),
        )
        (ap (λ n. some (add_to r n, tl)) (omega arith))

  pub decode-alu_imm_subtract :
      (v : ℕ) → v < two32 → decode (alu_imm 5 r v ++ tl) ≡ some (subtract_from r v, tl)
  unfolding alu_imm opcode wide_opcode
  decode-alu_imm_subtract v h =
      rw
        (
          append_assoc,
          single 1 0x81 (modrm_reg 5 r ∷ (e32 v ++ tl)) (omega arith) (inr (omega arith)),
          extension 1 5 (e32 v ++ tl) (omega arith),
        )
        (ap (λ n. some (subtract_from r n, tl)) (omega arith))

  pub decode-bswap : decode (bswap r ++ tl) ≡ some (byte_swap r, tl)
  unfolding bswap opcode long_opcode
  decode-bswap =
      let first : (leb 0x80 (0xc8 + r % 8) && ltb (0xc8 + r % 8) 0x90) ≡ false = ground arith in
      let second : (leb 0xc8 (0xc8 + r % 8) && ltb (0xc8 + r % 8) 0xd0) ≡ true = ground arith in
      rw
        (
          append_assoc,
          single 1 0x0f ((0xc8 + r % 8) ∷ tl) (omega arith) (inl (omega arith)),
          first,
          second,
        )
        (ap (λ n. some (byte_swap n, tl)) (omega arith))

  pub decode-mov_imm : (v : ℕ) → v < two64 → decode (mov_imm r v ++ tl) ≡ some (set_to r v, tl)
  unfolding mov_imm opcode wide_opcode
  decode-mov_imm v h =
      let in_opcode : (leb 0xb8 (0xb8 + r % 8) && ltb (0xb8 + r % 8) 0xc0) ≡ true = ground arith in
      elim (Bool-cases (leb v 0xffffffff)) [
        | inl zero_extended ↦
            rw
              (
                zero_extended,
                append_assoc,
                single 0 (0xb8 + r % 8) (e32 v ++ tl) (omega arith) (inr (omega arith)),
                in_opcode,
              )
              (ap₂ (λ n d. some (set_to n d, tl)) (omega arith) (ground arith))
        | inr large ↦ elim (Bool-cases (is_signed32 v)) [
          | inl sign_extended ↦
              rw
                (
                  large,
                  sign_extended,
                  append_assoc,
                  single 1 0xc7 (modrm_reg 0 r ∷ (e32 v ++ tl)) (omega arith) (inr (omega arith)),
                  extension 1 0 (e32 v ++ tl) (omega arith),
                )
                (ap (λ d. some (set_to r d, tl)) (ground arith))
          | inr full ↦
              rw
                (
                  large,
                  full,
                  append_assoc,
                  single 1 (0xb8 + r % 8) (e64 v ++ tl) (omega arith) (inr (omega arith)),
                  in_opcode,
                )
                (ap₂ (λ n d. some (set_to n d, tl)) (omega arith) (omega arith))
        ]
      ]
