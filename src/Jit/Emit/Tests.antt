-- ===== src/Jit/Emit/Tests.antt =====
-- Encodings that the manuals give, and calls with large and with negative operands.
use subleq_emu.Prelude.{◌≡◌, refl, some, [], ◌∷◌, ◌++◌, arith}
use subleq_emu.Jit.Emit.{rex, mem_operand, mov_rr, op_mem, mov_imm, jmp_r, exit_to}
use subleq_emu.Jit.Emit.Decode.{decode}
use subleq_emu.Jit.Emit.Call.{bytes, meaning, Call, decode-bytes}

-- mov rax, rcx
mov_rax_rcx : mov_rr 0 1 ≡ 0x48 ∷ 0x89 ∷ 0xc8 ∷ []
unfolding mov_rr rex
mov_rax_rcx = refl

-- mov [r15 - 128], r12
store_below : op_mem 0x89 12 15 0xffffff80 ≡ 0x4d ∷ 0x89 ∷ 0x67 ∷ 0x80 ∷ []
unfolding op_mem rex mem_operand
store_below = refl

-- mov r13d, 8; mov ebx, 3; jmp r12
leave : exit_to 8 3 ≡ 0x41 ∷ 0xbd ∷ 8 ∷ 0 ∷ 0 ∷ 0 ∷ 0xbb ∷ 3 ∷ 0 ∷ 0 ∷ 0 ∷ 0x41 ∷ 0xff ∷ 0xe4 ∷ []
unfolding exit_to mov_imm jmp_r rex
leave = refl

decode-bytes_example :
    decode (bytes (Call.mov_imm 13 0xffffffff80000000) ++ (0x90 ∷ []))
    ≡ some (meaning (Call.mov_imm 13 0xffffffff80000000), 0x90 ∷ [])
decode-bytes_example =
    decode-bytes (Call.mov_imm 13 0xffffffff80000000) (0x90 ∷ []) (omega arith, omega arith)
