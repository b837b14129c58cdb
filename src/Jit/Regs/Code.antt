-- ===== src/Jit/Regs/Code.antt =====
-- What the instructions that the translator emits do to the registers and to memory. `call` is an
-- emitter of kernel/src/jit.c; the other forms are the instructions that it writes in place.
use subleq_emu.Prelude.{
  ℕ, ◌+◌, ◌-◌, ◌*◌, ◌/◌, ◌%◌, ◌^◌, List, [], ◌∷◌, ◌++◌, ltb, if◌then◌else◌, update, two32, two64,
  add64, sub64, bit_and, bit_or,
}
use subleq_emu.Ram.{Ram, load64, store64, bswap64}
use subleq_emu.Jit.Emit
use subleq_emu.Jit.Emit.Call.{
  Call, op_load, op_store, op_lea, movbe_load, movbe_store, bswap, neg_r, mov_rr, sub_rr, or_rr,
  and_rr, shr_ri, shl_ri, mov_imm, add_imm, sub_imm, bytes,
}

pub data Op : Type 0 where
  call : Call → Op
  not_r : ℕ → Op
  add_rr mov32 and_imm : ℕ → ℕ → Op
  store_imm : ℕ → ℕ → ℕ → Op

-- The bytes as the translator writes them.
abbrev pub op_bytes : Op → List ℕ
op_bytes (call c) = bytes c
op_bytes (not_r r) = Emit.rex 1 0 0 r ++ (0xf7 ∷ Emit.modrm_reg 2 r ∷ [])
op_bytes (add_rr dst src) = Emit.rex 1 src 0 dst ++ (0x01 ∷ Emit.modrm_reg src dst ∷ [])
op_bytes (mov32 dst src) = Emit.rex 0 src 0 dst ++ (0x89 ∷ Emit.modrm_reg src dst ∷ [])
op_bytes (and_imm r v) = Emit.rex 1 0 0 r ++ (0x81 ∷ Emit.modrm_reg 4 r ∷ Emit.e32 v)
op_bytes (store_imm base disp v) =
    Emit.rex 1 0 0 base ++ (0xc7 ∷ (Emit.mem_operand 0 base disp ++ Emit.e32 v))

-- The registers by number, and memory.
pub record Processor : Type 0 where
  pub gpr : ℕ → ℕ
  pub ram : Ram

-- A 32-bit pattern as the 64-bit one of the same signed number.
abbrev pub extended : ℕ → ℕ
extended v = if ltb v 0x80000000 then v else v + (two64 - two32)

abbrev pub at : Processor → ℕ → ℕ → ℕ
at s base disp = add64 (s.gpr base) (extended disp)

abbrev pub set : Processor → ℕ → ℕ → Processor
set s r v = record s { gpr = update s.gpr r v }

-- Registers and memory after an instruction; the flags are left out, and a conditional jump falls
-- through.
unfoldable pub step_call : Call → Processor → Processor
step_call (op_load r base disp) s = set s r (load64 s.ram (at s base disp))
step_call (op_store r base disp) s = record s { ram = store64 s.ram (at s base disp) (s.gpr r) }
step_call (op_lea r base disp) s = set s r (at s base disp)
step_call (movbe_load r base disp) s = set s r (bswap64 (load64 s.ram (at s base disp)))
step_call (movbe_store r base disp) s = record s {
  ram = store64 s.ram (at s base disp) (bswap64 (s.gpr r));
}
step_call (bswap r) s = set s r (bswap64 (s.gpr r))
step_call (neg_r r) s = set s r (sub64 0 (s.gpr r))
step_call (mov_rr a b) s = set s a (s.gpr b)
step_call (sub_rr a b) s = set s a (sub64 (s.gpr a) (s.gpr b))
step_call (or_rr a b) s = set s a (bit_or (s.gpr a) (s.gpr b))
step_call (and_rr a b) s = set s a (bit_and (s.gpr a) (s.gpr b))
step_call (shr_ri r n) s = set s r (s.gpr r / 2 ^ n)
step_call (shl_ri r n) s = set s r (s.gpr r * 2 ^ n % two64)
step_call (mov_imm r v) s = set s r v
step_call (add_imm r v) s = set s r (add64 (s.gpr r) (extended v))
step_call (sub_imm r v) s = set s r (sub64 (s.gpr r) (extended v))
step_call c s = s

unfoldable pub step : Op → Processor → Processor
step (call c) s = step_call c s
step (not_r r) s = set s r (two64 - 1 - s.gpr r)
step (add_rr a b) s = set s a (add64 (s.gpr a) (s.gpr b))
step (mov32 a b) s = set s a (s.gpr b % two32)
step (and_imm r v) s = set s r (bit_and (s.gpr r) (extended v))
step (store_imm base disp v) s = record s { ram = store64 s.ram (at s base disp) (extended v) }

-- The newest instruction stands first.
unfoldable pub run : List Op → Processor → Processor
run [] s = s
run (op ∷ ops) s = step op (run ops s)
