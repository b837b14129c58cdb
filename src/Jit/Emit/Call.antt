-- ===== src/Jit/Emit/Call.antt =====
-- All the emitters of kernel/src/jit.c at once: a call, its bytes, and the instruction that it means.
use subleq_emu.Prelude.{
  ℕ, ◌/◌, ◌%◌, ◌^◌, ◌<◌, ◌≡◌, ◌≢◌, true, false, some, List, ◌++◌, two32, two64,
}
use subleq_emu.Jit.Emit
use subleq_emu.Jit.Emit.Decode.{
  Insn, load, store, load_address, load_be, store_be, load_index8, byte_swap, negate, move,
  subtract, or_to, and_to, test_with, bit_test, shift_right, shift_left, set_to, add_to,
  subtract_from, jump_if, jump, jump_to, compare_byte, test_byte, decode,
}
use subleq_emu.Jit.Emit.RoundTrip
use subleq_emu.Jit.Emit.Forms

pub data Call : Type 0 where
  op_load op_store op_lea : ℕ → ℕ → ℕ → Call
  movbe_load movbe_store : ℕ → ℕ → ℕ → Call
  load_sib8 : ℕ → ℕ → ℕ → Call
  bswap neg_r jmp_r jcc32 test_bitmap : ℕ → Call
  mov_rr sub_rr test_rr or_rr and_rr bt_rr : ℕ → ℕ → Call
  shr_ri shl_ri mov_imm add_imm sub_imm : ℕ → ℕ → Call
  jmp32 : Call
  cmp_byte_zero : ℕ → ℕ → ℕ → Call

abbrev pub bytes : Call → List ℕ
bytes (op_load r base disp) = Emit.op_mem 0x8b r base disp
bytes (op_store r base disp) = Emit.op_mem 0x89 r base disp
bytes (op_lea r base disp) = Emit.op_mem 0x8d r base disp
bytes (movbe_load r base disp) = Emit.movbe_mem false r base disp
bytes (movbe_store r base disp) = Emit.movbe_mem true r base disp
bytes (load_sib8 r base index) = Emit.load_sib8 r base index
bytes (bswap r) = Emit.bswap r
bytes (neg_r r) = Emit.neg_r r
bytes (jmp_r r) = Emit.jmp_r r
bytes (jcc32 cc) = Emit.jcc32 cc
bytes (test_bitmap w) = Emit.test_bitmap w
bytes (mov_rr a b) = Emit.mov_rr a b
bytes (sub_rr a b) = Emit.sub_rr a b
bytes (test_rr a b) = Emit.test_rr a b
bytes (or_rr a b) = Emit.or_rr a b
bytes (and_rr a b) = Emit.and_rr a b
bytes (bt_rr a b) = Emit.bt_rr a b
bytes (shr_ri r n) = Emit.shr_ri r n
bytes (shl_ri r n) = Emit.shl_ri r n
bytes (mov_imm r v) = Emit.mov_imm r v
bytes (add_imm r v) = Emit.alu_imm 0 r v
bytes (sub_imm r v) = Emit.alu_imm 5 r v
bytes jmp32 = Emit.jmp32
bytes (cmp_byte_zero base index disp) = Emit.cmp_byte_zero base index disp

-- Word `w` of the bitmap in r14 has its bit in byte `w / 8`.
abbrev pub meaning : Call → Insn
meaning (op_load r base disp) = load r base disp
meaning (op_store r base disp) = store r base disp
meaning (op_lea r base disp) = load_address r base disp
meaning (movbe_load r base disp) = load_be r base disp
meaning (movbe_store r base disp) = store_be r base disp
meaning (load_sib8 r base index) = load_index8 r base index
meaning (bswap r) = byte_swap r
meaning (neg_r r) = negate r
meaning (jmp_r r) = jump_to r
meaning (jcc32 cc) = jump_if cc 0
meaning (test_bitmap w) = test_byte 14 (w / 8) (2 ^ (w % 8))
meaning (mov_rr a b) = move a b
meaning (sub_rr a b) = subtract a b
meaning (test_rr a b) = test_with a b
meaning (or_rr a b) = or_to a b
meaning (and_rr a b) = and_to a b
meaning (bt_rr a b) = bit_test a b
meaning (shr_ri r n) = shift_right r n
meaning (shl_ri r n) = shift_left r n
meaning (mov_imm r v) = set_to r v
meaning (add_imm r v) = add_to r v
meaning (sub_imm r v) = subtract_from r v
meaning jmp32 = jump 0
meaning (cmp_byte_zero base index disp) = compare_byte base index disp 0

-- Registers are below 16, immediates fit, and the two forms with an index take no base or index
-- that the encoding has no room for; the source calls them with r14 and allocated registers.
abbrev pub Fits : Call → Type 0
Fits (op_load r base disp) = (r < 16) × (base < 16) × (disp < two32)
Fits (op_store r base disp) = (r < 16) × (base < 16) × (disp < two32)
Fits (op_lea r base disp) = (r < 16) × (base < 16) × (disp < two32)
Fits (movbe_load r base disp) = (r < 16) × (base < 16) × (disp < two32)
Fits (movbe_store r base disp) = (r < 16) × (base < 16) × (disp < two32)
Fits (load_sib8 r base index) = (r < 16) × (base < 16) × (index < 16) × (base % 8 ≢ 5) × (index ≢ 4)
Fits (bswap r) = r < 16
Fits (neg_r r) = r < 16
Fits (jmp_r r) = r < 16
Fits (jcc32 cc) = cc < 16
Fits (test_bitmap w) = w / 8 < two32
Fits (mov_rr a b) = (a < 16) × (b < 16)
Fits (sub_rr a b) = (a < 16) × (b < 16)
Fits (test_rr a b) = (a < 16) × (b < 16)
Fits (or_rr a b) = (a < 16) × (b < 16)
Fits (and_rr a b) = (a < 16) × (b < 16)
Fits (bt_rr a b) = (a < 16) × (b < 16)
Fits (shr_ri r n) = (r < 16) × (n < 256)
Fits (shl_ri r n) = (r < 16) × (n < 256)
Fits (mov_imm r v) = (r < 16) × (v < two64)
Fits (add_imm r v) = (r < 16) × (v < two32)
Fits (sub_imm r v) = (r < 16) × (v < two32)
Fits jmp32 = ◌≡◌ {A = ℕ} 0 0
Fits (cmp_byte_zero base index disp) = (base < 16) × (index < 16) × (disp < two32) × (index ≢ 4)

-- Whatever bytes follow, the bytes of a call decode to the instruction that it means.
pub decode-bytes :
    (c : Call) (rest : List ℕ) → Fits c → decode (bytes c ++ rest) ≡ some (meaning c, rest)
decode-bytes (op_load r base disp) rest (h, k, l) =
    RoundTrip.decode-op_mem_load base r disp rest k h l
decode-bytes (op_store r base disp) rest (h, k, l) =
    RoundTrip.decode-op_mem_store base r disp rest k h l
decode-bytes (op_lea r base disp) rest (h, k, l) =
    RoundTrip.decode-op_mem_load_address base r disp rest k h l
decode-bytes (movbe_load r base disp) rest (h, k, l) =
    RoundTrip.decode-movbe_mem_load_be base r disp rest k h l
decode-bytes (movbe_store r base disp) rest (h, k, l) =
    RoundTrip.decode-movbe_mem_store_be base r disp rest k h l
decode-bytes (load_sib8 r base index) rest (h, k, l, m, n) =
    Forms.decode-load_sib8 r base index rest h k l m n
decode-bytes (bswap r) rest h = RoundTrip.decode-bswap r rest h
decode-bytes (neg_r r) rest h = RoundTrip.decode-neg_r r rest h
decode-bytes (jmp_r r) rest h = RoundTrip.decode-jmp_r r rest h
decode-bytes (jcc32 cc) rest h = Forms.decode-jcc32 cc rest h
decode-bytes (test_bitmap w) rest h = Forms.decode-test_bitmap w rest h
decode-bytes (mov_rr a b) rest (h, k) = RoundTrip.decode-mov_rr a b rest h k
decode-bytes (sub_rr a b) rest (h, k) = RoundTrip.decode-sub_rr a b rest h k
decode-bytes (test_rr a b) rest (h, k) = RoundTrip.decode-test_rr a b rest h k
decode-bytes (or_rr a b) rest (h, k) = RoundTrip.decode-or_rr a b rest h k
decode-bytes (and_rr a b) rest (h, k) = RoundTrip.decode-and_rr a b rest h k
decode-bytes (bt_rr a b) rest (h, k) = RoundTrip.decode-bt_rr a b rest h k
decode-bytes (shr_ri r n) rest (h, k) = RoundTrip.decode-shr_ri r rest h n
decode-bytes (shl_ri r n) rest (h, k) = RoundTrip.decode-shl_ri r rest h n
decode-bytes (mov_imm r v) rest (h, k) = RoundTrip.decode-mov_imm r rest h v k
decode-bytes (add_imm r v) rest (h, k) = RoundTrip.decode-alu_imm_add r rest h v k
decode-bytes (sub_imm r v) rest (h, k) = RoundTrip.decode-alu_imm_subtract r rest h v k
decode-bytes jmp32 rest h = Forms.decode-jmp32 rest
decode-bytes (cmp_byte_zero base index disp) rest (h, k, l, n) =
    Forms.decode-cmp_byte_zero base index disp rest h k l n
