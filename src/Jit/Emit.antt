-- ===== src/Jit/Emit.antt =====
-- The x86-64 emitter of kernel/src/jit.c. An emitter gives the bytes that it writes at `J->cp`;
-- registers are their numbers, and an `int32_t` is its bit pattern. The fields of a byte do not
-- overlap, so `|` is written as a sum.
pub mod Decode
pub mod Fields
pub mod RoundTrip
pub mod Forms
pub mod Call
mod Tests
use subleq_emu.Prelude.{
  ℕ, ◌+◌, ◌-◌, ◌*◌, ◌/◌, ◌%◌, ◌^◌, Bool, ◌&&◌, ◌||◌, not, List, [], ◌∷◌, ◌++◌, ◌==◌, leb, ltb,
  if◌then◌else◌, two32, two64,
}
use subleq_emu.Ram.{byte}

abbrev pub e8 : ℕ → List ℕ
e8 v = v % 256 ∷ []

abbrev pub e32 : ℕ → List ℕ
e32 v = byte v 0 ∷ byte v 1 ∷ byte v 2 ∷ byte v 3 ∷ []

abbrev pub e64 : ℕ → List ℕ
e64 v = byte v 0 ∷ byte v 1 ∷ byte v 2 ∷ byte v 3 ∷ byte v 4 ∷ byte v 5 ∷ byte v 6 ∷ byte v 7 ∷ []

unfoldable pub rex : ℕ → ℕ → ℕ → ℕ → List ℕ
rex w r x b =
    let v = 0x40 + w * 8 + r / 8 * 4 + x / 8 * 2 + b / 8 in if v == 0x40 then [] else v ∷ []

-- `disp >= -128 && disp <= 127`, on the bit pattern
abbrev pub fits8 : ℕ → Bool
fits8 disp = ltb disp 128 || leb (two32 - 128) disp

abbrev pub operand_mod : ℕ → ℕ → ℕ
operand_mod base disp = if disp == 0 && not (base % 8 == 5) then 0 else if fits8 disp then 1 else 2

unfoldable pub mem_operand : ℕ → ℕ → ℕ → List ℕ
mem_operand reg base disp =
    let m = operand_mod base disp in
    ((m * 64 + reg % 8 * 8 + base % 8) ∷ (if base % 8 == 4 then 0x24 ∷ [] else []))
    ++ (if m == 1 then e8 disp else if m == 2 then e32 disp else [])

abbrev pub modrm_reg : ℕ → ℕ → ℕ
modrm_reg reg rm = 0xc0 + reg % 8 * 8 + rm % 8

unfoldable pub op_mem : ℕ → ℕ → ℕ → ℕ → List ℕ
op_mem op r base disp = rex 1 r 0 base ++ (op ∷ mem_operand r base disp)

unfoldable pub movbe_mem : Bool → ℕ → ℕ → ℕ → List ℕ
movbe_mem store r base disp =
    rex 1 r 0 base ++ (0x0f ∷ 0x38 ∷ (if store then 0xf1 else 0xf0) ∷ mem_operand r base disp)

unfoldable pub load_sib8 : ℕ → ℕ → ℕ → List ℕ
load_sib8 r base index =
    rex 1 r index base ++ (0x8b ∷ (0x04 + r % 8 * 8) ∷ (0xc0 + index % 8 * 8 + base % 8) ∷ [])

unfoldable pub bswap : ℕ → List ℕ
bswap r = rex 1 0 0 r ++ (0x0f ∷ (0xc8 + r % 8) ∷ [])

unfoldable pub mov_rr : ℕ → ℕ → List ℕ
mov_rr dst src = rex 1 src 0 dst ++ (0x89 ∷ modrm_reg src dst ∷ [])

unfoldable pub sub_rr : ℕ → ℕ → List ℕ
sub_rr dst src = rex 1 src 0 dst ++ (0x29 ∷ modrm_reg src dst ∷ [])

unfoldable pub neg_r : ℕ → List ℕ
neg_r r = rex 1 0 0 r ++ (0xf7 ∷ modrm_reg 3 r ∷ [])

unfoldable pub test_rr : ℕ → ℕ → List ℕ
test_rr a b = rex 1 b 0 a ++ (0x85 ∷ modrm_reg b a ∷ [])

unfoldable pub shr_ri : ℕ → ℕ → List ℕ
shr_ri r n = rex 1 0 0 r ++ (0xc1 ∷ modrm_reg 5 r ∷ n ∷ [])

unfoldable pub shl_ri : ℕ → ℕ → List ℕ
shl_ri r n = rex 1 0 0 r ++ (0xc1 ∷ modrm_reg 4 r ∷ n ∷ [])

unfoldable pub or_rr : ℕ → ℕ → List ℕ
or_rr dst src = rex 1 src 0 dst ++ (0x09 ∷ modrm_reg src dst ∷ [])

unfoldable pub and_rr : ℕ → ℕ → List ℕ
and_rr dst src = rex 1 src 0 dst ++ (0x21 ∷ modrm_reg src dst ∷ [])

unfoldable pub bt_rr : ℕ → ℕ → List ℕ
bt_rr base bit = rex 1 bit 0 base ++ (0x0f ∷ 0xa3 ∷ modrm_reg bit base ∷ [])

-- `(int64_t)v == (int32_t)v`
abbrev pub is_signed32 : ℕ → Bool
is_signed32 v = ltb v 0x80000000 || leb (two64 - 0x80000000) v

unfoldable pub mov_imm : ℕ → ℕ → List ℕ
mov_imm r v =
    if leb v 0xffffffff
    then rex 0 0 0 r ++ ((0xb8 + r % 8) ∷ e32 v)
    else if is_signed32 v
    then rex 1 0 0 r ++ (0xc7 ∷ modrm_reg 0 r ∷ e32 v)
    else rex 1 0 0 r ++ ((0xb8 + r % 8) ∷ e64 v)

unfoldable pub alu_imm : ℕ → ℕ → ℕ → List ℕ
alu_imm ext r v = rex 1 0 0 r ++ (0x81 ∷ modrm_reg ext r ∷ e32 v)

-- The site that the source returns is that of the last four bytes.
unfoldable pub jcc32 : ℕ → List ℕ
jcc32 cc = 0x0f ∷ (0x80 + cc) ∷ e32 0

unfoldable pub jmp32 : List ℕ
jmp32 = 0xe9 ∷ e32 0

unfoldable pub jmp_r : ℕ → List ℕ
jmp_r r = rex 0 0 0 r ++ (0xff ∷ modrm_reg 4 r ∷ [])

unfoldable pub cmp_byte_zero : ℕ → ℕ → ℕ → List ℕ
cmp_byte_zero base index disp =
    rex 0 0 index base ++ (0x80 ∷ 0xbc ∷ (index % 8 * 8 + base % 8) ∷ (e32 disp ++ (0 ∷ [])))

unfoldable pub test_bitmap : ℕ → List ℕ
test_bitmap w = rex 0 0 0 14 ++ (0xf6 ∷ (mem_operand 0 14 (w / 8 % two32) ++ (2 ^ (w % 8) ∷ [])))

unfoldable pub exit_to : ℕ → ℕ → List ℕ
exit_to eip info = mov_imm 13 eip ++ (mov_imm 3 info ++ jmp_r 12)
