-- ===== src/Jit/Emit/Decode.antt =====
-- A decoder for the instructions that kernel/src/jit.c emits, after the encoding that the x86-64
-- manuals describe: prefix, opcode, ModRM, SIB, displacement and immediate.
use subleq_emu.Prelude.{
  ℕ, ◌+◌, ◌-◌, ◌*◌, ◌/◌, ◌%◌, ◌^◌, ◌&&◌, Option, none, some, List, [], ◌∷◌, ◌==◌, leb, ltb,
  if◌then◌else◌, two32, two64,
}

-- Registers and operands are numbers; a displacement is the pattern of a signed 32-bit number.
pub data Insn : Type 0 where
  load store load_address : ℕ → ℕ → ℕ → Insn
  load_be store_be : ℕ → ℕ → ℕ → Insn
  load_index8 : ℕ → ℕ → ℕ → Insn
  byte_swap negate : ℕ → Insn
  move subtract or_to and_to test_with bit_test : ℕ → ℕ → Insn
  shift_right shift_left : ℕ → ℕ → Insn
  set_to add_to subtract_from : ℕ → ℕ → Insn
  jump_if : ℕ → ℕ → Insn
  jump : ℕ → Insn
  jump_to : ℕ → Insn
  compare_byte : ℕ → ℕ → ℕ → ℕ → Insn
  test_byte : ℕ → ℕ → ℕ → Insn

-- The bits of a REX prefix, 0 without one.
pub record Prefix : Type 0 where
  pub w : ℕ
  pub r : ℕ
  pub x : ℕ
  pub b : ℕ

abbrev pub split_prefix : List ℕ → Prefix × List ℕ
split_prefix [] = (record { w = 0; r = 0; x = 0; b = 0 }, [])
split_prefix (v ∷ bs) =
    if leb 0x40 v && ltb v 0x50
    then (record { w = v / 8 % 2; r = v / 4 % 2; x = v / 2 % 2; b = v % 2 }, bs)
    else (record { w = 0; r = 0; x = 0; b = 0 }, v ∷ bs)

-- What a ModRM byte and its followers name.
pub data Operand : Type 0 where
  direct : ℕ → Operand
  based : ℕ → ℕ → Operand
  indexed : ℕ → ℕ → ℕ → ℕ → Operand

infixl 5 ◌>>=◌
abbrev pub ◌>>=◌ : {A B : Type 0} → Option A → (A → Option B) → Option B
none >>= f = none
some a >>= f = f a

abbrev pub imm8 : List ℕ → Option (ℕ × List ℕ)
imm8 [] = none
imm8 (a ∷ bs) = some (a, bs)

abbrev pub imm32 : List ℕ → Option (ℕ × List ℕ)
imm32 (a ∷ b ∷ c ∷ d ∷ bs) = some (a + b * 256 + c * 256 ^ 2 + d * 256 ^ 3, bs)
imm32 bs = none

abbrev pub imm64 : List ℕ → Option (ℕ × List ℕ)
imm64 (a ∷ b ∷ c ∷ d ∷ e ∷ f ∷ g ∷ h ∷ bs) = some (
  a + b * 256 + c * 256 ^ 2 + d * 256 ^ 3 + e * 256 ^ 4 + f * 256 ^ 5 + g * 256 ^ 6 + h * 256 ^ 7,
  bs,
)
imm64 bs = none

-- The displacement after a byte with `mod`.
abbrev pub displacement : ℕ → List ℕ → Option (ℕ × List ℕ)
displacement m bs =
    if m == 0
    then some (0, bs)
    else if m == 1
    then (imm8 bs >>= λ (v, rest). some (if ltb v 128 then v else v + (two32 - 256), rest))
    else imm32 bs

abbrev pub after_sib : Prefix → ℕ → ℕ → List ℕ → Option (Operand × List ℕ)
after_sib p m s bs =
    if m == 0 && s % 8 == 5
    then none
    else (displacement m bs >>= λ (disp, rest). some (
      if s / 8 % 8 + 8 * p.x == 4
          then based (s % 8 + 8 * p.b) disp
          else indexed (s % 8 + 8 * p.b) (s / 8 % 8 + 8 * p.x) (2 ^ (s / 64)) disp,
      rest,
    ))

-- The register field and the other operand.
abbrev pub modrm : Prefix → List ℕ → Option (ℕ × Operand × List ℕ)
modrm p [] = none
modrm p (v ∷ bs) =
    let reg = v / 8 % 8 + 8 * p.r in
    if v / 64 == 3
    then some (reg, direct (v % 8 + 8 * p.b), bs)
    else if v % 8 == 4
    then (imm8 bs >>= λ (s, rest). after_sib p (v / 64) s rest >>= λ (o, tl). some (reg, o, tl))
    else if v / 64 == 0 && v % 8 == 5
    then none
    else displacement (v / 64) bs >>= λ (disp, rest). some (reg, based (v % 8 + 8 * p.b) disp, rest)

-- An instruction whose operand has to be a register, or to be in memory.
abbrev pub on_register :
    Option (ℕ × Operand × List ℕ)
    → (ℕ → ℕ → List ℕ → Option (Insn × List ℕ))
    → Option (Insn × List ℕ)
on_register (some (reg, direct rm, bs)) f = f reg rm bs
on_register m f = none

abbrev pub on_memory : Option (ℕ × Operand × List ℕ) → (ℕ → ℕ → ℕ → Insn) → Option (Insn × List ℕ)
on_memory (some (reg, based base disp, bs)) f = some (f reg base disp, bs)
on_memory m f = none

abbrev pub registers : Option (ℕ × Operand × List ℕ) → (ℕ → ℕ → Insn) → Option (Insn × List ℕ)
registers m f = on_register m (λ reg rm bs. some (f rm reg, bs))

-- The opcodes after 0x0f.
unfoldable pub long_opcode : Prefix → List ℕ → Option (Insn × List ℕ)
long_opcode p [] = none
long_opcode p (op ∷ bs) =
    if leb 0x80 op && ltb op 0x90
    then (imm32 bs >>= λ (rel, rest). some (jump_if (op - 0x80) rel, rest))
    else if leb 0xc8 op && ltb op 0xd0 && p.w == 1
    then some (byte_swap (op - 0xc8 + 8 * p.b), bs)
    else if op == 0xa3 && p.w == 1
    then registers (modrm p bs) bit_test
    else if op == 0x38 && p.w == 1
    then (imm8 bs >>= λ (v, rest).
        if v == 0xf0
        then on_memory (modrm p rest) load_be
        else if v == 0xf1
        then on_memory (modrm p rest) store_be
        else none)
    else none

-- Opcodes that work on 64 bits, with a prefix that says so.
unfoldable pub wide_opcode : Prefix → ℕ → List ℕ → Option (Insn × List ℕ)
wide_opcode p op bs =
    if op == 0x89
    then elim (modrm p bs) [
      | none ↦ none
      | some (reg, o, rest) ↦ elim o [
        | direct rm ↦ some (move rm reg, rest)
        | based base disp ↦ some (store reg base disp, rest)
        | indexed a b c d ↦ none
      ]
    ]
    else if op == 0x8b
    then elim (modrm p bs) [
      | none ↦ none
      | some (reg, o, rest) ↦ elim o [
        | direct rm ↦ none
        | based base disp ↦ some (load reg base disp, rest)
        | indexed base index scale disp ↦
            if scale == 8 && disp == 0 then some (load_index8 reg base index, rest) else none
      ]
    ]
    else if op == 0x8d
    then on_memory (modrm p bs) load_address
    else if op == 0x29
    then registers (modrm p bs) subtract
    else if op == 0x09
    then registers (modrm p bs) or_to
    else if op == 0x21
    then registers (modrm p bs) and_to
    else if op == 0x85
    then registers (modrm p bs) test_with
    else if op == 0xf7
    then on_register (modrm p bs) (λ reg rm rest. if reg == 3 then some (negate rm, rest) else none)
    else if op == 0xc1
    then on_register (modrm p bs) (λ reg rm rest. imm8 rest >>= λ (n, tl).
        if reg == 5
        then some (shift_right rm n, tl)
        else if reg == 4
        then some (shift_left rm n, tl)
        else none)
    else if op == 0x81
    then on_register (modrm p bs) (λ reg rm rest. imm32 rest >>= λ (v, tl).
        if reg == 0
        then some (add_to rm v, tl)
        else if reg == 5
        then some (subtract_from rm v, tl)
        else none)
    else if op == 0xc7
    then on_register (modrm p bs) (λ reg rm rest. imm32 rest >>= λ (v, tl).
        if reg == 0
        then some (set_to rm (if ltb v 0x80000000 then v else v + (two64 - two32)), tl)
        else none)
    else none

-- Opcodes that need no 64-bit prefix.
unfoldable pub opcode : Prefix → List ℕ → Option (Insn × List ℕ)
opcode p [] = none
opcode p (op ∷ bs) =
    if leb 0xb8 op && ltb op 0xc0
    then (if p.w == 1
        then (imm64 bs >>= λ (v, rest). some (set_to (op - 0xb8 + 8 * p.b) v, rest))
        else (imm32 bs >>= λ (v, rest). some (set_to (op - 0xb8 + 8 * p.b) v, rest)))
    else if op == 0x0f
    then long_opcode p bs
    else if op == 0xe9
    then (imm32 bs >>= λ (rel, rest). some (jump rel, rest))
    else if op == 0xff
    then on_register (modrm p bs)
        (λ reg rm rest. if reg == 4 then some (jump_to rm, rest) else none)
    else if op == 0x80
    then elim (modrm p bs) [
      | none ↦ none
      | some (reg, o, rest) ↦ elim o [
        | direct rm ↦ none
        | based base disp ↦ none
        | indexed base index scale disp ↦ imm8 rest >>= λ (v, tl).
            if reg == 7 && scale == 1 then some (compare_byte base index disp v, tl) else none
      ]
    ]
    else if op == 0xf6
    then elim (modrm p bs) [
      | none ↦ none
      | some (reg, o, rest) ↦ elim o [
        | direct rm ↦ none
        | based base disp ↦
            imm8 rest >>= λ (v, tl). if reg == 0 then some (test_byte base disp v, tl) else none
        | indexed a b c d ↦ none
      ]
    ]
    else if p.w == 1
    then wide_opcode p op bs
    else none

unfoldable pub decode : List ℕ → Option (Insn × List ℕ)
decode bs = let (p, rest) = split_prefix bs in opcode p rest
