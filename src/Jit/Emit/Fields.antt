-- ===== src/Jit/Emit/Fields.antt =====
-- The parts of an instruction that kernel/src/jit.c emits, decoded: prefix, operands, immediates.
use subleq_emu.Prelude.{
  ℕ, ◌+◌, ◌*◌, ◌/◌, ◌%◌, ◌≤◌, ◌<◌, ◌≡◌, refl, ap, ◌⊎◌, inl, inr, Bool, false, ◌&&◌, not, some, List,
  [], ◌∷◌, ◌++◌, ◌==◌, if◌then◌else◌, Bool-cases, two32, two64, arith,
}
use subleq_emu.Jit.Emit.{e8, e32, e64, rex, fits8, operand_mod, mem_operand, modrm_reg}
use subleq_emu.Jit.Emit.Decode.{
  Prefix, split_prefix, direct, based, imm32, imm64, displacement, modrm,
}

abbrev pub fields : ℕ → ℕ → ℕ → ℕ → Prefix
fields w r x b = record { w = w; r = r / 8; x = x / 8; b = b / 8 }

pub split_prefix-rex :
    (w r x b op : ℕ) (tl : List ℕ)
    → w < 2
    → r < 16
    → x < 16
    → b < 16
    → (op < 0x40) ⊎ (0x50 ≤ op)
    → split_prefix (rex w r x b ++ (op ∷ tl)) ≡ (fields w r x b, op ∷ tl)
unfolding rex
split_prefix-rex w r x b op tl hw hr hx hb ho = ground arith

pub imm32-e32 : (v : ℕ) (tl : List ℕ) → v < two32 → imm32 (e32 v ++ tl) ≡ some (v, tl)
imm32-e32 v tl h = ap (λ n. some (n, tl)) (omega arith)

pub imm64-e64 : (v : ℕ) (tl : List ℕ) → v < two64 → imm64 (e64 v ++ tl) ≡ some (v, tl)
imm64-e64 v tl h = ap (λ n. some (n, tl)) (omega arith)

pub modrm-modrm_reg :
    (w x reg rm : ℕ) (tl : List ℕ)
    → reg < 16
    → rm < 16
    → modrm (fields w reg x rm) (modrm_reg reg rm ∷ tl) ≡ some (reg, direct rm, tl)
modrm-modrm_reg w x reg rm tl h k = ground arith

-- The displacement behind a byte with the `mod` that the emitter chose for it.
displacement-mod :
    (base disp : ℕ) (tl : List ℕ)
    → disp < two32
    → displacement (operand_mod base disp) (
        (if operand_mod base disp == 1
          then e8 disp
          else if operand_mod base disp == 2
          then e32 disp
          else [])
        ++ tl)
      ≡ some (disp, tl)
displacement-mod base disp tl h = elim (Bool-cases (disp == 0 && not (base % 8 == 5))) [
  | inl nothing ↦ rw nothing (ground arith)
  | inr something ↦ rw something (elim (Bool-cases (fits8 disp)) [
    | inl short ↦ rw short (ground arith)
    | inr long ↦ rw long (imm32-e32 disp tl h)
  ])
]

operand_mod-lt : (base disp : ℕ) → operand_mod base disp < 3
operand_mod-lt base disp = ground arith

-- Without a displacement the base is none of those that the encoding takes away.
operand_mod-base : (base disp : ℕ) → base % 8 ≡ 5 → (operand_mod base disp == 0) ≡ false
operand_mod-base base disp e = ground arith

split_modrm :
    (m reg base : ℕ)
    → m < 3
    → ((m * 64 + reg % 8 * 8 + base % 8) / 64 ≡ m)
      × ((m * 64 + reg % 8 * 8 + base % 8) / 8 % 8 ≡ reg % 8)
      × ((m * 64 + reg % 8 * 8 + base % 8) % 8 ≡ base % 8)
split_modrm m reg base h = (omega arith, omega arith, omega arith)

and_false : (b : Bool) → (b && false) ≡ false
and_false b = ground arith

join : (r : ℕ) → r % 8 + 8 * (r / 8) ≡ r
join r = omega arith

pub modrm-mem_operand :
    (w reg base disp : ℕ) (tl : List ℕ)
    → reg < 16
    → base < 16
    → disp < two32
    → modrm (fields w reg 0 base) (mem_operand reg base disp ++ tl)
      ≡ some (reg, based base disp, tl)
unfolding mem_operand
modrm-mem_operand w reg base disp tl hr hb hd =
    let small = operand_mod-lt base disp in
    let (a, b, c) = split_modrm (operand_mod base disp) reg base small in
    let memory : (operand_mod base disp == 3) ≡ false = ground arith in
    elim (Bool-cases (base % 8 == 4)) [
      | inl sib ↦
          rw (a, b, c, sib, memory, and_false, displacement-mod base disp tl hd, join reg)
            (ap (λ n. some (reg, based n disp, tl)) (ground arith))
      | inr plain ↦
          let based_mod : (operand_mod base disp == 0 && (base % 8 == 5)) ≡ false = ground arith in
          rw
            (
              a,
              b,
              c,
              plain,
              memory,
              based_mod,
              displacement-mod base disp tl hd,
              join reg,
              join base,
            )
            refl
    ]
