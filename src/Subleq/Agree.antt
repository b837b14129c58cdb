-- ===== src/Subleq/Agree.antt =====
-- The assembly, the C step and the SUBLEQ instruction over the integers agree.
use subleq_emu.Prelude.{
  ℕ, zero, suc, ◌+◌, ◌-◌, ◌*◌, ◌/◌, ◌%◌, ◌≤◌, ◌<◌, ◌≡◌, refl, ◌∙◌, ap, ap₂, ◌↔◌, ◌⊎◌, inl, inr,
  true, false, some, not, ltb, ◌==◌, arith, Bool-cases, if◌then◌else◌, ℤ, pos, negsuc, ◌≤ℤ◌, add64,
  sub64, signed_le, two63, two64,
}
use subleq_emu.Ram.{Ram, readram, writeram}
use subleq_emu.Ram.Words.{readram-lt, readram-writeram, writeram-other}
use subleq_emu.Jit.State.{Machine}
use subleq_emu.Jit.Smc.{interp_step}
use subleq_emu.Jit.Smc.Step.{mem-interp_step}
use subleq_emu.Subleq.{
  State, jumps_if_greater, interp_cycle, interp_turn, interp_loop, subleq_interp,
}

-- `jg` after `sub` is the complement of the C comparison.
pub jumps_if_greater_lem :
    (x y : ℕ) → x < two64 → y < two64 → jumps_if_greater x y ≡ not (signed_le x y)
jumps_if_greater_lem x y hx hy = ground arith

-- One step of the C interpreter does to memory and `eip` what the assembly does.
pub interp_step-interp_cycle :
    (m : Machine) (c eip : ℕ)
    → let (after, next) = interp_step m c eip in (after.mem, next) ≡ interp_cycle (m.mem, eip)
unfolding interp_step interp_cycle readram writeram
interp_step-interp_cycle m c eip = ap₂ (λ (a : Ram) (n : ℕ). (a, n)) memory branch
  where
    va : ℕ
    va = readram m.mem (readram m.mem eip)

    vb : ℕ
    vb = readram m.mem (readram m.mem (add64 eip 8))

    memory : (interp_step m c eip).0.mem ≡ (interp_cycle (m.mem, eip)).0
    memory = mem-interp_step m c eip

    branch : (interp_step m c eip).1 ≡ (interp_cycle (m.mem, eip)).1
    branch =
        rw (jumps_if_greater_lem vb va (readram-lt m.mem _) (readram-lt m.mem _))
          (elim (Bool-cases (signed_le vb va)) [ inl e ↦ rw e | inr e ↦ rw e ])

-- The integer that a 64-bit pattern stands for in two's complement.
abbrev pub signed : ℕ → ℤ
signed x = if ltb x two63 then pos x else negsuc (two64 - x - 1)

signed_le_iff : (x y : ℕ) → x < two64 → y < two64 → (signed_le x y ≡ true) ↔ (signed x ≤ℤ signed y)
signed_le_iff x y hx hy = ground arith

-- The difference of `x` and `y` as signed numbers is not one of 64 bits: their signs differ, and the
-- stored difference has not the sign of `x`.
abbrev pub Overflows : ℕ → ℕ → Type 0
Overflows x y =
    ((two63 ≤ x) × (y < two63) × (sub64 x y < two63))
    ⊎ ((x < two63) × (two63 ≤ y) × (two63 ≤ sub64 x y))

-- The rule of hardware.txt: the stored difference is not above 0.
abbrev pub IsNotAbove0 : ℕ → Type 0
IsNotAbove0 x = signed x ≤ℤ pos 0

NotAbove0_iff :
    (x y : ℕ)
    → x < two64
    → y < two64
    → ¬ Overflows x y
    → IsNotAbove0 (sub64 x y) ↔ (signed x ≤ℤ signed y)
NotAbove0_iff x y hx hy n = ground arith

NotAbove0_overflow_iff :
    (x y : ℕ)
    → x < two64
    → y < two64
    → Overflows x y
    → IsNotAbove0 (sub64 x y) ↔ (¬ (signed x ≤ℤ signed y))
NotAbove0_overflow_iff x y hx hy n = ground arith

-- Control goes to `low` when `stored` is not above 0, and else to `high`.
abbrev pub Follows : ℕ → ℕ → ℕ → ℕ → Type 0
Follows stored next low high =
    (IsNotAbove0 stored → next ≡ low) × (¬ IsNotAbove0 stored → next ≡ high)

-- What running the instruction at `eip` should do: with operands A, B and C, the word at B becomes
-- B - A, no other byte changes, and control goes to C when B <= A as signed numbers, and else to
-- the next instruction. That is the rule of hardware.txt, C when the stored word is not above 0, as
-- long as the signed difference does not overflow; when it does, it is the contrary of that rule.
pub record Executes (m : Ram) (eip : ℕ) (after : Ram) (next : ℕ) : Type 0 where
  pub result :
      readram after (readram m (add64 eip 8))
      ≡ sub64 (readram m (readram m (add64 eip 8))) (readram m (readram m eip))
  pub others :
      (q : ℕ) → (q < readram m (add64 eip 8)) ⊎ (readram m (add64 eip 8) + 8 ≤ q) → after q ≡ m q
  pub taken :
      signed (readram m (readram m (add64 eip 8))) ≤ℤ signed (readram m (readram m eip))
      → next ≡ readram m (add64 eip 16)
  pub not_taken :
      ¬ (signed (readram m (readram m (add64 eip 8))) ≤ℤ signed (readram m (readram m eip)))
      → next ≡ add64 eip 24
  pub documented :
      ¬ Overflows (readram m (readram m (add64 eip 8))) (readram m (readram m eip))
      → Follows
          (readram after (readram m (add64 eip 8)))
          next
          (readram m (add64 eip 16))
          (add64 eip 24)
  pub contrary :
      Overflows (readram m (readram m (add64 eip 8))) (readram m (readram m eip))
      → Follows
          (readram after (readram m (add64 eip 8)))
          next
          (add64 eip 24)
          (readram m (add64 eip 16))

-- An interpreted instruction at any `eip` leaves B - A in the word at B and every other byte alone,
-- and goes to C exactly when B <= A as signed numbers. So it follows the rule of hardware.txt, which
-- goes by the stored difference, when B - A does not overflow, and goes the other way when it does.
pub interp_step-Executes :
    (m : Machine) (c eip : ℕ)
    → let (after, next) = interp_step m c eip in Executes m.mem eip after.mem next
unfolding interp_step
interp_step-Executes m c eip = record {
  result = result;
  others = λ q h. rw mem (writeram-other m.mem b (sub64 vb va) q h);
  taken = taken;
  not_taken = not_taken;
  documented = λ n. rw result (
      let rule = NotAbove0_iff vb va lt_b lt_a n in
      (λ h. taken (rule.0 h), λ h. not_taken (λ k. h (rule.1 k))));
  contrary = λ o. rw result (
      let rule = NotAbove0_overflow_iff vb va lt_b lt_a o in
      (λ h. not_taken (rule.0 h), λ h. taken (otherwise (λ k. h (rule.1 k)))));
}
  where
    b : ℕ
    b = readram m.mem (add64 eip 8)

    va : ℕ
    va = readram m.mem (readram m.mem eip)

    vb : ℕ
    vb = readram m.mem b

    lt_a : va < two64
    lt_a = readram-lt m.mem (readram m.mem eip)

    lt_b : vb < two64
    lt_b = readram-lt m.mem b

    mem : (interp_step m c eip).0.mem ≡ writeram m.mem b (sub64 vb va)
    mem = mem-interp_step m c eip

    order : (signed_le vb va ≡ true) ↔ (signed vb ≤ℤ signed va)
    order = signed_le_iff vb va lt_b lt_a

    result : readram (interp_step m c eip).0.mem b ≡ sub64 vb va
    result = rw mem (readram-writeram m.mem b (sub64 vb va) (omega arith))

    taken : signed vb ≤ℤ signed va → (interp_step m c eip).1 ≡ readram m.mem (add64 eip 16)
    taken h = rw (order.1 h)

    not_taken : ¬ (signed vb ≤ℤ signed va) → (interp_step m c eip).1 ≡ add64 eip 24
    not_taken h = elim (Bool-cases (signed_le vb va)) [
      | inl e ↦ absurd (h (order.0 e))
      | inr e ↦ rw e
    ]

    otherwise : ¬ ¬ (signed vb ≤ℤ signed va) → signed vb ≤ℤ signed va
    otherwise h = elim (Bool-cases (signed_le vb va)) [
      | inl e ↦ order.0 e
      | inr e ↦ absurd (h (λ k. ground (arith, order.1 k, e)))
    ]

abbrev pub cycles : ℕ → State → State
cycles zero s = s
cycles (suc n) s = cycles n (interp_cycle s)

interp_loop-cycles :
    (r fuel rcx : ℕ) (s : State)
    → rcx ≡ suc r * 4
    → rcx < two64
    → r < fuel
    → interp_loop fuel (rcx, s) ≡ some (cycles (suc r * 4) s)
unfolding interp_loop interp_turn
interp_loop-cycles r zero rcx s e lt enough = ground arith
interp_loop-cycles zero (suc fuel) rcx s e lt enough =
    let done : (sub64 rcx 4 == 0) ≡ true = ground arith in rw done refl
interp_loop-cycles (suc r) (suc fuel) rcx s e lt enough =
    let left : sub64 rcx 4 ≡ suc r * 4 = omega arith in
    let more : (sub64 rcx 4 == 0) ≡ false = ground arith in
    let four : suc (suc r) * 4 ≡ suc (suc (suc (suc (suc r * 4)))) = omega arith in
    rw (more, four)
      (interp_loop-cycles r fuel (sub64 rcx 4)
        (interp_cycle (interp_cycle (interp_cycle (interp_cycle s)))) left (omega arith)
        (omega arith))

-- For a positive 64-bit `count` that is a multiple of 4, `subleq_interp` ends within `count / 4`
-- turns of its loop, and it has then run exactly `count` instructions.
pub subleq_interp-cycles :
    (fuel : ℕ) (m : Ram) (eip count : ℕ)
    → 0 < count
    → count < two64
    → count % 4 ≡ 0
    → count / 4 ≤ fuel
    → subleq_interp fuel m eip count ≡ some (cycles count (m, eip))
unfolding subleq_interp
subleq_interp-cycles fuel m eip count some_left lt h enough =
    let whole : suc (count / 4 - 1) * 4 ≡ count = omega arith in
    interp_loop-cycles (count / 4 - 1) fuel count (m, eip) (omega arith) lt (omega arith)
    ∙ ap (λ n. some (cycles n (m, eip))) whole
