-- ===== src/Subleq.antt =====
-- The SUBLEQ machine itself: one instruction as kernel/src/subleq.asm runs it (`interp_cycle`) and
-- as the integers say it should run, and the loop of `subleq_interp`.
pub mod Agree
mod Tests
use subleq_emu.Prelude.{
  ℕ, zero, suc, ◌+◌, ◌-◌, ◌*◌, ◌/◌, ◌%◌, ◌^◌, Bool, true, false, not, Option, none, some, ◌&&◌,
  ◌||◌, ◌==◌, leb, ltb, if◌then◌else◌, add64, sub64, two63,
}
use subleq_emu.Ram.{Ram, load64, store64, bswap64}

-- Memory and `eip`.
abbrev pub State : Type 0
State = Ram × ℕ

-- The flags that `sub` leaves and `jg` reads, of operands `x - y`.
abbrev pub zero_flag : ℕ → ℕ → Bool
zero_flag x y = sub64 x y == 0

abbrev pub is_negative : ℕ → Bool
is_negative x = leb two63 x

-- The signed difference overflows when the operands' signs differ and the result's is not `x`'s.
abbrev pub overflow_flag : ℕ → ℕ → Bool
overflow_flag x y =
    if is_negative x
    then not (is_negative y) && not (is_negative (sub64 x y))
    else is_negative y && is_negative (sub64 x y)

-- `jg` jumps when ZF is clear and SF equals OF.
abbrev pub jumps_if_greater : ℕ → ℕ → Bool
jumps_if_greater x y =
    not (zero_flag x y)
    && (if is_negative (sub64 x y) then overflow_flag x y else not (overflow_flag x y))

-- The instructions of the macro in order; `rsi`, `rbx` and `rdi` hold the operands.
unfoldable pub interp_cycle : State → State
interp_cycle (m, r12) =
    let rsi = bswap64 (load64 m r12) in
    let rbx = bswap64 (load64 m (add64 r12 8)) in
    let rdi = load64 m (add64 r12 16) in
    let after = add64 r12 24 in
    let rax = bswap64 (load64 m rsi) in
    let rdx = bswap64 (load64 m rbx) in
    let stored = store64 m rbx (bswap64 (sub64 rdx rax)) in
    (stored, if jumps_if_greater rdx rax then after else bswap64 rdi)

-- One turn of `.loop` with the counter in `rcx`: four cycles, then `sub rcx, 4`. The second value is
-- ZF, which ends the loop.
unfoldable pub interp_turn : ℕ × State → (ℕ × State) × Bool
interp_turn (rcx, s) =
    ((sub64 rcx 4, interp_cycle (interp_cycle (interp_cycle (interp_cycle s)))), sub64 rcx 4 == 0)

-- The loop, which tests its counter after each turn; `none` when it needs more turns than `fuel`.
unfoldable pub interp_loop : ℕ → ℕ × State → Option State
interp_loop zero r = none
interp_loop (suc fuel) r =
    let (next, done) = interp_turn r in
    let rest = interp_loop fuel next in if done then some next.1 else rest

-- `subleq_interp(eip, count)` in at most `fuel` turns: the memory and the `eip` returned.
unfoldable pub subleq_interp : ℕ → Ram → ℕ → ℕ → Option State
subleq_interp fuel m eip count = interp_loop fuel (count, (m, eip))
