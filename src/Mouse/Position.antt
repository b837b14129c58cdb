-- ===== src/Mouse/Position.antt =====
-- The position that `process_packet` of kernel/src/mouse.c computes, against the nearest point of the
-- screen, and its scaling for Dawn.
use native.Mathlib.Nat.{div-lt_iff_lt-mul}
use subleq_emu.Prelude.{
  ℕ, ◌+◌, ◌-◌, ◌*◌, ◌/◌, ◌%◌, ◌≤◌, ◌<◌, ◌≡◌, refl, sym, Bool, true, false, inl, inr, leb,
  Bool-cases, if◌then◌else◌, two64, arith, ℤ, pos, negsuc, ◌+ℤ◌, ◌-ℤ◌, ◌≤ℤ◌,
}
use subleq_emu.Io.Reg
use subleq_emu.Mouse.{Mouse, Packet, has_bit, movement, clamp, scale_position, process_packet}

-- `x` is the point of the `bound` ones from 0 on that is nearest to `z`.
abbrev pub IsNearest : ℕ → ℤ → ℕ → Type 0
IsNearest bound z x =
    (x < bound)
    × ((i : ℕ) → i < bound → z ≤ℤ pos i → x ≤ i)
    × ((i : ℕ) → i < bound → pos i ≤ℤ z → i ≤ x)

clamp-IsNearest : (bound : ℕ) (z : ℤ) → 1 ≤ bound → IsNearest bound z (clamp bound z)
unfolding clamp
clamp-IsNearest bound (negsuc n) one =
    (omega arith, λ i lt le. omega arith, λ i lt le. ground arith)
clamp-IsNearest bound (pos n) one = elim (Bool-cases (leb bound n)) [
  | inl out ↦ rw out (omega arith, λ i lt le. ground arith, λ i lt le. omega arith)
  | inr inside ↦ rw inside (ground arith, λ i lt le. omega arith, λ i lt le. omega arith)
]

-- A 9-bit number in two's complement.
abbrev pub signed9 : ℕ → ℤ
signed9 v = if leb 256 v then negsuc (511 - v) else pos v

movement-signed9 :
    (byte : ℕ) (negative : Bool)
    → byte < 256
    → movement byte negative ≡ signed9 ((if negative then 256 else 0) + byte)
unfolding movement ◌-ℤ◌
movement-signed9 byte true lt = ground arith
movement-signed9 byte false lt = ground arith

-- The fraction of the screen in 32 fixed-point bits, which is below 1.
abbrev pub IsFraction : ℕ → ℕ → ℕ → Type 0
IsFraction max val s = (s ≡ Reg.fixed_one * val / max) × (s < Reg.fixed_one)

scale_position-IsFraction :
    (max val : ℕ) → val < max → max < 2147483648 → IsFraction max val (scale_position max val)
unfolding scale_position
scale_position-IsFraction max val lt small =
    let whole : Reg.fixed_one * val % two64 ≡ Reg.fixed_one * val = omega arith in
    rw whole (
      refl,
      (div-lt_iff_lt-mul {k = max} {x = Reg.fixed_one * val} {y = Reg.fixed_one} (omega arith)).1
          (omega arith),
    )

-- On a screen of at least one pixel and fewer than 2 ^ 31 each way, a packet of bytes moves the
-- pointer by its two 9-bit two's complement numbers, up for a positive second one, to the nearest
-- point of the screen; Dawn gets that point as a fraction of the screen, below 1.
pub process_packet-IsNearest :
    (w h : ℕ) (m : Mouse) (p : Packet)
    → 1 ≤ w
    → w < 2147483648
    → 1 ≤ h
    → h < 2147483648
    → p.x_mov < 256
    → p.y_mov < 256
    → IsNearest w
        (pos m.mouse_x +ℤ signed9 ((if has_bit p.flags 4 then 256 else 0) + p.x_mov))
        (process_packet w h m p).0.mouse_x
      × IsNearest h
          (pos m.mouse_y -ℤ signed9 ((if has_bit p.flags 5 then 256 else 0) + p.y_mov))
          (process_packet w h m p).0.mouse_y
      × IsFraction w (process_packet w h m p).0.mouse_x (process_packet w h m p).1.mouse_x
      × IsFraction h (process_packet w h m p).0.mouse_y (process_packet w h m p).1.mouse_y
unfolding process_packet
process_packet-IsNearest w h m p w1 w2 h1 h2 bx by =
    rw
      (
        sym (movement-signed9 p.x_mov (has_bit p.flags 4) bx),
        sym (movement-signed9 p.y_mov (has_bit p.flags 5) by),
      )
      (
        clamp-IsNearest w _ w1,
        clamp-IsNearest h _ h1,
        scale_position-IsFraction w _ (clamp-IsNearest w _ w1).0 w2,
        scale_position-IsFraction h _ (clamp-IsNearest h _ h1).0 h2,
      )
