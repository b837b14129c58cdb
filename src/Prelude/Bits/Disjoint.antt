-- ===== src/Prelude/Bits/Disjoint.antt =====
-- `|` of a number with zeros below and one that fits in them is their sum.
use Prim.Native.Nat.{bit_or, bit_or-bitwise, ℕ, zero, suc, ◌+◌, ◌*◌, ◌/◌, ◌^◌, ◌<◌}
use mathlib.Core.Path.{◌≡◌, refl, ap, ◌∙◌}
use native.Mathlib.Omega.{arith}
use native.Mathlib.Nat.{pow-suc}
use subleq_emu.Prelude.Bits.Step.{bit_or_step}
use subleq_emu.Prelude.Bits.{bit_or-zero}

zero_left : (x : ℕ) → bit_or 0 x ≡ x
zero_left x = rw (bit_or-bitwise 0 x) refl

shift_suc : (x n : ℕ) → x * 2 ^ suc n ≡ 2 * (x * 2 ^ n)
shift_suc x n = rw (pow-suc 2 n) (grind arith)

pub bit_or_low :
    (n x y : ℕ)
    → y < 2 ^ n
    → (bit_or (x * 2 ^ n) y ≡ x * 2 ^ n + y) × (bit_or y (x * 2 ^ n) ≡ x * 2 ^ n + y)
bit_or_low zero x y h =
    let none : y ≡ 0 = omega arith in
    let one : x * 2 ^ 0 ≡ x = omega arith in
    rw (none, one) (bit_or-zero x ∙ omega arith, zero_left x ∙ omega arith)
bit_or_low (suc n) x y h =
    let (l, r) = bit_or_low n x (y / 2) (omega (arith, pow-suc 2 n)) in
    let e = shift_suc x n in
    let half : x * 2 ^ suc n / 2 ≡ x * 2 ^ n = omega (arith, e) in
    (
      omega (arith, bit_or_step (x * 2 ^ suc n) y, ap (λ t. bit_or t (y / 2)) half, l, e),
      omega (arith, bit_or_step y (x * 2 ^ suc n), ap (bit_or (y / 2)) half, r, e),
    )
