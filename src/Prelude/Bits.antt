-- ===== src/Prelude/Bits.antt =====
-- Single bits of a number, at every width: `(x >> k) & 1`, `x | (1 << k)` and `x & ~(1 << k)`.
mod Step
pub mod Disjoint
use Step.{bit_or_step, bit_and_step}
use Prim.Native.Nat.{
  ℕ, zero, suc, ◌+◌, ◌-◌, ◌*◌, ◌/◌, ◌%◌, ◌^◌, ◌≤◌, ◌<◌, bit_and, bit_or, bit_and-bitwise,
}
use mathlib.Core.Path.{◌≡◌, refl, ap, ◌∙◌}
use mathlib.Core.Logic.{◌≢◌}
use mathlib.Core.WellFounded
use native.Mathlib.Nat.{pow-suc, one-le-pow, div-div-eq-div-mul}
use native.Mathlib.Omega.{arith}
use subleq_emu.Prelude.Tests.{◌==◌, ltb, if◌then◌else◌}
use subleq_emu.Prelude.Order.{lt_wf}

-- Bit `k`, by recursion.
abbrev pub bit : ℕ → ℕ → ℕ
bit x zero = x % 2
bit x (suc k) = bit (x / 2) k

pub bit-lt_two : (x k : ℕ) → bit x k < 2
bit-lt_two x zero = omega arith
bit-lt_two x (suc k) = bit-lt_two (x / 2) k

-- No bits in common with 0, and none added by it; `n` bounds the digits left.
and_or_zero : (n x : ℕ) → x ≤ n → (bit_and x 0 ≡ 0) × (bit_or x 0 ≡ x)
and_or_zero n zero le = (refl, refl)
and_or_zero zero (suc x) le = absurd (omega arith)
and_or_zero (suc n) (suc x) le =
    omega (
      arith,
      bit_and_step (suc x) 0,
      bit_or_step (suc x) 0,
      and_or_zero n (suc x / 2) (omega arith),
    )

bit_and-zero : (x : ℕ) → bit_and x 0 ≡ 0
bit_and-zero x = (and_or_zero x x (omega arith)).0

pub bit_or-zero : (x : ℕ) → bit_or x 0 ≡ x
bit_or-zero x = (and_or_zero x x (omega arith)).1

pub bit_and-one : (a : ℕ) → bit_and a 1 ≡ a % 2
bit_and-one a = omega (arith, bit_and_step a 1, bit_and-zero (a / 2))

bit_of_zero : (k : ℕ) → bit 0 k ≡ 0
bit_of_zero zero = refl
bit_of_zero (suc k) = bit_of_zero k

double_half : (k : ℕ) → 2 ^ suc k / 2 ≡ 2 ^ k
double_half k = omega (arith, pow-suc 2 k)

double_even : (k : ℕ) → 2 ^ suc k % 2 ≡ 0
double_even k = omega (arith, pow-suc 2 k)

div-pow-suc : (x k : ℕ) → x / 2 ^ suc k ≡ x / 2 / 2 ^ k
div-pow-suc x k = rw (div-div-eq-div-mul x 2 (2 ^ k)) (ap (λ t. x / t) (omega (arith, pow-suc 2 k)))

-- `(x >> k) & 1`
pub bit_and-shift : (x k : ℕ) → bit_and (x / 2 ^ k) 1 ≡ bit x k
bit_and-shift x zero = bit_and-one (x / 1) ∙ omega arith
bit_and-shift x (suc k) = rw div-pow-suc (bit_and-shift (x / 2) k)

suc-eq_suc : (k j : ℕ) → (suc k == suc j) ≡ (k == j)
suc-eq_suc k j = ground arith

bit_or_half : (x k : ℕ) → bit_or x (2 ^ suc k) / 2 ≡ bit_or (x / 2) (2 ^ k)
bit_or_half x k =
    omega
      (arith, bit_or_step x (2 ^ suc k), ap (λ t. bit_or (x / 2) t) (double_half k), double_even k)

-- `x | (1 << k)` sets bit `k` and no other.
pub bit-bit_or : (k j x : ℕ) → bit (bit_or x (2 ^ k)) j ≡ (if k == j then 1 else bit x j)
bit-bit_or zero zero x = omega (arith, bit_or_step x 1)
bit-bit_or zero (suc j) x = rw half (ground arith)
  where
    half : bit_or x 1 / 2 ≡ x / 2
    half = omega (arith, bit_or_step x 1, bit_or-zero (x / 2))
bit-bit_or (suc k) zero x = ground (arith, bit_or_step x (2 ^ suc k), double_even k)
bit-bit_or (suc k) (suc j) x = rw (bit_or_half x k, bit-bit_or k j (x / 2), suc-eq_suc k j)

pow-lt : (k w : ℕ) → k < w → 2 ^ k < 2 ^ w
pow-lt k zero h = absurd (omega arith)
pow-lt zero (suc w) h = omega (arith, pow-suc 2 w, one-le-pow w 2)
pow-lt (suc k) (suc w) h = omega (arith, pow-suc 2 w, pow-suc 2 k, pow-lt k w (omega arith))

-- All ones in `w` bits.
pub bit_of_ones : (w k : ℕ) → k < w → bit (2 ^ w - 1) k ≡ 1
bit_of_ones zero k h = absurd (omega arith)
bit_of_ones (suc w) zero h = omega (arith, pow-suc 2 w, one-le-pow w 2)
bit_of_ones (suc w) (suc k) h = ap (λ t. bit t k) half ∙ bit_of_ones w k (omega arith)
  where
    half : (2 ^ suc w - 1) / 2 ≡ 2 ^ w - 1
    half = omega (arith, pow-suc 2 w)

bit_and_ones : (w x : ℕ) → x < 2 ^ w → bit_and x (2 ^ w - 1) ≡ x
bit_and_ones zero x h = rw bit_and-zero (omega arith)
bit_and_ones (suc w) x h = omega (
  arith,
  bit_and_step x (2 ^ suc w - 1),
  pow-suc 2 w,
  one-le-pow w 2,
  ap (λ t. bit_and (x / 2) t) halved,
  bit_and_ones w (x / 2) (omega (arith, pow-suc 2 w)),
)
  where
    halved : (2 ^ suc w - 1) / 2 ≡ 2 ^ w - 1
    halved = omega (arith, pow-suc 2 w, one-le-pow w 2)

-- `x & ~(1 << k)` in a `w`-bit word clears bit `k` and keeps the others.
pub bit-bit_and_clear :
    (w k j x : ℕ)
    → x < 2 ^ w
    → k < w
    → bit (bit_and x (2 ^ w - 1 - 2 ^ k)) j ≡ (if k == j then 0 else bit x j)
bit-bit_and_clear zero k j x hx hk = absurd (omega arith)
bit-bit_and_clear (suc w) zero zero x hx hk =
    omega (arith, bit_and_step x (2 ^ suc w - 1 - 1), pow-suc 2 w, one-le-pow w 2)
bit-bit_and_clear (suc w) zero (suc j) x hx hk = rw half (ground arith)
  where
    halved : (2 ^ suc w - 1 - 1) / 2 ≡ 2 ^ w - 1
    halved = omega (arith, pow-suc 2 w, one-le-pow w 2)

    half : bit_and x (2 ^ suc w - 1 - 1) / 2 ≡ x / 2
    half = omega (
      arith,
      bit_and_step x (2 ^ suc w - 1 - 1),
      pow-suc 2 w,
      one-le-pow w 2,
      ap (λ t. bit_and (x / 2) t) halved,
      bit_and_ones w (x / 2) (omega (arith, pow-suc 2 w)),
    )
bit-bit_and_clear (suc w) (suc k) zero x hx hk = ground (
  arith,
  bit_and_step x (2 ^ suc w - 1 - 2 ^ suc k),
  pow-suc 2 w,
  pow-suc 2 k,
  pow-lt k w (omega arith),
)
bit-bit_and_clear (suc w) (suc k) (suc j) x hx hk =
    rw (half, suc-eq_suc k j) (bit-bit_and_clear w k j (x / 2) (omega (arith, pow-suc 2 w)) hk')
  where
    hk' : k < w
    hk' = omega arith

    halved : (2 ^ suc w - 1 - 2 ^ suc k) / 2 ≡ 2 ^ w - 1 - 2 ^ k
    halved = omega (arith, pow-suc 2 w, pow-suc 2 k, pow-lt k w hk')

    half : bit_and x (2 ^ suc w - 1 - 2 ^ suc k) / 2 ≡ bit_and (x / 2) (2 ^ w - 1 - 2 ^ k)
    half = omega (
      arith,
      bit_and_step x (2 ^ suc w - 1 - 2 ^ suc k),
      ap (λ t. bit_and (x / 2) t) halved,
      pow-suc 2 w,
      pow-suc 2 k,
      pow-lt k w hk',
    )

-- A word of fewer than `w` bits stays one.
pub bit_or-lt : (w k x : ℕ) → x < 2 ^ w → k < w → bit_or x (2 ^ k) < 2 ^ w
bit_or-lt zero k x hx hk = absurd (omega arith)
bit_or-lt (suc w) zero x hx hk =
    omega (arith, bit_or_step x 1, bit_or-zero (x / 2), pow-suc 2 w, one-le-pow w 2)
bit_or-lt (suc w) (suc k) x hx hk = omega (
  arith,
  bit_or_half x k,
  pow-suc 2 w,
  bit_or-lt w k (x / 2) (omega (arith, pow-suc 2 w)) (omega arith),
)

zero-bit_and : (y : ℕ) → bit_and 0 y ≡ 0
zero-bit_and y = bit_and-bitwise 0 y

pub bit_and-le : (w x y : ℕ) → x < 2 ^ w → bit_and x y ≤ x
bit_and-le zero x y hx = let e : x ≡ 0 = omega arith in rw (e, zero-bit_and y) (omega arith)
bit_and-le (suc w) x y hx =
    omega (arith, bit_and_step x y, bit_and-le w (x / 2) (y / 2) (omega (arith, pow-suc 2 w)))
