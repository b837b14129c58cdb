-- ===== src/Prelude/Bits/Step.antt =====
-- `&` and `|` by binary digits. The library defines both by a recursion that is given fuel; one
-- round of fuel more or less does not show once there is enough, so the lowest digit splits off.
use Prim.Native.Nat.{bit_and, bit_and-bitwise, bit_or, bit_or-bitwise, bitwise, digits, max, min}
use Prim.Native.Nat.{ℕ, zero, suc, ◌+◌, ◌-◌, ◌*◌, ◌/◌, ◌%◌, ◌≤◌}
use mathlib.Core.Path.{◌≡◌, refl, ap, ◌∙◌}
use native.Mathlib.Omega.{arith}

-- `extra` more rounds than `n`.
abbrev more : (extra n : ℕ) → ℕ
more zero n = n
more (suc extra) n = suc (more extra n)

more-eq_add : (extra n : ℕ) → more extra n ≡ n + extra
more-eq_add zero n = omega arith
more-eq_add (suc extra) n = omega (arith, more-eq_add extra n)

module _ (high : ℕ → ℕ) (digit : ℕ → ℕ → ℕ) where
  abbrev run : ℕ → ℕ → ℕ → ℕ
  run n x y = digits high digit n x y

  one_round : (n x y : ℕ) → x ≤ n → run (suc n) x y ≡ run n x y
  one_round zero zero y le = refl
  one_round zero (suc x) y le = absurd (omega arith)
  one_round (suc n) zero y le = refl
  one_round (suc n) (suc x) y le =
      ap (λ (t : ℕ). t * 2 + digit (suc x % 2) (y % 2))
        (one_round n (suc x / 2) (y / 2) (omega arith))

  rounds : (extra n x y : ℕ) → x ≤ n → run (more extra n) x y ≡ run n x y
  rounds zero n x y le = refl
  rounds (suc extra) n x y le =
      one_round (more extra n) x y (omega (arith, more-eq_add extra n)) ∙ rounds extra n x y le

  split_lowest :
      (x y : ℕ)
      → bitwise high digit (suc x) y
        ≡ bitwise high digit (suc x / 2) (y / 2) * 2 + digit (suc x % 2) (y % 2)
  split_lowest x y =
      let half = suc x / 2 in
      let spare : more (x - half) half ≡ x = omega (arith, more-eq_add (x - half) half) in
      ap (λ (t : ℕ). t * 2 + digit (suc x % 2) (y % 2))
        (rw spare at (rounds (x - half) half half (y / 2) (omega arith)))

pub bit_and_step : (x y : ℕ) → bit_and x y ≡ min (x % 2) (y % 2) + 2 * bit_and (x / 2) (y / 2)
bit_and_step zero y = rw (bit_and-bitwise 0 y, bit_and-bitwise 0 (y / 2)) (omega arith)
bit_and_step (suc x) y = omega (
  arith,
  bit_and-bitwise (suc x) y,
  bit_and-bitwise (suc x / 2) (y / 2),
  split_lowest (λ t. zero) min x y,
)

pub bit_or_step : (x y : ℕ) → bit_or x y ≡ max (x % 2) (y % 2) + 2 * bit_or (x / 2) (y / 2)
bit_or_step zero y = rw (bit_or-bitwise 0 y, bit_or-bitwise 0 (y / 2)) (omega arith)
bit_or_step (suc x) y = omega (
  arith,
  bit_or-bitwise (suc x) y,
  bit_or-bitwise (suc x / 2) (y / 2),
  split_lowest (λ t. t) max x y,
)
