-- ===== src/Jit/Regs/Span.antt =====
-- A word that two aligned words span, put together from them.
use subleq_emu.Prelude.{
  ℕ, zero, suc, ◌+◌, ◌-◌, ◌*◌, ◌/◌, ◌%◌, ◌^◌, ◌<◌, ◌≡◌, sym, ap, ◌∙◌, arith, bit_or, two64,
}
use subleq_emu.Prelude.Bits.Disjoint.{bit_or_low}
use subleq_emu.Ram.{Ram, readram}
use subleq_emu.Ram.Words.{IsBytes, readram-lt, readram_big_endian}

joined :
    (n x y w : ℕ)
    → x / 2 ^ n * 2 ^ n ≡ x
    → y < 2 ^ n
    → x + y ≡ w
    → (bit_or x y ≡ w) × (bit_or y x ≡ w)
joined n x y w e lt sum =
    let (l, r) = bit_or_low n (x / 2 ^ n) y lt in
    (
      ap (λ t. bit_or t y) (sym e) ∙ l ∙ ap (λ (t : ℕ). t + y) e ∙ sum,
      ap (bit_or y) (sym e) ∙ r ∙ ap (λ (t : ℕ). t + y) e ∙ sum,
    )

module _ (m : Ram) (b : ℕ) (bytes : IsBytes m) where
  past : (c k : ℕ) → m (b + c + k) ≡ m (b + (c + k))
  past c k = ap m (omega arith)

  word_at :
      (c : ℕ)
      → readram m (b + c)
        ≡ m (b + (c + 7))
          + m (b + (c + 6)) * 256
          + m (b + (c + 5)) * 256 ^ 2
          + m (b + (c + 4)) * 256 ^ 3
          + m (b + (c + 3)) * 256 ^ 4
          + m (b + (c + 2)) * 256 ^ 5
          + m (b + (c + 1)) * 256 ^ 6
          + m (b + (c + 0)) * 256 ^ 7
  word_at c = omega (
    arith,
    readram_big_endian m (b + c) bytes,
    past c 1,
    past c 2,
    past c 3,
    past c 4,
    past c 5,
    past c 6,
    past c 7,
    ap m (ap (λ (t : ℕ). b + t) {x = c} {y = c + 0} (omega arith)),
  )

  small : (k : ℕ) → m (b + k) < 256
  small k = bytes (b + k)

  abbrev high : ℕ → ℕ
  high i = readram m (b + 0) * 2 ^ (i * 8) % two64

  abbrev low : ℕ → ℕ
  low i = readram m (b + 8) / 2 ^ (64 - i * 8)

  abbrev Spans : ℕ → Type 0
  Spans i =
      (bit_or (high i) (low i) ≡ readram m (b + i)) × (bit_or (low i) (high i) ≡ readram m (b + i))

  sum_one : high 1 + low 1 ≡ readram m (b + 1)
  sum_one = omega (arith, word_at 0, word_at 8, word_at 1, small)

  one-Spans : Spans 1
  one-Spans =
      joined 8 (high 1) (low 1) (readram m (b + 1)) (omega arith)
        (omega (arith, readram-lt m (b + 8))) sum_one

  sum_two : high 2 + low 2 ≡ readram m (b + 2)
  sum_two = omega (arith, word_at 0, word_at 8, word_at 2, small)

  two-Spans : Spans 2
  two-Spans =
      joined 16 (high 2) (low 2) (readram m (b + 2)) (omega arith)
        (omega (arith, readram-lt m (b + 8))) sum_two

  sum_three : high 3 + low 3 ≡ readram m (b + 3)
  sum_three = omega (arith, word_at 0, word_at 8, word_at 3, small)

  three-Spans : Spans 3
  three-Spans =
      joined 24 (high 3) (low 3) (readram m (b + 3)) (omega arith)
        (omega (arith, readram-lt m (b + 8))) sum_three

  sum_four : high 4 + low 4 ≡ readram m (b + 4)
  sum_four = omega (arith, word_at 0, word_at 8, word_at 4, small)

  four-Spans : Spans 4
  four-Spans =
      joined 32 (high 4) (low 4) (readram m (b + 4)) (omega arith)
        (omega (arith, readram-lt m (b + 8))) sum_four

  sum_five : high 5 + low 5 ≡ readram m (b + 5)
  sum_five = omega (arith, word_at 0, word_at 8, word_at 5, small)

  five-Spans : Spans 5
  five-Spans =
      joined 40 (high 5) (low 5) (readram m (b + 5)) (omega arith)
        (omega (arith, readram-lt m (b + 8))) sum_five

  sum_six : high 6 + low 6 ≡ readram m (b + 6)
  sum_six = omega (arith, word_at 0, word_at 8, word_at 6, small)

  six-Spans : Spans 6
  six-Spans =
      joined 48 (high 6) (low 6) (readram m (b + 6)) (omega arith)
        (omega (arith, readram-lt m (b + 8))) sum_six

  sum_seven : high 7 + low 7 ≡ readram m (b + 7)
  sum_seven = omega (arith, word_at 0, word_at 8, word_at 7, small)

  seven-Spans : Spans 7
  seven-Spans =
      joined 56 (high 7) (low 7) (readram m (b + 7)) (omega arith)
        (omega (arith, readram-lt m (b + 8))) sum_seven

  -- The word `i` bytes on, from the two words that it lies in.
  pub spans : (i : ℕ) → 0 < i → i < 8 → Spans i
  spans zero lo hi = absurd (omega arith)
  spans (suc zero) lo hi = one-Spans
  spans (suc (suc zero)) lo hi = two-Spans
  spans (suc (suc (suc zero))) lo hi = three-Spans
  spans (suc (suc (suc (suc zero)))) lo hi = four-Spans
  spans (suc (suc (suc (suc (suc zero))))) lo hi = five-Spans
  spans (suc (suc (suc (suc (suc (suc zero)))))) lo hi = six-Spans
  spans (suc (suc (suc (suc (suc (suc (suc zero))))))) lo hi = seven-Spans
  spans (suc (suc (suc (suc (suc (suc (suc (suc n)))))))) lo hi = absurd (omega arith)
