-- ===== src/Memory/Compare.antt =====
-- `memcmp` of kernel/src/memory.c against the order of byte strings.
use subleq_emu.Prelude.{
  ℕ, zero, suc, ◌+◌, ◌≤◌, ◌<◌, ◌≡◌, subst, inl, inr, ◌==◌, ltb, Bool-cases, arith, ℤ, pos, negsuc,
  true, false,
}
use subleq_emu.Ram.{Ram}
use subleq_emu.Memory.{compare_from, memcmp}

-- The bytes from `i` on agree up to the first `k`.
abbrev pub Agree : Ram → ℕ → ℕ → ℕ → ℕ → Type 0
Agree m s1 s2 i k = (j : ℕ) → i ≤ j → j < i + k → m (s1 + j) ≡ m (s2 + j)

-- What a result says: -1 and 1 that the first difference is so, 0 that there is none. No other
-- number is a result.
abbrev pub Says : Ram → ℕ → ℕ → ℕ → ℕ → ℤ → Type 0
Says m s1 s2 i n (pos zero) = Agree m s1 s2 i n
Says m s1 s2 i n (pos (suc (suc r))) = false ≡ true
Says m s1 s2 i n (pos (suc zero)) =
    (k : ℕ) × (k < n) × Agree m s1 s2 i k × (m (s2 + (i + k)) < m (s1 + (i + k)))
Says m s1 s2 i n (negsuc (suc r)) = false ≡ true
Says m s1 s2 i n (negsuc zero) =
    (k : ℕ) × (k < n) × Agree m s1 s2 i k × (m (s1 + (i + k)) < m (s2 + (i + k)))

next : (i k : ℕ) → i + 1 + k ≡ i + suc k
next i k = omega arith

==→eq : (i j : ℕ) → (i == j) ≡ true → i ≡ j
==→eq i j e = ground arith

module _ (m : Ram) (s1 s2 : ℕ) where
  longer : (i k : ℕ) → m (s1 + i) ≡ m (s2 + i) → Agree m s1 s2 (i + 1) k → Agree m s1 s2 i (suc k)
  longer i k e rest j ge lt = elim (Bool-cases (i == j)) [
    | inl first ↦ subst (λ q. m (s1 + q) ≡ m (s2 + q)) (==→eq i j first) e
    | inr later ↦ rest j (ground arith) (omega arith)
  ]

  one_earlier :
      (i n : ℕ) (r : ℤ)
      → m (s1 + i) ≡ m (s2 + i)
      → Says m s1 s2 (i + 1) n r
      → Says m s1 s2 i (suc n) r
  one_earlier i n (pos zero) e h = longer i n e h
  one_earlier i n (pos (suc (suc r))) e h = h
  one_earlier i n (pos (suc zero)) e (k, lt, same, less) =
      (suc k, omega arith, longer i k e same, subst (λ q. m (s2 + q) < m (s1 + q)) (next i k) less)
  one_earlier i n (negsuc (suc r)) e h = h
  one_earlier i n (negsuc zero) e (k, lt, same, less) =
      (suc k, omega arith, longer i k e same, subst (λ q. m (s1 + q) < m (s2 + q)) (next i k) less)

  compare_from-Says : (n i : ℕ) → Says m s1 s2 i n (compare_from n m s1 s2 i)
  unfolding compare_from
  compare_from-Says zero i = λ j ge lt. ground arith
  compare_from-Says (suc n) i = elim (Bool-cases (m (s1 + i) == m (s2 + i))) [
    | inl same ↦ rw (Says, same) (one_earlier i n _ (ground arith) (compare_from-Says n (i + 1)))
    | inr differ ↦ elim (Bool-cases (ltb (m (s1 + i)) (m (s2 + i)))) [
      | inl less ↦ rw (differ, less) (0, omega arith, λ j ge lt. ground arith, ground arith)
      | inr more ↦ rw (differ, more) (0, omega arith, λ j ge lt. ground arith, ground arith)
    ]
  ]

  -- `memcmp` gives 0, -1 or 1 and nothing else: 0 when the ranges agree, and else -1 or 1 as the
  -- first byte in which they differ is the smaller or the larger one in the first range.
  pub memcmp-Says : (n : ℕ) → Says m s1 s2 0 n (memcmp m s1 s2 n)
  unfolding memcmp
  memcmp-Says n = compare_from-Says n 0
