-- ===== src/Memory/Copy.antt =====
-- `memcpy`, `memmove` and `memset` of kernel/src/memory.c, byte for byte.
use subleq_emu.Prelude.{
  ℕ, zero, suc, ◌+◌, ◌-◌, ◌%◌, ◌≤◌, ◌≡◌, refl, ap, ◌∙◌, inl, inr, ◌⊎◌, Bool, true, false, ◌&&◌,
  ◌==◌, ltb, leb, Bool-cases, if◌then◌else◌, update, arith,
}
use subleq_emu.Ram.{Ram}
use subleq_emu.Memory.{copy_up, copy_down, memcpy, memmove, fill, memset}

abbrev pub in_range : ℕ → ℕ → ℕ → Bool
in_range start n a = leb start a && ltb a (start + n)

-- Every byte of the destination is what its source byte was in `m`, and no other byte has changed.
abbrev pub IsCopy : Ram → ℕ → ℕ → ℕ → Ram → Type 0
IsCopy m dest src n after =
    (a : ℕ) → after a ≡ (if in_range dest n a then m (src + (a - dest)) else m a)

abbrev pub IsFilled : Ram → ℕ → ℕ → ℕ → Ram → Type 0
IsFilled m s c n after = (a : ℕ) → after a ≡ (if in_range s n a then c else m a)

module _ (dest src : ℕ) where
  copy_up_at :
      (n : ℕ) (m : Ram) (i a : ℕ)
      → (dest ≤ src) ⊎ (src + (i + n) ≤ dest)
      → copy_up n m dest src i a ≡ (if in_range (dest + i) n a then m (src + (a - dest)) else m a)
  unfolding copy_up
  copy_up_at zero m i a h = let out : in_range (dest + i) 0 a ≡ false = ground arith in rw out refl
  copy_up_at (suc n) m i a h =
      let later = copy_up_at n (update m (dest + i) (m (src + i))) (i + 1) a (ground arith) in
      later ∙ elim (Bool-cases (dest + i == a)) [
        | inl here ↦
            let out : in_range (dest + (i + 1)) n a ≡ false = ground arith in
            let within : in_range (dest + i) (suc n) a ≡ true = ground arith in
            rw (out, within, here) (ap m (ground arith))
        | inr other ↦ elim (Bool-cases (in_range (dest + (i + 1)) n a)) [
          | inl within ↦
              let whole : in_range (dest + i) (suc n) a ≡ true = ground arith in
              let apart : (dest + i == src + (a - dest)) ≡ false = ground arith in
              rw (within, whole, apart) refl
          | inr out ↦
              let outside : in_range (dest + i) (suc n) a ≡ false = ground arith in
              rw (out, outside, other) refl
        ]
      ]

  copy_down_at :
      (n : ℕ) (m : Ram) (a : ℕ)
      → src ≤ dest
      → copy_down n m dest src a ≡ (if in_range dest n a then m (src + (a - dest)) else m a)
  unfolding copy_down
  copy_down_at zero m a h = let out : in_range dest 0 a ≡ false = ground arith in rw out refl
  copy_down_at (suc n) m a h =
      let later = copy_down_at n (update m (dest + n) (m (src + n))) a h in
      later ∙ elim (Bool-cases (dest + n == a)) [
        | inl here ↦
            let out : in_range dest n a ≡ false = ground arith in
            let within : in_range dest (suc n) a ≡ true = ground arith in
            rw (out, within, here) (ap m (ground arith))
        | inr other ↦ elim (Bool-cases (in_range dest n a)) [
          | inl within ↦
              let whole : in_range dest (suc n) a ≡ true = ground arith in
              let apart : (dest + n == src + (a - dest)) ≡ false = ground arith in
              rw (within, whole, apart) refl
          | inr out ↦
              let outside : in_range dest (suc n) a ≡ false = ground arith in
              rw (out, outside, other) refl
        ]
      ]

  from_start :
      (n : ℕ) (m : Ram) (a : ℕ)
      → (dest ≤ src) ⊎ (src + n ≤ dest)
      → copy_up n m dest src 0 a ≡ (if in_range dest n a then m (src + (a - dest)) else m a)
  from_start n m a h =
      let start : dest + 0 ≡ dest = omega arith in rw start at (copy_up_at n m 0 a (ground arith))

  -- `memcpy` copies the range when the destination is not above the source or starts behind it.
  pub memcpy-IsCopy :
      (m : Ram) (n : ℕ)
      → (dest ≤ src) ⊎ (src + n ≤ dest)
      → IsCopy m dest src n (memcpy m dest src n)
  unfolding memcpy
  memcpy-IsCopy m n h a = from_start n m a h

  in_place : (m : Ram) (n : ℕ) → dest ≡ src → IsCopy m dest src n m
  in_place m n e a = elim (Bool-cases (in_range dest n a)) [
    | inl within ↦ rw within (ap m (ground arith))
    | inr out ↦ rw out refl
  ]

  -- `memmove` copies the range, however the two ranges overlap.
  pub memmove-IsCopy : (m : Ram) (n : ℕ) → IsCopy m dest src n (memmove m dest src n)
  unfolding memmove
  memmove-IsCopy m n a = elim (Bool-cases (ltb dest src)) [
    | inl up ↦ rw up (from_start n m a (inl (ground arith)))
    | inr no_up ↦ elim (Bool-cases (ltb src dest)) [
      | inl down ↦ rw (no_up, down) (copy_down_at n m a (ground arith))
      | inr same ↦ rw (no_up, same) (in_place m n (ground arith) a)
    ]
  ]

fill_at :
    (n : ℕ) (m : Ram) (s c i a : ℕ)
    → fill n m s c i a ≡ (if in_range (s + i) n a then c % 256 else m a)
unfolding fill
fill_at zero m s c i a = let out : in_range (s + i) 0 a ≡ false = ground arith in rw out refl
fill_at (suc n) m s c i a =
    fill_at n (update m (s + i) (c % 256)) s c (i + 1) a ∙ elim (Bool-cases (s + i == a)) [
      | inl here ↦
          let within : in_range (s + i) (suc n) a ≡ true = ground arith in
          let out : in_range (s + (i + 1)) n a ≡ false = ground arith in rw (out, within, here) refl
      | inr other ↦
          let same : in_range (s + i) (suc n) a ≡ in_range (s + (i + 1)) n a = ground arith in
          rw (other, same) refl
    ]

-- `memset` fills the range with the low byte of the value, and changes no other byte.
pub memset-IsFilled : (m : Ram) (s c n : ℕ) → IsFilled m s (c % 256) n (memset m s c n)
unfolding memset
memset-IsFilled m s c n a = let start : s + 0 ≡ s = omega arith in rw start at (fill_at n m s c 0 a)
