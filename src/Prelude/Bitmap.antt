-- ===== src/Prelude/Bitmap.antt =====
-- A bitmap in an array of `w`-bit words: `(m[i / w] >> (i % w)) & 1`, `m[i / w] |= 1 << (i % w)`
-- and `m[i / w] &= ~(1 << (i % w))`, as pmm.c (32-bit words) and jit.c (bytes) write them.
use Prim.Native.Nat.{ℕ, ◌+◌, ◌-◌, ◌*◌, ◌/◌, ◌%◌, ◌^◌, ◌<◌, bit_and, bit_or}
use mathlib.Core.Path.{◌≡◌, ap, ap₂, ◌∙◌, sym}
use mathlib.Core.Logic.{◌≢◌, inl, inr}
use native.Mathlib.Nat.{div-add-mod, mod-lt}
use native.Mathlib.Omega.{arith}
use subleq_emu.Prelude.Tests.{◌==◌, if◌then◌else◌, Bool-cases, ==_iff, ==→ne, ne→==, ==_self}
use subleq_emu.Prelude.Lists.{update}
use subleq_emu.Prelude.Bits.{
  bit, bit-lt_two, bit_and-shift, bit-bit_or, bit-bit_and_clear, bit_or-lt, bit_and-le,
}

module _ (w : ℕ) where
  abbrev pub get : (ℕ → ℕ) → ℕ → ℕ
  get m i = bit_and (m (i / w) / 2 ^ (i % w)) 1

  abbrev pub set : (ℕ → ℕ) → ℕ → ℕ → ℕ
  set m i = update m (i / w) (bit_or (m (i / w)) (2 ^ (i % w)))

  abbrev pub clear : (ℕ → ℕ) → ℕ → ℕ → ℕ
  clear m i = update m (i / w) (bit_and (m (i / w)) (2 ^ w - 1 - 2 ^ (i % w)))

  abbrev pub IsWords : (ℕ → ℕ) → Type 0
  IsWords m = (e : ℕ) → m e < 2 ^ w

  -- What `get` gives of an array changed at one entry.
  get-update :
      (m : ℕ → ℕ) (i j v : ℕ) (b : ℕ)
      → ((k : ℕ) → bit v k ≡ (if i % w == k then b else bit (m (i / w)) k))
      → get (update m (i / w) v) j ≡ (if i == j then b else get m j)
  get-update m i j v b h = elim (Bool-cases (i / w == j / w)) [
    | inl same ↦
        let e : i / w ≡ j / w = (==_iff _ _).0 same in
        rw (same, bit_and-shift v (j % w), h (j % w), bit_and-shift (m (j / w)) (j % w), e)
          (elim (Bool-cases (i % w == j % w)) [
            | inl here ↦
                let i=j : i ≡ j =
                  sym (div-add-mod i w)
                  ∙ ap₂ (λ q r. w * q + r) e ((==_iff _ _).0 here)
                  ∙ div-add-mod j w in
                rw (here, i=j, ==_self j)
            | inr there ↦
                let apart : i ≢ j = λ p. ==→ne _ _ there (ap (λ t. t % w) p) in
                rw (there, ne→== i j apart)
          ])
    | inr other ↦
        let apart : i ≢ j = λ p. ==→ne _ _ other (ap (λ t. t / w) p) in rw (other, ne→== i j apart)
  ]

  pub get-set : (m : ℕ → ℕ) (i j : ℕ) → get (set m i) j ≡ (if i == j then 1 else get m j)
  get-set m i j = get-update m i j _ 1 (λ k. bit-bit_or (i % w) k (m (i / w)))

  pub get-clear :
      (m : ℕ → ℕ) (i j : ℕ)
      → 0 < w
      → IsWords m
      → get (clear m i) j ≡ (if i == j then 0 else get m j)
  get-clear m i j pos h =
      get-update m i j _ 0
        (λ k. bit-bit_and_clear w (i % w) k (m (i / w)) (h (i / w)) (mod-lt i pos))

  pub set-IsWords : (m : ℕ → ℕ) (i : ℕ) → 0 < w → IsWords m → IsWords (set m i)
  set-IsWords m i pos h e = elim (Bool-cases (i / w == e)) [
    | inl same ↦ rw same (bit_or-lt w (i % w) (m (i / w)) (h (i / w)) (mod-lt i pos))
    | inr other ↦ rw other (h e)
  ]

  pub clear-IsWords : (m : ℕ → ℕ) (i : ℕ) → IsWords m → IsWords (clear m i)
  clear-IsWords m i h e = elim (Bool-cases (i / w == e)) [
    | inl same ↦
        rw same
          (omega (arith, bit_and-le w (m (i / w)) (2 ^ w - 1 - 2 ^ (i % w)) (h (i / w)), h (i / w)))
    | inr other ↦ rw other (h e)
  ]

  pub get-lt_two : (m : ℕ → ℕ) (i : ℕ) → get m i < 2
  get-lt_two m i = rw (bit_and-shift (m (i / w)) (i % w)) (bit-lt_two (m (i / w)) (i % w))
