-- ===== src/Ram/Words.antt =====
-- A word written is the word read, most significant byte first, and other bytes are untouched.
use subleq_emu.Prelude.{
  ℕ, zero, suc, ◌+◌, ◌-◌, ◌*◌, ◌^◌, ◌≤◌, ◌<◌, ◌≡◌, ◌∙◌, ap, ◌⊎◌, inl, inr, arith, true, leb, ltb,
  ◌&&◌, if◌then◌else◌, two64, Bool-cases, refl,
}
use native.Mathlib.Nat.{zero-div}
use subleq_emu.Ram.{Ram, byte, load64, store64, bswap64, readram, writeram}

abbrev pub IsBytes : Ram → Type 0
IsBytes m = (a : ℕ) → m a < 256

pub bswap64-lt : (v : ℕ) → bswap64 v < two64
unfolding bswap64
bswap64-lt v = omega arith

bswap64-bswap64 : (v : ℕ) → v < two64 → bswap64 (bswap64 v) ≡ v
unfolding bswap64
bswap64-bswap64 v h = omega arith

store64-at : (m : Ram) (a v k : ℕ) → k < 8 → store64 m a v (a + k) ≡ byte v k
unfolding store64
store64-at m a v k h = rw (inside, offset)
  where
    inside : (leb a (a + k) && ltb (a + k) (a + 8)) ≡ true
    inside = ground arith

    offset : a + k - a ≡ k
    offset = omega arith

pub store64-other : (m : Ram) (a v q : ℕ) → (q < a) ⊎ (a + 8 ≤ q) → store64 m a v q ≡ m q
unfolding store64
store64-other m a v q h = ground arith

-- Storing 0 clears the eight bytes.
pub store64_zero :
    (m : Ram) (a q : ℕ) → store64 m a 0 q ≡ (if leb a q && ltb q (a + 8) then 0 else m q)
unfolding store64
store64_zero m a q = rw zero-div

store64-head : (m : Ram) (a v : ℕ) → store64 m a v a ≡ byte v 0
store64-head m a v = ap (store64 m a v) (omega arith) ∙ store64-at m a v 0 (omega arith)

pub load64-store64 : (m : Ram) (a v : ℕ) → v < two64 → load64 (store64 m a v) a ≡ v
unfolding load64
load64-store64 m a v h = omega (
  arith,
  store64-head m a v,
  store64-at m a v 1 (omega arith),
  store64-at m a v 2 (omega arith),
  store64-at m a v 3 (omega arith),
  store64-at m a v 4 (omega arith),
  store64-at m a v 5 (omega arith),
  store64-at m a v 6 (omega arith),
  store64-at m a v 7 (omega arith),
)

load64-lt : (m : Ram) (a : ℕ) → IsBytes m → load64 m a < two64
unfolding load64
load64-lt m a h =
    omega (arith, h a, h (a + 1), h (a + 2), h (a + 3), h (a + 4), h (a + 5), h (a + 6), h (a + 7))

-- Two memories that agree on the eight bytes hold the same word there.
pub load64_ext :
    (m n : Ram) (a : ℕ) → ((k : ℕ) → a ≤ k → k < a + 8 → m k ≡ n k) → load64 m a ≡ load64 n a
unfolding load64
load64_ext m n a h = rw (
  h a (omega arith) (omega arith),
  h (a + 1) (omega arith) (omega arith),
  h (a + 2) (omega arith) (omega arith),
  h (a + 3) (omega arith) (omega arith),
  h (a + 4) (omega arith) (omega arith),
  h (a + 5) (omega arith) (omega arith),
  h (a + 6) (omega arith) (omega arith),
  h (a + 7) (omega arith) (omega arith),
)

load64_of_zeros : (a : ℕ) → load64 (λ k. 0) a ≡ 0
unfolding load64
load64_of_zeros a = refl

pub load64_zero : (m : Ram) (a : ℕ) → ((k : ℕ) → a ≤ k → k < a + 8 → m k ≡ 0) → load64 m a ≡ 0
load64_zero m a h = load64_ext m (λ k. 0) a h ∙ load64_of_zeros a

pub readram_ext :
    (m n : Ram) (a : ℕ) → ((k : ℕ) → a ≤ k → k < a + 8 → m k ≡ n k) → readram m a ≡ readram n a
unfolding readram
readram_ext m n a h = ap bswap64 (load64_ext m n a h)

pub readram-lt : (m : Ram) (a : ℕ) → readram m a < two64
unfolding readram
readram-lt m a = bswap64-lt (load64 m a)

-- The word at an address is its eight bytes, the first the most significant.
pub readram_big_endian :
    (m : Ram) (a : ℕ)
    → IsBytes m
    → readram m a
      ≡ m (a + 7)
        + m (a + 6) * 256
        + m (a + 5) * 256 ^ 2
        + m (a + 4) * 256 ^ 3
        + m (a + 3) * 256 ^ 4
        + m (a + 2) * 256 ^ 5
        + m (a + 1) * 256 ^ 6
        + m a * 256 ^ 7
unfolding readram
readram_big_endian m a h =
    omega (arith, h a, h (a + 1), h (a + 2), h (a + 3), h (a + 4), h (a + 5), h (a + 6), h (a + 7))

-- What is written at an address, a 64-bit value, is read back from it.
pub readram-writeram : (m : Ram) (a v : ℕ) → v < two64 → readram (writeram m a v) a ≡ v
unfolding readram writeram
readram-writeram m a v h =
    ap bswap64 (load64-store64 m a (bswap64 v) (bswap64-lt v)) ∙ bswap64-bswap64 v h

-- A byte outside the word written keeps its value.
pub writeram-other : (m : Ram) (a v q : ℕ) → (q < a) ⊎ (a + 8 ≤ q) → writeram m a v q ≡ m q
unfolding writeram
writeram-other m a v q h = store64-other m a (bswap64 v) q h

-- A word that shares no byte with the word written keeps its value.
pub readram-writeram_disjoint :
    (m : Ram) (a v b : ℕ) → (b + 8 ≤ a) ⊎ (a + 8 ≤ b) → readram (writeram m a v) b ≡ readram m b
readram-writeram_disjoint m a v b (inl h) =
    readram_ext _ _ b (λ k p q. writeram-other m a v k (inl (omega arith)))
readram-writeram_disjoint m a v b (inr h) =
    readram_ext _ _ b (λ k p q. writeram-other m a v k (inr (omega arith)))

pub writeram-IsBytes : (m : Ram) (a v : ℕ) → IsBytes m → IsBytes (writeram m a v)
unfolding writeram store64
writeram-IsBytes m a v h q = ground (arith, h q)

add_zero : (a : ℕ) → a + 0 ≡ a
add_zero a = omega arith

byte-load64 : (m : Ram) (a k : ℕ) → IsBytes m → k < 8 → byte (load64 m a) k ≡ m (a + k)
unfolding load64
byte-load64 m a zero h lt = omega (
  arith,
  ap m (add_zero a),
  h a,
  h (a + 1),
  h (a + 2),
  h (a + 3),
  h (a + 4),
  h (a + 5),
  h (a + 6),
  h (a + 7),
)
byte-load64 m a (suc zero) h lt =
    omega (arith, h a, h (a + 1), h (a + 2), h (a + 3), h (a + 4), h (a + 5), h (a + 6), h (a + 7))
byte-load64 m a (suc (suc zero)) h lt =
    omega (arith, h a, h (a + 1), h (a + 2), h (a + 3), h (a + 4), h (a + 5), h (a + 6), h (a + 7))
byte-load64 m a (suc (suc (suc zero))) h lt =
    omega (arith, h a, h (a + 1), h (a + 2), h (a + 3), h (a + 4), h (a + 5), h (a + 6), h (a + 7))
byte-load64 m a (suc (suc (suc (suc zero)))) h lt =
    omega (arith, h a, h (a + 1), h (a + 2), h (a + 3), h (a + 4), h (a + 5), h (a + 6), h (a + 7))
byte-load64 m a (suc (suc (suc (suc (suc zero))))) h lt =
    omega (arith, h a, h (a + 1), h (a + 2), h (a + 3), h (a + 4), h (a + 5), h (a + 6), h (a + 7))
byte-load64 m a (suc (suc (suc (suc (suc (suc zero)))))) h lt =
    omega (arith, h a, h (a + 1), h (a + 2), h (a + 3), h (a + 4), h (a + 5), h (a + 6), h (a + 7))
byte-load64 m a (suc (suc (suc (suc (suc (suc (suc zero))))))) h lt =
    omega (arith, h a, h (a + 1), h (a + 2), h (a + 3), h (a + 4), h (a + 5), h (a + 6), h (a + 7))
byte-load64 m a (suc (suc (suc (suc (suc (suc (suc (suc k)))))))) h lt = absurd (omega arith)

pub writeram_at :
    (m : Ram) (a v q : ℕ)
    → writeram m a v q ≡ (if leb a q && ltb q (a + 8) then byte (bswap64 v) (q - a) else m q)
unfolding writeram store64
writeram_at m a v q = refl

-- A word copied puts its eight bytes where the copy goes.
pub writeram-readram :
    (m n : Ram) (a b q : ℕ)
    → IsBytes n
    → writeram m a (readram n b) q ≡ (if leb a q && ltb q (a + 8) then n (b + (q - a)) else m q)
unfolding writeram readram store64
writeram-readram m n a b q h = elim (Bool-cases (leb a q && ltb q (a + 8))) [
  | inl e ↦
      rw (e, bswap64-bswap64 (load64 n b) (load64-lt n b h))
        (byte-load64 n b (q - a) h (ground arith))
  | inr e ↦ rw e refl
]
