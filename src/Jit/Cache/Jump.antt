-- ===== src/Jit/Cache/Jump.antt =====
-- The jumps of the translated code: where a patched one goes, and where those of a dropped block go.
use subleq_emu.Prelude.{
  ℕ, ◌+◌, ◌-◌, ◌*◌, ◌≤◌, ◌<◌, ◌≡◌, ◌∙◌, ap, ◌⊎◌, true, arith, ◌&&◌, leb, ltb, if◌then◌else◌, add64,
  sub64, two32, two64, ◌%◌, ◌^◌,
}
use subleq_emu.Ram.{Ram, byte}
use subleq_emu.Jit.Cache.{store32, patch_rel32}

-- The signed 32-bit displacement at `site`, and where the jump that holds it goes: it counts from
-- the end of the displacement.
abbrev pub load32 : Ram → ℕ → ℕ
load32 m a = m a + m (a + 1) * 256 + m (a + 2) * 256 ^ 2 + m (a + 3) * 256 ^ 3

abbrev pub jump_target : Ram → ℕ → ℕ
jump_target code site =
    let rel = load32 code site in
    add64 (site + 4) (if ltb rel 0x80000000 then rel else rel + 0xffffffff00000000)

-- A displacement of 32 bits reaches from `site` to `target`.
abbrev pub Reaches : ℕ → ℕ → Type 0
Reaches site target = (target < site + 4 + 0x80000000) × (site + 4 ≤ target + 0x80000000)

store32-at : (m : Ram) (a v k : ℕ) → k < 4 → store32 m a v (a + k) ≡ byte v k
unfolding store32
store32-at m a v k h = rw (inside, offset)
  where
    inside : (leb a (a + k) && ltb (a + k) (a + 4)) ≡ true
    inside = ground arith

    offset : a + k - a ≡ k
    offset = omega arith

store32-other : (m : Ram) (a v q : ℕ) → (q < a) ⊎ (a + 4 ≤ q) → store32 m a v q ≡ m q
unfolding store32
store32-other m a v q h = ground arith

store32-head : (m : Ram) (a v : ℕ) → store32 m a v a ≡ byte v 0
store32-head m a v = ap (store32 m a v) (omega arith) ∙ store32-at m a v 0 (omega arith)

load32-store32 : (m : Ram) (a v : ℕ) → v < two32 → load32 (store32 m a v) a ≡ v
load32-store32 m a v h = omega (
  arith,
  store32-head m a v,
  store32-at m a v 1 (omega arith),
  store32-at m a v 2 (omega arith),
  store32-at m a v 3 (omega arith),
)

displacement :
    (site target : ℕ)
    → site + 4 < two64
    → target < two64
    → Reaches site target
    → (let rel = sub64 target (site + 4) % two32 in
        add64 (site + 4) (if ltb rel 0x80000000 then rel else rel + 0xffffffff00000000))
      ≡ target
displacement site target hs ht r = ground arith

-- A jump patched to a target in reach goes there.
pub jump_target-patch_rel32 :
    (code : Ram) (site target : ℕ)
    → site + 4 < two64
    → target < two64
    → Reaches site target
    → jump_target (patch_rel32 code site target) site ≡ target
unfolding patch_rel32
jump_target-patch_rel32 code site target hs ht r =
    rw (load32-store32 code site (sub64 target (site + 4) % two32) (omega arith))
      (displacement site target hs ht r)

-- The bytes outside the displacement stay.
pub patch_rel32-other :
    (code : Ram) (site target q : ℕ)
    → (q < site) ⊎ (site + 4 ≤ q)
    → patch_rel32 code site target q ≡ code q
unfolding patch_rel32
patch_rel32-other code site target q h = store32-other code site _ q h
