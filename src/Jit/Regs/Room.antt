-- ===== src/Jit/Regs/Room.antt =====
-- Registers that are not pinned, and the choice that `scratch` makes among them.
use mathlib.Core.Bool.{false≢true}
use subleq_emu.Prelude.{
  ℕ, zero, suc, ◌+◌, ◌≤◌, ◌<◌, ◌≡◌, refl, sym, ap, fun_ext, ◌∙◌, ◌⊎◌, inl, inr, arith, Bool, true,
  false, not, ◌&&◌, ◌||◌, Bool-cases, ◌==◌, ==_iff, if◌then◌else◌,
}
use subleq_emu.Jit.Regs.{Translator, alloc_regs, aliased}
use subleq_emu.Jit.Regs.Alloc.{is_better, choose}

-- Those of the `n` indices from `i` on that do not pass.
abbrev pub spare : ℕ → (ℕ → Bool) → ℕ → ℕ
spare zero p i = 0
spare (suc n) p i = (if p i then 0 else 1) + spare n p (i + 1)

-- The registers that are free to take.
abbrev pub room : Translator → ℕ
room j = spare 11 (λ i. (j.regs i).pinned) 0

abbrev pub with_one : (ℕ → Bool) → ℕ → ℕ → Bool
with_one p x i = x == i || p i

spare-with_one_off :
    (n : ℕ) (p : ℕ → Bool) (x i : ℕ) → x < i → spare n p i ≡ spare n (with_one p x) i
spare-with_one_off zero p x i lt = refl
spare-with_one_off (suc n) p x i lt =
    let apart : (x == i) ≡ false = ground arith in
    rw apart (ap (λ t. (if p i then 0 else 1) + t) (spare-with_one_off n p x (i + 1) (omega arith)))

pub spare-with_one : (n : ℕ) (p : ℕ → Bool) (x i : ℕ) → spare n p i ≤ spare n (with_one p x) i + 1
spare-with_one zero p x i = omega arith
spare-with_one (suc n) p x i = elim (Bool-cases (x == i)) [
  | inl e ↦
      let same = spare-with_one_off n p x (i + 1) (ground arith) in rw e (ground (arith, same))
  | inr e ↦ rw e (omega (arith, spare-with_one n p x (i + 1)))
]

spare_some :
    (n : ℕ) (p : ℕ → Bool) (i : ℕ)
    → 0 < spare n p i
    → (k : ℕ) × (i ≤ k) × (k < i + n) × (p k ≡ false)
spare_some zero p i h = absurd (omega arith)
spare_some (suc n) p i h = elim (Bool-cases (p i)) [
  | inl e ↦
      let (k, lo, hi, f) = spare_some n p (i + 1) (ground arith) in (k, omega arith, omega arith, f)
  | inr e ↦ (i, omega arith, omega arith, e)
]

pub spare_le :
    (n : ℕ) (p q : ℕ → Bool) (i : ℕ)
    → ((k : ℕ) → q k ≡ true → p k ≡ true)
    → spare n p i ≤ spare n q i
spare_le zero p q i h = omega arith
spare_le (suc n) p q i h =
    let rest = spare_le n p q (i + 1) h in
    elim (Bool-cases (q i)) [
      | inl e ↦ rw (e, h i e) (omega (arith, rest))
      | inr e ↦ ground (arith, rest)
    ]

-- Register number `b` of the cache is not pinned.
abbrev pub Loose : Translator → ℕ → Type 0
Loose j b = (b < 11) × ((j.regs b).pinned ≡ false)

choose-Loose :
    (n : ℕ) (j : Translator) (i best : ℕ)
    → i + n ≡ 11
    → Loose j best ⊎ ((best ≡ 11) × (k : ℕ) × (i ≤ k) × (k < i + n) × ((j.regs k).pinned ≡ false))
    → Loose j (choose n j i best)
unfolding choose
choose-Loose zero j i best e (inl h) = h
choose-Loose zero j i best e (inr (b, k, lo, hi, f)) = absurd (omega arith)
choose-Loose (suc n) j i best e h =
    let ih = choose-Loose n j (i + 1) in
    elim (Bool-cases (j.regs i).pinned) [
      | inl pinned ↦ rw pinned (
          ih best (omega arith) (elim h [
            | inl l ↦ inl l
            | inr (b, k, lo, hi, f) ↦ elim (Bool-cases (i == k)) [
              | inl same ↦ absurd (
                  false≢true
                    (sym f ∙ ap (λ t. (j.regs t).pinned) (sym ((==_iff _ _).0 same)) ∙ pinned))
              | inr other ↦ inr (b, k, ground arith, omega arith, f)
            ]
          ]))
      | inr loose ↦ elim (Bool-cases (not (j.regs i).used && not (aliased j (alloc_regs i)))) [
        | inl idle ↦ rw (loose, idle) (omega arith, loose)
        | inr busy ↦ elim (Bool-cases (is_better j i best)) [
          | inl better ↦ rw (loose, busy, better) (ih i (omega arith) (inl (omega arith, loose)))
          | inr worse ↦
              rw (loose, busy, worse)
                (ih best (omega arith)
                  (elim h [ inl l ↦ inl l | inr (b, k, lo, hi, f) ↦ absurd (ground arith) ]))
        ]
      ]
    ]

-- With room left, the choice is a register that is not pinned.
pub choose_first : (j : Translator) → 0 < room j → Loose j (choose 11 j 0 11)
choose_first j h =
    let (k, lo, hi, f) = spare_some 11 (λ i. (j.regs i).pinned) 0 h in
    choose-Loose 11 j 0 11 refl (inr (refl, k, lo, hi, f))

pub room_at :
    (k : Translator) (p : ℕ → Bool) → ((i : ℕ) → (k.regs i).pinned ≡ p i) → room k ≡ spare 11 p 0
room_at k p h = ap (λ (q : ℕ → Bool). spare 11 q 0) (fun_ext h)
