-- ===== src/Jit/Regs/Find.antt =====
-- Searching the tables of the register cache.
use mathlib.Core.Bool.{false≢true}
use subleq_emu.Prelude.{
  ℕ, zero, suc, ◌+◌, ◌≤◌, ◌<◌, ◌≡◌, refl, sym, ap, ◌∙◌, ◌⊎◌, inl, inr, arith, Bool, true, false,
  Bool-cases, ◌==◌, ==_iff, ltb, if◌then◌else◌,
}
use subleq_emu.Jit.Regs.{first_index, alloc_regs, reg_index, index_from}

-- The first index that passes lies in the range, or none in the range passes.
abbrev pub Search : ℕ → ℕ → (ℕ → Bool) → ℕ → ℕ → Type 0
Search n i test end r =
    ((i ≤ r) × (r < i + n) × (test r ≡ true))
    ⊎ ((r ≡ end) × ((k : ℕ) → i ≤ k → k < i + n → test k ≡ false))

Search-later :
    (n i : ℕ) (test : ℕ → Bool) (end r : ℕ)
    → test i ≡ false
    → Search n (i + 1) test end r
    → Search (suc n) i test end r
Search-later n i test end r e (inl (lo, hi, t)) = inl (omega arith, omega arith, t)
Search-later n i test end r e (inr (t, others)) = inr (
  t,
  λ k lo hi. elim (Bool-cases (i == k)) [
    | inl same ↦ ap test (sym ((==_iff _ _).0 same)) ∙ e
    | inr other ↦ others k (ground arith) (omega arith)
  ],
)

pub first_index-Search :
    (n i : ℕ) (test : ℕ → Bool) (end : ℕ) → Search n i test end (first_index n i test end)
unfolding first_index
first_index-Search zero i test end = inr (refl, λ k lo hi. absurd (omega arith))
first_index-Search (suc n) i test end =
    go (test i) refl (Search-later n i test end (first_index n (i + 1) test end))
      (first_index-Search n (i + 1) test end)
  where
    go :
        (b : Bool)
        → test i ≡ b
        → (test i ≡ false
            → Search n (i + 1) test end (first_index n (i + 1) test end)
            → Search (suc n) i test end (first_index n (i + 1) test end))
        → Search n (i + 1) test end (first_index n (i + 1) test end)
        → Search (suc n) i test end (if b then i else first_index n (i + 1) test end)
    go true e later rest = inl (omega arith, omega arith, e)
    go false e later rest = later e rest

-- A search from 0 with its length as the end.
pub first_index-found :
    (n : ℕ) (test : ℕ → Bool)
    → ltb (first_index n 0 test n) n ≡ true
    → test (first_index n 0 test n) ≡ true
first_index-found n test h = elim (first_index-Search n 0 test n) [
  | inl (lo, hi, t) ↦ t
  | inr (t, others) ↦ absurd (ground arith)
]

pub first_index-none :
    (n : ℕ) (test : ℕ → Bool)
    → ltb (first_index n 0 test n) n ≡ false
    → (k : ℕ) → k < n
    → test k ≡ false
first_index-none n test h k lt = elim (first_index-Search n 0 test n) [
  | inl (lo, hi, t) ↦ absurd (ground arith)
  | inr (t, others) ↦ others k (omega arith) (omega arith)
]

pub first_index-some :
    (n : ℕ) (test : ℕ → Bool) (k : ℕ)
    → k < n
    → test k ≡ true
    → ltb (first_index n 0 test n) n ≡ true
first_index-some n test k lt t = elim (Bool-cases (ltb (first_index n 0 test n) n)) [
  | inl e ↦ e
  | inr e ↦ absurd (false≢true (sym (first_index-none n test e k lt) ∙ t))
]

-- A register that the cache may use.
abbrev pub IsAlloc : ℕ → Type 0
IsAlloc r = (reg_index r < 11) × (alloc_regs (reg_index r) ≡ r)

pub alloc_regs-IsAlloc : (i : ℕ) → i < 11 → reg_index (alloc_regs i) ≡ i
unfolding reg_index index_from alloc_regs
alloc_regs-IsAlloc i lt = ground arith
