-- ===== src/Jit/Reval/Loop.antt =====
-- `revalidate` of kernel/src/jit.c: it keeps the translator's invariant, and it ends with no block
-- left that every CPU has passed.
use subleq_emu.Prelude.{
  ℕ, zero, suc, ◌+◌, ◌-◌, ◌%◌, ◌<◌, ◌≡◌, refl, ◌⊎◌, inl, inr, false, ◌==◌, leb, ==_iff, ==→ne,
  Bool-cases, arith, two64,
}
use subleq_emu.Jit.State.{Cpu, Machine, pending_len}
use subleq_emu.Jit.Smc.Hit.{IsValid}
use subleq_emu.Jit.Reval.{min_quiet, revalidate_one, revalidate_loop, revalidate}
use subleq_emu.Jit.Reval.Checked.{IsLowest, min_quiet_lem}
use subleq_emu.Jit.Reval.Pending.{SamePending}
use subleq_emu.Jit.Reval.Round.{pop_pending, Round, one_ncpus, one_pending, one-IsValid, one-Round}

-- The blocks left to check again.
abbrev pub left : Cpu → ℕ
left j = (j.ptail + pending_len - j.phead) % pending_len

abbrev pub IsPendingRing : Cpu → Type 0
IsPendingRing j = (j.phead < pending_len) × (j.ptail < pending_len)

-- Nothing is left, or the oldest block was made after the epoch `low`.
abbrev pub IsSettled : ℕ → Cpu → Type 0
IsSettled low j = (j.phead ≡ j.ptail) ⊎ (low < (j.pending j.phead).stamp)

-- Rounds as long as a block waits that is not too new.
pub data Pass (c low : ℕ) : Machine → Machine → Type 0 where
  settled : {m : Machine} → IsSettled low (m.cpus c) → Pass c low m m
  round : {m n g : Machine} → Round c low m n → Pass c low n g → Pass c low m g

abbrev pub Revalidated : ℕ → ℕ → Machine → Machine → Type 0
Revalidated c low m g = IsValid g × Pass c low m g

pop_left :
    (j : Cpu) → IsPendingRing j → (j.phead == j.ptail) ≡ false → left (pop_pending j) + 1 ≡ left j
pop_left j r e = ground arith

same_left : (j g : Cpu) → SamePending j g → left g ≡ left j
same_left j g s = rw (s.0, s.1) refl

loop-Revalidated :
    (rounds : ℕ) (m : Machine) (c low : ℕ)
    → IsValid m
    → c < m.ncpus
    → IsPendingRing (m.cpus c)
    → left (m.cpus c) < rounds
    → Revalidated c low m (revalidate_loop rounds m c low)
unfolding revalidate_loop
loop-Revalidated zero m c low v h r lt = elim lt [ ]
loop-Revalidated (suc rounds) m c low v h r lt =
    elim (Bool-cases ((m.cpus c).phead == (m.cpus c).ptail)) [
      | inl empty ↦ rw empty (v, settled (inl ((==_iff _ _).0 empty)))
      | inr some_left ↦ elim (Bool-cases (leb ((m.cpus c).pending (m.cpus c).phead).stamp low)) [
        | inl old ↦
            let s = one_pending m c h in
            let fewer = pop_left (m.cpus c) r some_left in
            let first = one-Round m c low v h (==→ne _ _ some_left) (ground arith) in
            let rest =
              loop-Revalidated rounds (revalidate_one m c) c low (one-IsValid m c v h)
                (rw (one_ncpus m c) h) (rw (s.0, s.1) (omega arith, r.1))
                (rw (same_left (pop_pending (m.cpus c)) ((revalidate_one m c).cpus c) s)
                  (omega (arith, fewer))) in
            rw (some_left, old) (rest.0, round first rest.1)
        | inr recent ↦ rw (some_left, recent) (v, settled (inr (ground arith)))
      ]
    ]

-- On a valid machine, for a CPU whose ring of new blocks has its two indices in range: `revalidate`
-- keeps the machine valid. It takes blocks from the ring, oldest first, and ends when the ring is
-- empty or its oldest block was made after the lowest epoch that a CPU has published; it takes none
-- made later than that. Taking a block changes no memory. If the block is valid and the hash of its
-- static words in memory is not the one it was made with, then no block that can be entered on this
-- CPU is left over any static field of it, and no block is new; else no code changes.
pub revalidate-Revalidated :
    (m : Machine) (c : ℕ)
    → IsValid m
    → c < m.ncpus
    → IsPendingRing (m.cpus c)
    → (low : ℕ) × IsLowest m.ncpus m.quiet low × Revalidated c low m (revalidate m c)
unfolding revalidate
revalidate-Revalidated m c v h r = (
  min_quiet m.ncpus m.quiet 0 (two64 - 1),
  min_quiet_lem m.ncpus m.quiet,
  elim (Bool-cases ((m.cpus c).phead == (m.cpus c).ptail)) [
    | inl empty ↦ rw empty (v, settled (inl ((==_iff _ _).0 empty)))
    | inr some_left ↦ rw some_left (
        loop-Revalidated pending_len m c (min_quiet m.ncpus m.quiet 0 (two64 - 1)) v h r
          (omega arith))
  ],
)
