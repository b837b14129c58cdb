-- ===== src/Bank/Stops.antt =====
-- How a CPU stops and starts again.
use subleq_emu.Prelude.{
  ℕ, zero, suc, ◌+◌, ◌≡◌, refl, ◌∙◌, ◌⊎◌, inl, inr, arith, true, false, two64, ◌≤◌, ◌<◌,
}
use subleq_emu.Ram.{Ram, readram}
use subleq_emu.Ram.Words.{readram-writeram, writeram-other}
use subleq_emu.Bank.{Runner, Ap, run_from, ap_turn, ap_turns}

module _ (runner : Runner) (bank : ℕ) where
  -- The CPU is stopped: it will take its next `eip` from the bank.
  pub record IsStopped (before a : Ap) : Type 0 where
    pub status : readram a.mem bank ≡ 4
    pub halted : a.halted ≡ true
    pub same_eip : a.eip ≡ before.eip
    pub others : (q : ℕ) → (q < bank) ⊎ (bank + 8 ≤ q) → a.mem q ≡ before.mem q

  stops :
      (a : Ap)
      → (readram a.mem bank ≡ 2) ⊎ (readram a.mem bank ≡ 4)
      → IsStopped a (ap_turn runner bank a)
  unfolding ap_turn
  stops a (inl two) = rw two (record {
    status = readram-writeram a.mem bank 4 (omega arith);
    halted = refl;
    same_eip = refl;
    others = λ q o. writeram-other a.mem bank 4 q o;
  })
  stops a (inr four) =
      rw four (record { status = four; halted = refl; same_eip = refl; others = λ q o. refl })

  stays : (before a : Ap) → IsStopped before a → IsStopped before (ap_turn runner bank a)
  stays before a s =
      let t = stops a (inr s.status) in
      record {
        status = t.status;
        halted = t.halted;
        same_eip = t.same_eip ∙ s.same_eip;
        others = λ q o. t.others q o ∙ s.others q o;
      }

  stay : (n : ℕ) (before a : Ap) → IsStopped before a → IsStopped before (ap_turns runner bank n a)
  unfolding ap_turns
  stay zero before a s = s
  stay (suc n) before a s = stay n before (ap_turn runner bank a) (stays before a s)

  starts :
      (a : Ap) (m : Ram)
      → a.halted ≡ true
      → readram m bank ≡ 1
      → ap_turn runner bank (record a { mem = m }) ≡ run_from runner bank m (readram m (bank + 8))
  unfolding ap_turn
  starts a m h one = rw (one, h) refl

  -- What a slice started at `start` from memory `m` leaves: the memory the runner left with the
  -- address it gave back in the bank's second word and no other byte changed, and a CPU that goes on
  -- at that address and is not stopped.
  pub record IsStarted (m : Ram) (start : ℕ) (a : Ap) : Type 0 where
    pub noted : (runner m start).1 < two64 → readram a.mem (bank + 8) ≡ (runner m start).1
    pub others : (q : ℕ) → (q < bank + 8) ⊎ (bank + 16 ≤ q) → a.mem q ≡ (runner m start).0 q
    pub next_eip : a.eip ≡ (runner m start).1
    pub runs : a.halted ≡ false

  run_from-IsStarted : (m : Ram) (start : ℕ) → IsStarted m start (run_from runner bank m start)
  run_from-IsStarted m start = record {
    noted = λ lt. readram-writeram (runner m start).0 (bank + 8) (runner m start).1 lt;
    others =
        λ q o. writeram-other (runner m start).0 (bank + 8) (runner m start).1 q (omega (arith, o));
    next_eip = refl;
    runs = refl;
  }

  -- A CPU that finds a request to stop, or that is stopped, answers in one turn. However many turns
  -- follow, it changes nothing else in memory; and when others have then left a start request in
  -- memory, its next turn runs a slice from the address in the bank and from nowhere else: the bank's
  -- second word then holds the address where the slice ended, if that is a 64-bit number, the rest of
  -- memory is as the slice left it, and the CPU is no longer stopped and goes on at that address.
  pub ap_turns-restart :
      (a : Ap) (n : ℕ) (m : Ram)
      → (readram a.mem bank ≡ 2) ⊎ (readram a.mem bank ≡ 4)
      → readram m bank ≡ 1
      → IsStopped a (ap_turns runner bank (suc n) a)
        × IsStarted m
            (readram m (bank + 8))
            (ap_turn runner bank (record (ap_turns runner bank (suc n) a) { mem = m }))
  unfolding ap_turns
  ap_turns-restart a n m asked one =
      let s = stay n a (ap_turn runner bank a) (stops a asked) in
      (
        s,
        rw (starts (ap_turns runner bank n (ap_turn runner bank a)) m s.halted one)
            (run_from-IsStarted m (readram m (bank + 8))),
      )
