-- ===== src/Jit/Copy/Whole.antt =====
-- `jit_copy` from its tests to its result.
use subleq_emu.Prelude.{
  ℕ, zero, suc, ◌+◌, ◌-◌, ◌*◌, ◌/◌, ◌≤◌, ◌<◌, ◌≡◌, ◌≢◌, refl, sym, subst, inl, inr, arith, some,
  ◌==◌, two64, Bool-cases, ne→==, ==→ne, ==_iff, if◌then◌else◌,
}
use subleq_emu.Ram.{Ram, readram}
use subleq_emu.Ram.Words.{IsBytes}
use subleq_emu.Subleq.Agree.{cycles}
use subleq_emu.Jit.State.{Machine}
use subleq_emu.Jit.Copy.{Desc, CopyResult, match_copy, iterations, planned, run_copy, jit_copy}
use subleq_emu.Jit.Copy.Pass.{IsLoop}
use subleq_emu.Jit.Copy.Refine.{IsRoutine}
use subleq_emu.Jit.Copy.Runs.{cycles-run_copy}
use subleq_emu.Jit.Copy.Vars.{IsDesc, match_copy-IsDesc}
use subleq_emu.Jit.Copy.Plan.{IsNoDevice, IsPlan, planned-IsPlan}

-- What is copied at once is no business of others: the mask is -8, no byte is a device's, and no byte
-- written is in a page with translated code.
pub record IsSafe (m : Machine) (e : Desc) (n : ℕ) : Type 0 where
  pub mask : readram m.mem e.mv ≡ two64 - 8
  pub source_device : IsNoDevice (readram m.mem e.sv) n
  pub dest_device : IsNoDevice (readram m.mem e.dv) n
  pub dest_pages :
      (q : ℕ) → readram m.mem e.dv ≤ q → q < readram m.mem e.dv + 8 * n → m.page_map (q / 4096) ≡ 0

-- The machine is as many passes of nineteen instructions ahead as the result tells, and goes on
-- behind the loop or at its start as the result tells.
pub record Ran (e : Desc) (budget : ℕ) (m : Machine) (r : Machine × CopyResult) : Type 0 where
  pub ahead :
      cycles (19 * r.1.n) (m.mem, e.start)
      ≡ (r.0.mem, if r.1.done then e.start + 19 * 24 else e.start)
  pub to_budget : r.1.n ≤ budget / 19 + 1
  pub safe : r.1.n ≢ 0 → IsSafe m e r.1.n
  pub others : r.0 ≡ record m { mem = r.0.mem }

module _ (copy_fn : Ram → ℕ → ℕ → ℕ → Ram) (routine : IsRoutine copy_fn) where
  jit_copy_none :
      (m : Machine) (e : Desc) (budget : ℕ)
      → planned m e budget ≡ 0
      → Ran e budget m (jit_copy copy_fn m e budget)
  unfolding jit_copy
  jit_copy_none m e budget h =
      rw h (record {
        ahead = refl;
        to_budget = omega arith;
        safe = λ n. absurd (n refl);
        others = refl;
      })

  cycles-planned :
      (m : Machine) (small : m.mem_size ≤ two64 - 8) (e : Desc) (budget n : ℕ)
      → IsBytes m.mem
      → IsDesc m e
      → IsLoop m.mem e
      → IsPlan m small e budget n
      → n ≢ 0
      → cycles (19 * n) (m.mem, e.start) ≡ (
        run_copy copy_fn m.mem e n,
        if n == iterations (readram m.mem e.cv) then e.start + 19 * 24 else e.start,
      )
  cycles-planned m small e budget zero bytes desc loop plan h = absurd (h refl)
  cycles-planned m small e budget (suc k) bytes desc loop plan h =
      cycles-run_copy copy_fn routine e desc.apart m.mem bytes (suc k) plan.free
        (omega (arith, desc.fits, small)) plan.mask loop plan.to_end k (omega arith)

  jit_copy_some :
      (m : Machine) (e : Desc) (budget : ℕ)
      → m.mem_size ≤ two64 - 8
      → IsBytes m.mem
      → IsDesc m e
      → IsLoop m.mem e
      → planned m e budget ≢ 0
      → Ran e budget m (jit_copy copy_fn m e budget)
  unfolding jit_copy
  jit_copy_some m e budget small bytes desc loop h =
      let plan = planned-IsPlan m small e budget desc h in
      rw (ne→== (planned m e budget) 0 h) (record {
        ahead = cycles-planned m small e budget (planned m e budget) bytes desc loop plan h;
        to_budget = plan.to_budget;
        safe = λ n. record {
          mask = plan.mask;
          source_device = plan.source_device;
          dest_device = plan.dest_device;
          dest_pages = plan.dest_pages;
        };
        others = refl;
      })

  -- For a loop that `match_copy` found, whose nineteen instructions still stand in memory, with
  -- whatever values its variables hold now, in a memory of bytes that ends 8 below 2 ^ 64 or earlier:
  -- `jit_copy` leaves memory as 19 instructions for each iteration that it counts leave it, run from
  -- the start of the loop, and says truly whether they end behind the loop or back at its start. It
  -- counts at most one iteration more than the budget holds, and changes nothing but memory. When it
  -- counts any, the mask holds -8, no word read or written by the copy is a device's, and no byte
  -- copied to is in a page with translated code. The copy routine may do anything with ranges of
  -- which the destination starts inside the source.
  pub jit_copy-Ran :
      (found m : Machine) (start : ℕ) (e : Desc) (budget : ℕ)
      → match_copy found start ≡ some e
      → IsLoop m.mem e
      → m.mem_size ≡ found.mem_size
      → m.mem_size ≤ two64 - 8
      → IsBytes m.mem
      → Ran e budget m (jit_copy copy_fn m e budget)
  jit_copy-Ran found m start e budget matched loop same small bytes =
      let seen = match_copy-IsDesc found (subst (λ k. k ≤ two64 - 8) same small) start e matched in
      let desc : IsDesc m e = record {
        fits = subst (λ k. e.start + 19 * 24 ≤ k) (sym same) seen.fits;
        apart = seen.apart;
      } in
      elim (Bool-cases (planned m e budget == 0)) [
        | inl z ↦ jit_copy_none m e budget ((==_iff _ _).0 z)
        | inr n ↦ jit_copy_some m e budget small bytes desc loop (==→ne _ _ n)
      ]
