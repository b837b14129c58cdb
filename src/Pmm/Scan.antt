-- ===== src/Pmm/Scan.antt =====
-- The search for a run of free pages: what it finds is one, and it misses none.
use subleq_emu.Prelude.{
  ℕ, zero, suc, ◌+◌, ◌-◌, ◌≤◌, ◌<◌, ◌≡◌, ◌∙◌, sym, inl, inr, true, false, none, some, arith, ◌==◌,
  Bool-cases,
}
use subleq_emu.Pmm.{Pmm, rd_bitmap, scan}

-- The `n` pages from `s` on are free.
abbrev pub IsFree : Pmm → ℕ → ℕ → Type 0
IsFree p s n = (k : ℕ) → s ≤ k → k < s + n → rd_bitmap p k ≡ 0

-- `r` is the last page of a run of free pages that starts at `lo` or later and ends before `hi`.
pub record IsRun (p : Pmm) (pages lo hi r : ℕ) : Type 0 where
  pub fits : lo + pages ≤ r + 1
  pub ends : r < hi
  pub free : IsFree p (r + 1 - pages) pages

module _ (p : Pmm) (pages : ℕ) (pos : 0 < pages) (n i c : ℕ) where
  scan_done :
      (rd_bitmap p i == 0) ≡ true → (c + 1 == pages) ≡ true → scan p pages (suc n) i c ≡ some i
  unfolding scan
  scan_done here done = rw (here, done)

  scan_more :
      (rd_bitmap p i == 0) ≡ true
      → (c + 1 == pages) ≡ false
      → scan p pages (suc n) i c ≡ scan p pages n (i + 1) (c + 1)
  unfolding scan
  scan_more here more = rw (here, more)

  scan_used : (rd_bitmap p i == 0) ≡ false → scan p pages (suc n) i c ≡ scan p pages n (i + 1) 0
  unfolding scan
  scan_used used = let e : (0 == pages) ≡ false = ground arith in rw (used, e)

module _ (p : Pmm) (pages : ℕ) (pos : 0 < pages) where
  grow :
      (i c : ℕ)
      → c ≤ i
      → IsFree p (i - c) c
      → (rd_bitmap p i == 0) ≡ true
      → IsFree p (i + 1 - (c + 1)) (c + 1)
  grow i c ci free here k lo hi = elim (Bool-cases (k == i)) [
    | inl e ↦ ground arith
    | inr ne ↦ ground (arith, free k)
  ]

  pub scan-IsRun :
      (n i c hi : ℕ)
      → c < pages
      → c ≤ i
      → i + n ≡ hi
      → IsFree p (i - c) c
      → {r : ℕ} → scan p pages n i c ≡ some r
      → IsRun p pages (i - c) hi r
  unfolding scan
  scan-IsRun zero i c hi lt ci eh free e = cc
  scan-IsRun (suc n) i c hi lt ci eh free {r} e = elim (Bool-cases (rd_bitmap p i == 0)) [
    | inl here ↦ elim (Bool-cases (c + 1 == pages)) [
      | inl done ↦
          let last : r ≡ i = ground (arith, scan_done p pages pos n i c here done) in
          let size : pages ≡ c + 1 = ground arith in
          rw (last, size)
            (record { fits = omega arith; ends = omega arith; free = grow i c ci free here })
      | inr more ↦
          let rest =
            scan-IsRun n (i + 1) (c + 1) hi (ground arith) (omega arith) (omega arith)
              (grow i c ci free here) (sym (scan_more p pages pos n i c here more) ∙ e) in
          record { fits = omega (arith, rest.fits); ends = rest.ends; free = rest.free }
    ]
    | inr used ↦
        let rest =
          scan-IsRun n (i + 1) 0 hi (omega arith) (omega arith) (omega arith)
            (λ k a b. absurd (omega arith)) (sym (scan_used p pages pos n i c used) ∙ e) in
        record { fits = omega (arith, rest.fits); ends = rest.ends; free = rest.free }
  ]

  -- A pass that finds nothing has no run to find, the pages counted before it included.
  pub scan_complete :
      (n i c s : ℕ)
      → c < pages
      → c ≤ i
      → scan p pages n i c ≡ none
      → i ≤ s + c
      → s + pages ≤ i + n
      → ¬ IsFree p s pages
  scan_complete zero i c s lt ci e lo hi free = omega arith
  scan_complete (suc n) i c s lt ci e lo hi free = elim (Bool-cases (rd_bitmap p i == 0)) [
    | inl here ↦ elim (Bool-cases (c + 1 == pages)) [
      | inl done ↦ cc (scan_done p pages pos n i c here done)
      | inr more ↦
          scan_complete n (i + 1) (c + 1) s (ground arith) (omega arith)
            (sym (scan_more p pages pos n i c here more) ∙ e) (omega arith) (omega arith) free
    ]
    | inr used ↦ elim (Bool-cases (i == s)) [
      | inl at ↦ ground (arith, free i)
      | inr off ↦
          scan_complete n (i + 1) 0 s (omega arith) (omega arith)
            (sym (scan_used p pages pos n i c used) ∙ e) (ground (arith, free i)) (omega arith) free
    ]
  ]

  -- A whole pass over the `n` pages from `i` on.
  pub pass-IsRun :
      (n i hi : ℕ) → i + n ≡ hi → {r : ℕ} → scan p pages n i 0 ≡ some r → IsRun p pages i hi r
  pass-IsRun n i hi eh e =
      let run = scan-IsRun n i 0 hi pos (omega arith) eh (λ k a b. absurd (omega arith)) e in
      record { fits = omega (arith, run.fits); ends = run.ends; free = run.free }

  pub pass_complete :
      (n i s : ℕ) → scan p pages n i 0 ≡ none → i ≤ s → s + pages ≤ i + n → ¬ IsFree p s pages
  pass_complete n i s e lo hi = scan_complete n i 0 s pos (omega arith) e (omega arith) hi
