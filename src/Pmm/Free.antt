-- ===== src/Pmm/Free.antt =====
-- `kmfree` undoes `kmalloc`, and `pmm_free_pages` counts what either moves.
use subleq_emu.Prelude.{
  ℕ, zero, suc, ◌+◌, ◌-◌, ◌*◌, ◌/◌, ◌≤◌, ◌<◌, ◌≡◌, ◌≢◌, inl, inr, arith, ◌&&◌, leb, ltb,
  if◌then◌else◌, min, max,
}
use subleq_emu.Pmm.{
  Pmm, page_size, bitmap_base, rd_bitmap, kmalloc, kmfree, count_free, pmm_free_pages,
}
use subleq_emu.Pmm.Bits.{rd_bitmap-wr_range}
use subleq_emu.Pmm.Scan.{IsFree}
use subleq_emu.Pmm.Alloc.{IsValid, Taken, kmalloc-Outcome}

-- How many of the `n` pages from `i` on lie among the `k` from `s` on.
overlap : (n i k s : ℕ) → ℕ
overlap n i k s = min (i + n) (s + k) - max i s

count_free-Taken :
    (p q : Pmm) (k s : ℕ)
    → IsFree p s k
    → ((j : ℕ)
        → bitmap_base ≤ j
        → rd_bitmap q j ≡ (if leb s j && ltb j (s + k) then 1 else rd_bitmap p j))
    → (n i : ℕ) → bitmap_base ≤ i
    → count_free n q i + overlap n i k s ≡ count_free n p i
unfolding count_free overlap
count_free-Taken p q k s free marked zero i hi = omega arith
count_free-Taken p q k s free marked (suc n) i hi =
    ground
      (arith, marked i hi, free i, count_free-Taken p q k s free marked n (i + 1) (omega arith))

module _ (p : Pmm) (pages : ℕ) where
  pages_counted :
      (s : ℕ) (q : Pmm) → Taken p pages s q → pmm_free_pages q + pages ≡ pmm_free_pages p
  unfolding pmm_free_pages overlap
  pages_counted s q t = ground (
    arith,
    t.bound,
    t.from,
    t.to,
    count_free-Taken p q pages s t.free t.marked (p.max_page - bitmap_base) bitmap_base
        (omega arith),
  )

  given_back :
      (s : ℕ) (q : Pmm) (j : ℕ)
      → Taken p pages s q
      → bitmap_base ≤ j
      → rd_bitmap (kmfree q (s * page_size) pages) j ≡ rd_bitmap p j
  unfolding kmfree
  given_back s q j t hj =
      let page : s * page_size / page_size ≡ s = omega arith in
      rw page (
        ground (
          arith,
          rd_bitmap-wr_range pages q s j 0 t.valid.words t.from hj,
          t.marked j hj,
          t.free j,
        ))

  -- After a successful `kmalloc` exactly that many pages fewer are free.
  pub pmm_free_pages-kmalloc :
      IsValid p
      → 0 < pages
      → (kmalloc p pages).1 ≢ 0
      → pmm_free_pages (kmalloc p pages).0 + pages ≡ pmm_free_pages p
  pmm_free_pages-kmalloc v some_pages ok = elim (kmalloc-Outcome p v pages some_pages) [
    | inl (s, at, t) ↦ pages_counted s (kmalloc p pages).0 t
    | inr (nowhere, same, none_free) ↦ absurd (ok nowhere)
  ]

  -- Freeing what a successful `kmalloc` returned gives every page its bit of before.
  pub rd_bitmap-kmfree-kmalloc :
      (j : ℕ)
      → IsValid p
      → 0 < pages
      → (kmalloc p pages).1 ≢ 0
      → bitmap_base ≤ j
      → rd_bitmap (kmfree (kmalloc p pages).0 (kmalloc p pages).1 pages) j ≡ rd_bitmap p j
  rd_bitmap-kmfree-kmalloc j v some_pages ok hj = elim (kmalloc-Outcome p v pages some_pages) [
    | inl (s, at, t) ↦ rw at (given_back s (kmalloc p pages).0 j t hj)
    | inr (nowhere, same, none_free) ↦ absurd (ok nowhere)
  ]
