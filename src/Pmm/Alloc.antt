-- ===== src/Pmm/Alloc.antt =====
-- `kmalloc`: a run of free pages, marked used and cleared, or 0 when no run is there.
use subleq_emu.Prelude.{
  ℕ, zero, suc, ◌+◌, ◌-◌, ◌*◌, ◌/◌, ◌≤◌, ◌<◌, ◌≡◌, refl, ◌⊎◌, inl, inr, none, some, Option-cases,
  arith, ◌&&◌, leb, ltb, if◌then◌else◌,
}
use subleq_emu.Ram.{Ram, store64}
use subleq_emu.Ram.Words.{store64_zero}
use subleq_emu.Pmm.{
  Pmm, page_size, bitmap_base, rd_bitmap, wr_range, scan, zero_words, found, kmalloc,
}
use subleq_emu.Pmm.Bits.{
  IsWords, rd_bitmap-wr_range, wr_range-IsWords, max_page-wr_range, last_alloc_page-wr_range,
  phys-wr_range,
}
use subleq_emu.Pmm.Scan.{IsFree, IsRun, pass-IsRun, pass_complete}

pub record IsValid (p : Pmm) : Type 0 where
  pub words : IsWords p
  pub hint_from : bitmap_base ≤ p.last_alloc_page
  pub hint_to : p.last_alloc_page ≤ p.max_page

zero_words_lem :
    (n : ℕ) (m : Ram) (a q : ℕ)
    → zero_words n m a q ≡ (if leb a q && ltb q (a + n * 8) then 0 else m q)
unfolding zero_words
zero_words_lem zero m a q = ground arith
zero_words_lem (suc n) m a q =
    ground (arith, zero_words_lem n (store64 m a 0) (a + 8) q, store64_zero m a q)

-- `q` is `p` with the `n` pages from `s` on taken: they were free and inside the bitmap, and are
-- now marked and cleared; every other page's bit and every other byte is as before.
pub record Taken (p : Pmm) (n s : ℕ) (q : Pmm) : Type 0 where
  pub from : bitmap_base ≤ s
  pub to : s + n ≤ p.max_page
  pub free : IsFree p s n
  pub marked :
      (j : ℕ)
      → bitmap_base ≤ j
      → rd_bitmap q j ≡ (if leb s j && ltb j (s + n) then 1 else rd_bitmap p j)
  pub cleared :
      (b : ℕ)
      → q.phys b
        ≡ (if leb (s * page_size) b && ltb b (s * page_size + n * page_size) then 0 else p.phys b)
  pub bound : q.max_page ≡ p.max_page
  pub valid : IsValid q

-- A call either returns the address of a run of free pages that it has taken, or it returns 0,
-- changes nothing, and no run of that length lies in the bitmap on either side of the hint.
abbrev pub Outcome : Pmm → ℕ → Pmm × ℕ → Type 0
Outcome p pages (q, addr) =
    ((s : ℕ) × (addr ≡ s * page_size) × Taken p pages s q)
    ⊎ ((addr ≡ 0)
        × (q ≡ p)
        × ((s : ℕ)
            → bitmap_base ≤ s
            → s + pages ≤ p.max_page
            → (s + pages ≤ p.last_alloc_page) ⊎ (p.last_alloc_page ≤ s)
            → ¬ IsFree p s pages))

module _ (p : Pmm) (v : IsValid p) (pages : ℕ) (pos : 0 < pages) where
  open p use {last_alloc_page as hint}

  found-Taken :
      (i lo hi : ℕ)
      → bitmap_base ≤ lo
      → hi ≤ p.max_page
      → IsRun p pages lo hi i
      → Taken p pages (i + 1 - pages) (found p pages i).0
  unfolding found rd_bitmap
  found-Taken i lo hi hl hh run = record {
    from = omega (arith, run.fits);
    to = omega (arith, run.ends, run.fits);
    free = run.free;
    marked = λ j hj. rd_bitmap-wr_range pages hint s j 1 v.words (omega (arith, run.fits)) hj;
    cleared = λ b. ground (
      arith,
      zero_words_lem (pages * page_size / 8) q.phys (s * page_size) b,
      phys-wr_range 1 pages hint s,
    );
    bound = max_page-wr_range 1 pages hint s;
    valid = record {
      words = wr_range-IsWords pages hint s 1 v.words;
      hint_from = omega (arith, last_alloc_page-wr_range 1 pages hint s, run.fits);
      hint_to = omega (
        arith,
        last_alloc_page-wr_range 1 pages hint s,
        max_page-wr_range 1 pages hint s,
        run.ends,
      );
    };
  }
    where
      s : ℕ
      s = i + 1 - pages

      hint : Pmm
      hint = record p { last_alloc_page = i + 1 }

      q : Pmm
      q = wr_range pages hint s 1

  kmalloc_first :
      {i : ℕ} → scan p pages (p.max_page - hint) hint 0 ≡ some i → kmalloc p pages ≡ found p pages i
  unfolding kmalloc
  kmalloc_first e = rw (e, kmalloc)

  kmalloc_second :
      {i : ℕ}
      → scan p pages (p.max_page - hint) hint 0 ≡ none
      → scan p pages (hint - bitmap_base) bitmap_base 0 ≡ some i
      → kmalloc p pages ≡ found p pages i
  unfolding kmalloc
  kmalloc_second e e' = rw (e, e', kmalloc)

  kmalloc_nowhere :
      scan p pages (p.max_page - hint) hint 0 ≡ none
      → scan p pages (hint - bitmap_base) bitmap_base 0 ≡ none
      → kmalloc p pages ≡ (p, 0)
  unfolding kmalloc
  kmalloc_nowhere e e' = rw (e, e', kmalloc)

  found-Outcome :
      (i lo hi : ℕ)
      → bitmap_base ≤ lo
      → hi ≤ p.max_page
      → IsRun p pages lo hi i
      → Outcome p pages (found p pages i)
  unfolding found
  found-Outcome i lo hi hl hh run = inl (i + 1 - pages, refl, found-Taken i lo hi hl hh run)

  pub kmalloc-Outcome : Outcome p pages (kmalloc p pages)
  kmalloc-Outcome = elim (Option-cases (scan p pages (p.max_page - hint) hint 0)) [
    | inr (i, e) ↦ rw (kmalloc_first e) (
        found-Outcome i hint p.max_page v.hint_from (omega arith)
          (pass-IsRun p pages pos (p.max_page - hint) hint p.max_page (omega (arith, v.hint_to)) e))
    | inl e ↦ elim (Option-cases (scan p pages (hint - bitmap_base) bitmap_base 0)) [
      | inr (i, e') ↦ rw (kmalloc_second e e') (
          found-Outcome i bitmap_base hint (omega arith) v.hint_to (
            pass-IsRun p pages pos (hint - bitmap_base) bitmap_base hint
              (omega (arith, v.hint_from)) e'))
      | inl e' ↦ rw (kmalloc_nowhere e e') (
          inr (
            refl,
            refl,
            λ s lo hi side. elim side [
              | inl below ↦
                  pass_complete p pages pos (hint - bitmap_base) bitmap_base s e' lo
                    (omega (arith, v.hint_from))
              | inr above ↦
                  pass_complete p pages pos (p.max_page - hint) hint s e above (omega arith)
            ],
          ))
    ]
  ]
