-- ===== src/Klib/Heap/Metadata.antt =====
-- What `kfree` of kernel/src/klib.c reads of an allocation, and what it hands to `kmfree`.
use subleq_emu.Prelude.{
  ℕ, ◌+◌, ◌*◌, ◌%◌, ◌<◌, ◌≡◌, ◌≢◌, refl, ap, ◌∙◌, inl, false, ◌==◌, two64, add64, sub64, arith,
}
use subleq_emu.Ram.{load64, store64}
use subleq_emu.Ram.Words.{load64-store64, store64-other, load64_ext}
use subleq_emu.Pmm.{Pmm, kmalloc, kmfree}
use subleq_emu.Klib.Heap.{page_size, pages_for, metadata, kalloc, kfree}

pages_for-lt : (size : ℕ) → size < two64 → pages_for size < two64
pages_for-lt size h = ground arith

module _ (hhdm : ℕ) (p : Pmm) (size : ℕ) (h : hhdm < two64) where
  abbrev pub ptr : ℕ
  ptr = (kmalloc p (pages_for size + 1)).1

  abbrev taken : Pmm
  taken = (kmalloc p (pages_for size + 1)).0

  abbrev noted : Pmm
  noted = record taken { phys = store64 (store64 taken.phys ptr (pages_for size)) (ptr + 8) size }

  kalloc_found : ptr ≢ 0 → kalloc hhdm p size ≡ (noted, add64 (add64 ptr hhdm) page_size)
  unfolding kalloc
  kalloc_found n = let found : (ptr == 0) ≡ false = ground arith in rw found refl

  -- The page in front of what `kalloc` returns is the first that `kmalloc` returned.
  metadata-kalloc : ptr < two64 → metadata hhdm (add64 (add64 ptr hhdm) page_size) ≡ ptr
  metadata-kalloc lt = omega arith

  noted_pages : size < two64 → load64 noted.phys ptr ≡ pages_for size
  noted_pages ls =
      load64_ext noted.phys (store64 taken.phys ptr (pages_for size)) ptr
        (λ k ge below. store64-other _ (ptr + 8) size k (inl (omega arith)))
      ∙ load64-store64 taken.phys ptr (pages_for size) (pages_for-lt size ls)

  -- `kfree` of what `kalloc` has just returned gives `kmfree` the right number of pages, at an
  -- address that is 15 times the offset below the one that `kmalloc` had returned.
  pub kfree-kalloc :
      ptr ≢ 0
      → ptr < two64
      → size < two64
      → kfree hhdm (kalloc hhdm p size).0 (kalloc hhdm p size).1
        ≡ kmfree (kalloc hhdm p size).0 (sub64 ptr (15 * hhdm % two64)) (pages_for size + 1)
  unfolding kfree
  kfree-kalloc n lt ls =
      rw (kalloc_found n, metadata-kalloc lt, noted_pages ls)
        (ap (λ a. kmfree noted a (pages_for size + 1)) (omega arith))
