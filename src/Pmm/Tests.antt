-- ===== src/Pmm/Tests.antt =====
-- An allocator with 32 pages, the first four in use.
use subleq_emu.Prelude.{◌+◌, ◌≡◌, ◌≢◌, refl, arith, ◌==◌, if◌then◌else◌}
use subleq_emu.Pmm.{Pmm, rd_bitmap, scan, found, kmalloc, kmfree, pmm_free_pages}
use subleq_emu.Pmm.Alloc.{IsValid, Outcome, kmalloc-Outcome}
use subleq_emu.Pmm.Free.{pmm_free_pages-kmalloc, rd_bitmap-kmfree-kmalloc}

abbrev pages : Pmm
pages = record {
  mem_bitmap = λ e. if e == 0 then 0x0000000f else 0;
  max_page = 0x1020;
  last_alloc_page = 0x1000;
  phys = λ a. 0;
}

pages-IsValid : IsValid pages
pages-IsValid = record { words = λ e. ground arith; hint_from = omega arith; hint_to = omega arith }

kmalloc_address : (kmalloc pages 3).1 ≡ 0x1004000
unfolding kmalloc scan found rd_bitmap
kmalloc_address = refl

kmalloc-Outcome_example : Outcome pages 3 (kmalloc pages 3)
kmalloc-Outcome_example = kmalloc-Outcome pages pages-IsValid 3 (omega arith)

succeeds : (kmalloc pages 3).1 ≢ 0
succeeds = omega (arith, kmalloc_address)

pmm_free_pages-kmalloc_example : pmm_free_pages (kmalloc pages 3).0 + 3 ≡ pmm_free_pages pages
pmm_free_pages-kmalloc_example = pmm_free_pages-kmalloc pages 3 pages-IsValid (omega arith) succeeds

rd_bitmap-kmfree-kmalloc_example :
    rd_bitmap (kmfree (kmalloc pages 3).0 (kmalloc pages 3).1 3) 0x1005 ≡ rd_bitmap pages 0x1005
rd_bitmap-kmfree-kmalloc_example =
    rd_bitmap-kmfree-kmalloc pages 3 0x1005 pages-IsValid (omega arith) succeeds (omega arith)
