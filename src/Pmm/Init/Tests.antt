-- ===== src/Pmm/Init/Tests.antt =====
-- A start with a low region, eight pages at 16 MiB, and a region that is not usable.
use subleq_emu.Prelude.{
  ◌≡◌, refl, arith, List, [], ◌∷◌, some, none, true, false, ◌&&◌, not, if◌then◌else◌,
}
use subleq_emu.Pmm.{Pmm, rd_bitmap, wr_bitmap}
use subleq_emu.Pmm.Init.{
  Entry, Boot, Started, pmm_init, init_from, highest_addr, place_bitmap, pages_of_bitmap,
  free_usable, free_pages, free_page, all_used,
}
use subleq_emu.Pmm.Init.Mark.{is_own}
use subleq_emu.Pmm.Init.Free.{any_inside, pmm_init-free_inside, rd_bitmap-pmm_init}

abbrev entries : List Entry
entries =
    record { base = 0x1000; len = 0x3000; kind = 0 }
    ∷ record { base = 0xff0000; len = 0x10000; kind = 1 }
    ∷ record { base = 0x1000000; len = 0x8000; kind = 0 }
    ∷ record { base = 0x1008000; len = 0x4000; kind = 5 }
    ∷ []

abbrev boot : Boot
boot = record {
  hhdm = some 0xffff800000000000;
  executable_address = some (0x200000, 0xffffffff80000000);
  executable_file = some 0x300000;
  memmap = some entries;
}

abbrev bitmap_before : Pmm
bitmap_before = record {
  mem_bitmap = all_used 1 (λ i. 0);
  max_page = 0x100c;
  last_alloc_page = 0x1000;
  phys = λ a. 0;
}

abbrev started : Started
started = record {
  pmm = free_usable bitmap_before 0x1000000 1 entries;
  hhdm_offset = 0xffff800000000000;
  kernel_phys_base = 0x200000;
  kernel_virt_base = 0xffffffff80000000;
  kernel_file = 0x300000;
  limine_memmap = entries;
  bitmap_pages = 1;
  bitmap_phys = 0x1000000;
}

starts : pmm_init (λ i. 0) (λ a. 0) boot ≡ some started
unfolding pmm_init init_from highest_addr place_bitmap pages_of_bitmap
starts = refl

in_use_without_map : pmm_init (λ i. 0) (λ a. 0) (record boot { memmap = none }) ≡ none
unfolding pmm_init
in_use_without_map = refl

high : highest_addr started.limine_memmap 0 ≡ 0x100c000
unfolding highest_addr
high = refl

max_page_after : started.pmm.max_page ≡ 0x100c
unfolding free_usable free_pages free_page wr_bitmap
max_page_after = refl

free_after : rd_bitmap started.pmm 0x1003 ≡ 0
unfolding free_usable free_pages free_page wr_bitmap rd_bitmap
free_after = refl

pmm_init-free_inside_example :
    (any_inside entries 0x1003 ≡ true) × (is_own 0x1000000 1 0x1003 ≡ false)
pmm_init-free_inside_example =
    pmm_init-free_inside (λ i. 0) (λ i. omega arith) (λ a. 0) boot started starts 0x1003
      (omega (arith, high)) (omega arith) (omega (arith, max_page_after)) free_after

rd_bitmap-pmm_init_example :
    rd_bitmap started.pmm 0x1009
    ≡ (if any_inside entries 0x1009 && not (is_own 0x1000000 1 0x1009) then 0 else 1)
rd_bitmap-pmm_init_example =
    rd_bitmap-pmm_init (λ i. 0) (λ i. omega arith) (λ a. 0) boot started starts 0x1009
      (omega (arith, high)) (omega arith, (omega arith, (omega arith, (omega arith, tt))))
      (omega arith) (omega (arith, max_page_after))
