-- ===== src/Pmm/Init.antt =====
-- `pmm_init` of kernel/src/pmm.c: the page bitmap from the bootloader's memory map. The responses of
-- the bootloader are an argument, `none` where a pointer is null; the result `none` is a panic. The
-- messages are left out.
pub mod Mark
pub mod Free
mod Tests
use subleq_emu.Prelude.{
  ℕ, zero, suc, ◌+◌, ◌-◌, ◌*◌, ◌/◌, ◌%◌, Bool, ◌&&◌, ◌||◌, not, Option, none, some, List, [], ◌∷◌,
  ◌==◌, leb, ltb, if◌then◌else◌, sub64,
}
use subleq_emu.Ram.{Ram}
use subleq_emu.Pmm.{Pmm, page_size, memory_base, bitmap_base, wr_bitmap}

-- `struct limine_memmap_entry`; `kind` is its type.
pub record Entry : Type 0 where
  pub base : ℕ
  pub len : ℕ
  pub kind : ℕ

-- The responses that `pmm_init` asks for.
pub record Boot : Type 0 where
  pub hhdm : Option ℕ
  pub executable_address : Option (ℕ × ℕ)
  pub executable_file : Option ℕ
  pub memmap : Option (List Entry)

-- What it sets, beside the allocator's own variables.
pub record Started : Type 0 where
  pub pmm : Pmm
  pub hhdm_offset : ℕ
  pub kernel_phys_base : ℕ
  pub kernel_virt_base : ℕ
  pub kernel_file : ℕ
  pub limine_memmap : List Entry
  pub bitmap_pages : ℕ
  pub bitmap_phys : ℕ

-- LIMINE_MEMMAP_USABLE and LIMINE_MEMMAP_BOOTLOADER_RECLAIMABLE
abbrev pub usable : ℕ
usable = 0

abbrev pub bootloader_reclaimable : ℕ
bootloader_reclaimable = 5

unfoldable pub highest_addr : List Entry → ℕ → ℕ
highest_addr [] high = high
highest_addr (e ∷ es) high = highest_addr es (
    if (e.kind == usable || e.kind == bootloader_reclaimable) && ltb high (e.base + e.len)
    then e.base + e.len
    else high)

-- The pages of a bitmap for the pages below `new_max_page`.
unfoldable pub pages_of_bitmap : ℕ → ℕ
pages_of_bitmap new_max_page =
    let bitmap_bytes = (sub64 new_max_page bitmap_base + 7) / 8 in
    (bitmap_bytes + page_size - 1) / page_size

-- The first page of an entry from `memory_base` on, and the end of its last.
abbrev pub first_page : Entry → ℕ
first_page e =
    let base = (e.base + page_size - 1) / page_size * page_size in
    if ltb base memory_base then memory_base else base

abbrev pub last_end : Entry → ℕ
last_end e = (e.base + e.len) / page_size * page_size

-- Where the bitmap goes; 0 is nowhere.
unfoldable pub place_bitmap : List Entry → ℕ → ℕ
place_bitmap [] pages = 0
place_bitmap (e ∷ es) pages =
    let rest = place_bitmap es pages in
    if not (e.kind == usable)
    then rest
    else if ltb (first_page e) (last_end e) && leb (pages * page_size) (last_end e - first_page e)
    then first_page e
    else rest

-- All ones in the bitmap's `pages`; `behind` is what memory holds behind them.
abbrev pub all_used : ℕ → (ℕ → ℕ) → ℕ → ℕ
all_used pages behind i = if ltb i (pages * page_size / 4) then 0xffffffff else behind i

-- One page of a usable region.
abbrev pub is_skipped : Pmm → ℕ → ℕ → ℕ → Bool
is_skipped p bitmap_phys pages addr =
    ltb (addr / page_size) bitmap_base
    || (leb p.max_page (addr / page_size)
        || (leb bitmap_phys addr && ltb addr (bitmap_phys + pages * page_size)))

unfoldable pub free_page : Pmm → ℕ → ℕ → ℕ → Pmm
free_page p bitmap_phys pages addr =
    if is_skipped p bitmap_phys pages addr then p else wr_bitmap p (addr / page_size) 0

-- `rounds` pages from `addr` on.
unfoldable pub free_pages : ℕ → Pmm → ℕ → ℕ → ℕ → Pmm
free_pages zero p bitmap_phys pages addr = p
free_pages (suc rounds) p bitmap_phys pages addr =
    free_pages rounds (free_page p bitmap_phys pages addr) bitmap_phys pages (addr + page_size)

abbrev pub aligned_base : Entry → ℕ
aligned_base e =
    if e.base % page_size == 0 then e.base else e.base + (page_size - e.base % page_size)

abbrev pub aligned_length : Entry → ℕ
aligned_length e =
    let whole = e.len / page_size * page_size in
    if not (e.base % page_size == 0) && not (whole == 0) then whole - page_size else whole

unfoldable pub free_usable : Pmm → ℕ → ℕ → List Entry → Pmm
free_usable p bitmap_phys pages [] = p
free_usable p bitmap_phys pages (e ∷ es) =
    free_usable
      (if not (e.kind == usable)
        then p
        else free_pages (aligned_length e / page_size) p bitmap_phys pages (aligned_base e))
      bitmap_phys pages es

-- From the memory map on.
unfoldable pub init_from : (ℕ → ℕ) → Ram → List Entry → Option (Pmm × ℕ × ℕ)
init_from behind phys es =
    let new_max_page = highest_addr es 0 / page_size in
    let pages = pages_of_bitmap new_max_page in
    let bitmap_phys = place_bitmap es pages in
    let blank : Pmm = record {
      mem_bitmap = all_used pages behind;
      max_page = new_max_page;
      last_alloc_page = bitmap_base;
      phys = phys;
    } in
    if bitmap_phys == 0
    then none
    else some (free_usable blank bitmap_phys pages es, pages, bitmap_phys)

unfoldable pub pmm_init : (ℕ → ℕ) → Ram → Boot → Option Started
pmm_init behind phys b = elim b.hhdm [
  | none ↦ none
  | some offset ↦ elim b.executable_address [
    | none ↦ none
    | some (phys_base, virt_base) ↦ elim b.executable_file [
      | none ↦ none
      | some file ↦ elim b.memmap [
        | none ↦ none
        | some es ↦ elim (init_from behind phys es) [
          | none ↦ none
          | some t ↦ some (record {
            pmm = t.0;
            hhdm_offset = offset;
            kernel_phys_base = phys_base;
            kernel_virt_base = virt_base;
            kernel_file = file;
            limine_memmap = es;
            bitmap_pages = t.1;
            bitmap_phys = t.2;
          })
        ]
      ]
    ]
  ]
]
