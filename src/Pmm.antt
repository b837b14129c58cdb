-- ===== src/Pmm.antt =====
-- The physical page allocator, kernel/src/pmm.c: a bitmap with a bit per page from page
-- `bitmap_base` on, 1 for a page in use, in 32-bit entries, and the physical memory that
-- `kmalloc` clears, at its physical addresses (the code adds PHYS_MEM_OFFSET to reach it).
-- A `size_t` is a natural number: page numbers and addresses stay far below 2 ^ 64.
pub mod Bits
pub mod Scan
pub mod Alloc
pub mod Free
pub mod Init
mod Tests
use subleq_emu.Prelude.{
  ℕ, zero, suc, ◌+◌, ◌-◌, ◌*◌, ◌/◌, Bool, Option, none, some, ◌==◌, if◌then◌else◌,
}
use subleq_emu.Prelude.Bitmap
use subleq_emu.Ram.{Ram, store64}

abbrev pub page_size : ℕ
page_size = 0x1000

abbrev pub memory_base : ℕ
memory_base = 0x1000000

abbrev pub bitmap_base : ℕ
bitmap_base = 0x1000

-- The static variables. The entries of `mem_bitmap` are of type `uint32_t`.
pub record Pmm : Type 0 where
  pub mem_bitmap : ℕ → ℕ
  pub max_page : ℕ
  pub last_alloc_page : ℕ
  pub phys : Ram

unfoldable pub rd_bitmap : Pmm → ℕ → ℕ
rd_bitmap p i = Bitmap.get 32 p.mem_bitmap (i - bitmap_base)

unfoldable pub wr_bitmap : Pmm → ℕ → ℕ → Pmm
wr_bitmap p i val = record p {
  mem_bitmap =
      if val == 0
      then Bitmap.clear 32 p.mem_bitmap (i - bitmap_base)
      else Bitmap.set 32 p.mem_bitmap (i - bitmap_base);
}

-- `for (i = strt_page; i < strt_page + n; i++) wr_bitmap(i, val)`
unfoldable pub wr_range : ℕ → Pmm → ℕ → ℕ → Pmm
wr_range zero p i val = p
wr_range (suc n) p i val = wr_range n (wr_bitmap p i val) (i + 1) val

-- One pass of `kmalloc` over the `n` pages from `i` on: the last page of the first run found.
unfoldable pub scan : Pmm → ℕ → ℕ → ℕ → ℕ → Option ℕ
scan p pages zero i pg_counter = none
scan p pages (suc n) i pg_counter =
    let counter = if rd_bitmap p i == 0 then pg_counter + 1 else 0 in
    let rest = scan p pages n (i + 1) counter in if counter == pages then some i else rest

-- `for (j = 0; j < n; j++) phys_pages[j] = 0`, with `phys_pages + j` at `addr`
unfoldable pub zero_words : ℕ → Ram → ℕ → Ram
zero_words zero m addr = m
zero_words (suc n) m addr = zero_words n (store64 m addr 0) (addr + 8)

-- From the label `found` on, with the last page of the run in `i`.
unfoldable pub found : Pmm → ℕ → ℕ → Pmm × ℕ
found p pages i =
    let strt_page = i + 1 - pages in
    let q = wr_range pages (record p { last_alloc_page = i + 1 }) strt_page 1 in
    (
      record q { phys = zero_words (pages * page_size / 8) q.phys (strt_page * page_size) },
      strt_page * page_size,
    )

-- The address is 0 when there is no room.
unfoldable pub kmalloc : Pmm → ℕ → Pmm × ℕ
kmalloc p pages =
    let start = p.last_alloc_page in
    elim (scan p pages (p.max_page - start) start 0) [
      | some i ↦ found p pages i
      | none ↦ elim (scan p pages (start - bitmap_base) bitmap_base 0) [
        | some i ↦ found p pages i
        | none ↦ (p, 0)
      ]
    ]

unfoldable pub kmfree : Pmm → ℕ → ℕ → Pmm
kmfree p ptr pages = wr_range pages p (ptr / page_size) 0

-- The pages free among the `n` from `i` on.
unfoldable pub count_free : ℕ → Pmm → ℕ → ℕ
count_free zero p i = 0
count_free (suc n) p i = (if rd_bitmap p i == 0 then 1 else 0) + count_free n p (i + 1)

unfoldable pub pmm_free_pages : Pmm → ℕ
pmm_free_pages p = count_free (p.max_page - bitmap_base) p bitmap_base
