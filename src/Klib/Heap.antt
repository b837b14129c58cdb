-- ===== src/Klib/Heap.antt =====
-- `kalloc`, `kfree` and `krealloc` of kernel/src/klib.c over the page allocator. Physical memory is
-- mapped at `hhdm`, below 2 ^ 64, and a pointer is a virtual address.
pub mod Metadata
use subleq_emu.Prelude.{ℕ, ◌+◌, ◌-◌, ◌*◌, ◌/◌, ◌%◌, ◌==◌, ltb, if◌then◌else◌, two64, add64, sub64}
use subleq_emu.Ram.{Ram, load64, store64}
use subleq_emu.Memory.{memcpy}
use subleq_emu.Pmm.{Pmm, kmalloc, kmfree}

abbrev pub page_size : ℕ
page_size = 4096

-- The pages that hold `size` bytes.
abbrev pub pages_for : ℕ → ℕ
pages_for size = size / page_size + (if size % page_size == 0 then 0 else 1)

-- The physical address behind a pointer.
abbrev pub physical : ℕ → ℕ → ℕ
physical hhdm addr = sub64 addr hhdm

-- The page in front of an allocation, as a physical address: `pages` stands there, `size` behind it.
abbrev pub metadata : ℕ → ℕ → ℕ
metadata hhdm addr = physical hhdm (sub64 addr page_size)

unfoldable pub kalloc : ℕ → Pmm → ℕ → Pmm × ℕ
kalloc hhdm p size =
    let (q, ptr) = kmalloc p (pages_for size + 1) in
    if ptr == 0 then (q, 0) else (
      record q { phys = store64 (store64 q.phys ptr (pages_for size)) (ptr + 8) size },
      add64 (add64 ptr hhdm) page_size,
    )

-- `metadata - PHYS_MEM_OFFSET` is pointer arithmetic on 16-byte records.
unfoldable pub kfree : ℕ → Pmm → ℕ → Pmm
kfree hhdm p addr =
    kmfree p (sub64 (sub64 addr page_size) (16 * hhdm % two64))
      (load64 p.phys (metadata hhdm addr) + 1)

-- The copy goes between pointers; both ranges are in mapped physical memory.
unfoldable pub krealloc : ℕ → Pmm → ℕ → ℕ → Pmm × ℕ
krealloc hhdm p addr new_size =
    let (q, new_ptr) = kalloc hhdm p new_size in
    let old_size = load64 q.phys (metadata hhdm addr + 8) in
    let copied = record q {
      phys =
          memcpy q.phys (physical hhdm new_ptr) (physical hhdm addr)
            (if ltb new_size old_size then new_size else old_size);
    } in
    if addr == 0
    then kalloc hhdm p new_size
    else if new_size == 0
    then (kfree hhdm p addr, 0)
    else if new_ptr == 0
    then (q, 0)
    else (kfree hhdm copied addr, new_ptr)
