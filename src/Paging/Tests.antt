-- ===== src/Paging/Tests.antt =====
-- A top table and two more for addresses below 1 GiB; the page table itself is still to be made.
use subleq_emu.Prelude.{◌/◌, ◌%◌, ◌≡◌, refl, inr, arith, ◌==◌, if◌then◌else◌}
use subleq_emu.Ram.{byte, load64}
use subleq_emu.Pmm.{Pmm, kmalloc, scan, found, rd_bitmap}
use subleq_emu.Pmm.Alloc.{IsValid}
use subleq_emu.Paging.{map_page, map_in_pdpt, map_in_pd, get_table}
use subleq_emu.Paging.Table.{IsTable}
use subleq_emu.Paging.Walk.{walk, PathPml4, OffPml4}
use subleq_emu.Paging.Level.{Mapped, done}
use subleq_emu.Paging.Maps.{map_page-Mapped}

abbrev tables : Pmm
tables = record {
  mem_bitmap = λ e. if e == 0 then 0x0000000f else 0;
  max_page = 0x1020;
  last_alloc_page = 0x1000;
  phys = λ a.
      byte (if a / 8 == 0x200000 then 0x1001003 else if a / 8 == 0x200200 then 0x1002003 else 0)
        (a % 8);
}

tables-IsValid : IsValid tables
tables-IsValid = record {
  words = λ e. ground arith;
  hint_from = omega arith;
  hint_to = omega arith;
}

abbrev after : Pmm
after = (map_page tables 0x1000000 0x7654321 0x3456789).0

maps : map_page tables 0x1000000 0x7654321 0x3456789 ≡ done after
unfolding map_page map_in_pdpt map_in_pd get_table load64 kmalloc scan found rd_bitmap
maps = refl

top : IsTable tables 0x1000000
unfolding rd_bitmap
top = record { aligned = refl; used = inr (inr refl) }

second : IsTable tables 0x1001000
unfolding rd_bitmap
second = record { aligned = refl; used = inr (inr refl) }

third : IsTable tables 0x1002000
unfolding rd_bitmap
third = record { aligned = refl; used = inr (inr refl) }

path : PathPml4 0x3456789 tables 0x1000000
unfolding load64
path = (top, ((second, ((third, tt), (omega arith, tt))), (omega arith, (omega arith, tt))))

map_page-Mapped_example :
    Mapped 0x7654321 0x3456789
      (omega arith)
      (OffPml4 0x3456789 tables 0x1000000)
      tables
      after
      (walk after.phys 0x1000000 0x3456789)
map_page-Mapped_example =
    map_page-Mapped 0x7654321 0x3456789 (omega arith) tables 0x1000000 after tables-IsValid
      (omega arith) path maps
