-- ===== src/Paging.antt =====
-- `map_page` and `map_page_2m` of kernel/src/paging.c, over the page allocator. The tables are
-- reached through PHYS_MEM_OFFSET in the code; here they stand in the allocator's `phys`, at their
-- physical addresses. An index is `(virt_addr >> n) & 0x1ff`, and an entry's address is
-- `entry & 0xfffffffffffff000`, written as quotients. A fresh table's address is a multiple of 4096.
pub mod Table
pub mod Walk
pub mod Level
pub mod Maps
mod Tests
use subleq_emu.Prelude.{
  ℕ, ◌+◌, ◌*◌, ◌/◌, ◌%◌, Bool, true, false, ◌&&◌, ◌==◌, Option, none, some, if◌then◌else◌,
}
use subleq_emu.Ram.{Ram, load64, store64}
use subleq_emu.Pmm.{Pmm, kmalloc}

abbrev pub pml4_idx : ℕ → ℕ
pml4_idx virt_addr = virt_addr / 0x8000000000 % 512

abbrev pub pdpt_idx : ℕ → ℕ
pdpt_idx virt_addr = virt_addr / 0x40000000 % 512

abbrev pub pd_idx : ℕ → ℕ
pd_idx virt_addr = virt_addr / 0x200000 % 512

abbrev pub pt_idx : ℕ → ℕ
pt_idx virt_addr = virt_addr / 0x1000 % 512

abbrev pub entry : Ram → ℕ → ℕ → ℕ
entry m table idx = load64 m (table + 8 * idx)

abbrev pub is_present : ℕ → Bool
is_present e = e % 2 == 1

-- Bit 7, in an entry that is present.
abbrev pub is_huge : ℕ → Bool
is_huge e = is_present e && (e / 128 % 2 == 1)

abbrev pub address : ℕ → ℕ
address e = e / 4096 * 4096

abbrev pub set_entry : Pmm → ℕ → ℕ → ℕ → Pmm
set_entry p table idx e = record p { phys = store64 p.phys (table + 8 * idx) e }

-- The table that an entry points to, or a fresh one put there; `none` is no room.
unfoldable pub get_table : Pmm → ℕ → ℕ → Pmm × Option ℕ
get_table p table idx =
    let (q, fresh) = kmalloc p 1 in
    if is_present (entry p.phys table idx)
    then (p, some (address (entry p.phys table idx)))
    else if fresh == 0
    then (q, none)
    else (set_entry q table idx (fresh + 3), some fresh)

-- From the last but one table of a 4 KiB page on. `false` is the result -1.
unfoldable pub map_in_pd : Pmm → ℕ → ℕ → ℕ → Pmm × Bool
map_in_pd p pd phys_addr virt_addr =
    let (q, found) = get_table p pd (pd_idx virt_addr) in
    let mapped : Pmm × Bool = elim found [
      | none ↦ (q, false)
      | some pt ↦ (set_entry q pt (pt_idx virt_addr) (address phys_addr + 3), true)
    ] in
    if is_huge (entry p.phys pd (pd_idx virt_addr)) then (p, false) else mapped

unfoldable pub map_in_pdpt : Pmm → ℕ → ℕ → ℕ → Pmm × Bool
map_in_pdpt p pdpt phys_addr virt_addr =
    let (q, found) = get_table p pdpt (pdpt_idx virt_addr) in
    let mapped : Pmm × Bool = elim found [
      | none ↦ (q, false)
      | some pd ↦ map_in_pd q pd phys_addr virt_addr
    ] in
    if is_huge (entry p.phys pdpt (pdpt_idx virt_addr)) then (p, false) else mapped

unfoldable pub map_page : Pmm → ℕ → ℕ → ℕ → Pmm × Bool
map_page p pml4 phys_addr virt_addr =
    let (q, found) = get_table p pml4 (pml4_idx virt_addr) in
    elim found [ none ↦ (q, false) | some pdpt ↦ map_in_pdpt q pdpt phys_addr virt_addr ]

-- A 2 MiB page; no entry on the way is looked at for bit 7.
unfoldable pub map_page_2m : Pmm → ℕ → ℕ → ℕ → Pmm × Bool
map_page_2m p pml4 phys_addr virt_addr =
    let (q, found) = get_table p pml4 (pml4_idx virt_addr) in
    elim found [
      | none ↦ (q, false)
      | some pdpt ↦
          let (r, found_pd) = get_table q pdpt (pdpt_idx virt_addr) in
          elim found_pd [
            | none ↦ (r, false)
            | some pd ↦
                (set_entry r pd (pd_idx virt_addr) (phys_addr / 0x200000 * 0x200000 + 0x83), true)
          ]
    ]
