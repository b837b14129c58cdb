-- ===== src/Paging/Walk.antt =====
-- What the processor finds in the tables that `map_page` leaves. Its walk is that of x86-64 with four
-- levels and reads indices and addresses by itself; no entry has bits above its address.
use subleq_emu.Prelude.{ℕ, ◌+◌, ◌*◌, ◌/◌, ◌%◌, ◌≢◌, Option, none, some, if◌then◌else◌}
use subleq_emu.Ram.{Ram}
use subleq_emu.Pmm.{Pmm}
use subleq_emu.Paging.{entry, is_present, is_huge, address, pml4_idx, pdpt_idx, pd_idx}
use subleq_emu.Paging.Table.{IsTable}

unfoldable pub walk_pt : Ram → ℕ → ℕ → Option ℕ
walk_pt m pt virt =
    let e = entry m pt (virt / 0x1000 % 512) in
    if is_present e then some (e / 0x1000 * 0x1000 + virt % 0x1000) else none

unfoldable pub walk_pd : Ram → ℕ → ℕ → Option ℕ
walk_pd m pd virt =
    let e = entry m pd (virt / 0x200000 % 512) in
    if is_huge e
    then some (e / 0x200000 * 0x200000 + virt % 0x200000)
    else if is_present e
    then walk_pt m (e / 0x1000 * 0x1000) virt
    else none

unfoldable pub walk_pdpt : Ram → ℕ → ℕ → Option ℕ
walk_pdpt m pdpt virt =
    let e = entry m pdpt (virt / 0x40000000 % 512) in
    if is_huge e
    then some (e / 0x40000000 * 0x40000000 + virt % 0x40000000)
    else if is_present e
    then walk_pd m (e / 0x1000 * 0x1000) virt
    else none

unfoldable pub walk : Ram → ℕ → ℕ → Option ℕ
walk m pml4 virt =
    let e = entry m pml4 (virt / 0x8000000000 % 512) in
    if is_present e then walk_pdpt m (e / 0x1000 * 0x1000) virt else none

-- `u` is not among the tables on the way from `pd`, or from `pdpt`.
abbrev pub OffPd : ℕ → Pmm → ℕ → ℕ → Type 0
OffPd virt p pd u =
    (u ≢ pd)
    × (if is_present (entry p.phys pd (pd_idx virt))
        then u ≢ address (entry p.phys pd (pd_idx virt))
        else Unit)

abbrev pub OffPdpt : ℕ → Pmm → ℕ → ℕ → Type 0
OffPdpt virt p pdpt u =
    (u ≢ pdpt)
    × (if is_present (entry p.phys pdpt (pdpt_idx virt))
        then OffPd virt p (address (entry p.phys pdpt (pdpt_idx virt))) u
        else Unit)

abbrev pub OffPml4 : ℕ → Pmm → ℕ → ℕ → Type 0
OffPml4 virt p pml4 u =
    (u ≢ pml4)
    × (if is_present (entry p.phys pml4 (pml4_idx virt))
        then OffPdpt virt p (address (entry p.phys pml4 (pml4_idx virt))) u
        else Unit)

-- The tables on the way are pages in use, none of them twice.
abbrev pub PathPd : ℕ → Pmm → ℕ → Type 0
PathPd virt p pd =
    IsTable p pd
    × (if is_present (entry p.phys pd (pd_idx virt))
        then IsTable p (address (entry p.phys pd (pd_idx virt)))
          × (pd ≢ address (entry p.phys pd (pd_idx virt)))
        else Unit)

abbrev pub PathPdpt : ℕ → Pmm → ℕ → Type 0
PathPdpt virt p pdpt =
    IsTable p pdpt
    × (if is_present (entry p.phys pdpt (pdpt_idx virt))
        then PathPd virt p (address (entry p.phys pdpt (pdpt_idx virt)))
          × OffPd virt p (address (entry p.phys pdpt (pdpt_idx virt))) pdpt
        else Unit)

abbrev pub PathPml4 : ℕ → Pmm → ℕ → Type 0
PathPml4 virt p pml4 =
    IsTable p pml4
    × (if is_present (entry p.phys pml4 (pml4_idx virt))
        then PathPdpt virt p (address (entry p.phys pml4 (pml4_idx virt)))
          × OffPdpt virt p (address (entry p.phys pml4 (pml4_idx virt))) pml4
        else Unit)
