-- ===== src/Paging/Maps.antt =====
-- `map_page` against the processor's walk.
use subleq_emu.Prelude.{
  ℕ, ◌+◌, ◌*◌, ◌/◌, ◌%◌, ◌<◌, ◌≡◌, ◌≢◌, refl, ap, subst, arith, true, false, none, some, two64,
}
use subleq_emu.Pmm.{Pmm}
use subleq_emu.Pmm.Alloc.{IsValid}
use subleq_emu.Paging.{
  is_huge, address, set_entry, pml4_idx, pdpt_idx, pd_idx, pt_idx, map_in_pd, map_in_pdpt, map_page,
}
use subleq_emu.Paging.Table.{IsTable}
use subleq_emu.Paging.Walk.{
  walk_pt, walk_pd, walk_pdpt, walk, OffPd, OffPdpt, OffPml4, PathPd, PathPdpt, PathPml4,
}
use subleq_emu.Paging.Level.{Mapped, done, level, set_pt, pointer_is_huge}

module _ (phys virt : ℕ) (in_phys : phys < two64) where
  map_in_pd-Mapped :
      (p : Pmm) (pd : ℕ) (q : Pmm)
      → IsValid p
      → p.max_page < 0x8000000000000
      → PathPd virt p pd
      → map_in_pd p pd phys virt ≡ done q
      → Mapped phys virt in_phys (OffPd virt p pd) p q (walk_pd q.phys pd virt)
  unfolding map_in_pd walk_pd
  map_in_pd-Mapped p pd q v small (here, path) h =
      level phys virt in_phys is_huge (λ e. some (e / 0x200000 * 0x200000 + virt % 0x200000))
        (λ m t. walk_pt m t virt) (λ b t u. u ≢ t) p pd (pd_idx virt) here (omega arith)
        (λ b t. (set_entry b t (pt_idx virt) (address phys + 3), true)) IsTable q v small
        pointer_is_huge (λ b n k z. (k, λ u o. o))
        (λ b n bv bs k e.
          subst (λ x. Mapped phys virt in_phys (λ u. u ≢ n) b x (walk_pt x.phys n virt))
            (ap (λ x. x.0) e) (set_pt phys virt in_phys b n k))
        path h

  map_in_pdpt-Mapped :
      (p : Pmm) (pdpt : ℕ) (q : Pmm)
      → IsValid p
      → p.max_page < 0x8000000000000
      → PathPdpt virt p pdpt
      → map_in_pdpt p pdpt phys virt ≡ done q
      → Mapped phys virt in_phys (OffPdpt virt p pdpt) p q (walk_pdpt q.phys pdpt virt)
  unfolding map_in_pdpt walk_pdpt
  map_in_pdpt-Mapped p pdpt q v small (here, path) h =
      level phys virt in_phys is_huge (λ e. some (e / 0x40000000 * 0x40000000 + virt % 0x40000000))
        (λ m t. walk_pd m t virt) (OffPd virt) p pdpt (pdpt_idx virt) here (omega arith)
        (λ b t. map_in_pd b t phys virt) (PathPd virt) q v small pointer_is_huge
        (λ b n k z.
          let none_there = z (pd_idx virt) (omega arith) in
          ((k, rw none_there tt), λ u o. (o, rw none_there tt)))
        (λ b n bv bs k e. map_in_pd-Mapped b n _ bv bs k e) path h

  -- When `map_page` succeeds on valid tables, the walk of the mapped address from the same top table
  -- ends at the same offset in the physical page given, and every page in use that is none of the
  -- tables on the way is as it was. The tables on the way are distinct pages in use, with pages below
  -- 2 ^ 51 tracked and a 64-bit physical address.
  pub map_page-Mapped :
      (p : Pmm) (pml4 : ℕ) (q : Pmm)
      → IsValid p
      → p.max_page < 0x8000000000000
      → PathPml4 virt p pml4
      → map_page p pml4 phys virt ≡ done q
      → Mapped phys virt in_phys (OffPml4 virt p pml4) p q (walk q.phys pml4 virt)
  unfolding map_page walk
  map_page-Mapped p pml4 q v small (here, path) h =
      level phys virt in_phys (λ e. false) (λ e. none) (λ m t. walk_pdpt m t virt) (OffPdpt virt) p
        pml4 (pml4_idx virt) here (omega arith) (λ b t. map_in_pdpt b t phys virt) (PathPdpt virt) q
        v small (λ n a. refl)
        (λ b n k z.
          let none_there = z (pdpt_idx virt) (omega arith) in
          ((k, rw none_there tt), λ u o. (o, rw none_there tt)))
        (λ b n bv bs k e. map_in_pdpt-Mapped b n _ bv bs k e) path h
