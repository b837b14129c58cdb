-- ===== src/Pmm/Init/Mark.antt =====
-- What the second pass of `pmm_init` leaves in the bitmap, page by page.
use subleq_emu.Prelude.{
  ℕ, zero, suc, ◌+◌, ◌*◌, ◌/◌, ◌≤◌, ◌<◌, ◌≡◌, refl, ap, sym, ◌∙◌, inl, inr, arith, Bool, true,
  false, ◌&&◌, ◌||◌, not, List, [], ◌∷◌, ◌==◌, leb, ltb, Bool-cases, if◌then◌else◌,
}
use subleq_emu.Pmm.{Pmm, page_size, bitmap_base, rd_bitmap, wr_bitmap}
use subleq_emu.Pmm.Bits.{IsWords, wr_bitmap-IsWords, rd_bitmap-wr_bitmap}
use subleq_emu.Pmm.Init.{
  Entry, usable, is_skipped, free_page, free_pages, aligned_base, aligned_length, free_usable,
}

-- Page `pg` is one of the bitmap's own.
abbrev pub is_own : ℕ → ℕ → ℕ → Bool
is_own bitmap_phys pages pg =
    leb bitmap_phys (pg * page_size) && ltb (pg * page_size) (bitmap_phys + pages * page_size)

-- The second pass comes to page `pg` in the entry.
abbrev pub is_freed : Entry → ℕ → Bool
is_freed e pg =
    e.kind == usable
    && (leb (aligned_base e / page_size) pg
        && ltb pg (aligned_base e / page_size + aligned_length e / page_size))

unfoldable pub any_freed : List Entry → ℕ → Bool
any_freed [] pg = false
any_freed (e ∷ es) pg = is_freed e pg || any_freed es pg

module _ (bitmap_phys pages : ℕ) where
  pub record Agrees (p q : Pmm) : Type 0 where
    pub words : IsWords q
    pub same_max : q.max_page ≡ p.max_page

  free_page-Agrees :
      (p : Pmm) (addr : ℕ) → IsWords p → Agrees p (free_page p bitmap_phys pages addr)
  unfolding free_page wr_bitmap
  free_page-Agrees p addr w = elim (Bool-cases (is_skipped p bitmap_phys pages addr)) [
    | inl e ↦ rw e (record { words = w; same_max = refl })
    | inr e ↦ rw e (record { words = wr_bitmap-IsWords p (addr / page_size) 0 w; same_max = refl })
  ]

  rd_bitmap-free_page :
      (p : Pmm) (k pg : ℕ)
      → IsWords p
      → bitmap_base ≤ pg
      → pg < p.max_page
      → rd_bitmap (free_page p bitmap_phys pages (k * page_size)) pg
        ≡ (if k == pg && not (is_own bitmap_phys pages pg) then 0 else rd_bitmap p pg)
  unfolding free_page
  rd_bitmap-free_page p k pg w lo hi =
      elim (Bool-cases (is_skipped p bitmap_phys pages (k * page_size))) [
        | inl e ↦ rw e (skipped e)
        | inr e ↦ rw e (freed e)
      ]
    where
      at : k * page_size / page_size ≡ k
      at = omega arith

      skipped :
          is_skipped p bitmap_phys pages (k * page_size) ≡ true
          → rd_bitmap p pg
            ≡ (if k == pg && not (is_own bitmap_phys pages pg) then 0 else rd_bitmap p pg)
      skipped e = ground arith

      freed :
          is_skipped p bitmap_phys pages (k * page_size) ≡ false
          → rd_bitmap (wr_bitmap p (k * page_size / page_size) 0) pg
            ≡ (if k == pg && not (is_own bitmap_phys pages pg) then 0 else rd_bitmap p pg)
      freed e =
          rd_bitmap-wr_bitmap p (k * page_size / page_size) pg 0 w (ground arith) lo ∙ ground arith

  free_pages-Agrees :
      (n : ℕ) (p : Pmm) (addr : ℕ) → IsWords p → Agrees p (free_pages n p bitmap_phys pages addr)
  unfolding free_pages
  free_pages-Agrees zero p addr w = record { words = w; same_max = refl }
  free_pages-Agrees (suc n) p addr w =
      let one = free_page-Agrees p addr w in
      let rest =
        free_pages-Agrees n (free_page p bitmap_phys pages addr) (addr + page_size) one.words in
      record { words = rest.words; same_max = rest.same_max ∙ one.same_max }

  rd_bitmap-free_pages :
      (n : ℕ) (p : Pmm) (k pg : ℕ)
      → IsWords p
      → bitmap_base ≤ pg
      → pg < p.max_page
      → rd_bitmap (free_pages n p bitmap_phys pages (k * page_size)) pg ≡ (
          if (leb k pg && ltb pg (k + n)) && not (is_own bitmap_phys pages pg)
          then 0
          else rd_bitmap p pg)
  unfolding free_pages
  rd_bitmap-free_pages zero p k pg w lo hi = ground arith
  rd_bitmap-free_pages (suc n) p k pg w lo hi =
      let one = free_page-Agrees p (k * page_size) w in
      let q = free_page p bitmap_phys pages (k * page_size) in
      let next : k * page_size + page_size ≡ (k + 1) * page_size = omega arith in
      ap (λ a. rd_bitmap (free_pages n q bitmap_phys pages a) pg) next
      ∙ rd_bitmap-free_pages n q (k + 1) pg one.words lo (rw one.same_max hi)
      ∙ ground (arith, rd_bitmap-free_page p k pg w lo hi)

  aligned_base-is_aligned : (e : Entry) → aligned_base e / page_size * page_size ≡ aligned_base e
  aligned_base-is_aligned e = ground arith

  abbrev after_one : Pmm → Entry → Pmm
  after_one p e =
      if not (e.kind == usable)
      then p
      else free_pages (aligned_length e / page_size) p bitmap_phys pages (aligned_base e)

  after_one-Agrees : (p : Pmm) (e : Entry) → IsWords p → Agrees p (after_one p e)
  after_one-Agrees p e w = elim (Bool-cases (e.kind == usable)) [
    | inl t ↦ rw t (free_pages-Agrees (aligned_length e / page_size) p (aligned_base e) w)
    | inr f ↦ rw f (record { words = w; same_max = refl })
  ]

  pub free_usable-Agrees :
      (es : List Entry) (p : Pmm) → IsWords p → Agrees p (free_usable p bitmap_phys pages es)
  unfolding free_usable
  free_usable-Agrees [] p w = record { words = w; same_max = refl }
  free_usable-Agrees (e ∷ es) p w =
      let one = after_one-Agrees p e w in
      let rest = free_usable-Agrees es (after_one p e) one.words in
      record { words = rest.words; same_max = rest.same_max ∙ one.same_max }

  rd_bitmap-after_one :
      (p : Pmm) (e : Entry) (pg : ℕ)
      → IsWords p
      → bitmap_base ≤ pg
      → pg < p.max_page
      → rd_bitmap (after_one p e) pg
        ≡ (if is_freed e pg && not (is_own bitmap_phys pages pg) then 0 else rd_bitmap p pg)
  rd_bitmap-after_one p e pg w lo hi = elim (Bool-cases (e.kind == usable)) [
    | inl t ↦
        let from = aligned_base e / page_size in
        let n = aligned_length e / page_size in
        rw t (
          ap (λ a. rd_bitmap (free_pages n p bitmap_phys pages a) pg)
            (sym (aligned_base-is_aligned e))
          ∙ rd_bitmap-free_pages n p from pg w lo hi)
    | inr f ↦ rw f refl
  ]

  pub rd_bitmap-free_usable :
      (es : List Entry) (p : Pmm) (pg : ℕ)
      → IsWords p
      → bitmap_base ≤ pg
      → pg < p.max_page
      → rd_bitmap (free_usable p bitmap_phys pages es) pg
        ≡ (if any_freed es pg && not (is_own bitmap_phys pages pg) then 0 else rd_bitmap p pg)
  unfolding free_usable any_freed
  rd_bitmap-free_usable [] p pg w lo hi = refl
  rd_bitmap-free_usable (e ∷ es) p pg w lo hi =
      let one = after_one-Agrees p e w in
      rd_bitmap-free_usable es (after_one p e) pg one.words lo (rw one.same_max hi)
      ∙ rw (rd_bitmap-after_one p e pg w lo hi) (elim (Bool-cases (is_freed e pg)) [
        | inl t ↦ rw t (elim (Bool-cases (any_freed es pg)) [
          | inl u ↦ rw u (ground arith)
          | inr u ↦ rw u (ground arith)
        ])
        | inr f ↦ rw f refl
      ])
