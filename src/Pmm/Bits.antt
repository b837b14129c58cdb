-- ===== src/Pmm/Bits.antt =====
-- What `wr_bitmap`, and a loop of it over a range of pages, do to each page's bit.
use subleq_emu.Prelude.{
  ℕ, zero, suc, ◌+◌, ◌-◌, ◌≤◌, ◌<◌, ◌≡◌, refl, ◌∙◌, inl, inr, arith, ◌&&◌, ◌==◌, leb, ltb,
  Bool-cases, if◌then◌else◌,
}
use subleq_emu.Prelude.Bitmap
use subleq_emu.Pmm.{Pmm, bitmap_base, rd_bitmap, wr_bitmap, wr_range}

abbrev pub IsWords : Pmm → Type 0
IsWords p = Bitmap.IsWords 32 p.mem_bitmap

pub wr_bitmap-IsWords : (p : Pmm) (i v : ℕ) → IsWords p → IsWords (wr_bitmap p i v)
unfolding wr_bitmap
wr_bitmap-IsWords p i v h = elim (Bool-cases (v == 0)) [
  | inl e ↦ rw e (Bitmap.clear-IsWords 32 p.mem_bitmap (i - bitmap_base) h)
  | inr e ↦ rw e (Bitmap.set-IsWords 32 p.mem_bitmap (i - bitmap_base) (omega arith) h)
]

pub rd_bitmap-wr_bitmap :
    (p : Pmm) (i j v : ℕ)
    → IsWords p
    → bitmap_base ≤ i
    → bitmap_base ≤ j
    → rd_bitmap (wr_bitmap p i v) j ≡ (if i == j then (if v == 0 then 0 else 1) else rd_bitmap p j)
unfolding rd_bitmap wr_bitmap
rd_bitmap-wr_bitmap p i j v w hi hj = elim (Bool-cases (v == 0)) [
  | inl e ↦ rw (
    e,
    Bitmap.get-clear 32 p.mem_bitmap (i - bitmap_base) (j - bitmap_base) (omega arith) w,
    shift,
  )
  | inr e ↦ rw (e, Bitmap.get-set 32 p.mem_bitmap (i - bitmap_base) (j - bitmap_base), shift)
]
  where
    shift : (i - bitmap_base == j - bitmap_base) ≡ (i == j)
    shift = ground arith

pub rd_bitmap-lt_two : (p : Pmm) (i : ℕ) → rd_bitmap p i < 2
unfolding rd_bitmap
rd_bitmap-lt_two p i = Bitmap.get-lt_two 32 p.mem_bitmap (i - bitmap_base)

pub wr_range-IsWords : (n : ℕ) (p : Pmm) (i v : ℕ) → IsWords p → IsWords (wr_range n p i v)
unfolding wr_range
wr_range-IsWords zero p i v h = h
wr_range-IsWords (suc n) p i v h =
    wr_range-IsWords n (wr_bitmap p i v) (i + 1) v (wr_bitmap-IsWords p i v h)

-- The loop changes the bits of its own pages and no others.
pub rd_bitmap-wr_range :
    (n : ℕ) (p : Pmm) (i j v : ℕ)
    → IsWords p
    → bitmap_base ≤ i
    → bitmap_base ≤ j
    → rd_bitmap (wr_range n p i v) j
      ≡ (if leb i j && ltb j (i + n) then (if v == 0 then 0 else 1) else rd_bitmap p j)
unfolding wr_range
rd_bitmap-wr_range zero p i j v w hi hj = ground arith
rd_bitmap-wr_range (suc n) p i j v w hi hj =
    rd_bitmap-wr_range n (wr_bitmap p i v) (i + 1) j v (wr_bitmap-IsWords p i v w) (omega arith) hj
    ∙ ground (arith, rd_bitmap-wr_bitmap p i j v w hi hj)

module _ (v : ℕ) where
  pub max_page-wr_range : (n : ℕ) (p : Pmm) (i : ℕ) → (wr_range n p i v).max_page ≡ p.max_page
  unfolding wr_range wr_bitmap
  max_page-wr_range zero p i = refl
  max_page-wr_range (suc n) p i = max_page-wr_range n (wr_bitmap p i v) (i + 1)

  pub last_alloc_page-wr_range :
      (n : ℕ) (p : Pmm) (i : ℕ) → (wr_range n p i v).last_alloc_page ≡ p.last_alloc_page
  unfolding wr_range wr_bitmap
  last_alloc_page-wr_range zero p i = refl
  last_alloc_page-wr_range (suc n) p i = last_alloc_page-wr_range n (wr_bitmap p i v) (i + 1)

  pub phys-wr_range : (n : ℕ) (p : Pmm) (i : ℕ) → (wr_range n p i v).phys ≡ p.phys
  unfolding wr_range wr_bitmap
  phys-wr_range zero p i = refl
  phys-wr_range (suc n) p i = phys-wr_range n (wr_bitmap p i v) (i + 1)
