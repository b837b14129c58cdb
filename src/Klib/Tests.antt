-- ===== src/Klib/Tests.antt =====
-- Numbers with few and with many digits.
use subleq_emu.Prelude.{
  ℕ, ◌≡◌, ◌+◌, ◌*◌, ◌%◌, refl, some, List, [], ◌∷◌, arith, ◌==◌, if◌then◌else◌, sub64, two64,
}
use subleq_emu.Pmm.{Pmm, kmalloc, kmfree, scan, found, rd_bitmap}
use subleq_emu.Klib.Format.{text, int32, format, directive}
use subleq_emu.Klib.Pieces.{
  Piece, plain, string, hex, unknown, whole_format, whole_args, whole_output, format-whole_format,
}
use subleq_emu.Klib.Heap.{kalloc, kfree, pages_for}
use subleq_emu.Klib.Heap.Metadata.{ptr, kfree-kalloc}
use subleq_emu.Klib.{fill_buf, kprn_ui, kprn_x}
use subleq_emu.Klib.Print.{IsNumeral, kprn_ui-IsNumeral}

prints_305 : kprn_ui 305 ≡ some (51 ∷ 48 ∷ 53 ∷ [])
unfolding kprn_ui fill_buf
prints_305 = refl

kprn_ui-IsNumeral_example : (s : List ℕ) × (kprn_ui 305 ≡ some s) × IsNumeral 10 20 305 s
kprn_ui-IsNumeral_example = kprn_ui-IsNumeral 305 (omega arith) (omega arith)

-- `x%s=%x%q`
abbrev message : List Piece
message = plain 120 ∷ string (97 ∷ 98 ∷ []) ∷ plain 61 ∷ hex 17 ∷ unknown 113 ∷ []

prints_message :
    format (whole_format message) (text (97 ∷ 98 ∷ []) ∷ int32 17 ∷ [])
    ≡ some (120 ∷ 97 ∷ 98 ∷ 61 ∷ 48 ∷ 120 ∷ 49 ∷ 49 ∷ 63 ∷ 10 ∷ [])
unfolding format directive kprn_x fill_buf
prints_message = refl

format-whole_format_example :
    format (whole_format message) (whole_args message) ≡ whole_output message
format-whole_format_example = format-whole_format message (
  omega arith,
  (
    refl,
    (
      omega arith,
      (
        refl,
        (
          (
            omega arith,
            omega arith,
            omega arith,
            omega arith,
            omega arith,
            omega arith,
            omega arith,
          ),
          tt,
        ),
      ),
    ),
  ),
)

-- An allocator with 32 pages, the first two in use, and an offset.
abbrev pages : Pmm
pages = record {
  mem_bitmap = λ e. if e == 0 then 3 else 0;
  max_page = 0x1020;
  last_alloc_page = 0x1000;
  phys = λ a. 0;
}

abbrev offset : ℕ
offset = 0xffff800000000000

address : ptr offset pages 5000 (omega arith) ≡ 0x1002000
unfolding kmalloc scan found rd_bitmap
address = refl

kfree-kalloc_example :
    kfree offset (kalloc offset pages 5000).0 (kalloc offset pages 5000).1
    ≡ kmfree
        (kalloc offset pages 5000).0
        (sub64 (ptr offset pages 5000 (omega arith)) (15 * offset % two64))
        (pages_for 5000 + 1)
kfree-kalloc_example =
    kfree-kalloc offset pages 5000 (omega arith) (omega (arith, address)) (omega (arith, address))
      (omega arith)
