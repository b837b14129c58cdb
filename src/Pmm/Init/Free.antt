-- ===== src/Pmm/Init/Free.antt =====
-- Which pages `pmm_init` leaves free, against the memory map.
use subleq_emu.Prelude.{
  ℕ, ◌+◌, ◌-◌, ◌*◌, ◌/◌, ◌%◌, ◌^◌, ◌≤◌, ◌<◌, ◌≡◌, refl, ap, ◌∙◌, sym, inl, inr, arith, Bool, true,
  false, ◌&&◌, ◌||◌, not, List, [], ◌∷◌, ◌==◌, leb, ltb, Bool-cases, if◌then◌else◌, two64, Option,
  none, some, subst, All,
}
use mathlib.Core.Option.{some-injective, none-ne-some}
use subleq_emu.Ram.{Ram}
use subleq_emu.Prelude.Bits.{bit_and-shift, bit_of_ones}
use subleq_emu.Pmm.{Pmm, page_size, bitmap_base, rd_bitmap}
use subleq_emu.Pmm.Bits.{IsWords}
use subleq_emu.Pmm.Init.{
  Entry, Boot, Started, pmm_init, usable, pages_of_bitmap, highest_addr, place_bitmap, all_used,
  init_from, free_usable,
}
use subleq_emu.Pmm.Init.Mark.{
  is_own, is_freed, any_freed, free_usable-Agrees, rd_bitmap-free_usable,
}

-- Page `pg` lies inside a usable entry, with all its bytes.
abbrev pub is_inside : Entry → ℕ → Bool
is_inside e pg =
    e.kind == usable && (leb e.base (pg * page_size) && leb ((pg + 1) * page_size) (e.base + e.len))

unfoldable pub any_inside : List Entry → ℕ → Bool
any_inside [] pg = false
any_inside (e ∷ es) pg = is_inside e pg || any_inside es pg

abbrev pub IsPageAligned : Entry → Type 0
IsPageAligned e = e.base / page_size * page_size ≡ e.base

is_freed-is_inside : (e : Entry) (pg : ℕ) → is_freed e pg ≡ true → is_inside e pg ≡ true
is_freed-is_inside e pg h = ground arith

is_freed_aligned : (e : Entry) (pg : ℕ) → IsPageAligned e → is_freed e pg ≡ is_inside e pg
is_freed_aligned e pg a = ground arith

or_mono :
    {b d : Bool} (a c : Bool)
    → (a ≡ true → c ≡ true)
    → (b ≡ true → d ≡ true)
    → (a || b) ≡ true
    → (c || d) ≡ true
or_mono true c f g h = rw (f refl) refl
or_mono false true f g h = refl
or_mono false false f g h = g h

any_freed-any_inside : (es : List Entry) (pg : ℕ) → any_freed es pg ≡ true → any_inside es pg ≡ true
unfolding any_freed any_inside
any_freed-any_inside [] pg h = h
any_freed-any_inside (e ∷ es) pg h =
    or_mono (is_freed e pg) (is_inside e pg) (is_freed-is_inside e pg) (any_freed-any_inside es pg)
      h

any_freed_aligned :
    (es : List Entry) (pg : ℕ) → All IsPageAligned es → any_freed es pg ≡ any_inside es pg
unfolding any_freed any_inside
any_freed_aligned [] pg a = refl
any_freed_aligned (e ∷ es) pg a = rw (is_freed_aligned e pg a.0, any_freed_aligned es pg a.1) refl

-- The bitmap before the second pass: in use, at each page below its end.
blank : (ℕ → ℕ) → Ram → ℕ → Pmm
blank behind phys new_max_page = record {
  mem_bitmap = all_used (pages_of_bitmap new_max_page) behind;
  max_page = new_max_page;
  last_alloc_page = bitmap_base;
  phys = phys;
}

if_none {ℓ} : {A : Type ℓ} {x y : A} (b : Bool) → (if b then none else some x) ≡ some y → x ≡ y
if_none true h = absurd (none-ne-some _ h)
if_none false h = some-injective _ _ h

module _ (behind : ℕ → ℕ) (words : (i : ℕ) → behind i < 2 ^ 32) (phys : Ram) where
  blank-IsWords : (new_max_page : ℕ) → IsWords (blank behind phys new_max_page)
  unfolding blank
  blank-IsWords new_max_page i =
      elim (Bool-cases (ltb i (pages_of_bitmap new_max_page * page_size / 4))) [
        | inl e ↦ rw e (omega arith)
        | inr e ↦ rw e (words i)
      ]

  rd_bitmap-blank :
      (new_max_page pg : ℕ)
      → new_max_page < two64
      → bitmap_base ≤ pg
      → pg < new_max_page
      → rd_bitmap (blank behind phys new_max_page) pg ≡ 1
  unfolding blank rd_bitmap pages_of_bitmap
  rd_bitmap-blank new_max_page pg h lo hi = rw covered (
      bit_and-shift 0xffffffff ((pg - bitmap_base) % 32)
      ∙ bit_of_ones 32 ((pg - bitmap_base) % 32) (omega arith))
    where
      covered : ltb ((pg - bitmap_base) / 32) (pages_of_bitmap new_max_page * page_size / 4) ≡ true
      covered = ground arith

  -- What the two passes give, for the memory map `es`.
  record Passes (es : List Entry) (t : Pmm × ℕ × ℕ) : Type 0 where
    bitmap : t.0 ≡ free_usable (blank behind phys (highest_addr es 0 / page_size)) t.2 t.1 es
    own_pages : t.1 ≡ pages_of_bitmap (highest_addr es 0 / page_size)
    placed : t.2 ≡ place_bitmap es t.1

  init_from-Passes :
      (es : List Entry) (t : Pmm × ℕ × ℕ) → init_from behind phys es ≡ some t → Passes es t
  unfolding init_from blank
  init_from-Passes es t h =
      subst (λ u. Passes es u)
        (if_none (place_bitmap es (pages_of_bitmap (highest_addr es 0 / page_size)) == 0) h)
        (record { bitmap = refl; own_pages = refl; placed = refl })

  record Parts (r : Started) : Type 0 where
    pub es : List Entry
    pub same_map : r.limine_memmap ≡ es
    pub from : init_from behind phys es ≡ some (r.pmm, r.bitmap_pages, r.bitmap_phys)

  pmm_init-Parts :
      (hhdm : Option ℕ) (address : Option (ℕ × ℕ)) (file : Option ℕ) (memmap : Option (List Entry))
      (r : Started)
      → pmm_init behind phys (record {
        hhdm = hhdm;
        executable_address = address;
        executable_file = file;
        memmap = memmap;
      })
        ≡ some r
      → Parts r
  unfolding pmm_init
  pmm_init-Parts none address file memmap r h = absurd (none-ne-some _ h)
  pmm_init-Parts (some o) none file memmap r h = absurd (none-ne-some _ h)
  pmm_init-Parts (some o) (some a) none memmap r h = absurd (none-ne-some _ h)
  pmm_init-Parts (some o) (some a) (some f) none r h = absurd (none-ne-some _ h)
  pmm_init-Parts (some o) (some a) (some f) (some es) r h = go (init_from behind phys es) refl h
    where
      go :
          (t : Option (Pmm × ℕ × ℕ))
          → init_from behind phys es ≡ t
          → elim t [
            | none ↦ none
            | some t ↦ some (record {
              pmm = t.0;
              hhdm_offset = o;
              kernel_phys_base = a.0;
              kernel_virt_base = a.1;
              kernel_file = f;
              limine_memmap = es;
              bitmap_pages = t.1;
              bitmap_phys = t.2;
            })
          ]
            ≡ some r
          → Parts r
      go none e h = absurd (none-ne-some _ h)
      go (some t) e h =
          subst (λ u. Parts u) (some-injective _ _ h)
            (record { es = es; same_map = refl; from = e })

  module _ (b : Boot) (r : Started) (done : pmm_init behind phys b ≡ some r) where
    abbrev start : Pmm
    start = blank behind phys (highest_addr r.limine_memmap 0 / page_size)

    passes : Passes r.limine_memmap (r.pmm, r.bitmap_pages, r.bitmap_phys)
    passes =
        let parts = pmm_init-Parts b.hhdm b.executable_address b.executable_file b.memmap r done in
        subst (λ es. Passes es (r.pmm, r.bitmap_pages, r.bitmap_phys)) (sym parts.same_map)
          (init_from-Passes parts.es _ parts.from)

    max_page-passes : r.pmm.max_page ≡ highest_addr r.limine_memmap 0 / page_size
    unfolding blank
    max_page-passes =
        ap (λ p. p.max_page) passes.bitmap
        ∙ (free_usable-Agrees r.bitmap_phys r.bitmap_pages r.limine_memmap start
            (blank-IsWords (highest_addr r.limine_memmap 0 / page_size))).same_max

    bit_after :
        (pg : ℕ)
        → highest_addr r.limine_memmap 0 < two64
        → bitmap_base ≤ pg
        → pg < r.pmm.max_page
        → rd_bitmap r.pmm pg ≡ (
            if any_freed r.limine_memmap pg && not (is_own r.bitmap_phys r.bitmap_pages pg)
            then 0
            else 1)
    unfolding blank
    bit_after pg small lo hi =
        let high = highest_addr r.limine_memmap 0 / page_size in
        let hi' : pg < high = rw (sym max_page-passes) hi in
        ap (λ p. rd_bitmap p pg) passes.bitmap
        ∙ rd_bitmap-free_usable r.bitmap_phys r.bitmap_pages r.limine_memmap start pg
            (blank-IsWords high) lo hi'
        ∙ rw (rd_bitmap-blank high pg (omega arith) lo hi') refl

    -- After `pmm_init`, a free page of the bitmap lies with all its bytes in a usable entry of the
    -- memory map and outside the bitmap's own pages: for every map whose usable memory ends below
    -- 2 ^ 64 and whatever the memory behind the bitmap holds in its 32-bit words.
    pub pmm_init-free_inside :
        (pg : ℕ)
        → highest_addr r.limine_memmap 0 < two64
        → bitmap_base ≤ pg
        → pg < r.pmm.max_page
        → rd_bitmap r.pmm pg ≡ 0
        → (any_inside r.limine_memmap pg ≡ true) × (is_own r.bitmap_phys r.bitmap_pages pg ≡ false)
    pmm_init-free_inside pg small lo hi free =
        let bit = bit_after pg small lo hi in
        (any_freed-any_inside r.limine_memmap pg (ground arith), ground arith)

    -- Where the entries begin at page boundaries, `pmm_init` marks as free exactly the pages of the
    -- bitmap that lie in a usable entry and are not the bitmap's own, and all others as in use.
    pub rd_bitmap-pmm_init :
        (pg : ℕ)
        → highest_addr r.limine_memmap 0 < two64
        → All IsPageAligned r.limine_memmap
        → bitmap_base ≤ pg
        → pg < r.pmm.max_page
        → rd_bitmap r.pmm pg ≡ (
            if any_inside r.limine_memmap pg && not (is_own r.bitmap_phys r.bitmap_pages pg)
            then 0
            else 1)
    rd_bitmap-pmm_init pg small aligned lo hi =
        bit_after pg small lo hi
        ∙ ap (λ t. if t && not (is_own r.bitmap_phys r.bitmap_pages pg) then 0 else 1)
            (any_freed_aligned r.limine_memmap pg aligned)
