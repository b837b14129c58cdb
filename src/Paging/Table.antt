-- ===== src/Paging/Table.antt =====
-- What `get_table` leaves in memory and in the allocator.
use mathlib.Core.Option.{some-injective, none-ne-some}
use subleq_emu.Prelude.{
  ℕ, ◌+◌, ◌*◌, ◌/◌, ◌≤◌, ◌<◌, ◌≡◌, ◌≢◌, refl, sym, ap, subst, ◌∙◌, ◌⊎◌, inl, inr, arith, Bool, true,
  false, ◌&&◌, ◌==◌, leb, ltb, Option, none, some, if◌then◌else◌, ==_iff,
}
use subleq_emu.Ram.Words.{load64-store64, load64_zero, store64-other}
use subleq_emu.Pmm.{Pmm, bitmap_base, rd_bitmap, kmalloc}
use subleq_emu.Pmm.Alloc.{IsValid, Taken, Outcome, kmalloc-Outcome}
use subleq_emu.Paging.{entry, is_present, address, set_entry, get_table}

-- The page at `t` is not one that the allocator may hand out.
abbrev pub IsUsed : Pmm → ℕ → Type 0
IsUsed p t = (t / 4096 < bitmap_base) ⊎ ((p.max_page ≤ t / 4096) ⊎ (rd_bitmap p (t / 4096) ≡ 1))

-- A table: a page in use, at a multiple of 4096 below 2 ^ 63.
pub record IsTable (p : Pmm) (t : ℕ) : Type 0 where
  pub aligned : t / 4096 * 4096 ≡ t
  pub used : IsUsed p t

abbrev pub got : Pmm → ℕ → Pmm × Option ℕ
got q t = (q, some t)

abbrev pub SamePage : ℕ → Pmm → Pmm → Type 0
SamePage t p q = (a : ℕ) → t ≤ a → a < t + 4096 → q.phys a ≡ p.phys a

-- A fresh table, put into entry `idx` of `table`.
pub record Fresh (p : Pmm) (table idx : ℕ) (q : Pmm) (t : ℕ) : Type 0 where
  pub valid : IsValid q
  pub bound : q.max_page ≡ p.max_page
  pub is_table : IsTable q t
  pub empty : (i : ℕ) → i < 512 → entry q.phys t i ≡ 0
  pub pointer : entry q.phys table idx ≡ t + 3
  pub apart : (u : ℕ) → IsTable p u → u ≢ t
  pub same : (u : ℕ) → IsTable p u → u ≢ table → SamePage u p q
  pub kept : (u : ℕ) → IsTable p u → IsTable q u

module _ (p : Pmm) (v : IsValid p) (small : p.max_page < 0x8000000000000) (table idx : ℕ)
    (here : IsTable p table) (in_table : idx < 512) where
  used_elsewhere : (s : ℕ) (q : Pmm) → Taken p 1 s q → (u : ℕ) → IsTable p u → u ≢ s * 4096
  used_elsewhere s q k u t e =
      let free = k.free s (omega arith) (omega arith) in
      let at : u / 4096 ≡ s = omega (arith, e) in
      ground (arith, t.used, ap (rd_bitmap p) at, k.from, k.to)

  rd_bitmap_entry : (q : Pmm) (i e j : ℕ) → rd_bitmap (set_entry q table i e) j ≡ rd_bitmap q j
  unfolding rd_bitmap
  rd_bitmap_entry q i e j = refl

  new_table :
      (s : ℕ) (q : Pmm)
      → Taken p 1 s q
      → Fresh p table idx (set_entry q table idx (s * 4096 + 3)) (s * 4096)
  new_table s q k = record {
    valid = record {
      words = k.valid.words;
      hint_from = k.valid.hint_from;
      hint_to = k.valid.hint_to;
    };
    bound = k.bound;
    is_table = record {
      aligned = omega arith;
      used = inr (
          inr
            (rd_bitmap_entry q idx _ _ ∙ ap (rd_bitmap q) at ∙ ground (arith, k.marked s k.from)));
    };
    empty = λ i lt. load64_zero _ (s * 4096 + 8 * i) (λ a lo hi.
        store64-other q.phys (table + 8 * idx) _ a (off a (omega arith) (omega arith))
        ∙ ground (arith, k.cleared a));
    pointer = load64-store64 q.phys (table + 8 * idx) (s * 4096 + 3) (omega (arith, k.to));
    apart = used_elsewhere s q k;
    same = λ u t n a lo hi.
        store64-other q.phys (table + 8 * idx) _ a (other u t n a lo hi)
        ∙ k.cleared a
        ∙ rw (outside u t a lo hi) refl;
    kept = λ u t. record { aligned = t.aligned; used = still u t };
  }
    where
      at : s * 4096 / 4096 ≡ s
      at = omega arith

      off :
          (a : ℕ)
          → s * 4096 ≤ a
          → a < s * 4096 + 4096
          → (a < table + 8 * idx) ⊎ (table + 8 * idx + 8 ≤ a)
      off a lo hi = let n = used_elsewhere s q k table here in ground (arith, here.aligned)

      other :
          (u : ℕ)
          → IsTable p u
          → u ≢ table
          → (a : ℕ) → u ≤ a
          → a < u + 4096
          → (a < table + 8 * idx) ⊎ (table + 8 * idx + 8 ≤ a)
      other u t n a lo hi = ground (arith, t.aligned, here.aligned)

      outside :
          (u : ℕ)
          → IsTable p u
          → (a : ℕ) → u ≤ a
          → a < u + 4096
          → (leb (s * 4096) a && ltb a (s * 4096 + 1 * 4096)) ≡ false
      outside u t a lo hi = let n = used_elsewhere s q k u t in ground (arith, t.aligned)

      still : (u : ℕ) → IsTable p u → IsUsed (set_entry q table idx (s * 4096 + 3)) u
      still u t = ground (
        arith,
        t.used,
        k.bound,
        k.marked (u / 4096),
        rd_bitmap_entry q idx (s * 4096 + 3) (u / 4096),
      )

  -- The table was there, or it is fresh.
  pub get_table-cases :
      (q : Pmm) (t : ℕ)
      → get_table p table idx ≡ got q t
      → ((is_present (entry p.phys table idx) ≡ true)
          × (q ≡ p)
          × (t ≡ address (entry p.phys table idx)))
        ⊎ ((is_present (entry p.phys table idx) ≡ false) × Fresh p table idx q t)
  unfolding get_table
  get_table-cases q t h =
      go (is_present (entry p.phys table idx)) refl (kmalloc p 1) refl
        (kmalloc-Outcome p v 1 (omega arith)) h
    where
      go :
          (b : Bool)
          → is_present (entry p.phys table idx) ≡ b
          → (r : Pmm × ℕ) → kmalloc p 1 ≡ r
          → Outcome p 1 r
          → (if b
              then got p (address (entry p.phys table idx))
              else if r.1 == 0
              then (r.0, none)
              else got (set_entry r.0 table idx (r.1 + 3)) r.1)
            ≡ got q t
          → ((is_present (entry p.phys table idx) ≡ true)
              × (q ≡ p)
              × (t ≡ address (entry p.phys table idx)))
            ⊎ ((is_present (entry p.phys table idx) ≡ false) × Fresh p table idx q t)
      go true e r k o h = inl (e, sym (ap (λ x. x.0) h), sym (some-injective _ _ (ap (λ x. x.1) h)))
      go false e r k (inr (zero_addr, unchanged, rest)) h =
          let z : (r.1 == 0) ≡ true = (==_iff _ _).1 zero_addr in
          absurd (
            none-ne-some _ (
              ap (λ x. x.1)
                (subst
                  (λ b.
                    (if b then (r.0, none) else got (set_entry r.0 table idx (r.1 + 3)) r.1)
                    ≡ got q t)
                  z h)))
      go false e r k (inl (s, addr, taken)) h =
          let nz : (r.1 == 0) ≡ false = ground (arith, taken.from) in
          let both =
            subst
              (λ b.
                (if b then (r.0, none) else got (set_entry r.0 table idx (r.1 + 3)) r.1) ≡ got q t)
              nz h in
          let same_t : s * 4096 ≡ t = sym addr ∙ some-injective _ _ (ap (λ x. x.1) both) in
          let same_q : set_entry r.0 table idx (s * 4096 + 3) ≡ q =
            ap (λ a. set_entry r.0 table idx (a + 3)) (sym addr) ∙ ap (λ x. x.0) both in
          inr (
            e,
            subst (λ w. Fresh p table idx w t) same_q
                (subst (λ w. Fresh p table idx (set_entry r.0 table idx (s * 4096 + 3)) w) same_t
                  (new_table s r.0 taken)),
          )
