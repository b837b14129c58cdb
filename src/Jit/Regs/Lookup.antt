-- ===== src/Jit/Regs/Lookup.antt =====
-- Finding a word in the register cache: `cache_find`.
use subleq_emu.Prelude.{
  ℕ, ◌<◌, ◌≡◌, refl, sym, ap, ◌∙◌, ◌⊎◌, inl, inr, arith, Bool, true, false, not, ◌&&◌, ◌||◌, ◌==◌,
  ==_iff, ltb, if◌then◌else◌, sub64,
}
use subleq_emu.Ram.{Ram, readram}
use subleq_emu.Jit.Regs.{
  is_known, Translator, Cval, unknown, in_reg, constant, negated, alloc_regs, cacheable, reg_index,
  touch, cache_find, const_at, reg_at, alias_at, nconst, nregs, nalias,
}
use subleq_emu.Jit.Regs.Find.{alloc_regs-IsAlloc, first_index-found}
use subleq_emu.Jit.Regs.Entries.{Entries, Means, Touched, Touched-refl, touch-Touched, and_true}

-- Whether an entry stands for the word at `a`.
abbrev pub known : Translator → ℕ → Bool
known j a =
    cacheable a
    && (ltb (const_at j a) nconst || (ltb (reg_at j a) nregs || ltb (alias_at j a) nalias))

-- The entries that a value can come from.
abbrev pub RegEntry : Translator → ℕ → ℕ → ℕ → Type 0
RegEntry j a r i = (i < 11) × ((j.regs i).used ≡ true) × ((j.regs i).addr ≡ a) × (alloc_regs i ≡ r)

abbrev pub ConstEntry : Translator → ℕ → ℕ → ℕ → Type 0
ConstEntry j a c i =
    (i < 16) × ((j.consts i).used ≡ true) × ((j.consts i).addr ≡ a) × ((j.consts i).val ≡ c)

abbrev pub AliasEntry : Translator → ℕ → ℕ → Bool → ℕ → Type 0
AliasEntry j a r neg i =
    (i < 16)
    × ((j.aliases i).used ≡ true)
    × ((j.aliases i).addr ≡ a)
    × ((j.aliases i).reg ≡ r)
    × ((j.aliases i).neg ≡ neg)

abbrev pub Source : Translator → ℕ → Cval → Type 0
Source j a unknown = Unit
Source j a (in_reg r) = ((i : ℕ) × RegEntry j a r i) ⊎ ((i : ℕ) × AliasEntry j a r false i)
Source j a (constant c) = (i : ℕ) × ConstEntry j a c i
Source j a (negated r) = (i : ℕ) × AliasEntry j a r true i

pub record Find (j : Translator) (a : ℕ) (r : Translator × Cval) : Type 0 where
  pub touched : Touched j r.0
  pub source : Source j a r.1
  pub is_found : is_known r.1 ≡ known j a

module _ (j : Translator) (a : ℕ) where
  const_at-Find :
      cacheable a ≡ true
      → ltb (const_at j a) nconst ≡ true
      → Find j a (j, constant (j.consts (const_at j a)).val)
  const_at-Find c e =
      let (u, at) =
        and_true (j.consts (const_at j a)).used ((j.consts (const_at j a)).addr == a)
          (first_index-found 16 (λ i. (j.consts i).used && (j.consts i).addr == a) e) in
      let lt : const_at j a < 16 = ground arith in
      record {
        touched = Touched-refl j;
        source = (const_at j a, (lt, u, (==_iff _ _).0 at, refl));
        is_found = rw (c, e) refl;
      }

  reg_at-Find :
      cacheable a ≡ true
      → ltb (const_at j a) nconst ≡ false
      → ltb (reg_at j a) nregs ≡ true
      → Find j a (touch j (reg_at j a), in_reg (alloc_regs (reg_at j a)))
  reg_at-Find c d e =
      let (u, at) =
        and_true (j.regs (reg_at j a)).used ((j.regs (reg_at j a)).addr == a)
          (first_index-found 11 (λ i. (j.regs i).used && (j.regs i).addr == a) e) in
      let lt : reg_at j a < 11 = ground arith in
      record {
        touched = touch-Touched j (reg_at j a);
        source = inl (reg_at j a, (lt, u, (==_iff _ _).0 at, refl));
        is_found = rw (c, d, e) refl;
      }

  alias_at-Find :
      (b : Bool)
      → (j.aliases (alias_at j a)).neg ≡ b
      → cacheable a ≡ true
      → ltb (const_at j a) nconst ≡ false
      → ltb (reg_at j a) nregs ≡ false
      → ltb (alias_at j a) nalias ≡ true
      → Find j a (
        touch j (reg_index (j.aliases (alias_at j a)).reg),
        (if b
            then negated (j.aliases (alias_at j a)).reg
            else in_reg (j.aliases (alias_at j a)).reg),
      )
  alias_at-Find b n c d e f =
      let (u, at) =
        and_true (j.aliases (alias_at j a)).used ((j.aliases (alias_at j a)).addr == a)
          (first_index-found 16 (λ i. (j.aliases i).used && (j.aliases i).addr == a) f) in
      let lt : alias_at j a < 16 = ground arith in go b n lt u ((==_iff _ _).0 at)
    where
      here : ℕ
      here = alias_at j a

      go :
          (b : Bool)
          → (j.aliases here).neg ≡ b
          → here < 16
          → (j.aliases here).used ≡ true
          → (j.aliases here).addr ≡ a
          → Find j a (
            touch j (reg_index (j.aliases here).reg),
            (if b then negated (j.aliases here).reg else in_reg (j.aliases here).reg),
          )
      go true n lt u at = record {
        touched = touch-Touched j (reg_index (j.aliases here).reg);
        source = (here, (lt, u, at, refl, n));
        is_found = rw (c, d, e, f) refl;
      }
      go false n lt u at = record {
        touched = touch-Touched j (reg_index (j.aliases here).reg);
        source = inr (here, (lt, u, at, refl, n));
        is_found = rw (c, d, e, f) refl;
      }

  pub cache_find-Find : Find j a (cache_find j a)
  unfolding cache_find
  cache_find-Find =
      go (cacheable a) (ltb (const_at j a) nconst) (ltb (reg_at j a) nregs)
        (ltb (alias_at j a) nalias) refl refl refl refl
    where
      go :
          (c d e f : Bool)
          → cacheable a ≡ c
          → ltb (const_at j a) nconst ≡ d
          → ltb (reg_at j a) nregs ≡ e
          → ltb (alias_at j a) nalias ≡ f
          → Find j a (
              if not c
              then (j, unknown)
              else if d
              then (j, constant (j.consts (const_at j a)).val)
              else if e
              then (touch j (reg_at j a), in_reg (alloc_regs (reg_at j a)))
              else if f
              then (
                touch j (reg_index (j.aliases (alias_at j a)).reg),
                (if (j.aliases (alias_at j a)).neg
                    then negated (j.aliases (alias_at j a)).reg
                    else in_reg (j.aliases (alias_at j a)).reg),
              )
              else (j, unknown))
      go false d e f p q r s = record {
        touched = Touched-refl j;
        source = tt;
        is_found = rw p refl;
      }
      go true true e f p q r s = const_at-Find p q
      go true false true f p q r s = reg_at-Find p q r
      go true false false true p q r s = alias_at-Find (j.aliases (alias_at j a)).neg refl p q r s
      go true false false false p q r s = record {
        touched = Touched-refl j;
        source = tt;
        is_found = rw (p, q, r, s) refl;
      }

-- A value found in right entries is right.
pub Source-Means :
    (g : ℕ → ℕ) (m : Ram) (j : Translator) (a : ℕ) (v : Cval)
    → Entries g m j
    → Source j a v
    → Means g v (readram m a)
Source-Means g m j a unknown h s = tt
Source-Means g m j a (in_reg r) h (inl (i, (lt, u, at, is_r))) = (
  (
    rw (← is_r) (ground (arith, alloc_regs-IsAlloc i lt)),
    rw (← is_r) (ap alloc_regs (alloc_regs-IsAlloc i lt)),
  ),
  ap (readram m) (sym at) ∙ (h.regs i lt u).1 ∙ ap g is_r,
)
Source-Means g m j a (in_reg r) h (inr (i, (lt, u, at, is_r, n))) =
    let (al, small, (c, w)) = h.aliases i lt u in
    (rw is_r at al, ap (readram m) (sym at) ∙ w ∙ rw n (ap g is_r))
Source-Means g m j a (constant c) h (i, (lt, u, at, is_c)) =
    ap (readram m) (sym at) ∙ (h.consts i lt u).1 ∙ is_c
Source-Means g m j a (negated r) h (i, (lt, u, at, is_r, n)) =
    let (al, small, (c, w)) = h.aliases i lt u in
    (
      rw is_r at al,
      rw is_r at small,
      ap (readram m) (sym at) ∙ w ∙ rw n (ap (λ t. sub64 0 (g t)) is_r),
    )
