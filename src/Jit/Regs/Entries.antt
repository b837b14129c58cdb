-- ===== src/Jit/Regs/Entries.antt =====
-- When the register cache tells the truth, and what keeps it so.
use mathlib.Core.Bool.{false≢true}
use subleq_emu.Prelude.{
  ℕ, ◌<◌, ◌≡◌, refl, sym, ap, ◌∙◌, arith, Bool, true, false, ◌&&◌, if◌then◌else◌, sub64, two64,
}
use subleq_emu.Ram.{Ram, readram}
use subleq_emu.Jit.Regs.{
  Translator, Cval, unknown, in_reg, constant, negated, alloc_regs, cacheable, touch,
}
use subleq_emu.Jit.Regs.Find.{IsAlloc}

-- The word at `a` is cacheable, and is `w`.
abbrev pub Cached : Ram → ℕ → ℕ → Type 0
Cached m a w = (cacheable a ≡ true) × (readram m a ≡ w)

-- Each entry in use is right, with `g` in the registers and `m` as Dawn's memory.
pub record Entries (g : ℕ → ℕ) (m : Ram) (j : Translator) : Type 0 where
  pub regs : (i : ℕ) → i < 11 → (j.regs i).used ≡ true → Cached m (j.regs i).addr (g (alloc_regs i))
  pub consts :
      (i : ℕ) → i < 16 → (j.consts i).used ≡ true → Cached m (j.consts i).addr (j.consts i).val
  pub aliases :
      (i : ℕ)
      → i < 16
      → (j.aliases i).used ≡ true
      → IsAlloc (j.aliases i).reg
        × (g (j.aliases i).reg < two64)
        × Cached m
            (j.aliases i).addr
            (if (j.aliases i).neg then sub64 0 (g (j.aliases i).reg) else g (j.aliases i).reg)

-- What a value stands for: `unknown` for anything.
abbrev pub Means : (ℕ → ℕ) → Cval → ℕ → Type 0
Means g unknown w = Unit
Means g (in_reg r) w = IsAlloc r × (w ≡ g r)
Means g (constant c) w = w ≡ c
Means g (negated r) w = IsAlloc r × (g r < two64) × (w ≡ sub64 0 (g r))

-- The entries of `k` in use are entries of `j`.
pub record Sub (j k : Translator) : Type 0 where
  pub regs :
      (i : ℕ)
      → i < 11
      → (k.regs i).used ≡ true
      → ((j.regs i).used ≡ true) × ((k.regs i).addr ≡ (j.regs i).addr)
  pub consts :
      (i : ℕ)
      → i < 16
      → (k.consts i).used ≡ true
      → ((j.consts i).used ≡ true)
        × ((k.consts i).addr ≡ (j.consts i).addr)
        × ((k.consts i).val ≡ (j.consts i).val)
  pub aliases :
      (i : ℕ)
      → i < 16
      → (k.aliases i).used ≡ true
      → ((j.aliases i).used ≡ true)
        × ((k.aliases i).addr ≡ (j.aliases i).addr)
        × ((k.aliases i).reg ≡ (j.aliases i).reg)
        × ((k.aliases i).neg ≡ (j.aliases i).neg)

pub Sub-refl : (j : Translator) → Sub j j
Sub-refl j = record {
  regs = λ i lt u. (u, refl);
  consts = λ i lt u. (u, refl, refl);
  aliases = λ i lt u. (u, refl, refl, refl);
}

pub Sub-trans : (j k l : Translator) → Sub j k → Sub k l → Sub j l
Sub-trans j k l a b = record {
  regs = λ i lt u. let (v, e) = b.regs i lt u in let (w, f) = a.regs i lt v in (w, e ∙ f);
  consts = λ i lt u.
      let (v, e, e') = b.consts i lt u in let (w, f, f') = a.consts i lt v in (w, e ∙ f, e' ∙ f');
  aliases = λ i lt u.
      let (v, e, e', e'') = b.aliases i lt u in
      let (w, f, f', f'') = a.aliases i lt v in (w, e ∙ f, e' ∙ f', e'' ∙ f'');
}

pub Entries-Sub : (g : ℕ → ℕ) (m : Ram) (j k : Translator) → Sub j k → Entries g m j → Entries g m k
Entries-Sub g m j k s h = record {
  regs = λ i lt u. let (v, e) = s.regs i lt u in rw e (h.regs i lt v);
  consts = λ i lt u. let (v, e, f) = s.consts i lt u in rw (e, f) (h.consts i lt v);
  aliases = λ i lt u. let (v, e, f, n) = s.aliases i lt u in rw (e, f, n) (h.aliases i lt v);
}

-- Only the order of use differs.
pub record Touched (j k : Translator) : Type 0 where
  pub use_movbe : k.use_movbe ≡ j.use_movbe
  pub pend : k.pend ≡ j.pend
  pub pend_addr : k.pend_addr ≡ j.pend_addr
  pub flags_live : k.flags_live ≡ j.flags_live
  pub out : k.out ≡ j.out
  pub consts : k.consts ≡ j.consts
  pub aliases : k.aliases ≡ j.aliases
  pub used : (i : ℕ) → (k.regs i).used ≡ (j.regs i).used
  pub addr : (i : ℕ) → (k.regs i).addr ≡ (j.regs i).addr
  pub pinned : (i : ℕ) → (k.regs i).pinned ≡ (j.regs i).pinned

pub Touched-refl : (j : Translator) → Touched j j
Touched-refl j = record {
  use_movbe = refl;
  pend = refl;
  pend_addr = refl;
  flags_live = refl;
  out = refl;
  consts = refl;
  aliases = refl;
  used = λ i. refl;
  addr = λ i. refl;
  pinned = λ i. refl;
}

pub touch-Touched : (j : Translator) (n : ℕ) → Touched j (touch j n)
unfolding touch
touch-Touched j n = record {
  use_movbe = refl;
  pend = refl;
  pend_addr = refl;
  flags_live = refl;
  out = refl;
  consts = refl;
  aliases = refl;
  used = λ i. ground arith;
  addr = λ i. ground arith;
  pinned = λ i. ground arith;
}

pub Touched-Sub : (j k : Translator) → Touched j k → Sub j k
Touched-Sub j k t = record {
  regs = λ i lt u. (sym (t.used i) ∙ u, t.addr i);
  consts = λ i lt u. (
    sym (ap (λ c. (c i).used) t.consts) ∙ u,
    ap (λ c. (c i).addr) t.consts,
    ap (λ c. (c i).val) t.consts,
  );
  aliases = λ i lt u. (
    sym (ap (λ c. (c i).used) t.aliases) ∙ u,
    ap (λ c. (c i).addr) t.aliases,
    ap (λ c. (c i).reg) t.aliases,
    ap (λ c. (c i).neg) t.aliases,
  );
}

pub and_true : (a b : Bool) → (a && b) ≡ true → (a ≡ true) × (b ≡ true)
and_true true b h = (refl, h)
and_true false b h = (h, absurd (false≢true h))
