-- ===== src/Jit/Regs/Change.antt =====
-- The register cache when the word at one address changes.
use mathlib.Core.Bool.{false≢true}
use subleq_emu.Prelude.{
  ℕ, ◌+◌, ◌%◌, ◌≤◌, ◌<◌, ◌≡◌, ◌≢◌, refl, sym, ap, ◌∙◌, ◌⊎◌, inl, inr, arith, Bool, true, not, ◌&&◌,
  Bool-cases, ◌==◌, ==_iff, ltb, if◌then◌else◌, update, sub64, two32, two64,
}
use subleq_emu.Ram.{Ram}
use subleq_emu.Ram.Words.{readram_ext}
use subleq_emu.Jit.Regs.{
  Translator, alloc_regs, cacheable, reg_index, cache_drop, set_const, put_const, bind, first_index,
  nconst,
}
use subleq_emu.Jit.Regs.Find.{IsAlloc}
use subleq_emu.Jit.Regs.Entries.{Cached, Entries, Sub, Entries-Sub}

-- The memories agree outside the word at `a`.
abbrev pub AgreeOff : ℕ → Ram → Ram → Type 0
AgreeOff a m n = (q : ℕ) → (q < a) ⊎ (a + 8 ≤ q) → n q ≡ m q

-- No entry in use is for `a`.
pub record IsDropped (a : ℕ) (j : Translator) : Type 0 where
  pub regs : (i : ℕ) → (j.regs i).used ≡ true → (j.regs i).addr ≢ a
  pub consts : (i : ℕ) → (j.consts i).used ≡ true → (j.consts i).addr ≢ a
  pub aliases : (i : ℕ) → (j.aliases i).used ≡ true → (j.aliases i).addr ≢ a

pub Cached-AgreeOff :
    (m n : Ram) (a b w : ℕ) → a % 8 ≡ 0 → AgreeOff a m n → b ≢ a → Cached m b w → Cached n b w
Cached-AgreeOff m n a b w al off apart (c, r) =
    let aligned : b % 8 ≡ 0 = ground arith in
    (c, readram_ext n m b (λ k lo hi. off k (ground arith)) ∙ r)

pub Entries-AgreeOff :
    (g : ℕ → ℕ) (m n : Ram) (a : ℕ) (j : Translator)
    → a % 8 ≡ 0
    → AgreeOff a m n
    → IsDropped a j
    → Entries g m j
    → Entries g n j
Entries-AgreeOff g m n a j al off d h = record {
  regs = λ i lt u. Cached-AgreeOff m n a _ _ al off (d.regs i u) (h.regs i lt u);
  consts = λ i lt u. Cached-AgreeOff m n a _ _ al off (d.consts i u) (h.consts i lt u);
  aliases = λ i lt u.
      let (alloc, small, c) = h.aliases i lt u in
      (alloc, small, Cached-AgreeOff m n a _ _ al off (d.aliases i u) c);
}

module _ (j : Translator) (a : ℕ) where
  pub cache_drop-Sub : Sub j (cache_drop j a)
  unfolding cache_drop
  cache_drop-Sub = record {
    regs = λ i lt u. elim (Bool-cases ((j.regs i).used && (j.regs i).addr == a)) [
      | inl e ↦ absurd (false≢true (rw e at u))
      | inr e ↦ (rw e at u, rw e refl)
    ];
    consts = λ i lt u. elim (Bool-cases ((j.consts i).used && (j.consts i).addr == a)) [
      | inl e ↦ absurd (false≢true (rw e at u))
      | inr e ↦ (rw e at u, rw e refl, rw e refl)
    ];
    aliases = λ i lt u. elim (Bool-cases ((j.aliases i).used && (j.aliases i).addr == a)) [
      | inl e ↦ absurd (false≢true (rw e at u))
      | inr e ↦ (rw e at u, rw e refl, rw e refl, rw e refl)
    ];
  }

  pub cache_drop-IsDropped : IsDropped a (cache_drop j a)
  unfolding cache_drop
  cache_drop-IsDropped = record {
    regs = λ i u. ground arith;
    consts = λ i u. ground arith;
    aliases = λ i u. ground arith;
  }

  pub Entries-cache_drop :
      (g : ℕ → ℕ) (m n : Ram)
      → a % 8 ≡ 0
      → AgreeOff a m n
      → Entries g m j
      → Entries g n (cache_drop j a)
  Entries-cache_drop g m n al off h =
      Entries-AgreeOff g m n a (cache_drop j a) al off cache_drop-IsDropped
        (Entries-Sub g m j (cache_drop j a) cache_drop-Sub h)

module _ (g : ℕ → ℕ) (m : Ram) (j : Translator) (h : Entries g m j) where
  pub put_const-Entries : (i a val : ℕ) → Cached m a val → Entries g m (put_const j i a val)
  put_const-Entries i a val c = record {
    regs = h.regs;
    consts = λ k lt u. elim (Bool-cases (i == k)) [
      | inl e ↦ rw e c
      | inr e ↦ rw e (h.consts k lt (rw e at u))
    ];
    aliases = h.aliases;
  }

  abbrev put_alias : ℕ → ℕ → ℕ → Bool → Translator
  put_alias i a r neg = record j {
    aliases = update j.aliases i (record { used = true; addr = a; reg = r; neg = neg });
  }

  pub put_alias-Entries :
      (i a r : ℕ) (neg : Bool)
      → IsAlloc r
      → g r < two64
      → Cached m a (if neg then sub64 0 (g r) else g r)
      → Entries g m (put_alias i a r neg)
  put_alias-Entries i a r neg al small c = record {
    regs = h.regs;
    consts = h.consts;
    aliases = λ k lt u. elim (Bool-cases (i == k)) [
      | inl e ↦ rw e (al, small, c)
      | inr e ↦ rw e (h.aliases k lt (rw e at u))
    ];
  }

  abbrev put_reg : ℕ → ℕ → ℕ → Translator
  put_reg r a clock = record j {
    lru_clock = clock;
    regs =
        update j.regs (reg_index r)
          (record (j.regs (reg_index r)) { used = true; addr = a; lru = clock });
  }

  pub put_reg-Entries :
      (r a clock : ℕ) → IsAlloc r → Cached m a (g r) → Entries g m (put_reg r a clock)
  put_reg-Entries r a clock (lt, is_r) c = record {
    regs = λ k lt u. elim (Bool-cases (reg_index r == k)) [
      | inl e ↦
          let at : alloc_regs k ≡ r = ap alloc_regs (sym ((==_iff _ _).0 e)) ∙ is_r in rw (e, at) c
      | inr e ↦ rw e (h.regs k lt (rw e at u))
    ];
    consts = h.consts;
    aliases = h.aliases;
  }

module _ (g : ℕ → ℕ) (m n : Ram) (j : Translator) (a : ℕ) (off : AgreeOff a m n)
    (h : Entries g m j) where
  aligned_of : cacheable a ≡ true → a % 8 ≡ 0
  aligned_of c = ground arith

  -- `set_const` after the word at `a` has become `val`.
  pub set_const-Entries : (val : ℕ) → Cached n a val → Entries g n (set_const j a val)
  unfolding set_const
  set_const-Entries val (c, r) =
      let dropped = Entries-cache_drop j a g m n (aligned_of c) off h in
      let d = cache_drop j a in
      let free = first_index nconst 0 (λ i. not (d.consts i).used) nconst in
      elim (Bool-cases (ltb free nconst)) [
        | inl e ↦ rw (c, e) (put_const-Entries g n d dropped free a val (c, r))
        | inr e ↦
            rw (c, e)
              (put_const-Entries g n (record d { const_next = (d.const_next + 1) % two32 })
                (Entries-Sub g n d _
                  (record {
                    regs = λ i lt u. (u, refl);
                    consts = λ i lt u. (u, refl, refl);
                    aliases = λ i lt u. (u, refl, refl, refl);
                  })
                  dropped)
                (d.const_next % nconst) a val (c, r))
      ]

  -- `bind` after the word at `a` has become the value in `r`.
  pub bind-Entries : (r : ℕ) → IsAlloc r → Cached n a (g r) → Entries g n (bind j r a)
  unfolding bind
  bind-Entries r al (c, w) =
      let dropped = Entries-cache_drop j a g m n (aligned_of c) off h in
      rw c (
        put_reg-Entries g n (cache_drop j a) dropped r a (((cache_drop j a).lru_clock + 1) % two32)
          al (c, w))
