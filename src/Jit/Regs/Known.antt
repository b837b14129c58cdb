-- ===== src/Jit/Regs/Known.antt =====
-- The words that the cache has, and what keeps one of them.
use mathlib.Core.Bool.{false≢true}
use subleq_emu.Prelude.{
  ℕ, ◌<◌, ◌≡◌, ◌≢◌, refl, sym, ap, ◌∙◌, ◌⊎◌, inl, inr, arith, Bool, true, false, ◌&&◌, Bool-cases,
  ◌==◌, ==_iff, ==→ne, ne→==, ltb,
}
use subleq_emu.Jit.Regs.{
  is_known, Translator, Cval, unknown, in_reg, constant, negated, alloc_regs, cacheable, reg_index,
  bind, cache_drop, const_at, reg_at, alias_at,
}
use subleq_emu.Jit.Regs.Find.{IsAlloc, first_index-some, first_index-found}
use subleq_emu.Jit.Regs.Entries.{and_true}
use subleq_emu.Jit.Regs.Lookup.{Source, known}
use subleq_emu.Jit.Regs.Alloc.{forget, is_through}
use subleq_emu.Jit.Regs.Kept.{IsClear}

-- Some entry in use is for `a`.
abbrev pub HasEntry : Translator → ℕ → Type 0
HasEntry j a =
    ((i : ℕ) × (i < 16) × ((j.consts i).used ≡ true) × ((j.consts i).addr ≡ a))
    ⊎ (((i : ℕ) × (i < 11) × ((j.regs i).used ≡ true) × ((j.regs i).addr ≡ a))
        ⊎ ((i : ℕ) × (i < 16) × ((j.aliases i).used ≡ true) × ((j.aliases i).addr ≡ a)))

both : (b c : Bool) → b ≡ true → c ≡ true → (b && c) ≡ true
both b c p q = rw (p, q) refl

pub HasEntry-known : (j : Translator) (a : ℕ) → cacheable a ≡ true → HasEntry j a → known j a ≡ true
HasEntry-known j a c (inl (i, lt, u, e)) =
    rw
      (
        c,
        first_index-some 16 (λ i. (j.consts i).used && (j.consts i).addr == a) i lt
            (both _ _ u ((==_iff _ _).1 e)),
      )
      refl
HasEntry-known j a c (inr (inl (i, lt, u, e))) =
    rw
      (
        c,
        first_index-some 11 (λ i. (j.regs i).used && (j.regs i).addr == a) i lt
            (both _ _ u ((==_iff _ _).1 e)),
      )
      (ground arith)
HasEntry-known j a c (inr (inr (i, lt, u, e))) =
    rw
      (
        c,
        first_index-some 16 (λ i. (j.aliases i).used && (j.aliases i).addr == a) i lt
            (both _ _ u ((==_iff _ _).1 e)),
      )
      (ground arith)

pub known-cacheable : (j : Translator) (a : ℕ) → known j a ≡ true → cacheable a ≡ true
known-cacheable j a h = (and_true _ _ h).0

pub known-HasEntry : (j : Translator) (a : ℕ) → known j a ≡ true → HasEntry j a
known-HasEntry j a h = elim (Bool-cases (ltb (const_at j a) 16)) [
  | inl e ↦
      let (u, at) =
        and_true (j.consts (const_at j a)).used ((j.consts (const_at j a)).addr == a)
          (first_index-found 16 (λ i. (j.consts i).used && (j.consts i).addr == a) e) in
      inl (const_at j a, ground arith, u, (==_iff _ _).0 at)
  | inr c ↦ elim (Bool-cases (ltb (reg_at j a) 11)) [
    | inl e ↦
        let (u, at) =
          and_true (j.regs (reg_at j a)).used ((j.regs (reg_at j a)).addr == a)
            (first_index-found 11 (λ i. (j.regs i).used && (j.regs i).addr == a) e) in
        inr (inl (reg_at j a, ground arith, u, (==_iff _ _).0 at))
    | inr d ↦
        let e : ltb (alias_at j a) 16 ≡ true = ground arith in
        let (u, at) =
          and_true (j.aliases (alias_at j a)).used ((j.aliases (alias_at j a)).addr == a)
            (first_index-found 16 (λ i. (j.aliases i).used && (j.aliases i).addr == a) e) in
        inr (inr (alias_at j a, ground arith, u, (==_iff _ _).0 at))
  ]
]

-- A value that does not stand in `r` is still there when `r` is forgotten.
pub forget-HasEntry :
    (j : Translator) (a r : ℕ) (v : Cval)
    → IsAlloc r
    → is_known v ≡ true
    → is_through v r ≡ false
    → Source j a v
    → HasEntry (forget j r) a
unfolding forget
forget-HasEntry j a r unknown al k t s = absurd (false≢true k)
forget-HasEntry j a r (in_reg q) (lt, al) k t (inl (i, (lti, u, at, is_q))) =
    let apart : (reg_index r == i) ≡ false =
      ne→== _ _ (λ e. ==→ne q r t (sym is_q ∙ ap alloc_regs (sym e) ∙ al)) in
    inr (inl (i, lti, rw apart u, rw apart at))
forget-HasEntry j a r (in_reg q) al k t (inr (i, (lti, u, at, is_q, n))) =
    let apart : ((j.aliases i).used && (j.aliases i).reg == r) ≡ false = rw is_q (ground arith) in
    inr (inr (i, lti, rw apart u, rw apart at))
forget-HasEntry j a r (constant c) al k t (i, (lti, u, at, is_c)) = inl (i, lti, u, at)
forget-HasEntry j a r (negated q) al k t (i, (lti, u, at, is_q, n)) =
    let apart : ((j.aliases i).used && (j.aliases i).reg == r) ≡ false = rw is_q (ground arith) in
    inr (inr (i, lti, rw apart u, rw apart at))

-- `bind` of another address to a register that nothing stands in.
pub bind-HasEntry :
    (j : Translator) (a b r : ℕ) → a ≢ b → IsClear r j → HasEntry j a → HasEntry (bind j r b) a
unfolding bind cache_drop
bind-HasEntry j a b r ne clear h = elim (Bool-cases (cacheable b)) [
  | inl c ↦ rw c (elim h [
    | inl (i, lt, u, at) ↦
        let off = drop_off (j.consts i).used (j.consts i).addr at in
        inl (i, lt, rw off u, rw off at)
    | inr (inl (i, lt, u, at)) ↦
        let off = drop_off (j.regs i).used (j.regs i).addr at in
        let apart : (reg_index r == i) ≡ false =
          ne→== _ _ (λ e. false≢true (sym clear.regs ∙ ap (λ q. (j.regs q).used) e ∙ u)) in
        inr (inl (i, lt, rw (apart, off) u, rw (apart, off) at))
    | inr (inr (i, lt, u, at)) ↦
        let off = drop_off (j.aliases i).used (j.aliases i).addr at in
        inr (inr (i, lt, rw off u, rw off at))
  ])
  | inr c ↦ rw c h
]
  where
    drop_off : (u : Bool) (x : ℕ) → x ≡ a → (u && x == b) ≡ false
    drop_off u x at = rw (at, ne→== a b ne) (ground arith)
