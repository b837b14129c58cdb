-- ===== src/Jit/Regs/Store.antt =====
-- Storing a word of memory from the cache, when nothing more is held back.
use subleq_emu.Prelude.{
  ℕ, ◌%◌, ◌<◌, ◌≡◌, refl, ap, ap₂, subst, ◌∙◌, arith, Bool, true, false, ◌&&◌, ◌∷◌, if◌then◌else◌,
  add64, two64, two32,
}
use subleq_emu.Ram.{store64, bswap64, writeram}
use subleq_emu.Ram.Words.{bswap64-lt}
use subleq_emu.Jit.Emit.{is_signed32}
use subleq_emu.Jit.Emit.Call
use subleq_emu.Jit.Regs.{Translator, emit, reg_index}
use subleq_emu.Jit.Regs.Code.{call, Processor, run, set, step, step_call, extended, store_imm}
use subleq_emu.Jit.Regs.Find.{IsAlloc}
use subleq_emu.Jit.Regs.Entries.{and_true}
use subleq_emu.Jit.Regs.Alloc.{
  scratch, idle, store_at, store_reg, store_from, store_const, fits_disp, disp_of, bias,
}
use subleq_emu.Jit.Regs.Room.{room}
use subleq_emu.Jit.Regs.Kept.{
  Kept, Kept-refl, set_at, set-OnlyWrites, set-OnlyWrites_twice, Kept-trans, Took,
}
use subleq_emu.Jit.Regs.Take.{Took-write, Kept-store, scratch-Took}

-- The displacement from r15 reaches the address.
pub disp_of_lem : (a : ℕ) → fits_disp a ≡ true → add64 bias (extended (disp_of a)) ≡ a
disp_of_lem a h = ground arith

extended_lem : (v : ℕ) → v < two64 → is_signed32 v ≡ true → extended (v % two32) ≡ v
extended_lem v lt h = ground arith

-- Register `q` keeps its value while registers are taken.
abbrev pub Steady : Processor → Translator → ℕ → Type 0
Steady s j q =
    (n : ℕ) (k : Translator) → Kept s n (λ m. m) j k → (run k.out s).gpr q ≡ (run j.out s).gpr q

-- Register `r` is pinned.
abbrev pub Locked : Translator → ℕ → Type 0
Locked j r = IsAlloc r × ((j.regs (reg_index r)).pinned ≡ true)

pub Locked-Steady : (s : Processor) (j : Translator) (r : ℕ) → Locked j r → Steady s j r
Locked-Steady s j r ((lt, al), p) n k h = rw al at (h.held (reg_index r) lt p)

pub if_rule {ℓ} :
    {A : Type ℓ} (P : A → Type 0) (b : Bool) (x y : A)
    → (b ≡ true → P x)
    → (b ≡ false → P y)
    → P (if b then x else y)
if_rule P true x y f g = f refl
if_rule P false x y f g = g refl

module _ (s : Processor) (j : Translator) where
  -- A word that goes to its address from a register.
  pub op_store-Kept :
      (n : ℕ) (k : Translator) (t base disp a v : ℕ)
      → Kept s n (λ m. m) j k
      → add64 ((run k.out s).gpr base) (extended disp) ≡ a
      → (run k.out s).gpr t ≡ bswap64 v
      → Kept s n (λ m. writeram m a v) j (emit k (call (Call.op_store t base disp)))
  unfolding step step_call writeram
  op_store-Kept n k t base disp a v h e w =
      Kept-store s n (λ m. m) j k (λ m. writeram m a v) (call (Call.op_store t base disp)) h refl
        (ap₂ (store64 (run k.out s).ram) e w)

  movbe_store-Kept :
      (n : ℕ) (k : Translator) (t base disp a v : ℕ)
      → Kept s n (λ m. m) j k
      → add64 ((run k.out s).gpr base) (extended disp) ≡ a
      → (run k.out s).gpr t ≡ v
      → Kept s n (λ m. writeram m a v) j (emit k (call (Call.movbe_store t base disp)))
  unfolding step step_call writeram
  movbe_store-Kept n k t base disp a v h e w =
      Kept-store s n (λ m. m) j k (λ m. writeram m a v) (call (Call.movbe_store t base disp)) h refl
        (ap₂ (store64 (run k.out s).ram) e (ap bswap64 w))

module _ (s : Processor) (j : Translator) (p : j.pend ≡ false) where
  pub store_at-Kept :
      (r base disp a : ℕ)
      → 0 < room j
      → Locked j r
      → Steady s j base
      → add64 ((run j.out s).gpr base) (extended disp) ≡ a
      → Kept s 1 (λ m. writeram m a ((run j.out s).gpr r)) j (store_at idle j r base disp)
  unfolding store_at step step_call run
  store_at-Kept r base disp a free locked steady e =
      let k = (scratch idle j).0 in
      let t = (scratch idle j).1 in
      let took = scratch-Took s j free p in
      let a1 = run k.out s in
      let l = record k { out = call (Call.bswap t) ∷ call (Call.mov_rr t r) ∷ k.out } in
      let wrote =
        Took-write s 1 (λ m. m) j k t l.out took (set-OnlyWrites_twice a1 t (a1.gpr r) _) in
      if_rule (λ x. Kept s 1 (λ m. writeram m a ((run j.out s).gpr r)) j x) j.use_movbe _ _
        (λ q. movbe_store-Kept s j 1 j r base disp a _ (Kept-refl s 1 j) e refl)
        (λ q.
          op_store-Kept s j 1 l t base disp a ((run j.out s).gpr r) wrote.kept
            (ap (λ x. add64 x (extended disp)) (steady 1 l wrote.kept) ∙ e)
            (set_at (set a1 t (a1.gpr r)) t _
              ∙ ap bswap64 (set_at a1 t (a1.gpr r) ∙ Locked-Steady s j r locked 1 k took.kept)))

  pub Took-Locked : (n : ℕ) (k : Translator) (r : ℕ) → Took s n (λ m. m) j k r → Locked k r
  Took-Locked n k r t = (t.alloc, t.pinned)

  pub Kept-Locked :
      (n : ℕ) (k : Translator) (r : ℕ) → Kept s n (λ m. m) j k → Locked j r → Locked k r
  Kept-Locked n k r h (al, q) = (al, h.pinned (reg_index r) q)

  -- A register taken and loaded with a constant.
  pub load_const-Took :
      (v : ℕ)
      → 0 < room j
      → Took s 1
          (λ m. m)
          j
          (emit (scratch idle j).0 (call (Call.mov_imm (scratch idle j).1 v)))
          (scratch idle j).1
  unfolding run step step_call
  load_const-Took v free =
      let k = (scratch idle j).0 in
      let t = (scratch idle j).1 in
      Took-write s 1 (λ m. m) j k t (call (Call.mov_imm t v) ∷ k.out) (scratch-Took s j free p)
        (set-OnlyWrites (run k.out s) t v)

  pub load_const_at :
      (v : ℕ)
      → (run (call (Call.mov_imm (scratch idle j).1 v) ∷ (scratch idle j).0.out) s).gpr
          (scratch idle j).1
        ≡ v
  unfolding run step step_call
  load_const_at v = set_at (run (scratch idle j).0.out s) (scratch idle j).1 v

module _ (s : Processor) (j : Translator) (p : j.pend ≡ false) (high : (run j.out s).gpr 15 ≡ bias)
    (a : ℕ) (fits : a < two64) where
  bias_at : fits_disp a ≡ true → add64 ((run j.out s).gpr 15) (extended (disp_of a)) ≡ a
  bias_at f = ap (λ x. add64 x (extended (disp_of a))) high ∙ disp_of_lem a f

  pub store_reg-Kept :
      (r : ℕ)
      → 1 < room j
      → Locked j r
      → Kept s 2 (λ m. writeram m a ((run j.out s).gpr r)) j (store_reg idle j r false a 0)
  unfolding store_reg
  store_reg-Kept r free locked =
      let t = (scratch idle j).1 in
      let took = load_const-Took s j p a (omega arith) in
      let l = emit (scratch idle j).0 (call (Call.mov_imm t a)) in
      let v = (run j.out s).gpr r in
      if_rule (λ x. Kept s 2 (λ m. writeram m a v) j x) (fits_disp a) _ _
        (λ f.
          Kept-trans s 1 1 (λ m. m) (λ m. writeram m a v) j j _ (Kept-refl s 1 j)
            (store_at-Kept s j p r 15 (disp_of a) a (omega arith) locked (λ n k h. h.bias)
              (bias_at f)))
        (λ f.
          Kept-trans s 1 1 (λ m. m) (λ m. writeram m a v) j l _ took.kept
            (subst (λ x. Kept s 1 (λ m. writeram m a x) l (store_at idle l r t 0))
              (Locked-Steady s j r locked 1 l took.kept)
              (store_at-Kept s l (took.kept.pend ∙ p) r t 0 a (omega (arith, took.kept.room))
                (Kept-Locked s j p 1 l r took.kept locked)
                (Locked-Steady s l t (Took-Locked s j p 1 l t took))
                (ap (λ x. add64 x (extended 0)) (load_const_at s j p a) ∙ ground arith))))

  pub store_from-Kept :
      (t v : ℕ)
      → 0 < room j
      → Locked j t
      → (run j.out s).gpr t ≡ bswap64 v
      → Kept s 1 (λ m. writeram m a v) j (store_from idle j t a)
  unfolding store_from
  store_from-Kept t v free locked e =
      let b = (scratch idle j).1 in
      let took = load_const-Took s j p a free in
      let l = emit (scratch idle j).0 (call (Call.mov_imm b a)) in
      if_rule (λ x. Kept s 1 (λ m. writeram m a v) j x) (fits_disp a) _ _
        (λ f. op_store-Kept s j 1 j t 15 (disp_of a) a v (Kept-refl s 1 j) (bias_at f) e)
        (λ f.
          op_store-Kept s j 1 l t b 0 a v took.kept
            (ap (λ x. add64 x (extended 0)) (load_const_at s j p a) ∙ ground arith)
            (Locked-Steady s j t locked 1 l took.kept ∙ e))

module _ (s : Processor) (j : Translator) (p : j.pend ≡ false) (high : (run j.out s).gpr 15 ≡ bias)
    (a : ℕ) (fits : a < two64) where
  store_imm-Kept :
      (v : ℕ)
      → (fits_disp a && is_signed32 (bswap64 v)) ≡ true
      → Kept s 2 (λ m. writeram m a v) j (emit j (store_imm 15 (disp_of a) (bswap64 v % two32)))
  unfolding step writeram
  store_imm-Kept v e =
      let (f, i) = and_true (fits_disp a) (is_signed32 (bswap64 v)) e in
      Kept-store s 2 (λ m. m) j j (λ m. writeram m a v) _ (Kept-refl s 2 j) refl
        (ap₂ (store64 (run j.out s).ram)
          (ap (λ x. add64 x (extended (disp_of a))) high ∙ disp_of_lem a f)
          (extended_lem (bswap64 v) (bswap64-lt v) i))

  pub store_const-Kept :
      (v : ℕ) → 1 < room j → Kept s 2 (λ m. writeram m a v) j (store_const idle j v false a 0)
  unfolding store_const
  store_const-Kept v free =
      let t = (scratch idle j).1 in
      let took = load_const-Took s j p (bswap64 v) (omega arith) in
      let l = emit (scratch idle j).0 (call (Call.mov_imm t (bswap64 v))) in
      if_rule (λ x. Kept s 2 (λ m. writeram m a v) j x) (fits_disp a && is_signed32 (bswap64 v)) _ _
        (store_imm-Kept v)
        (λ f.
          Kept-trans s 1 1 (λ m. m) (λ m. writeram m a v) j l _ took.kept
            (store_from-Kept s l (took.kept.pend ∙ p) (took.kept.bias ∙ high) a fits t v
              (omega (arith, took.kept.room)) (Took-Locked s j p 1 l t took)
              (load_const_at s j p (bswap64 v))))
