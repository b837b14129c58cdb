-- ===== src/Jit/Regs/Leave.antt =====
-- Memory when a block is left with a word held back.
use mathlib.Core.Bool.{false≢true}
use subleq_emu.Prelude.{
  ℕ, ◌+◌, ◌≤◌, ◌<◌, ◌≡◌, ◌≢◌, refl, sym, ap, ap₂, subst, ◌∙◌, ◌⊎◌, inl, inr, arith, true, not, ◌||◌,
  ◌==◌, add64, two64, sub64,
}
use subleq_emu.Ram.{Ram, readram, writeram, bswap64, store64}
use subleq_emu.Ram.Words.{IsBytes}
use subleq_emu.Jit.Emit.Call
use subleq_emu.Jit.Regs.{
  is_known, Translator, Cval, unknown, in_reg, constant, negated, emit, first_index, cache_find,
}
use subleq_emu.Jit.Regs.Alloc.{fits_disp, disp_of, val_reg, bias}
use subleq_emu.Jit.Regs.Code.{call, Processor, run, step, step_call, set, extended}
use subleq_emu.Jit.Regs.Find.{first_index-Search}
use subleq_emu.Jit.Regs.Entries.{Means}
use subleq_emu.Jit.Regs.Lookup.{cache_find-Find, Source-Means}
use subleq_emu.Jit.Regs.Kept.{set_at, set-OnlyWrites_twice, set-OnlyWrites}
use subleq_emu.Jit.Regs.Store.{if_rule, disp_of_lem}
use subleq_emu.Jit.Regs.Pending.{Holds, patched}
use subleq_emu.Jit.Regs.Stub.{Snapshot, snap_pending, other_than, stub_value, stub_store}

-- Memory has got `x` at `a`, and no register but `t` has changed.
abbrev Stores : Processor → ℕ → ℕ → ℕ → Processor → Type 0
Stores g t a x l = (l.ram ≡ writeram g.ram a x) × ((q : ℕ) → q ≢ t → l.gpr q ≡ g.gpr q)

other_than-apart :
    (t reg keep : ℕ)
    → (t ≤ other_than t reg keep)
      × (other_than t reg keep < t + 3)
      × (other_than t reg keep ≢ reg)
      × (other_than t reg keep ≢ keep)
other_than-apart t reg keep = elim (first_index-Search 3 t (λ r. not (r == reg || r == keep)) 16) [
  | inl (lo, hi, e) ↦ (lo, hi, (λ same. ground arith), λ same. ground arith)
  | inr (e, all) ↦ absurd (
      ground (
        arith,
        all t (omega arith) (omega arith),
        all (t + 1) (omega arith) (omega arith),
        all (t + 2) (omega arith) (omega arith),
      ))
]

module _ (s : Processor) (j : Translator) (t base disp a x : ℕ) where
  stub_value-Stores :
      (v : Cval)
      → is_known v ≡ true
      → base ≢ t
      → val_reg v ≢ t
      → add64 ((run j.out s).gpr base) (extended disp) ≡ a
      → Means (run j.out s).gpr v x
      → Stores (run j.out s) t a x (run (stub_value j v t base disp).out s)
  unfolding stub_value run step step_call writeram
  stub_value-Stores unknown bad ne apart e mean = absurd (false≢true bad)
  stub_value-Stores (constant c) k ne apart e mean =
      let g = run j.out s in
      let w = set-OnlyWrites g t (bswap64 c) in
      (
        ap₂ (store64 g.ram) (ap (λ y. add64 y (extended disp)) (w.1 base ne) ∙ e)
            (set_at g t (bswap64 c) ∙ ap bswap64 (sym mean)),
        w.1,
      )
  stub_value-Stores (in_reg r) k ne apart e (al, mean) =
      let g = run j.out s in
      let b = set g t (g.gpr r) in
      let w = set-OnlyWrites_twice g t (g.gpr r) (bswap64 (b.gpr t)) in
      if_rule (λ (l : Translator). Stores g t a x (run l.out s)) j.use_movbe _ _
        (λ o. (ap₂ (store64 g.ram) e (ap bswap64 (sym mean)), λ q other. refl))
        (λ o. (
          ap₂ (store64 g.ram) (ap (λ y. add64 y (extended disp)) (w.1 base ne) ∙ e)
              (set_at b t (bswap64 (b.gpr t)) ∙ ap bswap64 (set_at g t (g.gpr r) ∙ sym mean)),
          w.1,
        ))
  stub_value-Stores (negated r) k ne apart e (al, small, mean) =
      let g = run j.out s in
      let b = set g t (g.gpr r) in
      let c = set b t (sub64 0 (b.gpr t)) in
      let w = set-OnlyWrites_twice g t (g.gpr r) (sub64 0 (b.gpr t)) in
      let w' = set-OnlyWrites c t (bswap64 (c.gpr t)) in
      let value : c.gpr t ≡ x =
        set_at b t (sub64 0 (b.gpr t)) ∙ ap (sub64 0) (set_at g t (g.gpr r)) ∙ sym mean in
      if_rule (λ (l : Translator). Stores g t a x (run l.out s)) j.use_movbe _ _
        (λ o. (
          ap₂ (store64 g.ram) (ap (λ y. add64 y (extended disp)) (w.1 base ne) ∙ e)
              (ap bswap64 value),
          w.1,
        ))
        (λ o. (
          ap₂ (store64 g.ram) (ap (λ y. add64 y (extended disp)) (w'.1 base ne ∙ w.1 base ne) ∙ e)
              (set_at c t (bswap64 (c.gpr t)) ∙ ap bswap64 value),
          λ q other. w'.1 q other ∙ w.1 q other,
        ))

-- rax, rcx, rdx and rbx may change, but `keep` may not.
abbrev pub Spares : Processor → ℕ → Processor → Type 0
Spares g keep l = (q : ℕ) → (q ≡ keep) ⊎ (3 < q) → l.gpr q ≡ g.gpr q

not_spare : (t keep q : ℕ) → t < 4 → t ≢ keep → (q ≡ keep) ⊎ (3 < q) → q ≢ t
not_spare t keep q lt ne (inl e) same = ne (sym same ∙ e)
not_spare t keep q lt ne (inr high) same = absurd (omega arith)

Means-off :
    (g l : ℕ → ℕ) (t : ℕ) (v : Cval) (x : ℕ)
    → ((q : ℕ) → q ≢ t → l q ≡ g q)
    → val_reg v ≢ t
    → Means g v x
    → Means l v x
Means-off g l t unknown x off ne e = tt
Means-off g l t (in_reg r) x off ne (al, e) = (al, e ∙ sym (off r ne))
Means-off g l t (constant c) x off ne e = e
Means-off g l t (negated r) x off ne (al, small, e) = (al, rw (off r ne) small, rw (off r ne) e)

base_low : (reg keep : ℕ) → other_than (other_than 0 reg keep + 1) reg keep < 4
unfolding first_index
base_low reg keep = ground arith

stub_store-Stores :
    (s : Processor) (j : Translator) (p : Snapshot) (keep x : ℕ)
    → is_known p.value ≡ true
    → (run j.out s).gpr 15 ≡ bias
    → p.addr < two64
    → Means (run j.out s).gpr p.value x
    → ((run (stub_store j p keep).out s).ram ≡ writeram (run j.out s).ram p.addr x)
      × Spares (run j.out s) keep (run (stub_store j p keep).out s)
unfolding stub_store run step step_call
stub_store-Stores s j p keep x known high lt mean =
    let r = val_reg p.value in
    let t = other_than 0 r keep in
    let (lo, hi, tr, tk) = other_than-apart 0 r keep in
    let base = other_than (t + 1) r keep in
    let (lo', hi', br, bk) = other_than-apart (t + 1) r keep in
    let g = run j.out s in
    if_rule
      (λ (l : Translator).
        ((run l.out s).ram ≡ writeram g.ram p.addr x) × Spares g keep (run l.out s))
      (not (is_known p.value)) _ _ (λ e. absurd (ground arith))
      (λ e.
        if_rule
          (λ (l : Translator).
            ((run l.out s).ram ≡ writeram g.ram p.addr x) × Spares g keep (run l.out s))
          (fits_disp p.addr) _ _
          (λ f.
            let (ram, off) =
              stub_value-Stores s j t 15 (disp_of p.addr) p.addr x p.value known
                (λ same. absurd (omega arith)) (λ same. tr (sym same))
                (ap (λ y. add64 y (extended (disp_of p.addr))) high ∙ disp_of_lem p.addr f) mean in
            (ram, λ q which. off q (not_spare t keep q (omega arith) tk which)))
          (λ f.
            let w = set-OnlyWrites g base p.addr in
            let (ram, off) =
              stub_value-Stores s (emit j (call (Call.mov_imm base p.addr))) t base 0 p.addr x
                p.value known (λ same. absurd (omega arith)) (λ same. tr (sym same))
                (ap (λ y. add64 y (extended 0)) (set_at g base p.addr) ∙ ground arith)
                (Means-off g.gpr (set g base p.addr).gpr base p.value x w.1 (λ same. br (sym same))
                  mean) in
            (
              ram,
              λ q which.
                  off q (not_spare t keep q (omega arith) tk which)
                  ∙ w.1 q (not_spare base keep q (base_low r keep) bk which),
            )))

stub_store_none :
    (j : Translator) (keep : ℕ) → stub_store j (record { value = unknown; addr = 0 }) keep ≡ j
unfolding stub_store
stub_store_none j keep = refl

module _ (s : Processor) (m : Ram) (j : Translator) (keep : ℕ) where
  -- The code that an exit runs.
  abbrev pub left : Processor
  left = run (stub_store (snap_pending j).0 (snap_pending j).1 keep).out s

  -- `stub_store` of what `snap_pending` has noted, where the cache is right about a memory of bytes,
  -- of which it may hold one word back: once that code has run where it was noted, all of memory is
  -- that memory, and no register but rax, rcx, rdx and rbx has changed, nor the one to keep.
  pub stub_store-snap_pending :
      IsBytes m → Holds s m j → ((q : ℕ) → left.ram q ≡ m q) × Spares (run j.out s) keep left
  unfolding snap_pending
  stub_store-snap_pending bytes h =
      let found = cache_find-Find j j.pend_addr in
      let k = (cache_find j j.pend_addr).0 in
      let v = (cache_find j j.pend_addr).1 in
      let p : Snapshot = record { value = v; addr = j.pend_addr } in
      let same = found.touched.out in
      if_rule
        (λ (r : Translator × Snapshot).
          ((q : ℕ) → (run (stub_store r.0 r.1 keep).out s).ram q ≡ m q)
          × Spares (run j.out s) keep (run (stub_store r.0 r.1 keep).out s))
        j.pend _ _
        (λ on.
          let mean = Source-Means (run j.out s).gpr m j j.pend_addr v h.entries found.source in
          let (ram, spare) =
            stub_store-Stores s k p keep (readram m j.pend_addr) (found.is_found ∙ h.held on)
              (rw same h.bias) h.addr (rw same mean) in
          (
            λ q.
                ap (λ f. f q) ram
                ∙ ap (λ o. writeram (run o s).ram j.pend_addr (readram m j.pend_addr) q) same
                ∙ patched s m j (run j.out s).ram j.pend_addr bytes (h.off on) q,
            λ q which. spare q which ∙ ap (λ o. (run o s).gpr q) same,
          ))
        (λ off.
          subst
            (λ (l : Translator).
              ((q : ℕ) → (run l.out s).ram q ≡ m q) × Spares (run j.out s) keep (run l.out s))
            (sym (stub_store_none j keep)) (h.same off, λ q which. refl))
