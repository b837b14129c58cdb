-- ===== src/Jit/Regs/Flush.antt =====
-- `flush_pending`: the word held back goes to memory.
use mathlib.Core.Bool.{false≢true}
use subleq_emu.Prelude.{
  ℕ, ◌+◌, ◌-◌, ◌<◌, ◌≡◌, refl, sym, ap, subst, ◌∙◌, inl, inr, arith, true, false, not, Bool-cases,
  ◌==◌, ==_self, ltb, if◌then◌else◌, add64, sub64, two64,
}
use subleq_emu.Ram.{Ram, writeram}
use subleq_emu.Jit.Emit.Call
use subleq_emu.Jit.Regs.{
  Translator, in_reg, negated, emit, reg_index, set_pinned, pin, unpin, nregs,
}
use subleq_emu.Jit.Regs.Code.{call, Processor, run, step, step_call, set, extended, at}
use subleq_emu.Jit.Regs.Find.{IsAlloc}
use subleq_emu.Jit.Regs.Alloc.{scratch, idle, store_reg, store_held, negate, to_reg, bias}
use subleq_emu.Jit.Regs.Room.{room}
use subleq_emu.Jit.Regs.Kept.{
  OnlyWrites, Kept, Kept-refl, set_at, set-OnlyWrites, set-OnlyWrites_twice, Kept-trans, Took,
}
use subleq_emu.Jit.Regs.Take.{Took-write, Kept-set_pinned, pin-Kept, scratch-Took}
use subleq_emu.Jit.Regs.Store.{Locked, Locked-Steady, Took-Locked, store_reg-Kept, if_rule}

pub complement : (x : ℕ) → x < two64 → add64 (two64 - 1 - x) (extended 1) ≡ sub64 0 x
complement x h = omega arith

-- `l` is `k` with code that puts `x` into `r`.
pub record Wrote (s : Processor) (k : Translator) (r x : ℕ) (l : Translator) : Type 0 where
  pub same : l ≡ record k { out = l.out }
  pub writes : OnlyWrites r (run k.out s) (run l.out s)
  pub value : (run l.out s).gpr r ≡ x

pub negate-Wrote :
    (s : Processor) (k : Translator) (r x : ℕ)
    → x < two64
    → (run k.out s).gpr r ≡ x
    → Wrote s k r (sub64 0 x) (negate k r)
unfolding negate run step step_call
negate-Wrote s k r x lt e =
    let a = run k.out s in
    let b = set a r (two64 - 1 - a.gpr r) in
    if_rule (Wrote s k r (sub64 0 x)) (not k.flags_live) _ _
      (λ f. record {
        same = refl;
        writes = set-OnlyWrites a r (sub64 0 (a.gpr r));
        value = set_at a r (sub64 0 (a.gpr r)) ∙ ap (sub64 0) e;
      })
      (λ f. record {
        same = refl;
        writes = set-OnlyWrites_twice a r (two64 - 1 - a.gpr r) (at b r 1);
        value =
            set_at b r (at b r 1)
            ∙ ap (λ y. add64 y (extended 1)) (set_at a r (two64 - 1 - a.gpr r))
            ∙ ap (λ y. add64 (two64 - 1 - y) (extended 1)) e
            ∙ complement x lt;
      })

negate-Took :
    (s : Processor) (n : ℕ) (j k : Translator) (r x : ℕ)
    → x < two64
    → (run k.out s).gpr r ≡ x
    → Took s n (λ m. m) j k r
    → Took s n (λ m. m) j (negate k r) r × ((run (negate k r).out s).gpr r ≡ sub64 0 x)
negate-Took s n j k r x lt e t =
    let w = negate-Wrote s k r x lt e in
    (
      subst (λ l. Took s n (λ m. m) j l r) (sym w.same)
          (Took-write s n (λ m. m) j k r (negate k r).out t w.writes),
      w.value,
    )

module _ (s : Processor) (j x : Translator) where
  Took-after :
      (n n' : ℕ) (w w' : Ram → Ram) (k : Translator) (r : ℕ)
      → Kept s n w j x
      → Took s n' w' x k r
      → Took s (n + n') (λ m. w' (w m)) j k r
  Took-after n n' w w' k r h t = record {
    alloc = t.alloc;
    loose = elim (Bool-cases (j.regs (reg_index r)).pinned) [
      | inl e ↦ absurd (false≢true (sym t.loose ∙ h.pinned (reg_index r) e))
      | inr e ↦ e
    ];
    pinned = t.pinned;
    clear = t.clear;
    kept = Kept-trans s n n' w w' j x k h t.kept;
  }

  -- A new register with the negation of `r`.
  negated-Took :
      (r : ℕ)
      → x.pend ≡ false
      → 0 < room x
      → Locked j r
      → (run j.out s).gpr r < two64
      → Kept s 0 (λ m. m) j x
      → Took s 1
          (λ m. m)
          j
          (negate
            (emit (scratch idle x).0 (call (Call.mov_rr (scratch idle x).1 r)))
            (scratch idle x).1)
          (scratch idle x).1
        × ((run
                (negate
                  (emit (scratch idle x).0 (call (Call.mov_rr (scratch idle x).1 r)))
                  (scratch idle x).1).out
                s).gpr
              (scratch idle x).1
            ≡ sub64 0 ((run j.out s).gpr r))
  unfolding run step step_call
  negated-Took r p free locked word h =
      let k = (scratch idle x).0 in
      let t = (scratch idle x).1 in
      let took = Took-after 0 1 (λ m. m) (λ m. m) k t h (scratch-Took s x free p) in
      let copied = emit k (call (Call.mov_rr t r)) in
      let a = run k.out s in
      negate-Took s 1 j copied t ((run j.out s).gpr r) word
        (set_at a t (a.gpr r) ∙ Locked-Steady s j r locked 1 k took.kept)
        (Took-write s 1 (λ m. m) j k t copied.out took (set-OnlyWrites a t (a.gpr r)))

-- A negation is put into a new register.
abbrev pub IsNegated : Processor → Translator → ℕ → Translator × ℕ → Type 0
IsNegated s j r (k, t) =
    Took s 1 (λ m. m) j k t × ((run k.out s).gpr t ≡ sub64 0 ((run j.out s).gpr r))

pub to_reg_negated :
    (s : Processor) (j : Translator) (r : ℕ)
    → j.pend ≡ false
    → 0 < room j
    → Locked j r
    → (run j.out s).gpr r < two64
    → IsNegated s j r (to_reg idle j (negated r))
unfolding to_reg pin
to_reg_negated s j r p free locked word =
    if_rule
      (λ x. IsNegated s j r (
        negate (emit (scratch idle x).0 (call (Call.mov_rr (scratch idle x).1 r)))
            (scratch idle x).1,
        (scratch idle x).1,
      ))
      (ltb (reg_index r) nregs) (set_pinned j (reg_index r) true) j
      (λ e.
        let h =
          Kept-set_pinned s 0 (λ m. m) j j (reg_index r) true (Kept-refl s 0 j) (λ q. refl)
            (λ q. locked.1) in
        negated-Took s j (set_pinned j (reg_index r) true) r p (omega (arith, h.room)) locked word
          h)
      (λ e. negated-Took s j j r p free locked word (Kept-refl s 0 j))

module _ (s : Processor) (j : Translator) where
  -- The pins as they were at the start, but for a register taken since, which is let go.
  restore-Kept :
      (n : ℕ) (w : Ram → Ram) (k : Translator) (r x i : ℕ)
      → Kept s n w j k
      → ((r == x) ≡ false → (j.regs (reg_index r)).pinned ≡ false)
      → Kept s n w j (set_pinned (if r == x then k else unpin k r) i (j.regs i).pinned)
  unfolding unpin
  restore-Kept n w k r x i h loose =
      let first : Kept s n w j (if r == x then k else unpin k r) =
        if_rule (Kept s n w j) (r == x) k (unpin k r) (λ e. h)
          (λ e.
            if_rule (Kept s n w j) (ltb (reg_index r) nregs) _ k
              (λ lt.
                Kept-set_pinned s n w j k (reg_index r) false h
                  (λ q. absurd (false≢true (sym (loose e) ∙ q))) (λ q. absurd (false≢true q)))
              (λ lt. h)) in
      Kept-set_pinned s n w j (if r == x then k else unpin k r) i (j.regs i).pinned first (λ q. q)
        (first.pinned i)

module _ (s : Processor) (j : Translator) (p : j.pend ≡ false) (high : (run j.out s).gpr 15 ≡ bias)
    (fits : j.pend_addr < two64) (free : 3 < room j) where
  pub held_in-Kept :
      (r : ℕ)
      → IsAlloc r
      → Kept s 4 (λ m. writeram m j.pend_addr ((run j.out s).gpr r)) j (store_held j (in_reg r))
  unfolding store_held to_reg
  held_in-Kept r al =
      let i = reg_index r in
      let w = λ (m : Ram). writeram m j.pend_addr ((run j.out s).gpr r) in
      let k = set_pinned j i true in
      let first = pin-Kept s j i in
      let stored =
        store_reg-Kept s k p high j.pend_addr fits r (omega (arith, first.room))
          (al, ground arith) in
      restore-Kept s j 4 w (store_reg idle k r false j.pend_addr 0) r r i
        (Kept-trans s 2 2 (λ m. m) w j k _
          (Kept-trans s 1 1 (λ m. m) (λ m. m) j k k first (Kept-refl s 1 k)) stored)
        (λ e. absurd (false≢true (sym e ∙ ==_self r)))

  pub held_negated-Kept :
      (r : ℕ)
      → IsAlloc r
      → (run j.out s).gpr r < two64
      → Kept s 4
          (λ m. writeram m j.pend_addr (sub64 0 ((run j.out s).gpr r)))
          j
          (store_held j (negated r))
  unfolding store_held
  held_negated-Kept r al word =
      let i = reg_index r in
      let w = λ (m : Ram). writeram m j.pend_addr (sub64 0 ((run j.out s).gpr r)) in
      let k = set_pinned j i true in
      let first = pin-Kept s j i in
      let (took, value) =
        to_reg_negated s k r p (omega (arith, first.room)) (al, ground arith) word in
      let l = (to_reg idle k (negated r)).0 in
      let t = (to_reg idle k (negated r)).1 in
      let all = Took-after s j k 1 1 (λ m. m) (λ m. m) l t first took in
      let stored =
        store_reg-Kept s l (all.kept.pend ∙ p) (all.kept.bias ∙ high) j.pend_addr fits t
          (omega (arith, all.kept.room)) (Took-Locked s k p 1 l t took) in
      restore-Kept s j 4 w (store_reg idle l t false j.pend_addr 0) t r i
        (Kept-trans s 2 2 (λ m. m) w j l _ all.kept
          (subst
            (λ v.
              Kept s 2 (λ m. writeram m j.pend_addr v) l (store_reg idle l t false j.pend_addr 0))
            value stored))
        (λ e. all.loose)
