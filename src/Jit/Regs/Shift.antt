-- ===== src/Jit/Regs/Shift.antt =====
-- `shifted`: a value of the cache shifted into a new register.
use mathlib.Core.Bool.{false≢true}
use subleq_emu.Prelude.{
  ℕ, ◌+◌, ◌*◌, ◌/◌, ◌%◌, ◌^◌, ◌<◌, ◌≡◌, refl, sym, ap, subst, ◌∙◌, arith, Bool, true, false, ◌∷◌,
  if◌then◌else◌, two64, sub64,
}
use subleq_emu.Ram.{Ram}
use subleq_emu.Ram.Words.{IsBytes}
use subleq_emu.Jit.Emit.Call
use subleq_emu.Jit.Regs.{
  Translator, Cval, unknown, in_reg, constant, negated, emit, reg_index, set_pinned,
}
use subleq_emu.Jit.Regs.Code.{call, Processor, run, step, step_call, set}
use subleq_emu.Jit.Regs.Entries.{Means}
use subleq_emu.Jit.Regs.Alloc.{scratch, flush_pending, to_reg, negate}
use subleq_emu.Jit.Regs.Values.{shift_reg, shifted}
use subleq_emu.Jit.Regs.Room.{room}
use subleq_emu.Jit.Regs.Kept.{Kept-refl, set-OnlyWrites, set-OnlyWrites_twice, set_at}
use subleq_emu.Jit.Regs.Take.{set_pinned-Sub, Kept-set_pinned}
use subleq_emu.Jit.Regs.Store.{Locked}
use subleq_emu.Jit.Regs.Flush.{negate-Wrote}
use subleq_emu.Jit.Regs.Pending.{Holds, Kept-Moves, need}
use subleq_emu.Jit.Regs.Taken.{Taken, scratch-Taken, Holds-set_pinned}
use subleq_emu.Jit.Regs.Load.{Taken-write, Usable}
use subleq_emu.Jit.Regs.Get.{pin_alloc}
use subleq_emu.Jit.Regs.Goes.{Goes, Taken-Goes, Goes-refl, Taken-after, Taken-before, Locked-Goes}

-- A value after a shift: a constant, or a register just taken.
abbrev pub Shifted : Processor → Ram → Translator → Translator → Cval → ℕ → Type 0
Shifted s m j k unknown w = false ≡ true
Shifted s m j k (in_reg r) w = Taken s m 2 j k r × ((run k.out s).gpr r ≡ w)
Shifted s m j k (constant c) w = (k ≡ j) × (c ≡ w)
Shifted s m j k (negated r) w = false ≡ true

abbrev pub shift_of : Bool → ℕ → ℕ → ℕ
shift_of left n w = if left then w * 2 ^ n % two64 else w / 2 ^ n

module _ (s : Processor) (m : Ram) (bytes : IsBytes m) where
  shift_reg-Shifted :
      (j : Translator) (q : ℕ) (left : Bool) (n : ℕ)
      → need j.pend < room j
      → Holds s m j
      → Locked j q
      → Taken s m 1 j (shift_reg flush_pending j q left n).0 (scratch flush_pending j).1
        × ((run (shift_reg flush_pending j q left n).0.out s).gpr (scratch flush_pending j).1
            ≡ shift_of left n ((run j.out s).gpr q))
  unfolding shift_reg run step step_call
  shift_reg-Shifted j q left n free h locked =
      let t = scratch-Taken s m j bytes free h in
      let k = (scratch flush_pending j).0 in
      let r = (scratch flush_pending j).1 in
      let same = (Locked-Goes s m 1 j k q (Taken-Goes s m 1 j k r t) locked).1 in go left t same
    where
      k : Translator
      k = (scratch flush_pending j).0

      r : ℕ
      r = (scratch flush_pending j).1

      a : Processor
      a = run k.out s

      b : Processor
      b = set a r (a.gpr q)

      go :
          (left : Bool)
          → Taken s m 1 j k r
          → a.gpr q ≡ (run j.out s).gpr q
          → Taken s m 1 j (shift_reg flush_pending j q left n).0 r
            × ((run (shift_reg flush_pending j q left n).0.out s).gpr r
                ≡ shift_of left n ((run j.out s).gpr q))
      go true t same = (
        Taken-write s m 1 j k r t (call (Call.shl_ri r n) ∷ call (Call.mov_rr r q) ∷ k.out)
            (set-OnlyWrites_twice a r (a.gpr q) (b.gpr r * 2 ^ n % two64)),
        set_at b r (b.gpr r * 2 ^ n % two64)
            ∙ ap (λ x. x * 2 ^ n % two64) (set_at a r (a.gpr q) ∙ same),
      )
      go false t same = (
        Taken-write s m 1 j k r t (call (Call.shr_ri r n) ∷ call (Call.mov_rr r q) ∷ k.out)
            (set-OnlyWrites_twice a r (a.gpr q) (b.gpr r / 2 ^ n)),
        set_at b r (b.gpr r / 2 ^ n) ∙ ap (λ x. x / 2 ^ n) (set_at a r (a.gpr q) ∙ same),
      )

  -- The negation of a pinned register in a new one.
  abbrev IsNegated : Translator → ℕ → Translator × ℕ → Type 0
  IsNegated j q (k, r) = Taken s m 1 j k r × ((run k.out s).gpr r ≡ sub64 0 ((run j.out s).gpr q))

  moved-Taken :
      (j x : Translator) (q : ℕ)
      → need x.pend < room x
      → Goes s m 0 j x
      → Locked j q
      → (run j.out s).gpr q < two64
      → IsNegated j q (
        negate
            (emit (scratch flush_pending x).0 (call (Call.mov_rr (scratch flush_pending x).1 q)))
            (scratch flush_pending x).1,
        (scratch flush_pending x).1,
      )
  unfolding run step step_call
  moved-Taken j x q free g locked word =
      let k = (scratch flush_pending x).0 in
      let r = (scratch flush_pending x).1 in
      let t = Taken-after s m 0 1 j x k r g (scratch-Taken s m x bytes free g.holds) in
      let a = run k.out s in
      let copied = emit k (call (Call.mov_rr r q)) in
      let first = Taken-write s m 1 j k r t copied.out (set-OnlyWrites a r (a.gpr q)) in
      let same = (Locked-Goes s m 1 j k q (Taken-Goes s m 1 j k r t) locked).1 in
      let w = negate-Wrote s copied r ((run j.out s).gpr q) word (set_at a r (a.gpr q) ∙ same) in
      (
        subst (λ l. Taken s m 1 j l r) (sym w.same)
            (Taken-write s m 1 j copied r first (negate copied r).out w.writes),
        w.value,
      )

  to_reg-negated :
      (j : Translator) (q : ℕ)
      → need j.pend < room j
      → Holds s m j
      → Locked j q
      → (run j.out s).gpr q < two64
      → IsNegated j q (to_reg flush_pending j (negated q))
  unfolding to_reg
  to_reg-negated j q free h locked word =
      let i = reg_index q in
      let p = set_pinned j i true in
      let moves =
        Kept-Moves s 0 (λ n. n) j p
          (Kept-set_pinned s 0 (λ n. n) j j i true (Kept-refl s 0 j) (λ e. refl) (λ e. locked.1)) in
      subst
        (λ x. IsNegated j q (
          negate
              (emit (scratch flush_pending x).0 (call (Call.mov_rr (scratch flush_pending x).1 q)))
              (scratch flush_pending x).1,
          (scratch flush_pending x).1,
        ))
        (sym (pin_alloc j q locked.0))
        (moved-Taken j p q (omega (arith, moves.room, free))
          (record {
            holds = Holds-set_pinned s m j i true h;
            moves = moves;
            sub = set_pinned-Sub j i true;
            from = λ e. (e, refl);
          })
          locked word)

  pub shifted-Shifted :
      (j : Translator) (v : Cval) (w : ℕ) (left : Bool) (n : ℕ)
      → need j.pend + 1 < room j
      → Holds s m j
      → Usable j v
      → Means (run j.out s).gpr v w
      → Shifted s m j
          (shifted flush_pending j v left n).0
          (shifted flush_pending j v left n).1
          (shift_of left n w)
  unfolding shifted shift_reg
  shifted-Shifted j unknown w left n free h bad mean = absurd (false≢true bad)
  shifted-Shifted j (in_reg q) w left n free h locked (al, e) =
      let (t, v) = shift_reg-Shifted j q left n (omega arith) h locked in
      let k = (shift_reg flush_pending j q left n).0 in
      (
        Taken-before s m 1 1 j k k (scratch flush_pending j).1 t (Goes-refl s m 1 k t.holds),
        v ∙ ap (shift_of left n) (sym e),
      )
  shifted-Shifted j (constant c) w left n free h locked e = (refl, ap (shift_of left n) (sym e))
  shifted-Shifted j (negated q) w left n free h locked (al, small, e) =
      let (t, v) = to_reg-negated j q (omega arith) h locked small in
      let k = (to_reg flush_pending j (negated q)).0 in
      let r = (to_reg flush_pending j (negated q)).1 in
      let (t', v') =
        shift_reg-Shifted k r left n (omega (arith, t.moves.room)) t.holds (t.alloc, t.pinned) in
      (
        Taken-after s m 1 1 j k _ _ (Taken-Goes s m 1 j k r t) t',
        v' ∙ ap (shift_of left n) (v ∙ sym e),
      )
