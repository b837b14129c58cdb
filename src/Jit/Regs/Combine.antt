-- ===== src/Jit/Regs/Combine.antt =====
-- The two shifted parts of a word joined.
use mathlib.Core.Bool.{false≢true}
use subleq_emu.Prelude.{ℕ, ◌+◌, ◌<◌, ◌≡◌, sym, ap, ap₂, subst, ◌∙◌, arith, bit_or}
use subleq_emu.Ram.{Ram, readram}
use subleq_emu.Ram.Words.{IsBytes}
use subleq_emu.Jit.Regs.{Translator, Cval, unknown, in_reg, constant, negated}
use subleq_emu.Jit.Regs.Code.{Processor, run}
use subleq_emu.Jit.Regs.Values.{combine}
use subleq_emu.Jit.Regs.Room.{room}
use subleq_emu.Jit.Regs.Pending.{Holds, Moves-trans, Moves-refl, need}
use subleq_emu.Jit.Regs.Taken.{Taken}
use subleq_emu.Jit.Regs.Load.{Got}
use subleq_emu.Jit.Regs.Goes.{Goes, Goes-refl, Taken-Goes, Taken-after, Taken-before, Locked-Goes}
use subleq_emu.Jit.Regs.Shift.{Shifted}
use subleq_emu.Jit.Regs.Join.{or_in-Taken, or_constant-Taken}

module _ (s : Processor) (m : Ram) (bytes : IsBytes m) where
  pub Shifted-Goes :
      (j k : Translator) (v : Cval) (w : ℕ) → Holds s m j → Shifted s m j k v w → Goes s m 2 j k
  Shifted-Goes j k unknown w h bad = absurd (false≢true bad)
  Shifted-Goes j k (in_reg r) w h (t, e) = Taken-Goes s m 2 j k r t
  Shifted-Goes j k (constant c) w h (same, e) =
      subst (Goes s m 2 j) (sym same) (Goes-refl s m 2 j h)
  Shifted-Goes j k (negated r) w h bad = absurd (false≢true bad)

  Taken-Got :
      (n : ℕ) (j k : Translator) (r a : ℕ)
      → Taken s m n j k r
      → (run k.out s).gpr r ≡ readram m a
      → Got s m n j a k (in_reg r)
  Taken-Got n j k r a t e = record {
    holds = t.holds;
    moves = t.moves;
    means = (t.alloc, sym e);
    usable = (t.alloc, t.pinned);
  }

  pub Got-more :
      (n n' : ℕ) (j k : Translator) (a : ℕ) (v : Cval)
      → Got s m n j a k v
      → Got s m (n + n') j a k v
  Got-more n n' j k a v g = record {
    holds = g.holds;
    moves = Moves-trans s n n' j k k g.moves (Moves-refl s n' k);
    means = g.means;
    usable = g.usable;
  }

  -- The two parts of a word joined.
  pub combine-Got :
      (i j k : Translator) (v h : Cval) (x y a : ℕ)
      → Holds s m i
      → need i.pend + 4 < room i
      → Shifted s m i j v x
      → Shifted s m j k h y
      → bit_or x y ≡ readram m a
      → bit_or y x ≡ readram m a
      → Got s m 5 i a (combine k v h).0 (combine k v h).1
  unfolding combine
  combine-Got i j k unknown h x y a hold free bad p e f = absurd (false≢true bad)
  combine-Got i j k (negated r) h x y a hold free bad p e f = absurd (false≢true bad)
  combine-Got i j k (constant c) unknown x y a hold free p bad e f = absurd (false≢true bad)
  combine-Got i j k (constant c) (negated r) x y a hold free p bad e f = absurd (false≢true bad)
  combine-Got i j k (in_reg r) unknown x y a hold free p bad e f = absurd (false≢true bad)
  combine-Got i j k (in_reg r) (negated q) x y a hold free p bad e f = absurd (false≢true bad)
  combine-Got i j k (constant c) (constant d) x y a hold free (si, p) (sj, q) e f =
      subst (λ l. Got s m 5 i a l (constant (bit_or c d))) (sym (sj ∙ si))
        (record {
          holds = hold;
          moves = Moves-refl s 5 i;
          means = sym (ap₂ bit_or p q ∙ e);
          usable = tt;
        })
  combine-Got i j k (constant c) (in_reg r) x y a hold free first (t, q) e f =
      let g = Shifted-Goes i j (constant c) x hold first in
      let t' = Taken-after s m 2 2 i j k r g t in
      let (u, v) =
        or_constant-Taken s m 4 i k r c y bytes t' (omega (arith, t'.moves.room, free)) q in
      Taken-Got 5 i _ r a u (v ∙ ap (bit_or y) first.1 ∙ f)
  combine-Got i j k (in_reg r) (constant c) x y a hold free (t, p) second e f =
      let g = Shifted-Goes j k (constant c) y t.holds second in
      let t' = Taken-before s m 2 2 i j k r t g in
      let same = (Locked-Goes s m 2 j k r g (t.alloc, t.pinned)).1 in
      let (u, v) =
        or_constant-Taken s m 4 i k r c x bytes t' (omega (arith, t'.moves.room, free))
          (same ∙ p) in
      Taken-Got 5 i _ r a u (v ∙ ap (bit_or x) second.1 ∙ e)
  combine-Got i j k (in_reg r) (in_reg q) x y a hold free (t, p) (t', p') e f =
      let g = Taken-Goes s m 2 j k q t' in
      let all = Taken-before s m 2 2 i j k r t g in
      let same = (Locked-Goes s m 2 j k r g (t.alloc, t.pinned)).1 in
      let (u, v) = or_in-Taken s m 4 i k r all q x y (same ∙ p) p' in
      let l = (combine k (in_reg r) (in_reg q)).0 in
      Got-more 4 1 i l a (in_reg r) (Taken-Got 4 i l r a u (v ∙ e))
