-- ===== src/Jit/Regs/Goes.antt =====
-- Steps of a translation that take registers, one after another.
use mathlib.Core.Bool.{false≢true}
use subleq_emu.Prelude.{ℕ, ◌+◌, ◌≡◌, refl, sym, ◌∙◌, inl, inr, Bool-cases}
use subleq_emu.Ram.{Ram}
use subleq_emu.Jit.Regs.{Translator, reg_index}
use subleq_emu.Jit.Regs.Code.{Processor, run, at}
use subleq_emu.Jit.Regs.Entries.{Sub, Sub-refl, Sub-trans}
use subleq_emu.Jit.Regs.Store.{Locked}
use subleq_emu.Jit.Regs.Pending.{Holds, Moves, Moves-trans, Moves-refl}
use subleq_emu.Jit.Regs.Taken.{Taken, PendFrom}

-- Steps that take registers.
pub record Goes (s : Processor) (m : Ram) (n : ℕ) (j k : Translator) : Type 0 where
  pub holds : Holds s m k
  pub moves : Moves s n j k
  pub sub : Sub j k
  pub from : PendFrom j k

module _ (s : Processor) (m : Ram) where
  pub Taken-Goes : (n : ℕ) (j k : Translator) (r : ℕ) → Taken s m n j k r → Goes s m n j k
  Taken-Goes n j k r t = record { holds = t.holds; moves = t.moves; sub = t.sub; from = t.from }

  pub Goes-refl : (n : ℕ) (j : Translator) → Holds s m j → Goes s m n j j
  Goes-refl n j h = record {
    holds = h;
    moves = Moves-refl s n j;
    sub = Sub-refl j;
    from = λ e. (e, refl);
  }

  pub Goes-trans :
      (n n' : ℕ) (j k l : Translator) → Goes s m n j k → Goes s m n' k l → Goes s m (n + n') j l
  Goes-trans n n' j k l a b = record {
    holds = b.holds;
    moves = Moves-trans s n n' j k l a.moves b.moves;
    sub = Sub-trans j k l a.sub b.sub;
    from = λ e. let (e', p) = b.from e in let (e'', p') = a.from e' in (e'', p ∙ p');
  }

  -- A register taken after other steps.
  pub Taken-after :
      (n n' : ℕ) (i j k : Translator) (r : ℕ)
      → Goes s m n i j
      → Taken s m n' j k r
      → Taken s m (n + n') i k r
  Taken-after n n' i j k r g t =
      let all = Goes-trans n n' i j k g (Taken-Goes n' j k r t) in
      record {
        alloc = t.alloc;
        loose = elim (Bool-cases (i.regs (reg_index r)).pinned) [
          | inl e ↦ absurd (false≢true (sym t.loose ∙ g.moves.pinned (reg_index r) e))
          | inr e ↦ e
        ];
        pinned = t.pinned;
        clear = t.clear;
        holds = all.holds;
        moves = all.moves;
        sub = all.sub;
        from = all.from;
      }

  -- Steps after a register is taken.
  pub Taken-before :
      (n n' : ℕ) (j k l : Translator) (r : ℕ)
      → Taken s m n j k r
      → Goes s m n' k l
      → Taken s m (n + n') j l r
  Taken-before n n' j k l r t g =
      let all = Goes-trans n n' j k l (Taken-Goes n j k r t) g in
      record {
        alloc = t.alloc;
        loose = t.loose;
        pinned = g.moves.pinned (reg_index r) t.pinned;
        clear = record {
          regs = elim (Bool-cases (l.regs (reg_index r)).used) [
            | inl e ↦
                absurd (false≢true (sym t.clear.regs ∙ (g.sub.regs (reg_index r) t.alloc.0 e).0))
            | inr e ↦ e
          ];
          aliases = λ i lt u.
              let (v, at, reg, n) = g.sub.aliases i lt u in
              λ e. t.clear.aliases i lt v (sym reg ∙ e);
        };
        holds = all.holds;
        moves = all.moves;
        sub = all.sub;
        from = all.from;
      }

  -- A pinned register keeps its value, and a value stays right.
  pub Locked-Goes :
      (n : ℕ) (j k : Translator) (r : ℕ)
      → Goes s m n j k
      → Locked j r
      → Locked k r × ((run k.out s).gpr r ≡ (run j.out s).gpr r)
  Locked-Goes n j k r g ((lt, al), p) =
      (((lt, al), g.moves.pinned (reg_index r) p), rw al at (g.moves.values (reg_index r) lt p))
