-- ===== src/Jit/Regs/Join.antt =====
-- `or_val`, and the end of `get_static` for a word that lies in two.
use mathlib.Core.Bool.{false≢true}
use subleq_emu.Prelude.{
  ℕ, ◌+◌, ◌<◌, ◌≡◌, ◌≢◌, refl, sym, ap, ap₂, subst, ◌∙◌, arith, true, false, ◌∷◌, ◌==◌, ==_iff,
  ne→==, ltb, bit_or,
}
use subleq_emu.Prelude.Bits.{bit_or-zero}
use subleq_emu.Ram.{Ram}
use subleq_emu.Ram.Words.{IsBytes}
use subleq_emu.Jit.Emit.Call
use subleq_emu.Jit.Regs.{
  Translator, in_reg, constant, emit, alloc_regs, reg_index, unpin, nregs, set_pinned,
}
use subleq_emu.Jit.Regs.Code.{call, Processor, run, step, step_call}
use subleq_emu.Jit.Regs.Find.{IsAlloc}
use subleq_emu.Jit.Regs.Entries.{Sub-trans}
use subleq_emu.Jit.Regs.Alloc.{scratch, flush_pending, to_reg}
use subleq_emu.Jit.Regs.Values.{or_val}
use subleq_emu.Jit.Regs.Room.{room, spare_le}
use subleq_emu.Jit.Regs.Kept.{set-OnlyWrites, set_at}
use subleq_emu.Jit.Regs.Take.{set_pinned-Sub}
use subleq_emu.Jit.Regs.Store.{if_rule}
use subleq_emu.Jit.Regs.Pending.{need}
use subleq_emu.Jit.Regs.Taken.{Taken, scratch-Taken, Holds-set_pinned}
use subleq_emu.Jit.Regs.Load.{Taken-write}
use subleq_emu.Jit.Regs.Goes.{Goes-refl, Taken-Goes, Taken-after, Taken-before, Locked-Goes}

unpin_alloc : (k : Translator) (r : ℕ) → IsAlloc r → unpin k r ≡ set_pinned k (reg_index r) false
unfolding unpin
unpin_alloc k r al = let e : ltb (reg_index r) nregs ≡ true = ground (arith, al.0) in rw e refl

module _ (s : Processor) (m : Ram) (n : ℕ) (j k : Translator) (r : ℕ) (t : Taken s m n j k r) where
  -- Another register let go that was taken since.
  unpin-Taken :
      (q : ℕ)
      → IsAlloc q
      → q ≢ r
      → (j.regs (reg_index q)).pinned ≡ false
      → Taken s m n j (unpin k q) r
  unpin-Taken q al ne loose =
      let i = reg_index q in
      let p = set_pinned k i false in
      let apart : (i == reg_index r) ≡ false =
        ne→== i (reg_index r) (λ e. ne (sym al.1 ∙ ap alloc_regs e ∙ t.alloc.1)) in
      subst (λ x. Taken s m n j x r) (sym (unpin_alloc k q al))
        (record {
          alloc = t.alloc;
          loose = t.loose;
          pinned = rw apart t.pinned;
          clear = record { regs = rw apart t.clear.regs; aliases = t.clear.aliases };
          holds = Holds-set_pinned s m k i false t.holds;
          moves = record {
            room = omega (
              arith,
              t.moves.room,
              spare_le 11 (λ x. (k.regs x).pinned) (λ x. (p.regs x).pinned) 0 (λ x u. ground arith),
            );
            use_movbe = t.moves.use_movbe;
            flags_live = t.moves.flags_live;
            pinned = λ x u.
                let off : (i == x) ≡ false =
                  ne→== i x (λ e. false≢true (sym loose ∙ ap (λ y. (j.regs y).pinned) e ∙ u)) in
                rw off (t.moves.pinned x u);
            values = t.moves.values;
          };
          sub = Sub-trans j k p t.sub (set_pinned-Sub k i false);
          from = t.from;
        })

  pub or_in-Taken :
      (q x y : ℕ)
      → (run k.out s).gpr r ≡ x
      → (run k.out s).gpr q ≡ y
      → Taken s m n j (or_val flush_pending k r (in_reg q)) r
        × ((run (or_val flush_pending k r (in_reg q)).out s).gpr r ≡ bit_or x y)
  unfolding or_val to_reg run step step_call
  or_in-Taken q x y e f =
      let a = run k.out s in
      let v = bit_or (a.gpr r) (a.gpr q) in
      (
        Taken-write s m n j k r t (call (Call.or_rr r q) ∷ k.out) (set-OnlyWrites a r v),
        set_at a r v ∙ ap₂ bit_or e f,
      )

-- The register has `x | c` after `or_val` of a constant.
pub or_constant-Taken :
    (s : Processor) (m : Ram) (n : ℕ) (j k : Translator) (r c x : ℕ)
    → IsBytes m
    → Taken s m n j k r
    → need k.pend < room k
    → (run k.out s).gpr r ≡ x
    → Taken s m (n + 1) j (or_val flush_pending k r (constant c)) r
      × ((run (or_val flush_pending k r (constant c)).out s).gpr r ≡ bit_or x c)
unfolding or_val to_reg run step step_call
or_constant-Taken s m n j k r c x bytes t free e =
    let k1 = (scratch flush_pending k).0 in
    let q = (scratch flush_pending k).1 in
    let u = scratch-Taken s m k bytes free t.holds in
    let a = run k1.out s in
    let k2 = emit k1 (call (Call.mov_imm q c)) in
    let u2 = Taken-write s m 1 k k1 q u k2.out (set-OnlyWrites a q c) in
    let g = Taken-Goes s m 1 k k2 q u2 in
    let t2 = Taken-before s m n 1 j k k2 r t g in
    let b = run k2.out s in
    let v = bit_or (b.gpr r) (b.gpr q) in
    let done = emit k2 (call (Call.or_rr r q)) in
    let t3 = Taken-write s m (n + 1) j k2 r t2 done.out (set-OnlyWrites b r v) in
    let ne : q ≢ r =
      λ same. false≢true (sym u.loose ∙ ap (λ y. (k.regs (reg_index y)).pinned) same ∙ t.pinned) in
    let loose = (Taken-after s m n 1 j k k2 q (Taken-Goes s m n j k r t) u2).loose in
    let value =
      set_at b r v
      ∙ ap₂ bit_or ((Locked-Goes s m 1 k k2 r g (t.alloc, t.pinned)).1 ∙ e) (set_at a q c) in
    if_rule (λ l. Taken s m (n + 1) j l r × ((run l.out s).gpr r ≡ bit_or x c)) (c == 0) k
      (unpin done q)
      (λ zero_c. (
        Taken-before s m n 1 j k k r t (Goes-refl s m 1 k t.holds),
        e ∙ sym (bit_or-zero x) ∙ ap (bit_or x) (sym ((==_iff c 0).0 zero_c)),
      ))
      (λ other. (
        unpin-Taken s m (n + 1) j done r t3 q u.alloc ne loose,
        subst (λ (l : Translator). (run l.out s).gpr r ≡ bit_or x c)
            (sym (unpin_alloc done q u.alloc)) value,
      ))
