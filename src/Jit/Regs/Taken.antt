-- ===== src/Jit/Regs/Taken.antt =====
-- `scratch` while a word may be held back, and what the steps of a translation keep.
use mathlib.Core.Bool.{false≢true}
use subleq_emu.Prelude.{ℕ, ◌<◌, ◌≡◌, refl, sym, ap, subst, ◌∙◌, inl, inr, arith, Bool, true, false}
use subleq_emu.Ram.{Ram}
use subleq_emu.Ram.Words.{IsBytes}
use subleq_emu.Jit.Regs.{
  Translator, Cval, unknown, in_reg, constant, negated, alloc_regs, reg_index, cache_find,
  set_pinned,
}
use subleq_emu.Jit.Regs.Code.{Processor, run}
use subleq_emu.Jit.Regs.Find.{IsAlloc, alloc_regs-IsAlloc}
use subleq_emu.Jit.Regs.Entries.{Sub-trans, Entries, Entries-Sub, Sub, Touched, Touched-Sub}
use subleq_emu.Jit.Regs.Lookup.{known, cache_find-Find, Source}
use subleq_emu.Jit.Regs.Alloc.{forget, release, scratch, flush_pending, choose, is_through}
use subleq_emu.Jit.Regs.Room.{room, room_at, Loose, choose_first}
use subleq_emu.Jit.Regs.Kept.{
  Kept-trans, IsClear, forget-IsClear, forget-Sub, forget_pinned, Touched-Kept,
}
use subleq_emu.Jit.Regs.Take.{pin-Kept, release_idle, set_pinned-Sub}
use subleq_emu.Jit.Regs.Store.{if_rule}
use subleq_emu.Jit.Regs.Pending.{Holds, Moves, Moves-trans, Kept-Moves, need, flush_pending-Flushed}
use subleq_emu.Jit.Regs.Known.{
  HasEntry, HasEntry-known, known-HasEntry, known-cacheable, forget-HasEntry,
}

-- What is held back is as before, or no longer is.
abbrev pub PendFrom : Translator → Translator → Type 0
PendFrom j k = k.pend ≡ true → (j.pend ≡ true) × (k.pend_addr ≡ j.pend_addr)

-- Register `r` is taken, and all holds as before.
pub record Taken (s : Processor) (m : Ram) (n : ℕ) (j k : Translator) (r : ℕ) : Type 0 where
  pub alloc : IsAlloc r
  pub loose : (j.regs (reg_index r)).pinned ≡ false
  pub pinned : (k.regs (reg_index r)).pinned ≡ true
  pub clear : IsClear r k
  pub holds : Holds s m k
  pub moves : Moves s n j k
  pub sub : Sub j k
  pub from : PendFrom j k

pub HasEntry-Touched : (j k : Translator) (a : ℕ) → Touched j k → HasEntry j a → HasEntry k a
HasEntry-Touched j k a t (inl (i, lt, u, e)) = inl (i, lt, rw t.consts u, rw t.consts e)
HasEntry-Touched j k a t (inr (inl (i, lt, u, e))) = inr (inl (i, lt, t.used i ∙ u, t.addr i ∙ e))
HasEntry-Touched j k a t (inr (inr (i, lt, u, e))) =
    inr (inr (i, lt, rw t.aliases u, rw t.aliases e))

module _ (s : Processor) (m : Ram) (j k : Translator) where
  -- Fewer entries, and the same code.
  Holds-Sub :
      k.out ≡ j.out
      → k.pend ≡ j.pend
      → k.pend_addr ≡ j.pend_addr
      → Sub j k
      → (k.pend ≡ true → known k k.pend_addr ≡ true)
      → Holds s m j
      → Holds s m k
  Holds-Sub out pend addr sub still h = record {
    bias = rw out h.bias;
    entries =
        subst (λ g. Entries g m k) (ap (λ o. (run o s).gpr) (sym out))
          (Entries-Sub (run j.out s).gpr m j k sub h.entries);
    addr = rw addr h.addr;
    held = still;
    off = λ e. rw (out, addr) (h.off (sym pend ∙ e));
    same = λ e. rw out (h.same (sym pend ∙ e));
  }

  pub Holds-Touched : Touched j k → Holds s m j → Holds s m k
  Holds-Touched t h =
      Holds-Sub t.out t.pend t.pend_addr (Touched-Sub j k t)
        (λ e.
          let was = h.held (sym t.pend ∙ e) in
          rw t.pend_addr (
            HasEntry-known k j.pend_addr (known-cacheable j j.pend_addr was)
              (HasEntry-Touched j k j.pend_addr t (known-HasEntry j j.pend_addr was))))
        h

module _ (s : Processor) (m : Ram) (j : Translator) where
  HasEntry-set_pinned : (i : ℕ) (b : Bool) (a : ℕ) → HasEntry j a → HasEntry (set_pinned j i b) a
  HasEntry-set_pinned i b a (inl e) = inl e
  HasEntry-set_pinned i b a (inr (inl (q, lt, u, e))) =
      inr (inl (q, lt, ground arith, ground arith))
  HasEntry-set_pinned i b a (inr (inr e)) = inr (inr e)

  pub Holds-set_pinned : (i : ℕ) (b : Bool) → Holds s m j → Holds s m (set_pinned j i b)
  Holds-set_pinned i b h =
      Holds-Sub s m j (set_pinned j i b) refl refl refl (set_pinned-Sub j i b)
        (λ e.
          HasEntry-known (set_pinned j i b) j.pend_addr (known-cacheable j j.pend_addr (h.held e))
            (HasEntry-set_pinned i b j.pend_addr (known-HasEntry j j.pend_addr (h.held e))))
        h

  -- A register forgotten that the word held back does not stand in.
  Holds-forget :
      (r : ℕ)
      → (j.pend ≡ true → HasEntry (forget j r) j.pend_addr)
      → Holds s m j
      → Holds s m (forget j r)
  unfolding forget
  Holds-forget r still h =
      Holds-Sub s m j (forget j r) refl refl refl (forget-Sub j r)
        (λ e.
          HasEntry-known (forget j r) j.pend_addr (known-cacheable j j.pend_addr (h.held e))
            (still e))
        h

Source-Touched : (j k : Translator) (a : ℕ) (v : Cval) → Touched j k → Source j a v → Source k a v
Source-Touched j k a unknown t e = tt
Source-Touched j k a (in_reg r) t (inl (i, (lt, u, at, is_r))) =
    inl (i, (lt, t.used i ∙ u, t.addr i ∙ at, is_r))
Source-Touched j k a (in_reg r) t (inr (i, e)) = inr (i, rw t.aliases e)
Source-Touched j k a (constant c) t (i, e) = (i, rw t.consts e)
Source-Touched j k a (negated r) t (i, e) = (i, rw t.aliases e)

module _ (s : Processor) (m : Ram) (j : Translator) (b : ℕ) (ok : Loose j b) where
  forget-Taken :
      (n : ℕ) (q : Translator)
      → Holds s m q
      → Moves s n j q
      → Sub j q
      → (q.regs b).pinned ≡ true
      → PendFrom j q
      → (q.pend ≡ true → HasEntry (forget q (alloc_regs b)) q.pend_addr)
      → Taken s m n j (forget q (alloc_regs b)) (alloc_regs b)
  unfolding forget
  forget-Taken n q h moves sub pinned from still =
      let e = alloc_regs-IsAlloc b ok.0 in
      let r = alloc_regs b in
      let same = forget_pinned q r in
      record {
        alloc = (rw e ok.0, rw e refl);
        loose = rw e ok.1;
        pinned = same (reg_index r) ∙ rw e pinned;
        clear = forget-IsClear q r;
        holds = Holds-forget s m q r still h;
        moves = record {
          room = omega (arith, moves.room, room_at (forget q r) (λ i. (q.regs i).pinned) same);
          use_movbe = moves.use_movbe;
          flags_live = moves.flags_live;
          pinned = λ i p. same i ∙ moves.pinned i p;
          values = moves.values;
        };
        sub = Sub-trans j q (forget q r) sub (forget-Sub q r);
        from = from;
      }

  release-Taken :
      IsBytes m
      → need j.pend < room j
      → Holds s m j
      → Taken s m 1 j (release flush_pending (set_pinned j b true) (alloc_regs b)) (alloc_regs b)
  unfolding release
  release-Taken bytes free h =
      let p = set_pinned j b true in
      let r = alloc_regs b in
      let first = pin-Kept s j b in
      let hp = Holds-set_pinned s m j b true h in
      let found = cache_find-Find p p.pend_addr in
      let l = (cache_find p p.pend_addr).0 in
      let v = (cache_find p p.pend_addr).1 in
      let t = Touched-Kept s p l found.touched in
      let hl = Holds-Touched s m p l found.touched hp in
      let pinned : (l.regs b).pinned ≡ true = t.pinned b (ground arith) in
      let sub = Sub-trans j p l first.sub t.sub in
      let moves = Kept-Moves s 1 (λ n. n) j l (Kept-trans s 1 0 (λ n. n) (λ n. n) j p l first t) in
      if_rule (λ k. Taken s m 1 j k r) j.pend _ _
        (λ on.
          if_rule (λ k. Taken s m 1 j (forget k r) r) (is_through v r) _ _
            (λ through.
              let flushed =
                flush_pending-Flushed s m l bytes (omega (arith, moves.room, ap need t.pend)) hl in
              forget-Taken 1 (flush_pending l) flushed.holds
                (Moves-trans s 1 0 j l (flush_pending l) moves flushed.moves)
                (Sub-trans j l (flush_pending l) sub flushed.sub) (flushed.moves.pinned b pinned)
                (λ e. absurd (false≢true (sym flushed.pend ∙ e)))
                (λ e. absurd (false≢true (sym flushed.pend ∙ e))))
            (λ other.
              forget-Taken 1 l hl moves sub pinned (λ e. (on, t.pend_addr))
                (λ e. rw t.pend_addr (
                  forget-HasEntry l p.pend_addr r v
                    (rw (alloc_regs-IsAlloc b ok.0) ok.0, ap alloc_regs (alloc_regs-IsAlloc b ok.0))
                    (found.is_found ∙ hp.held on) other
                    (Source-Touched p l p.pend_addr v found.touched found.source)))))
        (λ off.
          forget-Taken 1 p hp (Kept-Moves s 1 (λ n. n) j p first) first.sub (ground arith)
            (λ e. (e, refl)) (λ e. absurd (false≢true (sym off ∙ e))))

module _ (s : Processor) (m : Ram) (j : Translator) where
  -- `scratch` where the cache is right about a memory of bytes and some register is not pinned, or
  -- where it holds one word of the memory back and five are not: the register it gives was not
  -- pinned and is now, no entry in use is for it, and once the code emitted has run the cache is
  -- right about the same memory, with no entry that it did not have; no other register is pinned
  -- but at most four if the word held back no longer is, and the registers that were pinned are
  -- pinned and have their values.
  pub scratch-Taken :
      IsBytes m
      → need j.pend < room j
      → Holds s m j
      → Taken s m 1 j (scratch flush_pending j).0 (scratch flush_pending j).1
  unfolding scratch
  scratch-Taken bytes free h =
      release-Taken s m j (choose 11 j 0 11) (choose_first j (omega (arith, free))) bytes free h

  -- With nothing held back.
  pub scratch-Taken_idle :
      0 < room j
      → j.pend ≡ false
      → Holds s m j
      → Taken s m 1 j (scratch flush_pending j).0 (scratch flush_pending j).1
  unfolding scratch
  scratch-Taken_idle free off h =
      let b = choose 11 j 0 11 in
      let p = set_pinned j b true in
      subst (λ k. Taken s m 1 j k (alloc_regs b))
        (sym (release_idle flush_pending p (alloc_regs b) off))
        (forget-Taken s m j b (choose_first j free) 1 p (Holds-set_pinned s m j b true h)
          (Kept-Moves s 1 (λ n. n) j p (pin-Kept s j b)) (set_pinned-Sub j b true) (ground arith)
          (λ e. (e, refl)) (λ e. absurd (false≢true (sym off ∙ e))))
