-- ===== src/Jit/Regs/Pending.antt =====
-- The word held back, and memory as the translated program sees it.
use mathlib.Core.Bool.{false≢true, Bool, true, false}
use subleq_emu.Prelude.{
  ℕ, ◌+◌, ◌-◌, ◌≤◌, ◌<◌, ◌≡◌, refl, sym, ap, subst, ◌∙◌, inl, inr, arith, true, false, ◌&&◌,
  Bool-cases, leb, ltb, two64,
}
use subleq_emu.Ram.{Ram, readram, writeram}
use subleq_emu.Ram.Words.{IsBytes, writeram-readram}
use subleq_emu.Jit.Regs.{
  is_known, Translator, Cval, unknown, in_reg, constant, negated, alloc_regs, cache_find,
}
use subleq_emu.Jit.Regs.Code.{Processor, run}
use subleq_emu.Jit.Regs.Entries.{Sub, Sub-refl, Entries, Means}
use subleq_emu.Jit.Regs.Lookup.{cache_find-Find, Source-Means, known}
use subleq_emu.Jit.Regs.Change.{AgreeOff}
use subleq_emu.Jit.Regs.Alloc.{store_value, store_held, flush_pending, bias, idle, store_const}
use subleq_emu.Jit.Regs.Room.{room}
use subleq_emu.Jit.Regs.Kept.{Kept, Kept-refl, Kept-trans, Touched-Kept}
use subleq_emu.Jit.Regs.Store.{store_const-Kept, if_rule}
use subleq_emu.Jit.Regs.Flush.{held_in-Kept, held_negated-Kept}

-- What holds between the instructions of a block: after the code emitted so far, started in `s`, the
-- cache is right about memory `m`, and memory is `m` but for the word held back, which the cache has.
pub record Holds (s : Processor) (m : Ram) (j : Translator) : Type 0 where
  pub bias : (run j.out s).gpr 15 ≡ bias
  pub entries : Entries (run j.out s).gpr m j
  pub addr : j.pend_addr < two64
  pub held : j.pend ≡ true → known j j.pend_addr ≡ true
  pub off : j.pend ≡ true → AgreeOff j.pend_addr m (run j.out s).ram
  pub same : j.pend ≡ false → (q : ℕ) → (run j.out s).ram q ≡ m q

-- The registers that storing the word held back may pin.
pub need : Bool → ℕ
need true = 4
need false = 0

pub need_on : (b : Bool) → b ≡ true → need b ≡ 4
unfolding need
need_on b e = rw e refl

pub need_off : (b : Bool) → b ≡ false → need b ≡ 0
unfolding need
need_off b e = rw e refl

-- At most `n` registers are pinned, and four more if the word held back has been stored; those
-- that were pinned before keep their values.
pub record Moves (s : Processor) (n : ℕ) (j k : Translator) : Type 0 where
  pub room : room j + need k.pend ≤ room k + n + need j.pend
  pub use_movbe : k.use_movbe ≡ j.use_movbe
  pub flags_live : k.flags_live ≡ j.flags_live
  pub pinned : (i : ℕ) → (j.regs i).pinned ≡ true → (k.regs i).pinned ≡ true
  pub values :
      (i : ℕ)
      → i < 11
      → (j.regs i).pinned ≡ true
      → (run k.out s).gpr (alloc_regs i) ≡ (run j.out s).gpr (alloc_regs i)

pub Moves-trans :
    (s : Processor) (n n' : ℕ) (j k l : Translator)
    → Moves s n j k
    → Moves s n' k l
    → Moves s (n + n') j l
Moves-trans s n n' j k l a b = record {
  room = omega (arith, a.room, b.room);
  use_movbe = b.use_movbe ∙ a.use_movbe;
  flags_live = b.flags_live ∙ a.flags_live;
  pinned = λ i p. b.pinned i (a.pinned i p);
  values = λ i lt p. b.values i lt (a.pinned i p) ∙ a.values i lt p;
}

pub Moves-refl : (s : Processor) (n : ℕ) (j : Translator) → Moves s n j j
Moves-refl s n j = record {
  room = omega arith;
  use_movbe = refl;
  flags_live = refl;
  pinned = λ i p. p;
  values = λ i lt p. refl;
}

pub Kept-Moves :
    (s : Processor) (n : ℕ) (w : Ram → Ram) (j k : Translator) → Kept s n w j k → Moves s n j k
Kept-Moves s n w j k h = record {
  room = omega (arith, h.room, ap need h.pend);
  use_movbe = h.use_movbe;
  flags_live = h.flags_live;
  pinned = h.pinned;
  values = h.held;
}

pub record Flushed (s : Processor) (m : Ram) (j k : Translator) : Type 0 where
  pub pend : k.pend ≡ false
  pub holds : Holds s m k
  pub moves : Moves s 0 j k
  pub sub : Sub j k

store_value-Kept :
    (s : Processor) (j : Translator) (v : Cval) (w : ℕ)
    → j.pend ≡ false
    → (run j.out s).gpr 15 ≡ bias
    → j.pend_addr < two64
    → 3 < room j
    → is_known v ≡ true
    → Means (run j.out s).gpr v w
    → Kept s 4 (λ m. writeram m j.pend_addr w) j (store_value j v)
unfolding store_value
store_value-Kept s j unknown w p high fits free known mean = absurd (false≢true known)
store_value-Kept s j (in_reg r) w p high fits free known (al, e) =
    subst (λ x. Kept s 4 (λ m. writeram m j.pend_addr x) j (store_held j (in_reg r))) (sym e)
      (held_in-Kept s j p high fits free r al)
store_value-Kept s j (constant c) w p high fits free known e =
    subst
      (λ x. Kept s 4 (λ m. writeram m j.pend_addr x) j (store_const idle j c false j.pend_addr 0))
      (sym e)
      (Kept-trans s 2 2 (λ m. m) (λ m. writeram m j.pend_addr c) j j _ (Kept-refl s 2 j)
        (store_const-Kept s j p high j.pend_addr fits c (omega arith)))
store_value-Kept s j (negated r) w p high fits free known (al, small, e) =
    subst (λ x. Kept s 4 (λ m. writeram m j.pend_addr x) j (store_held j (negated r))) (sym e)
      (held_negated-Kept s j p high fits free r al small)

module _ (s : Processor) (m : Ram) (j : Translator) where
  -- With the word at `a` stored, memory is `m`.
  pub patched :
      (n : Ram) (a : ℕ) → IsBytes m → AgreeOff a m n → (q : ℕ) → writeram n a (readram m a) q ≡ m q
  patched n a bytes off q =
      writeram-readram n m a a q bytes
      ∙ if_rule (λ x. x ≡ m q) (leb a q && ltb q (a + 8)) (m (a + (q - a))) (n q)
          (λ e. ap m (ground arith))
          (λ e. off q (elim (Bool-cases (leb a q)) [
            | inl le ↦ inr (ground arith)
            | inr gt ↦ inl (ground arith)
          ]))

  without : Entries (run j.out s).gpr m j → Entries (run j.out s).gpr m (record j { pend = false })
  without e = record { regs = e.regs; consts = e.consts; aliases = e.aliases }

  Flushed-store :
      (k : Translator)
      → IsBytes m
      → Holds s m j
      → j.pend ≡ true
      → Kept s 4 (λ n. writeram n j.pend_addr (readram m j.pend_addr)) (record j { pend = false }) k
      → Flushed s m j k
  Flushed-store k bytes h on kept = record {
    pend = kept.pend;
    holds = record {
      bias = kept.bias ∙ h.bias;
      entries = kept.entries m (without h.entries);
      addr = rw kept.pend_addr h.addr;
      held = λ e. absurd (false≢true (sym kept.pend ∙ e));
      off = λ e. absurd (false≢true (sym kept.pend ∙ e));
      same =
          λ e q. ap (λ f. f q) kept.ram ∙ patched (run j.out s).ram j.pend_addr bytes (h.off on) q;
    };
    sub = record { regs = kept.sub.regs; consts = kept.sub.consts; aliases = kept.sub.aliases };
    moves = record {
      room = omega (arith, kept.room, need_off k.pend kept.pend, need_on j.pend on);
      use_movbe = kept.use_movbe;
      flags_live = kept.flags_live;
      pinned = kept.pinned;
      values = kept.held;
    };
  }

  -- `flush_pending` where the cache is right about a memory of bytes, of which it may hold one word
  -- back, with at least four registers not pinned then: once the code emitted has run, nothing is
  -- held back, memory is that memory, the cache is right, with no entry that it did not have, no more
  -- than those four registers are pinned, and the registers that were pinned are pinned and have
  -- their values.
  pub flush_pending-Flushed :
      IsBytes m → need j.pend ≤ room j → Holds s m j → Flushed s m j (flush_pending j)
  unfolding flush_pending
  flush_pending-Flushed bytes free h =
      let j1 = record j { pend = false } in
      let found = cache_find-Find j1 j.pend_addr in
      let k = (cache_find j1 j.pend_addr).0 in
      let v = (cache_find j1 j.pend_addr).1 in
      let w = readram m j.pend_addr in
      let first = Touched-Kept s j1 k found.touched in
      if_rule (Flushed s m j) j.pend (store_value k v) j
        (λ on. Flushed-store (store_value k v) bytes h on (
          Kept-trans s 0 4 (λ n. n) (λ n. writeram n j.pend_addr w) j1 k _ first
            (subst (λ a. Kept s 4 (λ n. writeram n a w) k (store_value k v)) first.pend_addr
              (store_value-Kept s k v w first.pend (first.bias ∙ h.bias) (rw first.pend_addr h.addr)
                (omega (arith, first.room, need_on j.pend on, free)) (found.is_found ∙ h.held on)
                (rw found.touched.out (
                  Source-Means (run j.out s).gpr m j1 j.pend_addr v (without h.entries)
                    found.source))))))
        (λ off. record { pend = off; holds = h; moves = Moves-refl s 0 j; sub = Sub-refl j })
