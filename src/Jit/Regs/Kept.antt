-- ===== src/Jit/Regs/Kept.antt =====
-- What taking registers keeps: the register cache stays right, and the registers pinned before keep
-- their values.
use mathlib.Core.Bool.{false≢true}
use subleq_emu.Prelude.{
  ℕ, ◌+◌, ◌≤◌, ◌<◌, ◌≡◌, ◌≢◌, refl, sym, ap, ◌∙◌, inl, inr, arith, true, false, ◌&&◌, Bool-cases,
  ◌==◌,
}
use subleq_emu.Ram.{Ram}
use subleq_emu.Jit.Regs.{Translator, alloc_regs, reg_index, set_pinned}
use subleq_emu.Jit.Regs.Code.{Processor, run, set}
use subleq_emu.Jit.Regs.Find.{IsAlloc, alloc_regs-IsAlloc}
use subleq_emu.Jit.Regs.Entries.{
  Entries, Sub, Sub-refl, Sub-trans, Entries-Sub, Touched, Touched-Sub,
}
use subleq_emu.Jit.Regs.Alloc.{forget}
use subleq_emu.Jit.Regs.Room.{room, with_one, spare-with_one, room_at, Loose}

-- From `j` to `k` at most `n` registers are pinned, no register that `j` has pinned is written, and
-- memory becomes `w` of what it was.
pub record Kept (s : Processor) (n : ℕ) (w : Ram → Ram) (j k : Translator) : Type 0 where
  pub use_movbe : k.use_movbe ≡ j.use_movbe
  pub pend : k.pend ≡ j.pend
  pub pend_addr : k.pend_addr ≡ j.pend_addr
  pub flags_live : k.flags_live ≡ j.flags_live
  pub sub : Sub j k
  pub pinned : (i : ℕ) → (j.regs i).pinned ≡ true → (k.regs i).pinned ≡ true
  pub room : room j ≤ room k + n
  pub held :
      (i : ℕ)
      → i < 11
      → (j.regs i).pinned ≡ true
      → (run k.out s).gpr (alloc_regs i) ≡ (run j.out s).gpr (alloc_regs i)
  pub bias : (run k.out s).gpr 15 ≡ (run j.out s).gpr 15
  pub entries : (m : Ram) → Entries (run j.out s).gpr m j → Entries (run k.out s).gpr m k
  pub ram : (run k.out s).ram ≡ w (run j.out s).ram

-- No entry in use is for register `r`.
pub record IsClear (r : ℕ) (k : Translator) : Type 0 where
  pub regs : (k.regs (reg_index r)).used ≡ false
  pub aliases : (i : ℕ) → i < 16 → (k.aliases i).used ≡ true → (k.aliases i).reg ≢ r

-- `k` has taken register `r`.
pub record Took (s : Processor) (n : ℕ) (w : Ram → Ram) (j k : Translator) (r : ℕ) : Type 0 where
  pub alloc : IsAlloc r
  pub loose : (j.regs (reg_index r)).pinned ≡ false
  pub pinned : (k.regs (reg_index r)).pinned ≡ true
  pub clear : IsClear r k
  pub kept : Kept s n w j k

-- The two states differ in register `r` at most.
abbrev pub OnlyWrites : ℕ → Processor → Processor → Type 0
OnlyWrites r a b = (b.ram ≡ a.ram) × ((q : ℕ) → q ≢ r → b.gpr q ≡ a.gpr q)

pub set-OnlyWrites : (a : Processor) (r v : ℕ) → OnlyWrites r a (set a r v)
set-OnlyWrites a r v = (refl, λ q ne. ground arith)

pub set-OnlyWrites_twice : (a : Processor) (r v x : ℕ) → OnlyWrites r a (set (set a r v) r x)
set-OnlyWrites_twice a r v x = (refl, λ q ne. ground arith)

pub set_at : (a : Processor) (r v : ℕ) → (set a r v).gpr r ≡ v
set_at a r v = ground arith

module _ (s : Processor) where
  pub Kept-trans :
      (n n' : ℕ) (w w' : Ram → Ram) (j k l : Translator)
      → Kept s n w j k
      → Kept s n' w' k l
      → Kept s (n + n') (λ m. w' (w m)) j l
  Kept-trans n n' w w' j k l a b = record {
    use_movbe = b.use_movbe ∙ a.use_movbe;
    pend = b.pend ∙ a.pend;
    pend_addr = b.pend_addr ∙ a.pend_addr;
    flags_live = b.flags_live ∙ a.flags_live;
    sub = Sub-trans j k l a.sub b.sub;
    pinned = λ i p. b.pinned i (a.pinned i p);
    room = omega (arith, a.room, b.room);
    held = λ i lt p. b.held i lt (a.pinned i p) ∙ a.held i lt p;
    bias = b.bias ∙ a.bias;
    entries = λ m h. b.entries m (a.entries m h);
    ram = b.ram ∙ ap w' a.ram;
  }

  pub Kept-refl : (n : ℕ) (j : Translator) → Kept s n (λ m. m) j j
  Kept-refl n j = record {
    use_movbe = refl;
    pend = refl;
    pend_addr = refl;
    flags_live = refl;
    sub = Sub-refl j;
    pinned = λ i p. p;
    room = omega arith;
    held = λ i lt p. refl;
    bias = refl;
    entries = λ m h. h;
    ram = refl;
  }

  pub Touched-Kept : (j k : Translator) → Touched j k → Kept s 0 (λ m. m) j k
  Touched-Kept j k t =
      let same : (run k.out s) ≡ (run j.out s) = ap (λ o. run o s) t.out in
      record {
        use_movbe = t.use_movbe;
        pend = t.pend;
        pend_addr = t.pend_addr;
        flags_live = t.flags_live;
        sub = Touched-Sub j k t;
        pinned = λ i p. t.pinned i ∙ p;
        room = omega (arith, room_at k (λ i. (j.regs i).pinned) t.pinned);
        held = λ i lt p. ap (λ (x : Processor). x.gpr (alloc_regs i)) same;
        bias = ap (λ (x : Processor). x.gpr 15) same;
        entries = λ m h. rw same (Entries-Sub (run j.out s).gpr m j k (Touched-Sub j k t) h);
        ram = ap (λ (x : Processor). x.ram) same;
      }

alloc_regs-apart : (i k : ℕ) → i < 11 → k < 11 → alloc_regs i ≡ alloc_regs k → i ≡ k
alloc_regs-apart i k lt lt' e =
    sym (alloc_regs-IsAlloc i lt) ∙ ap reg_index e ∙ alloc_regs-IsAlloc k lt'

pub alloc_regs_bias : (i : ℕ) → i < 11 → alloc_regs i ≢ 15
unfolding alloc_regs
alloc_regs_bias i lt = ground arith

-- A pinned register is not one that is free to take, and neither is r15.
pub alloc_regs-other :
    (j : Translator) (r i : ℕ)
    → (j.regs (reg_index r)).pinned ≡ false
    → i < 11
    → (j.regs i).pinned ≡ true
    → alloc_regs i ≢ r
alloc_regs-other j r i loose lt p e =
    false≢true
      (sym loose ∙ ap (λ q. (j.regs q).pinned) (ap reg_index (sym e) ∙ alloc_regs-IsAlloc i lt) ∙ p)

pub IsAlloc_bias : (r : ℕ) → IsAlloc r → ◌≢◌ {A = ℕ} 15 r
IsAlloc_bias r (lt, al) e = alloc_regs_bias (reg_index r) lt (al ∙ sym e)

pub Entries-OnlyWrites :
    (m : Ram) (k : Translator) (r : ℕ) (a b : Processor)
    → IsClear r k
    → OnlyWrites r a b
    → Entries a.gpr m k
    → Entries b.gpr m k
Entries-OnlyWrites m k r a b c (ram, off) h = record {
  regs = λ i lt u.
      let (ok, w) = h.regs i lt u in
      (
        ok,
        w
            ∙ sym (
                off (alloc_regs i) (λ e. false≢true (
                  sym c.regs
                  ∙ ap (λ t. (k.regs t).used) (ap reg_index (sym e) ∙ alloc_regs-IsAlloc i lt)
                  ∙ u))),
      );
  consts = h.consts;
  aliases = λ i lt u.
      let (al, small, w) = h.aliases i lt u in
      let same = off (k.aliases i).reg (c.aliases i lt u) in (al, rw same small, rw same w);
}

module _ (j : Translator) (r : ℕ) where
  pub forget-Sub : Sub j (forget j r)
  unfolding forget
  forget-Sub = record {
    regs = λ i lt u. elim (Bool-cases (reg_index r == i)) [
      | inl e ↦ absurd (false≢true (rw e at u))
      | inr e ↦ (rw e at u, rw e refl)
    ];
    consts = λ i lt u. (u, refl, refl);
    aliases = λ i lt u. elim (Bool-cases ((j.aliases i).used && (j.aliases i).reg == r)) [
      | inl e ↦ absurd (false≢true (rw e at u))
      | inr e ↦ (rw e at u, rw e refl, rw e refl, rw e refl)
    ];
  }

  pub forget-IsClear : IsClear r (forget j r)
  unfolding forget
  forget-IsClear = record { regs = ground arith; aliases = λ i lt u. ground arith }

  pub forget_pinned : (i : ℕ) → ((forget j r).regs i).pinned ≡ (j.regs i).pinned
  unfolding forget
  forget_pinned i = ground arith

module _ (s : Processor) (j : Translator) where
  -- Register `b` of the cache taken, when nothing is held back.
  pub forget-Took :
      (b : ℕ)
      → Loose j b
      → Took s 1 (λ m. m) j (forget (set_pinned j b true) (alloc_regs b)) (alloc_regs b)
  unfolding forget
  forget-Took b (lt, loose) =
      let e = alloc_regs-IsAlloc b lt in
      let p = set_pinned j b true in
      let k = forget p (alloc_regs b) in
      let pinned : (i : ℕ) → (k.regs i).pinned ≡ with_one (λ i. (j.regs i).pinned) b i =
        λ i. forget_pinned p (alloc_regs b) i ∙ ground arith in
      let drop : Sub j k =
        Sub-trans j p k
          (record {
            regs = λ i lt u. ground arith;
            consts = λ i lt u. (u, refl, refl);
            aliases = λ i lt u. (u, refl, refl, refl);
          })
          (forget-Sub p (alloc_regs b)) in
      record {
        alloc = (rw e lt, rw e refl);
        loose = rw e loose;
        pinned = pinned (reg_index (alloc_regs b)) ∙ rw e (ground arith);
        clear = forget-IsClear p (alloc_regs b);
        kept = record {
          use_movbe = refl;
          pend = refl;
          pend_addr = refl;
          flags_live = refl;
          sub = drop;
          pinned = λ i q. pinned i ∙ rw q (ground arith);
          room = omega (
            arith,
            room_at k (with_one (λ i. (j.regs i).pinned) b) pinned,
            spare-with_one 11 (λ i. (j.regs i).pinned) b 0,
          );
          held = λ i lt p. refl;
          bias = refl;
          entries = λ m h. Entries-Sub (run j.out s).gpr m j k drop h;
          ram = refl;
        };
      }
