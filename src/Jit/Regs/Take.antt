-- ===== src/Jit/Regs/Take.antt =====
-- Taking a register and writing to it, pinning, and storing.
use subleq_emu.Prelude.{
  ℕ, ◌<◌, ◌≡◌, refl, sym, ap, subst, ◌∙◌, inl, inr, arith, Bool, true, false, List, ◌∷◌, Bool-cases,
  ◌==◌, ==_iff, if◌then◌else◌,
}
use subleq_emu.Ram.{Ram}
use subleq_emu.Jit.Regs.{Translator, emit, alloc_regs, set_pinned}
use subleq_emu.Jit.Regs.Code.{Op, Processor, run, step}
use subleq_emu.Jit.Regs.Entries.{Sub, Sub-trans, Entries-Sub}
use subleq_emu.Jit.Regs.Alloc.{Flush, forget, scratch, release, idle, choose}
use subleq_emu.Jit.Regs.Room.{room, with_one, spare-with_one, spare_le, room_at, choose_first}
use subleq_emu.Jit.Regs.Kept.{
  Kept, Took, OnlyWrites, Entries-OnlyWrites, alloc_regs-other, IsAlloc_bias, forget-Took,
}

pub out-Sub : (k : Translator) (ops : List Op) → Sub k (record k { out = ops })
out-Sub k ops = record {
  regs = λ i lt u. (u, refl);
  consts = λ i lt u. (u, refl, refl);
  aliases = λ i lt u. (u, refl, refl, refl);
}

pub set_pinned-Sub : (k : Translator) (i : ℕ) (b : Bool) → Sub k (set_pinned k i b)
set_pinned-Sub k i b = record {
  regs = λ q lt u. ground arith;
  consts = λ q lt u. (u, refl, refl);
  aliases = λ q lt u. (u, refl, refl, refl);
}

module _ (s : Processor) (n : ℕ) (w : Ram → Ram) (j k : Translator) where
  -- The register taken is written to.
  pub Took-write :
      (r : ℕ) (ops : List Op)
      → Took s n w j k r
      → OnlyWrites r (run k.out s) (run ops s)
      → Took s n w j (record k { out = ops }) r
  Took-write r ops t (ram, off) = record {
    alloc = t.alloc;
    loose = t.loose;
    pinned = t.pinned;
    clear = record { regs = t.clear.regs; aliases = t.clear.aliases };
    kept = record {
      use_movbe = t.kept.use_movbe;
      pend = t.kept.pend;
      pend_addr = t.kept.pend_addr;
      flags_live = t.kept.flags_live;
      sub = Sub-trans j k _ t.kept.sub (out-Sub k ops);
      pinned = t.kept.pinned;
      room = t.kept.room;
      held =
          λ i lt p. off (alloc_regs i) (alloc_regs-other j r i t.loose lt p) ∙ t.kept.held i lt p;
      bias = off 15 (IsAlloc_bias r t.alloc) ∙ t.kept.bias;
      entries = λ m h.
          Entries-OnlyWrites m (record k { out = ops }) r (run k.out s) (run ops s)
            (record { regs = t.clear.regs; aliases = t.clear.aliases }) (ram, off)
            (Entries-Sub (run k.out s).gpr m k _ (out-Sub k ops) (t.kept.entries m h));
      ram = ram ∙ t.kept.ram;
    };
  }

  -- An instruction that writes memory alone.
  pub Kept-store :
      (w' : Ram → Ram) (op : Op)
      → Kept s n w j k
      → (step op (run k.out s)).gpr ≡ (run k.out s).gpr
      → (step op (run k.out s)).ram ≡ w' (run k.out s).ram
      → Kept s n (λ m. w' (w m)) j (emit k op)
  unfolding run
  Kept-store w' op h g r = record {
    use_movbe = h.use_movbe;
    pend = h.pend;
    pend_addr = h.pend_addr;
    flags_live = h.flags_live;
    sub = Sub-trans j k _ h.sub (out-Sub k (op ∷ k.out));
    pinned = h.pinned;
    room = h.room;
    held = λ i lt p. ap (λ f. f (alloc_regs i)) g ∙ h.held i lt p;
    bias = ap (λ f. f 15) g ∙ h.bias;
    entries =
        λ m e. rw g (Entries-Sub (run k.out s).gpr m k _ (out-Sub k (op ∷ k.out)) (h.entries m e));
    ram = r ∙ ap w' h.ram;
  }

  -- A register unpinned again, or pinned as before.
  pub Kept-set_pinned :
      (i : ℕ) (b : Bool)
      → Kept s n w j k
      → ((j.regs i).pinned ≡ true → b ≡ true)
      → (b ≡ true → (k.regs i).pinned ≡ true)
      → Kept s n w j (set_pinned k i b)
  Kept-set_pinned i b h up down = record {
    use_movbe = h.use_movbe;
    pend = h.pend;
    pend_addr = h.pend_addr;
    flags_live = h.flags_live;
    sub = Sub-trans j k _ h.sub (set_pinned-Sub k i b);
    pinned = λ q p. elim (Bool-cases (i == q)) [
      | inl e ↦ rw e (up (ap (λ x. (j.regs x).pinned) ((==_iff _ _).0 e) ∙ p))
      | inr e ↦ rw e (h.pinned q p)
    ];
    room = omega (
      arith,
      h.room,
      spare_le 11 (λ q. (k.regs q).pinned) (λ q. ((set_pinned k i b).regs q).pinned) 0
          (λ q p. elim (Bool-cases (i == q)) [
            | inl e ↦ ap (λ x. (k.regs x).pinned) (sym ((==_iff _ _).0 e)) ∙ down (rw e at p)
            | inr e ↦ rw e at p
          ]),
    );
    held = h.held;
    bias = h.bias;
    entries = λ m e. Entries-Sub (run k.out s).gpr m k _ (set_pinned-Sub k i b) (h.entries m e);
    ram = h.ram;
  }

if-false {ℓ} : {A : Type ℓ} (b : Bool) (x y : A) → b ≡ false → (if b then x else y) ≡ y
if-false b x y e = rw e refl

-- With nothing held back, nothing is stored.
pub release_idle :
    (flush : Flush) (j : Translator) (r : ℕ) → j.pend ≡ false → release flush j r ≡ forget j r
unfolding release
release_idle flush j r e = if-false j.pend _ (forget j r) e

module _ (s : Processor) (j : Translator) where
  -- A register pinned.
  pub pin-Kept : (i : ℕ) → Kept s 1 (λ m. m) j (set_pinned j i true)
  pin-Kept i = record {
    use_movbe = refl;
    pend = refl;
    pend_addr = refl;
    flags_live = refl;
    sub = set_pinned-Sub j i true;
    pinned = λ q p. ground arith;
    room = omega (
      arith,
      spare-with_one 11 (λ q. (j.regs q).pinned) i 0,
      room_at (set_pinned j i true) (with_one (λ q. (j.regs q).pinned) i) (λ q. ground arith),
    );
    held = λ q lt p. refl;
    bias = refl;
    entries = λ m e. Entries-Sub (run j.out s).gpr m j _ (set_pinned-Sub j i true) e;
    ram = refl;
  }

  pub scratch-Took :
      0 < room j → j.pend ≡ false → Took s 1 (λ m. m) j (scratch idle j).0 (scratch idle j).1
  unfolding scratch
  scratch-Took h p =
      let best = choose 11 j 0 11 in
      subst (λ k. Took s 1 (λ m. m) j k (alloc_regs best))
        (sym (release_idle idle (set_pinned j best true) (alloc_regs best) p))
        (forget-Took s j best (choose_first j h))
