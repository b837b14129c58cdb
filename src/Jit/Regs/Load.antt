-- ===== src/Jit/Regs/Load.antt =====
-- Reading an aligned word, or one that is not and is loaded: `get_static`.
use subleq_emu.Prelude.{
  ℕ, ◌<◌, ◌≡◌, ◌≢◌, refl, sym, ap, subst, ◌∙◌, inl, inr, arith, true, false, not, List, Bool-cases,
  two64, add64,
}
use subleq_emu.Ram.{Ram, readram, load64, bswap64}
use subleq_emu.Jit.Emit.Call
use subleq_emu.Jit.Regs.{
  Translator, Cval, unknown, in_reg, constant, negated, emit, alloc_regs, reg_index, cacheable,
  cache_drop, bind,
}
use subleq_emu.Jit.Regs.Code.{Op, call, Processor, run, step, step_call, set, extended}
use subleq_emu.Jit.Regs.Find.{IsAlloc}
use subleq_emu.Jit.Regs.Entries.{Sub-trans, Entries, Entries-Sub, Means}
use subleq_emu.Jit.Regs.Change.{bind-Entries}
use subleq_emu.Jit.Regs.Alloc.{load_mem, load_static, bias, fits_disp, disp_of}
use subleq_emu.Jit.Regs.Room.{room_at}
use subleq_emu.Jit.Regs.Kept.{
  alloc_regs-other, IsAlloc_bias, OnlyWrites, set-OnlyWrites, set-OnlyWrites_twice, set_at,
  Entries-OnlyWrites,
}
use subleq_emu.Jit.Regs.Take.{out-Sub}
use subleq_emu.Jit.Regs.Store.{Locked, disp_of_lem, if_rule}
use subleq_emu.Jit.Regs.Pending.{Holds, Moves, need}
use subleq_emu.Jit.Regs.Known.{HasEntry-known, known-HasEntry, known-cacheable, bind-HasEntry}
use subleq_emu.Jit.Regs.Taken.{Taken}

-- `l` is `k` with code that loads the word at `a` into `r`.
pub record Loaded (s : Processor) (k : Translator) (r a : ℕ) (l : Translator) : Type 0 where
  pub same : l ≡ record k { out = l.out }
  pub writes : OnlyWrites r (run k.out s) (run l.out s)
  pub value : (run l.out s).gpr r ≡ readram (run k.out s).ram a

module _ (s : Processor) (k : Translator) (r a : ℕ) where
  load_mem-Loaded :
      (base disp : ℕ)
      → add64 ((run k.out s).gpr base) (extended disp) ≡ a
      → Loaded s k r a (load_mem k r base disp)
  unfolding load_mem step step_call run readram
  load_mem-Loaded base disp e =
      let g = run k.out s in
      let w = load64 g.ram (add64 (g.gpr base) (extended disp)) in
      if_rule (Loaded s k r a) k.use_movbe _ _
        (λ q. record {
          same = refl;
          writes = set-OnlyWrites g r (bswap64 w);
          value = set_at g r (bswap64 w) ∙ ap (λ x. bswap64 (load64 g.ram x)) e;
        })
        (λ q. record {
          same = refl;
          writes = set-OnlyWrites_twice g r w (bswap64 ((set g r w).gpr r));
          value =
              set_at (set g r w) r (bswap64 ((set g r w).gpr r))
              ∙ ap bswap64 (set_at g r w ∙ ap (load64 g.ram) e);
        })

pub load_static-Loaded :
    (s : Processor) (k : Translator) (r a : ℕ)
    → a < two64
    → (run k.out s).gpr 15 ≡ bias
    → Loaded s k r a (load_static k r a)
unfolding load_static step step_call run
load_static-Loaded s k r a lt high =
    let g = run k.out s in
    let k1 = emit k (call (Call.mov_imm r a)) in
    if_rule (Loaded s k r a) (fits_disp a) _ _
      (λ f.
        load_mem-Loaded s k r a 15 (disp_of a)
          (ap (λ x. add64 x (extended (disp_of a))) high ∙ disp_of_lem a f))
      (λ f.
        let rest =
          load_mem-Loaded s k1 r a r 0
            (ap (λ x. add64 x (extended 0)) (set_at g r a) ∙ ground arith) in
        record {
          same = rest.same;
          writes = (rest.writes.0, λ q ne. rest.writes.1 q ne ∙ (set-OnlyWrites g r a).1 q ne);
          value = rest.value;
        })

-- A value that can be used: its register is pinned.
abbrev pub Usable : Translator → Cval → Type 0
Usable k unknown = false ≡ true
Usable k (in_reg r) = Locked k r
Usable k (constant c) = Unit
Usable k (negated r) = Locked k r

-- The value of the word at `a` has been got.
pub record Got (s : Processor) (m : Ram) (n : ℕ) (j : Translator) (a : ℕ) (k : Translator)
    (v : Cval) : Type 0 where
  pub holds : Holds s m k
  pub moves : Moves s n j k
  pub means : Means (run k.out s).gpr v (readram m a)
  pub usable : Usable k v

bind_off : (x : Translator) (r a : ℕ) → cacheable a ≡ false → bind x r a ≡ x
unfolding bind
bind_off x r a c = rw c refl

-- What `bind` leaves as it was.
record Bound (x k : Translator) : Type 0 where
  out : k.out ≡ x.out
  pend : k.pend ≡ x.pend
  pend_addr : k.pend_addr ≡ x.pend_addr
  use_movbe : k.use_movbe ≡ x.use_movbe
  flags_live : k.flags_live ≡ x.flags_live
  pinned : (i : ℕ) → (k.regs i).pinned ≡ (x.regs i).pinned

bind-Bound : (x : Translator) (r a : ℕ) → Bound x (bind x r a)
unfolding bind cache_drop
bind-Bound x r a =
    if_rule (Bound x) (not (cacheable a)) _ _
      (λ c. record {
        out = refl;
        pend = refl;
        pend_addr = refl;
        use_movbe = refl;
        flags_live = refl;
        pinned = λ i. refl;
      })
      (λ c. record {
        out = refl;
        pend = refl;
        pend_addr = refl;
        use_movbe = refl;
        flags_live = refl;
        pinned = λ i. ground arith;
      })

bind_entries :
    (g : ℕ → ℕ) (m : Ram) (x : Translator) (r a : ℕ)
    → IsAlloc r
    → readram m a ≡ g r
    → Entries g m x
    → Entries g m (bind x r a)
bind_entries g m x r a al w e = elim (Bool-cases (cacheable a)) [
  | inl c ↦ bind-Entries g m m x a (λ q off. refl) e r al (c, w)
  | inr c ↦ subst (Entries g m) (sym (bind_off x r a c)) e
]

-- A register with the value of the word at `a` is bound to it.
pub bind-Got :
    (s : Processor) (m : Ram) (n : ℕ) (j x : Translator) (r a : ℕ)
    → Taken s m n j x r
    → readram m a ≡ (run x.out s).gpr r
    → (x.pend ≡ true → x.pend_addr ≢ a)
    → Got s m n j a (bind x r a) (in_reg r)
bind-Got s m n j x r a t w apart =
    let b = bind-Bound x r a in
    let g = ap (λ o. run o s) (sym b.out) in
    record {
      holds = record {
        bias = rw b.out t.holds.bias;
        entries =
            subst (λ (q : Processor). Entries q.gpr m (bind x r a)) g
              (bind_entries (run x.out s).gpr m x r a t.alloc w t.holds.entries);
        addr = rw b.pend_addr t.holds.addr;
        held = λ e.
            let on = sym b.pend ∙ e in
            rw b.pend_addr (
              HasEntry-known (bind x r a) x.pend_addr
                (known-cacheable x x.pend_addr (t.holds.held on))
                (bind-HasEntry x x.pend_addr a r (apart on) t.clear
                  (known-HasEntry x x.pend_addr (t.holds.held on))));
        off = λ e. rw (b.out, b.pend_addr) (t.holds.off (sym b.pend ∙ e));
        same = λ e. rw b.out (t.holds.same (sym b.pend ∙ e));
      };
      moves = record {
        room = omega (
          arith,
          t.moves.room,
          room_at (bind x r a) (λ i. (x.regs i).pinned) b.pinned,
          ap need b.pend,
        );
        use_movbe = b.use_movbe ∙ t.moves.use_movbe;
        flags_live = b.flags_live ∙ t.moves.flags_live;
        pinned = λ i p. b.pinned i ∙ t.moves.pinned i p;
        values = λ i lt p. rw b.out (t.moves.values i lt p);
      };
      means = (t.alloc, rw b.out w);
      usable = (t.alloc, b.pinned (reg_index r) ∙ t.pinned);
    }

module _ (s : Processor) (m : Ram) (n : ℕ) (j k : Translator) (r : ℕ) (t : Taken s m n j k r) where
  -- The register taken is written to.
  pub Taken-write :
      (ops : List Op)
      → OnlyWrites r (run k.out s) (run ops s)
      → Taken s m n j (record k { out = ops }) r
  Taken-write ops (ram, off) =
      let out = out-Sub k ops in
      record {
        alloc = t.alloc;
        loose = t.loose;
        pinned = t.pinned;
        clear = record { regs = t.clear.regs; aliases = t.clear.aliases };
        holds = record {
          bias = off 15 (IsAlloc_bias r t.alloc) ∙ t.holds.bias;
          entries =
              Entries-OnlyWrites m (record k { out = ops }) r (run k.out s) (run ops s)
                (record { regs = t.clear.regs; aliases = t.clear.aliases }) (ram, off)
                (Entries-Sub (run k.out s).gpr m k _ out t.holds.entries);
          addr = t.holds.addr;
          held = t.holds.held;
          off = λ e. rw ram (t.holds.off e);
          same = λ e. rw ram (t.holds.same e);
        };
        moves = record {
          room = t.moves.room;
          use_movbe = t.moves.use_movbe;
          flags_live = t.moves.flags_live;
          pinned = t.moves.pinned;
          values = λ i lt p.
              off (alloc_regs i) (alloc_regs-other j r i t.loose lt p) ∙ t.moves.values i lt p;
        };
        sub = Sub-trans j k _ t.sub out;
        from = t.from;
      }

  pub loaded-Got :
      (a : ℕ)
      → a < two64
      → readram (run k.out s).ram a ≡ readram m a
      → (k.pend ≡ true → k.pend_addr ≢ a)
      → Got s m n j a (bind (load_static k r a) r a) (in_reg r)
  loaded-Got a lt w apart =
      let ld = load_static-Loaded s k r a lt t.holds.bias in
      let l = load_static k r a in
      subst (λ x. Got s m n j a (bind x r a) (in_reg r)) (sym ld.same)
        (bind-Got s m n j (record k { out = l.out }) r a (Taken-write l.out ld.writes)
          (sym w ∙ sym ld.value) apart)
