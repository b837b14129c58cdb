-- ===== src/Jit/Regs/Get.antt =====
-- `get_static` of one word: the value is right, and memory and the cache stay right.
use mathlib.Core.Bool.{false≢true}
use subleq_emu.Prelude.{
  ℕ, ◌+◌, ◌*◌, ◌/◌, ◌%◌, ◌≤◌, ◌<◌, ◌≡◌, ◌≢◌, refl, sym, ap, subst, ◌∙◌, ◌⊎◌, inl, inr, arith, Bool,
  true, false, not, ◌&&◌, ◌||◌, Bool-cases, ◌==◌, leb, ltb, two64,
}
use subleq_emu.Ram.{Ram, readram}
use subleq_emu.Ram.Words.{IsBytes, readram_ext}
use subleq_emu.Jit.Regs.{
  is_known, Translator, Cval, unknown, in_reg, constant, negated, reg_index, cache_find, pin, nregs,
  set_pinned, bind,
}
use subleq_emu.Jit.Regs.Code.{Processor, run}
use subleq_emu.Jit.Regs.Find.{IsAlloc}
use subleq_emu.Jit.Regs.Entries.{Means, Touched}
use subleq_emu.Jit.Regs.Lookup.{known, cache_find-Find, Source-Means}
use subleq_emu.Jit.Regs.Alloc.{scratch, flush_pending, load_static}
use subleq_emu.Jit.Regs.Values.{load_word, get_found, get_word}
use subleq_emu.Jit.Regs.Room.{room}
use subleq_emu.Jit.Regs.Kept.{Touched-Kept}
use subleq_emu.Jit.Regs.Take.{pin-Kept}
use subleq_emu.Jit.Regs.Store.{Locked, if_rule}
use subleq_emu.Jit.Regs.Pending.{
  Holds, Moves, Moves-trans, Moves-refl, need, need_off, Kept-Moves, flush_pending-Flushed,
}
use subleq_emu.Jit.Regs.Known.{known-cacheable, HasEntry-known, known-HasEntry}
use subleq_emu.Jit.Regs.Taken.{
  scratch-Taken, scratch-Taken_idle, HasEntry-Touched, Holds-Touched, Holds-set_pinned,
}
use subleq_emu.Jit.Regs.Load.{Got, Usable, loaded-Got}

pub Got-after :
    (s : Processor) (m : Ram) (n n' : ℕ) (i j : Translator) (a : ℕ) (k : Translator) (v : Cval)
    → Moves s n i j
    → Got s m n' j a k v
    → Got s m (n + n') i a k v
Got-after s m n n' i j a k v h g = record {
  holds = g.holds;
  moves = Moves-trans s n n' i j k h g.moves;
  means = g.means;
  usable = g.usable;
}

abbrev pub Disjoint : ℕ → ℕ → Type 0
Disjoint p a = (a + 8 ≤ p) ⊎ (p + 8 ≤ a)

-- A word in memory that the word held back does not reach into is as the program sees it.
pub Holds-readram :
    (s : Processor) (m : Ram) (j : Translator) (a : ℕ)
    → Holds s m j
    → (j.pend ≡ true → Disjoint j.pend_addr a)
    → readram (run j.out s).ram a ≡ readram m a
Holds-readram s m j a h far = elim (Bool-cases j.pend) [
  | inl on ↦ readram_ext (run j.out s).ram m a (λ q lo hi.
      h.off on q (elim (far on) [ inl below ↦ inl (omega arith) | inr above ↦ inr (omega arith) ]))
  | inr off ↦ readram_ext (run j.out s).ram m a (λ q lo hi. h.same off q)
]

words_apart :
    (p a : ℕ)
    → p % 8 ≡ 0
    → p ≢ a
    → (not (a % 8 == 0) && (p == a / 8 * 8 || p == a / 8 * 8 + 8)) ≡ false
    → Disjoint p a
words_apart p a al ne f = elim (Bool-cases (leb (a + 8) p)) [
  | inl e ↦ inl (ground arith)
  | inr e ↦ inr (ground arith)
]

Touched-sym : (j k : Translator) → Touched j k → Touched k j
Touched-sym j k t = record {
  use_movbe = sym t.use_movbe;
  pend = sym t.pend;
  pend_addr = sym t.pend_addr;
  flags_live = sym t.flags_live;
  out = sym t.out;
  consts = sym t.consts;
  aliases = sym t.aliases;
  used = λ i. sym (t.used i);
  addr = λ i. sym (t.addr i);
  pinned = λ i. sym (t.pinned i);
}

known-Touched : (j k : Translator) (a : ℕ) → Touched j k → known k a ≡ known j a
known-Touched j k a t =
    iff_eq (known k a) (known j a)
      (λ e.
        HasEntry-known j a (known-cacheable k a e)
          (HasEntry-Touched k j a (Touched-sym j k t) (known-HasEntry k a e)))
      (λ e.
        HasEntry-known k a (known-cacheable j a e)
          (HasEntry-Touched j k a t (known-HasEntry j a e)))
  where
    iff_eq : (b c : Bool) → (b ≡ true → c ≡ true) → (c ≡ true → b ≡ true) → b ≡ c
    iff_eq true c f g = sym (f refl)
    iff_eq false true f g = g refl
    iff_eq false false f g = refl

pub pin_alloc : (j : Translator) (r : ℕ) → IsAlloc r → pin j r ≡ set_pinned j (reg_index r) true
unfolding pin
pin_alloc j r al = let e : ltb (reg_index r) nregs ≡ true = ground (arith, al.0) in rw e refl

module _ (s : Processor) (m : Ram) (j : Translator) (a : ℕ) (bytes : IsBytes m)
    (free : need j.pend < room j) (h : Holds s m j) (lt : a < two64) where
  load_word-Got : known j a ≡ false → Got s m 1 j a (load_word j a).0 (load_word j a).1
  unfolding load_word
  load_word-Got new =
      let cover = not (a % 8 == 0) && (j.pend_addr == a / 8 * 8 || j.pend_addr == a / 8 * 8 + 8) in
      if_rule
        (λ i.
          Got s m 1 j a
            (bind (load_static (scratch flush_pending i).0 (scratch flush_pending i).1 a)
              (scratch flush_pending i).1 a)
            (in_reg (scratch flush_pending i).1))
        (j.pend && cover) (flush_pending j) j
        (λ e.
          let flushed = flush_pending-Flushed s m j bytes (omega arith) h in
          let i = flush_pending j in
          let t =
            scratch-Taken_idle s m i
              (omega
                (arith, flushed.moves.room, free, need_off (flush_pending j).pend flushed.pend))
              flushed.pend flushed.holds in
          let k = (scratch flush_pending i).0 in
          let off = λ (on : k.pend ≡ true). false≢true (sym flushed.pend ∙ (t.from on).0) in
          Got-after s m 0 1 j i a _ _ flushed.moves (
            loaded-Got s m 1 i k (scratch flush_pending i).1 t a lt
              (Holds-readram s m k a t.holds (λ on. absurd (off on))) (λ on. absurd (off on))))
        (λ e.
          let t = scratch-Taken s m j bytes free h in
          let k = (scratch flush_pending j).0 in
          let ne : k.pend ≡ true → k.pend_addr ≢ a = λ on same.
            false≢true (sym new ∙ ap (known j) (sym same ∙ (t.from on).1) ∙ h.held (t.from on).0) in
          loaded-Got s m 1 j k (scratch flush_pending j).1 t a lt
            (Holds-readram s m k a t.holds (λ on.
              let (was, at) = t.from on in
              let aligned = known-cacheable j j.pend_addr (h.held was) in
              words_apart k.pend_addr a (rw at (ground arith)) (ne on) (rw at (ground arith))))
            ne)

-- A value in a register of the cache is pinned there.
pub pin-Got :
    (s : Processor) (m : Ram) (j : Translator) (a r : ℕ) (v : Cval)
    → Holds s m j
    → IsAlloc r
    → Means (run j.out s).gpr v (readram m a)
    → (Locked (set_pinned j (reg_index r) true) r → Usable (set_pinned j (reg_index r) true) v)
    → Got s m 1 j a (pin j r) v
pin-Got s m j a r v h al mean lock =
    let k = set_pinned j (reg_index r) true in
    subst (λ x. Got s m 1 j a x v) (sym (pin_alloc j r al))
      (record {
        holds = Holds-set_pinned s m j (reg_index r) true h;
        moves = Kept-Moves s 1 (λ n. n) j k (pin-Kept s j (reg_index r));
        means = mean;
        usable = lock (al, ground arith);
      })

get_found-Got :
    (s : Processor) (m : Ram) (j : Translator) (a : ℕ) (v : Cval)
    → IsBytes m
    → need j.pend < room j
    → Holds s m j
    → a < two64
    → is_known v ≡ known j a
    → Means (run j.out s).gpr v (readram m a)
    → Got s m 1 j a (get_found j a v).0 (get_found j a v).1
unfolding get_found
get_found-Got s m j a unknown bytes free h lt found mean =
    load_word-Got s m j a bytes free h lt (sym found)
get_found-Got s m j a (in_reg r) bytes free h lt found mean =
    pin-Got s m j a r (in_reg r) h mean.0 mean (λ l. l)
get_found-Got s m j a (constant c) bytes free h lt found mean = record {
  holds = h;
  moves = Moves-refl s 1 j;
  means = mean;
  usable = tt;
}
get_found-Got s m j a (negated r) bytes free h lt found mean =
    pin-Got s m j a r (negated r) h mean.0 mean (λ l. l)

-- The word at a 64-bit address that is not put together from two.
pub get_word-Got :
    (s : Processor) (m : Ram) (j : Translator) (a : ℕ)
    → IsBytes m
    → need j.pend < room j
    → Holds s m j
    → a < two64
    → Got s m 1 j a (get_word j a).0 (get_word j a).1
unfolding get_word
get_word-Got s m j a bytes free h lt =
    let found = cache_find-Find j a in
    let k = (cache_find j a).0 in
    let v = (cache_find j a).1 in
    let t = Touched-Kept s j k found.touched in
    let moves = Kept-Moves s 0 (λ n. n) j k t in
    Got-after s m 0 1 j k a _ _ moves (
      get_found-Got s m k a v bytes (omega (arith, moves.room, ap need t.pend))
        (Holds-Touched s m j k found.touched h) lt
        (found.is_found ∙ sym (known-Touched j k a found.touched))
        (rw found.touched.out (Source-Means (run j.out s).gpr m j a v h.entries found.source)))
