-- ===== src/Jit/Regs/Static.antt =====
-- `get_static` at any address.
use subleq_emu.Prelude.{
  ℕ, ◌+◌, ◌-◌, ◌*◌, ◌/◌, ◌%◌, ◌≤◌, ◌<◌, ◌≡◌, refl, sym, subst, ◌∙◌, arith, true, false, not, ◌&&◌,
  ◌||◌, ◌==◌, two64, bit_or,
}
use subleq_emu.Ram.{Ram, readram}
use subleq_emu.Ram.Words.{IsBytes}
use subleq_emu.Jit.Regs.{
  Translator, Cval, unknown, in_reg, constant, negated, is_known, cache_find, cacheable,
}
use subleq_emu.Jit.Regs.Code.{Processor, run}
use subleq_emu.Jit.Regs.Entries.{Means}
use subleq_emu.Jit.Regs.Lookup.{cache_find-Find, Source-Means}
use subleq_emu.Jit.Regs.Alloc.{flush_pending}
use subleq_emu.Jit.Regs.Values.{shifted, combine, pin_val, get_if, get_spanned, get_static}
use subleq_emu.Jit.Regs.Room.{room}
use subleq_emu.Jit.Regs.Kept.{Touched-Kept}
use subleq_emu.Jit.Regs.Store.{if_rule}
use subleq_emu.Jit.Regs.Pending.{Holds, Moves, Moves-trans, Kept-Moves, need}
use subleq_emu.Jit.Regs.Taken.{Holds-Touched}
use subleq_emu.Jit.Regs.Load.{Got, Usable}
use subleq_emu.Jit.Regs.Get.{get_word-Got, Got-after}
use subleq_emu.Jit.Regs.Shift.{shift_of, shifted-Shifted}
use subleq_emu.Jit.Regs.Span.{spans}
use subleq_emu.Jit.Regs.Combine.{Shifted-Goes, Got-more, combine-Got}
use subleq_emu.Jit.Regs.Ready.{
  when_found, when_new, found_or_new, steady-Means, pin_val-Ready, get_if-Got,
}

-- The word at `a` from its two parts.
parts :
    (m : Ram) (a : ℕ)
    → IsBytes m
    → (a % 8 == 0) ≡ false
    → (bit_or
          (shift_of true (a % 8 * 8) (readram m (a / 8 * 8)))
          (shift_of false (64 - a % 8 * 8) (readram m (a / 8 * 8 + 8)))
        ≡ readram m a)
      × (bit_or
            (shift_of false (64 - a % 8 * 8) (readram m (a / 8 * 8 + 8)))
            (shift_of true (a % 8 * 8) (readram m (a / 8 * 8)))
          ≡ readram m a)
parts m a bytes off =
    let b = a / 8 * 8 in
    let start : b + 0 ≡ b = omega arith in
    let here : b + a % 8 ≡ a = omega arith in
    rw (start, here) at (spans m b bytes (a % 8) (ground arith) (omega arith))

usable_known : (k : Translator) (v : Cval) → Usable k v → is_known v ≡ true
usable_known k unknown bad = bad
usable_known k (in_reg r) u = refl
usable_known k (constant c) u = refl
usable_known k (negated r) u = refl

-- The end of `get_spanned`.
abbrev joined_at : Translator → Cval → Cval → ℕ → Translator × Cval
joined_at k lo hi n =
    let (x, v) = shifted flush_pending k lo true n in
    let (y, w) = shifted flush_pending x hi false (64 - n) in combine y v w

module _ (s : Processor) (m : Ram) (bytes : IsBytes m) where
  all_four-Moves :
      (i p q k k' : Translator) (l h : Cval)
      → Moves s (when_found l) i p
      → Moves s (when_found h) p q
      → Moves s (when_new l) q k
      → Moves s (when_new h) k k'
      → Moves s 2 i k'
  all_four-Moves i p q k k' l h a b c d =
      subst (λ n. Moves s n i k') (omega (arith, found_or_new l, found_or_new h))
        (Moves-trans s _ _ i k k' (Moves-trans s _ _ i q k (Moves-trans s _ _ i p q a b) c) d)

  -- The two words shifted and joined.
  joined-Got :
      (k : Translator) (a : ℕ) (lo hi : Cval)
      → need k.pend + 4 < room k
      → Holds s m k
      → (a % 8 == 0) ≡ false
      → Usable k lo
      → Means (run k.out s).gpr lo (readram m (a / 8 * 8))
      → Usable k hi
      → Means (run k.out s).gpr hi (readram m (a / 8 * 8 + 8))
      → Got s m 5 k a (joined_at k lo hi (a % 8 * 8)).0 (joined_at k lo hi (a % 8 * 8)).1
  joined-Got k a lo hi free h odd ulo mlo uhi mhi =
      let n = a % 8 * 8 in
      let first =
        shifted-Shifted s m bytes k lo (readram m (a / 8 * 8)) true n (omega arith) h ulo mlo in
      let x = (shifted flush_pending k lo true n).0 in
      let v = (shifted flush_pending k lo true n).1 in
      let g = Shifted-Goes s m bytes k x v _ h first in
      let (mhi', uhi') =
        steady-Means s m 2 k x hi (readram m (a / 8 * 8 + 8)) g.moves (λ o. uhi) mhi in
      let second =
        shifted-Shifted s m bytes x hi (readram m (a / 8 * 8 + 8)) false (64 - n)
          (omega (arith, g.moves.room)) g.holds (uhi' (usable_known k hi uhi)) mhi' in
      let (e, f) = parts m a bytes odd in
      combine-Got s m bytes k x _ v _ _ _ a h free first second e f

  get_spanned-Got :
      (j : Translator) (a : ℕ) (l h : Cval)
      → need j.pend + 6 < room j
      → Holds s m j
      → a + 8 ≤ two64
      → (a % 8 == 0) ≡ false
      → Means (run j.out s).gpr l (readram m (a / 8 * 8))
      → Means (run j.out s).gpr h (readram m (a / 8 * 8 + 8))
      → Got s m 7 j a
          (get_spanned j (a / 8 * 8) (a / 8 * 8 + 8) (a % 8 * 8) l h).0
          (get_spanned j (a / 8 * 8) (a / 8 * 8 + 8) (a % 8 * 8) l h).1
  unfolding get_spanned
  get_spanned-Got j a l h free hold fits odd el eh =
      let b = a / 8 * 8 in
      let c = b + 8 in
      let p = pin_val j l in
      let rl = pin_val-Ready s m j b l hold el in
      let q = pin_val p h in
      let rh =
        pin_val-Ready s m p c h rl.holds
          (subst (λ o. Means (run o s).gpr h (readram m c)) (sym rl.out) eh) in
      let (ml, ul) =
        steady-Means s m (when_found h) p q l (readram m b) rh.moves rl.usable rl.means in
      let gl =
        get_if-Got s m q b l bytes
          (omega (arith, found_or_new l, found_or_new h, rl.moves.room, rh.moves.room, free))
          rh.holds (omega arith) ml ul in
      let k = (get_if q b l).0 in
      let lo = (get_if q b l).1 in
      let (mh, uh) =
        steady-Means s m (when_new l) q k h (readram m c) gl.moves rh.usable rh.means in
      let gh =
        get_if-Got s m k c h bytes
          (omega (
            arith,
            found_or_new l,
            found_or_new h,
            rl.moves.room,
            rh.moves.room,
            gl.moves.room,
            free,
          ))
          gl.holds (ground arith) mh uh in
      let k' = (get_if k c h).0 in
      let hi = (get_if k c h).1 in
      let moves = all_four-Moves j p q k k' l h rl.moves rh.moves gl.moves gh.moves in
      let (mlo, ulo) =
        steady-Means s m (when_new h) k k' lo (readram m b) gh.moves (λ o. gl.usable) gl.means in
      Got-after s m 2 5 j k' a _ _ moves (
        joined-Got k' a lo hi (omega (arith, moves.room, free)) gh.holds odd
          (ulo (usable_known k lo gl.usable)) mlo gh.usable gh.means)

  -- `get_static` of a word that does not reach past 2 ^ 64, where the cache is right about a memory
  -- of bytes and at least seven registers are not pinned, or where it holds one word of the memory
  -- back and all eleven are not: once the code emitted has run, the value it gives, a constant,
  -- or a pinned register or its negation, is the word of that memory at the address, aligned or not; the cache is right
  -- about the same memory; at most seven more registers are pinned, and four more if the word held
  -- back no longer is; and those that were pinned are pinned and have their values.
  pub get_static-Got :
      (j : Translator) (a : ℕ)
      → need j.pend + 6 < room j
      → Holds s m j
      → a + 8 ≤ two64
      → Got s m 7 j a (get_static j a).0 (get_static j a).1
  unfolding get_static
  get_static-Got j a free hold fits =
      let b = a / 8 * 8 in
      let c = (b + 8) % two64 in
      let found = cache_find-Find j b in
      let k = (cache_find j b).0 in
      let l = (cache_find j b).1 in
      let t = Touched-Kept s j k found.touched in
      let hk = Holds-Touched s m j k found.touched hold in
      let found' = cache_find-Find k c in
      let k' = (cache_find k c).0 in
      let h = (cache_find k c).1 in
      let t' = Touched-Kept s k k' found'.touched in
      let hk' = Holds-Touched s m k k' found'.touched hk in
      let moves =
        Moves-trans s 0 0 j k k' (Kept-Moves s 0 (λ n. n) j k t)
          (Kept-Moves s 0 (λ n. n) k k' t') in
      let el = Source-Means (run j.out s).gpr m j b l hold.entries found.source in
      let eh = Source-Means (run k.out s).gpr m k c h hk.entries found'.source in
      let same = found'.touched.out ∙ found.touched.out in
      if_rule (λ (r : Translator × Cval). Got s m 7 j a r.0 r.1)
        (not (a % 8 == 0) && (cacheable b && cacheable c)) _ _
        (λ e.
          let odd : (a % 8 == 0) ≡ false = ground arith in
          if_rule (λ (r : Translator × Cval). Got s m 7 j a r.0 r.1) (is_known l || is_known h) _ _
            (λ o.
              let n = a % 8 * 8 in
              let next : c ≡ b + 8 = ground arith in
              Got-after s m 0 7 j k' a _ _ moves (
                subst
                  (λ x. Got s m 7 k' a (get_spanned k' b x n l h).0 (get_spanned k' b x n l h).1)
                  (sym next)
                  (get_spanned-Got k' a l h (omega (arith, moves.room, free)) hk' fits odd
                    (subst (λ q. Means (run q s).gpr l (readram m b)) (sym same) el)
                    (subst (λ q. Means (run q s).gpr h (readram m (b + 8))) (sym found'.touched.out)
                      (subst (λ x. Means (run k.out s).gpr h (readram m x)) next eh)))))
            (λ o. Got-after s m 0 7 j k' a _ _ moves (
              Got-more s m bytes 1 6 k' _ a _
                (get_word-Got s m k' a bytes (omega (arith, moves.room, free)) hk' (omega arith)))))
        (λ e.
          Got-more s m bytes 1 6 j _ a _
            (get_word-Got s m j a bytes (omega (arith, free)) hold (omega arith)))
