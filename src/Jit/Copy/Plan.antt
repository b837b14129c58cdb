-- ===== src/Jit/Copy/Plan.antt =====
-- What the tests of `jit_copy` make sure of.
use mathlib.Core.Bool.{false≢true}
use subleq_emu.Prelude.{
  ℕ, ◌+◌, ◌-◌, ◌*◌, ◌/◌, ◌≤◌, ◌<◌, ◌≡◌, ◌≢◌, ◌⊎◌, refl, sym, subst, arith, Bool, true, false, not,
  ◌&&◌, ◌||◌, List, [], ◌∷◌, ltb, ◌==◌, if◌then◌else◌, two64, All, zero, suc, inl, inr, Bool-cases,
  ==_iff,
}
use subleq_emu.Ram.{readram}
use subleq_emu.Jit.State.{Machine}
use subleq_emu.Jit.Copy.{
  Desc, overlaps, is_past_end, is_loop_or_device, overlaps_any, iterations, is_refused, planned,
  copy_min, hw_lo, hw_hi, any_page,
}
use subleq_emu.Jit.Copy.Iterate.{IsOutside, written}
use subleq_emu.Jit.Copy.Refine.{AreFree}
use subleq_emu.Jit.Copy.Vars.{IsDesc}

or_false : (a b : Bool) → (a || b) ≡ false → (a ≡ false) × (b ≡ false)
or_false false b h = (refl, h)
or_false true b h = absurd (false≢true (sym h))

not_refused :
    (a b c : Bool) (n : ℕ)
    → (if a then 0 else if b then 0 else if c then 0 else n) ≢ 0
    → ((if a then 0 else if b then 0 else if c then 0 else n) ≡ n) × ((a ≡ false) × (c ≡ false))
not_refused true b c n h = absurd (h refl)
not_refused false true c n h = absurd (h refl)
not_refused false false true n h = absurd (h refl)
not_refused false false false n h = (refl, (refl, refl))

any_page-none :
    (map : ℕ → ℕ) (r pg i : ℕ) → any_page map r pg ≡ false → pg ≤ i → i < pg + r → map i ≡ 0
unfolding any_page
any_page-none map zero pg i h lo hi = ground arith
any_page-none map (suc r) pg i h lo hi =
    let (here, later) = or_false (not (map pg == 0)) _ h in
    elim (Bool-cases (pg == i)) [
      | inl e ↦ let same : pg ≡ i = (==_iff pg i).0 e in subst (λ k. map k ≡ 0) same (ground arith)
      | inr n ↦ any_page-none map r (pg + 1) i later (ground arith) (omega arith)
    ]

-- The `k` words from `a` on are none of the devices' registers, 0x13e00000 to 0x13ffffff.
abbrev pub IsNoDevice : ℕ → ℕ → Type 0
IsNoDevice a k = (a + 8 * k ≤ 333447168) ⊎ (335544320 ≤ a)

module _ (m : Machine) (small : m.mem_size ≤ two64 - 8) where
  overlaps-IsOutside :
      (a alen b q : ℕ)
      → a + alen ≤ m.mem_size
      → overlaps a alen b 8 ≡ false
      → a ≤ q
      → q < a + alen
      → IsOutside q b
  overlaps-IsOutside a alen b q fits h lo hi = ground arith

  overlaps-apart :
      (a alen b blen : ℕ)
      → a + alen ≤ m.mem_size
      → b + blen ≤ m.mem_size
      → overlaps a alen b blen ≡ false
      → (a + alen ≤ b) ⊎ (b + blen ≤ a)
  overlaps-apart a alen b blen fits_a fits_b h = ground arith

  overlaps-apart_word :
      (a alen b : ℕ)
      → a + alen ≤ m.mem_size
      → overlaps a alen b 8 ≡ false
      → (a + alen ≤ b) ⊎ (b + 8 ≤ a)
  overlaps-apart_word a alen b fits h = ground arith

  in_memory :
      (s d bytes : ℕ)
      → is_past_end m s d bytes ≡ false
      → (s + bytes ≤ m.mem_size) × (d + bytes ≤ m.mem_size)
  in_memory s d bytes h = (ground arith, ground arith)

  no_device :
      (a k : ℕ)
      → a + 8 * k ≤ m.mem_size
      → overlaps a (8 * k) hw_lo (hw_hi - hw_lo) ≡ false
      → IsNoDevice a k
  no_device a k fits h = ground arith

  -- Each variable and field is kept clear of a range that was not refused.
  range-IsOutside :
      (e : Desc) (a alen q : ℕ)
      → e.start + 19 * 24 ≤ m.mem_size
      → a + alen ≤ m.mem_size
      → overlaps a alen e.start (19 * 24) ≡ false
      → All (λ v. overlaps a alen v 8 ≡ false) (e.t1 ∷ e.t2 ∷ e.sv ∷ e.dv ∷ e.cv ∷ [])
      → a ≤ q
      → q < a + alen
      → All (IsOutside q) (written e)
  range-IsOutside e a alen q fits inside loop (o1, (o2, (o3, (o4, (o5, u))))) lo hi = (
    overlaps-IsOutside a alen e.sv q inside o3 lo hi,
    (
      overlaps-IsOutside a alen e.dv q inside o4 lo hi,
      (
        overlaps-IsOutside a alen e.cv q inside o5 lo hi,
        (
          overlaps-IsOutside a alen e.t1 q inside o1 lo hi,
          (
            overlaps-IsOutside a alen e.t2 q inside o2 lo hi,
            (ground arith, (ground arith, (ground arith, (ground arith, tt)))),
          ),
        ),
      ),
    ),
  )

  overlaps_any-All :
      (s d bytes : ℕ) (vs : List ℕ)
      → overlaps_any s d bytes vs ≡ false
      → All (λ v. overlaps s bytes v 8 ≡ false) vs × All (λ v. overlaps d bytes v 8 ≡ false) vs
  unfolding overlaps_any
  overlaps_any-All s d bytes [] h = (tt, tt)
  overlaps_any-All s d bytes (v ∷ vs) h =
      let (a, rest) = or_false (overlaps s bytes v 8) _ h in
      let (b, later) = or_false (overlaps d bytes v 8) _ rest in
      let (xs, ys) = overlaps_any-All s d bytes vs later in ((a, xs), (b, ys))

  is_refused-AreFree :
      (e : Desc) (s d k : ℕ)
      → e.start + 19 * 24 ≤ m.mem_size
      → is_refused m e s d (8 * k) ≡ false
      → AreFree e s d k
  unfolding is_refused
  is_refused-AreFree e s d k fits h =
      let (past, h1) = or_false (is_past_end m s d (8 * k)) _ h in
      let (repeats, h2) = or_false (ltb s d && ltb d (s + 8 * k)) _ h1 in
      let (vars, h3) = or_false (overlaps_any s d (8 * k) changed) _ h2 in
      let (mask, h4) = or_false (overlaps d (8 * k) e.mv 8) _ h3 in
      let (own, pages) = or_false (is_loop_or_device e s d (8 * k)) _ h4 in
      let (loop_s, h5) = or_false (overlaps s (8 * k) e.start (19 * 24)) _ own in
      let (loop_d, device) = or_false (overlaps d (8 * k) e.start (19 * 24)) _ h5 in
      let (vars_s, vars_d) = overlaps_any-All s d (8 * k) changed vars in
      let s_end : s + 8 * k ≤ m.mem_size = ground arith in
      let d_end : d + 8 * k ≤ m.mem_size = ground arith in
      record {
        source = λ q. range-IsOutside e s (8 * k) q fits s_end loop_s vars_s;
        dest = λ q. range-IsOutside e d (8 * k) q fits d_end loop_d vars_d;
        no_repeat = ground arith;
        source_end = omega arith;
        dest_end = omega arith;
        dest_loop = overlaps-apart d (8 * k) e.start (19 * 24) d_end fits loop_d;
        dest_mv = overlaps-apart_word d (8 * k) e.mv d_end mask;
      }
    where
      changed : List ℕ
      changed = e.t1 ∷ e.t2 ∷ e.sv ∷ e.dv ∷ e.cv ∷ []

  is_refused-IsNoDevice :
      (e : Desc) (s d k : ℕ) → is_refused m e s d (8 * k) ≡ false → IsNoDevice s k × IsNoDevice d k
  unfolding is_refused
  is_refused-IsNoDevice e s d k h =
      let (past, h1) = or_false (is_past_end m s d (8 * k)) _ h in
      let (repeats, h2) = or_false (ltb s d && ltb d (s + 8 * k)) _ h1 in
      let (vars, h3) = or_false (overlaps_any s d (8 * k) _) _ h2 in
      let (mask, h4) = or_false (overlaps d (8 * k) e.mv 8) _ h3 in
      let (own, pages) = or_false (is_loop_or_device e s d (8 * k)) _ h4 in
      let (loop_s, h5) = or_false (overlaps s (8 * k) e.start (19 * 24)) _ own in
      let (loop_d, device) = or_false (overlaps d (8 * k) e.start (19 * 24)) _ h5 in
      let (device_s, device_d) = or_false (overlaps s (8 * k) hw_lo (hw_hi - hw_lo)) _ device in
      let (s_end, d_end) = in_memory s d (8 * k) past in
      (no_device s k s_end device_s, no_device d k d_end device_d)

  is_refused-pages :
      (e : Desc) (s d k : ℕ)
      → is_refused m e s d (8 * k) ≡ false
      → (q : ℕ) → d ≤ q
      → q < d + 8 * k
      → m.page_map (q / 4096) ≡ 0
  unfolding is_refused
  is_refused-pages e s d k h q lo hi =
      let (past, h1) = or_false (is_past_end m s d (8 * k)) _ h in
      let (repeats, h2) = or_false (ltb s d && ltb d (s + 8 * k)) _ h1 in
      let (vars, h3) = or_false (overlaps_any s d (8 * k) _) _ h2 in
      let (mask, h4) = or_false (overlaps d (8 * k) e.mv 8) _ h3 in
      let (own, pages) = or_false (is_loop_or_device e s d (8 * k)) _ h4 in
      any_page-none m.page_map _ (d / 4096) (q / 4096) pages (omega arith) (omega arith)

  -- What holds of the number of iterations that `jit_copy` sets out to run.
  pub record IsPlan (e : Desc) (budget n : ℕ) : Type 0 where
    pub to_end : n ≤ iterations (readram m.mem e.cv)
    pub to_budget : n ≤ budget / 19 + 1
    pub free : AreFree e (readram m.mem e.sv) (readram m.mem e.dv) n
    pub mask : readram m.mem e.mv ≡ two64 - 8
    pub source_device : IsNoDevice (readram m.mem e.sv) n
    pub dest_device : IsNoDevice (readram m.mem e.dv) n
    pub dest_pages :
        (q : ℕ)
        → readram m.mem e.dv ≤ q
        → q < readram m.mem e.dv + 8 * n
        → m.page_map (q / 4096) ≡ 0

  pub planned-IsPlan :
      (e : Desc) (budget : ℕ)
      → IsDesc m e
      → planned m e budget ≢ 0
      → IsPlan e budget (planned m e budget)
  unfolding planned
  planned-IsPlan e budget desc h =
      subst (λ k. IsPlan e budget k) (sym passed.0)
        (record {
          to_end = ground arith;
          to_budget = ground arith;
          free = is_refused-AreFree e s d n desc.fits passed.1.1;
          mask = passed.1.0;
          source_device = (is_refused-IsNoDevice e s d n passed.1.1).0;
          dest_device = (is_refused-IsNoDevice e s d n passed.1.1).1;
          dest_pages = is_refused-pages e s d n passed.1.1;
        })
    where
      s : ℕ
      s = readram m.mem e.sv

      d : ℕ
      d = readram m.mem e.dv

      total : ℕ
      total = iterations (readram m.mem e.cv)

      n : ℕ
      n = if ltb total (budget / 19 + 1) then total else budget / 19 + 1

      few : Bool
      few = ltb n copy_min

      passed :
          (planned m e budget ≡ n)
          × ((readram m.mem e.mv ≡ two64 - 8) × (is_refused m e s d (8 * n) ≡ false))
      passed =
          let p =
            not_refused (not (readram m.mem e.mv == two64 - 8)) few (is_refused m e s d (8 * n)) n
              h in
          (p.0, (ground (arith, p.1.0), p.1.1))
