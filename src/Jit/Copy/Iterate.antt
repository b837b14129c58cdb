-- ===== src/Jit/Copy/Iterate.antt =====
-- One iteration of the word copy loop as the writes that it comes to, and what `jit_copy` leaves for
-- several of them. `Turn` has the nineteen instructions that these writes stand for.
use subleq_emu.Prelude.{
  ℕ, ◌+◌, ◌-◌, ◌*◌, ◌≤◌, ◌<◌, ◌≡◌, refl, sym, ◌∙◌, ◌⊎◌, arith, Bool, true, false, ◌&&◌, List, [],
  ◌∷◌, leb, ltb, if◌then◌else◌, two64, add64, sub64, All, fun_ext,
}
use subleq_emu.Ram.{Ram, byte, bswap64, readram, writeram}
use subleq_emu.Ram.Words.{
  IsBytes, readram-writeram, readram-writeram_disjoint, writeram-other, writeram-IsBytes,
  writeram_at,
}
use subleq_emu.Jit.Copy.{Desc, last_writes}

-- The loop copies the word that S points to to where D points, leaves both pointers in its fields
-- and their negations and the word's in T1 and T2, and adds 8 to S, D and the counter.
unfoldable pub iteration : Desc → Ram → Ram
iteration e m =
    let s = readram m e.sv in
    let d = readram m e.dv in
    let w = readram m s in
    let copied = writeram m d w in
    let m1 = writeram copied e.sv (s + 8) in
    let m2 = writeram m1 e.dv (d + 8) in
    let m3 = writeram m2 e.cv (add64 (readram m e.cv) 8) in
    let m4 = writeram m3 e.t1 (sub64 0 d) in
    let m5 = writeram m4 e.t2 (sub64 0 w) in
    let m6 = writeram m5 (e.start + 5 * 24) s in
    let m7 = writeram m6 (e.start + 14 * 24) d in
    let m8 = writeram m7 (e.start + 14 * 24 + 8) d in writeram m8 (e.start + 15 * 24 + 8) d

-- The words at `a` and `b` share no byte.
abbrev pub Apart : ℕ → ℕ → Type 0
Apart a b = (b + 8 ≤ a) ⊎ (a + 8 ≤ b)

abbrev pub IsOutside : ℕ → ℕ → Type 0
IsOutside q a = (q < a) ⊎ (a + 8 ≤ q)

-- The words that an iteration writes besides the copy's own.
abbrev pub written : Desc → List ℕ
written e =
    e.sv
    ∷ e.dv
    ∷ e.cv
    ∷ e.t1
    ∷ e.t2
    ∷ (e.start + 5 * 24)
    ∷ (e.start + 14 * 24)
    ∷ (e.start + 14 * 24 + 8)
    ∷ (e.start + 15 * 24 + 8)
    ∷ []

-- Two memories agree at each byte outside the words at `ws`.
abbrev pub AgreeOff : List ℕ → Ram → Ram → Type 0
AgreeOff ws x y = (q : ℕ) → All (IsOutside q) ws → x q ≡ y q

AgreeOff-writeram :
    (ws : List ℕ) (x y : Ram) (a v : ℕ)
    → AgreeOff (a ∷ ws) x y
    → AgreeOff ws (writeram x a v) (writeram y a v)
AgreeOff-writeram ws x y a v h q out =
    writeram_at x a v q ∙ same (leb a q && ltb q (a + 8)) refl ∙ sym (writeram_at y a v q)
  where
    same :
        (b : Bool)
        → (leb a q && ltb q (a + 8)) ≡ b
        → (if b then byte (bswap64 v) (q - a) else x q)
          ≡ (if b then byte (bswap64 v) (q - a) else y q)
    same true e = refl
    same false e = h q (ground arith, out)

-- `last_writes` of memories that agree elsewhere are the same memory.
pub last_writes_ext :
    (e : Desc) (sl dl c last : ℕ) (x y : Ram)
    → AgreeOff (written e) x y
    → last_writes e sl dl c last x ≡ last_writes e sl dl c last y
unfolding last_writes
last_writes_ext e sl dl c last x y h0 =
    let f1 = e.start + 5 * 24 in
    let f3 = e.start + 14 * 24 in
    let f4 = e.start + 14 * 24 + 8 in
    let f2 = e.start + 15 * 24 + 8 in
    let fs : List ℕ = f1 ∷ f3 ∷ f4 ∷ f2 ∷ [] in
    let h1 = AgreeOff-writeram (e.dv ∷ e.cv ∷ e.t1 ∷ e.t2 ∷ fs) _ _ e.sv (sl + 8) h0 in
    let h2 = AgreeOff-writeram (e.cv ∷ e.t1 ∷ e.t2 ∷ fs) _ _ e.dv (dl + 8) h1 in
    let h3 = AgreeOff-writeram (e.t1 ∷ e.t2 ∷ fs) _ _ e.cv c h2 in
    let h4 = AgreeOff-writeram (e.t2 ∷ fs) _ _ e.t1 (sub64 0 dl) h3 in
    let h5 = AgreeOff-writeram fs _ _ e.t2 (sub64 0 last) h4 in
    let h6 = AgreeOff-writeram (f3 ∷ f4 ∷ f2 ∷ []) _ _ f1 sl h5 in
    let h7 = AgreeOff-writeram (f4 ∷ f2 ∷ []) _ _ f3 dl h6 in
    let h8 = AgreeOff-writeram (f2 ∷ []) _ _ f4 dl h7 in
    let h9 = AgreeOff-writeram [] _ _ f2 dl h8 in fun_ext (λ q. h9 q tt)

pub iteration-last_writes :
    (e : Desc) (m : Ram)
    → iteration e m
      ≡ last_writes e
          (readram m e.sv)
          (readram m e.dv)
          (add64 (readram m e.cv) 8)
          (readram m (readram m e.sv))
          (writeram m (readram m e.dv) (readram m (readram m e.sv)))
unfolding iteration last_writes
iteration-last_writes e m = refl

pub last_writes-other :
    (e : Desc) (sl dl c last : ℕ) (x : Ram) (q : ℕ)
    → All (IsOutside q) (written e)
    → last_writes e sl dl c last x q ≡ x q
unfolding last_writes
last_writes-other e sl dl c last x q (o1, (o2, (o3, (o4, (o5, (o6, (o7, (o8, (o9, u))))))))) =
    rw
      (
        writeram-other _ (e.start + 15 * 24 + 8) dl q o9,
        writeram-other _ (e.start + 14 * 24 + 8) dl q o8,
        writeram-other _ (e.start + 14 * 24) dl q o7,
        writeram-other _ (e.start + 5 * 24) sl q o6,
        writeram-other _ e.t2 (sub64 0 last) q o5,
        writeram-other _ e.t1 (sub64 0 dl) q o4,
        writeram-other _ e.cv c q o3,
        writeram-other _ e.dv (dl + 8) q o2,
      )
      (writeram-other x e.sv (sl + 8) q o1)

pub last_writes-IsBytes :
    (e : Desc) (sl dl c last : ℕ) (x : Ram) → IsBytes x → IsBytes (last_writes e sl dl c last x)
unfolding last_writes
last_writes-IsBytes e sl dl c last x b0 =
    let b1 = writeram-IsBytes _ e.sv (sl + 8) b0 in
    let b2 = writeram-IsBytes _ e.dv (dl + 8) b1 in
    let b3 = writeram-IsBytes _ e.cv c b2 in
    let b4 = writeram-IsBytes _ e.t1 (sub64 0 dl) b3 in
    let b5 = writeram-IsBytes _ e.t2 (sub64 0 last) b4 in
    let b6 = writeram-IsBytes _ (e.start + 5 * 24) sl b5 in
    let b7 = writeram-IsBytes _ (e.start + 14 * 24) dl b6 in
    let b8 = writeram-IsBytes _ (e.start + 14 * 24 + 8) dl b7 in
    writeram-IsBytes _ (e.start + 15 * 24 + 8) dl b8

-- The variables share no byte with one another or with the loop.
pub record AreApart (e : Desc) : Type 0 where
  pub t1_t2 : Apart e.t1 e.t2
  pub t1_sv : Apart e.t1 e.sv
  pub t1_dv : Apart e.t1 e.dv
  pub t1_cv : Apart e.t1 e.cv
  pub t2_sv : Apart e.t2 e.sv
  pub t2_dv : Apart e.t2 e.dv
  pub t2_cv : Apart e.t2 e.cv
  pub sv_dv : Apart e.sv e.dv
  pub sv_cv : Apart e.sv e.cv
  pub dv_cv : Apart e.dv e.cv
  pub sv_out : (e.sv + 8 ≤ e.start) ⊎ (e.start + 19 * 24 ≤ e.sv)
  pub dv_out : (e.dv + 8 ≤ e.start) ⊎ (e.start + 19 * 24 ≤ e.dv)
  pub cv_out : (e.cv + 8 ≤ e.start) ⊎ (e.start + 19 * 24 ≤ e.cv)
  pub t1_out : (e.t1 + 8 ≤ e.start) ⊎ (e.start + 19 * 24 ≤ e.t1)
  pub t2_out : (e.t2 + 8 ≤ e.start) ⊎ (e.start + 19 * 24 ≤ e.t2)
  pub mv_out : (e.mv + 8 ≤ e.start) ⊎ (e.start + 19 * 24 ≤ e.mv)
  pub t1_mv : Apart e.t1 e.mv
  pub t2_mv : Apart e.t2 e.mv
  pub sv_mv : Apart e.sv e.mv
  pub dv_mv : Apart e.dv e.mv
  pub cv_mv : Apart e.cv e.mv

module _ (e : Desc) (apart : AreApart e) (sl dl c last : ℕ) (x : Ram) where
  pub last_writes-sv : sl + 8 < two64 → readram (last_writes e sl dl c last x) e.sv ≡ sl + 8
  unfolding last_writes
  last_writes-sv h =
      rw
        (
          readram-writeram_disjoint _ (e.start + 15 * 24 + 8) dl e.sv
              (ground (arith, apart.sv_out)),
          readram-writeram_disjoint _ (e.start + 14 * 24 + 8) dl e.sv
              (ground (arith, apart.sv_out)),
          readram-writeram_disjoint _ (e.start + 14 * 24) dl e.sv (ground (arith, apart.sv_out)),
          readram-writeram_disjoint _ (e.start + 5 * 24) sl e.sv (ground (arith, apart.sv_out)),
          readram-writeram_disjoint _ e.t2 (sub64 0 last) e.sv (ground (arith, apart.t2_sv)),
          readram-writeram_disjoint _ e.t1 (sub64 0 dl) e.sv (ground (arith, apart.t1_sv)),
          readram-writeram_disjoint _ e.cv c e.sv (ground (arith, apart.sv_cv)),
          readram-writeram_disjoint _ e.dv (dl + 8) e.sv (ground (arith, apart.sv_dv)),
        )
        (readram-writeram x e.sv (sl + 8) h)

  pub last_writes-dv : dl + 8 < two64 → readram (last_writes e sl dl c last x) e.dv ≡ dl + 8
  unfolding last_writes
  last_writes-dv h =
      rw
        (
          readram-writeram_disjoint _ (e.start + 15 * 24 + 8) dl e.dv
              (ground (arith, apart.dv_out)),
          readram-writeram_disjoint _ (e.start + 14 * 24 + 8) dl e.dv
              (ground (arith, apart.dv_out)),
          readram-writeram_disjoint _ (e.start + 14 * 24) dl e.dv (ground (arith, apart.dv_out)),
          readram-writeram_disjoint _ (e.start + 5 * 24) sl e.dv (ground (arith, apart.dv_out)),
          readram-writeram_disjoint _ e.t2 (sub64 0 last) e.dv (ground (arith, apart.t2_dv)),
          readram-writeram_disjoint _ e.t1 (sub64 0 dl) e.dv (ground (arith, apart.t1_dv)),
          readram-writeram_disjoint _ e.cv c e.dv (ground (arith, apart.dv_cv)),
        )
        (readram-writeram _ e.dv (dl + 8) h)

  pub last_writes-cv : c < two64 → readram (last_writes e sl dl c last x) e.cv ≡ c
  unfolding last_writes
  last_writes-cv h =
      rw
        (
          readram-writeram_disjoint _ (e.start + 15 * 24 + 8) dl e.cv
              (ground (arith, apart.cv_out)),
          readram-writeram_disjoint _ (e.start + 14 * 24 + 8) dl e.cv
              (ground (arith, apart.cv_out)),
          readram-writeram_disjoint _ (e.start + 14 * 24) dl e.cv (ground (arith, apart.cv_out)),
          readram-writeram_disjoint _ (e.start + 5 * 24) sl e.cv (ground (arith, apart.cv_out)),
          readram-writeram_disjoint _ e.t2 (sub64 0 last) e.cv (ground (arith, apart.t2_cv)),
          readram-writeram_disjoint _ e.t1 (sub64 0 dl) e.cv (ground (arith, apart.t1_cv)),
        )
        (readram-writeram _ e.cv c h)
