-- ===== src/Jit/Copy/Pass.antt =====
-- One pass of the word copy loop: its nineteen instructions, run one after the other.
use subleq_emu.Prelude.{
  ℕ, suc, ◌+◌, ◌-◌, ◌*◌, ◌≤◌, ◌<◌, ◌≡◌, refl, ap, ◌∙◌, ◌⊎◌, inl, inr, arith, List, [], ◌∷◌, two64,
  sub64, All, get_or, length,
}
use subleq_emu.Ram.{Ram, readram}
use subleq_emu.Ram.Words.{IsBytes}
use subleq_emu.Jit.Copy.{Desc}
use subleq_emu.Jit.Copy.Iterate.{Apart, AreApart}
use subleq_emu.Jit.Copy.Exec.{Pairwise, set_at, Holds, Holds-readram, At, advance}

-- Operands A and B of instruction `k`.
pub record Insn (m : Ram) (start k a b : ℕ) : Type 0 where
  pub first : readram m (start + 24 * k) ≡ a
  pub second : readram m (start + 24 * k + 8) ≡ b

-- The words of the loop that it does not write itself. Instruction 5 reads where the loop has put
-- the pointer S, and instructions 14 and 15 write where it has put D.
pub record IsLoop (m : Ram) (e : Desc) : Type 0 where
  pub i0 : Insn m e.start 0 e.t1 e.t1
  pub i1 : Insn m e.start 1 e.t2 e.t2
  pub i2 : Insn m e.start 2 (e.start + 120) (e.start + 120)
  pub i3 : Insn m e.start 3 e.sv e.t1
  pub i4 : Insn m e.start 4 e.t1 (e.start + 120)
  pub second5 : readram m (e.start + 24 * 5 + 8) ≡ e.t2
  pub i6 : Insn m e.start 6 e.t1 e.t1
  pub i7 : Insn m e.start 7 (e.start + 360 + 8) (e.start + 360 + 8)
  pub i8 : Insn m e.start 8 (e.start + 336) (e.start + 336)
  pub i9 : Insn m e.start 9 (e.start + 336 + 8) (e.start + 336 + 8)
  pub i10 : Insn m e.start 10 e.dv e.t1
  pub i11 : Insn m e.start 11 e.t1 (e.start + 360 + 8)
  pub i12 : Insn m e.start 12 e.t1 (e.start + 336)
  pub i13 : Insn m e.start 13 e.t1 (e.start + 336 + 8)
  pub first15 : readram m (e.start + 24 * 15) ≡ e.t2
  pub i16_i17 :
      (Insn m e.start 16 e.mv e.sv × Insn m e.start 17 e.mv e.dv)
      ⊎ (Insn m e.start 16 e.mv e.dv × Insn m e.start 17 e.mv e.sv)
  pub i18 : Insn m e.start 18 e.mv e.cv
  pub on : (k : ℕ) → k < 18 → readram m (e.start + 24 * k + 16) ≡ e.start + 24 * k + 24
  pub back : readram m (e.start + 24 * 18 + 16) ≡ e.start

-- The words that a pass writes, but for the word copied to.
abbrev pub own_cells : Desc → List ℕ
own_cells e =
    e.t1
    ∷ e.t2
    ∷ (e.start + 120)
    ∷ (e.start + 360 + 8)
    ∷ (e.start + 336)
    ∷ (e.start + 336 + 8)
    ∷ e.sv
    ∷ e.dv
    ∷ e.cv
    ∷ []

-- The pointers, the mask and the variables are such that nothing written is read as something else.
pub record IsPlaced (m : Ram) (e : Desc) : Type 0 where
  pub code_end : e.start + 19 * 24 < two64
  pub apart : AreApart e
  pub source : All (λ k. Apart k (readram m e.sv)) (own_cells e)
  pub dest : All (λ k. Apart k (readram m e.dv)) (own_cells e)
  pub dest_loop : (readram m e.dv + 8 ≤ e.start) ⊎ (e.start + 19 * 24 ≤ readram m e.dv)
  pub dest_mv : Apart (readram m e.dv) e.mv
  pub mask : readram m e.mv ≡ two64 - 8
  pub source_end : readram m e.sv + 8 < two64
  pub dest_end : readram m e.dv + 8 < two64

-- The word at `q` is one of the loop that it does not write.
abbrev pub IsCode : ℕ → ℕ → Type 0
IsCode start q =
    (start ≤ q)
    × ((q + 8 ≤ start + 120) ⊎ (start + 128 ≤ q))
    × ((q + 8 ≤ start + 336) ⊎ (start + 352 ≤ q))
    × ((q + 8 ≤ start + 368) ⊎ (start + 376 ≤ q))
    × (q + 8 ≤ start + 456)

module _ (m : Ram) (e : Desc) (bytes : IsBytes m) (loop : IsLoop m e) (placed : IsPlaced m e) where
  abbrev pub s : ℕ
  s = readram m e.sv

  abbrev pub d : ℕ
  d = readram m e.dv

  abbrev pub c : ℕ
  c = readram m e.cv

  abbrev pub w : ℕ
  w = readram m s

  abbrev pointers : List ℕ
  pointers = e.sv ∷ e.dv ∷ e.cv ∷ []

  abbrev pub cells : List ℕ
  cells = own_cells e

  abbrev pub all_cells : List ℕ
  all_cells = d ∷ own_cells e

  abbrev pub apart : AreApart e
  apart = placed.apart

  -- A variable outside the loop, before the loop's fields and what follows them.
  before_fields :
      (v : ℕ) (ks : List ℕ)
      → (v + 8 ≤ e.start) ⊎ (e.start + 19 * 24 ≤ v)
      → All (λ k. Apart v k) ks
      → All
          (λ k. Apart v k)
          ((e.start + 120) ∷ (e.start + 360 + 8) ∷ (e.start + 336) ∷ (e.start + 336 + 8) ∷ ks)
  before_fields v ks out h =
      (ground (arith, out), (ground (arith, out), (ground (arith, out), (ground (arith, out), h))))

  -- A field of the loop, before the variables.
  before_pointers : (q : ℕ) → e.start ≤ q → q + 8 ≤ e.start + 456 → All (λ k. Apart q k) pointers
  before_pointers q lo hi = (
    ground (arith, apart.sv_out),
    (ground (arith, apart.dv_out), (ground (arith, apart.cv_out), tt)),
  )

  pub cells-Pairwise : Pairwise cells
  cells-Pairwise = (
    (
      apart.t1_t2,
      before_fields e.t1 pointers apart.t1_out (apart.t1_sv, (apart.t1_dv, (apart.t1_cv, tt))),
    ),
    (
      before_fields e.t2 pointers apart.t2_out (apart.t2_sv, (apart.t2_dv, (apart.t2_cv, tt))),
      (
        (
          inr (omega arith),
          (
            inr (omega arith),
            (inr (omega arith), before_pointers (e.start + 120) (omega arith) (omega arith)),
          ),
        ),
        (
          (
            inl (omega arith),
            (inl (omega arith), before_pointers (e.start + 360 + 8) (omega arith) (omega arith)),
          ),
          (
            (inr (omega arith), before_pointers (e.start + 336) (omega arith) (omega arith)),
            (
              before_pointers (e.start + 336 + 8) (omega arith) (omega arith),
              ((apart.sv_dv, (apart.sv_cv, tt)), ((apart.dv_cv, tt), (tt, tt))),
            ),
          ),
        ),
      ),
    ),
  )

  swapped : (a : ℕ) (ks : List ℕ) → All (λ k. Apart k a) ks → All (λ k. Apart a k) ks
  swapped a [] h = tt
  swapped a (k ∷ ks) (h, hs) = (ground (arith, h), swapped a ks hs)

  pub all_cells-Pairwise : Pairwise all_cells
  all_cells-Pairwise = (swapped d cells placed.dest, cells-Pairwise)

  pub code_away : (q : ℕ) → IsCode e.start q → All (λ k. Apart k q) all_cells
  code_away q (o0, o1, o2, o3, o4) = (
    ground (arith, placed.dest_loop),
    (
      ground (arith, apart.t1_out),
      (
        ground (arith, apart.t2_out),
        (
          ground (arith, o1),
          (
            ground (arith, o3),
            (
              ground (arith, o2),
              (
                ground (arith, o2),
                (
                  ground (arith, apart.sv_out),
                  (ground (arith, apart.dv_out), (ground (arith, apart.cv_out), tt)),
                ),
              ),
            ),
          ),
        ),
      ),
    ),
  )

  pub mask_away : All (λ k. Apart k e.mv) all_cells
  mask_away = (
    placed.dest_mv,
    (
      apart.t1_mv,
      (
        apart.t2_mv,
        (
          ground (arith, apart.mv_out),
          (
            ground (arith, apart.mv_out),
            (
              ground (arith, apart.mv_out),
              (ground (arith, apart.mv_out), (apart.sv_mv, (apart.dv_mv, (apart.cv_mv, tt)))),
            ),
          ),
        ),
      ),
    ),
  )

  pub at_start : At m cells e.start 0 (
      readram m e.t1
      ∷ readram m e.t2
      ∷ readram m (e.start + 120)
      ∷ readram m (e.start + 360 + 8)
      ∷ readram m (e.start + 336)
      ∷ readram m (e.start + 336 + 8)
      ∷ s
      ∷ d
      ∷ c
      ∷ [])
  at_start = record {
    x = m;
    runs = ap (λ n. (m, n)) (omega arith);
    holds = record {
      words = (refl, (refl, (refl, (refl, (refl, (refl, (refl, (refl, (refl, tt)))))))));
      rest = λ q o. refl;
      bytes = bytes;
    };
  }

  module _ (cs : List ℕ) (p : Pairwise cs)
      (away : (q : ℕ) → IsCode e.start q → All (λ k. Apart k q) cs) where
    pub known :
        (vs : List ℕ) (q v : ℕ)
        → IsCode e.start q
        → readram m q ≡ v
        → (x : Ram) → Holds m cs vs x
        → readram x q ≡ v
    known vs q v o h x holds = Holds-readram m cs x vs q holds (away q o) ∙ h

    -- Instruction `k`, with operands that the loop does not change.
    pub still :
        (vs : List ℕ) (k j a va v : ℕ)
        → (k < 5) ⊎ (((5 < k) × (k < 14)) ⊎ ((15 < k) × (k < 18)))
        → j < length cs
        → j < length vs
        → At m cs e.start k vs
        → Insn m e.start k a (get_or cs j 0)
        → ((x : Ram) → Holds m cs vs x → readram x a ≡ va)
        → sub64 (get_or vs j 0) va ≡ v
        → At m cs e.start (suc k) (set_at j v vs)
    still vs k j a va v which jc jv before insn =
        advance m cs p e.start k vs j a va v (omega (arith, placed.code_end, which)) jc jv before
          (known vs (e.start + 24 * k) a (ground (arith, which)) insn.first)
          (known vs (e.start + 24 * k + 8) (get_or cs j 0) (ground (arith, which)) insn.second)
          (known vs (e.start + 24 * k + 16) (e.start + 24 * k + 24) (ground (arith, which))
            (loop.on k (omega (arith, which))))
