-- ===== src/Jit/Copy/Turn.antt =====
-- A pass of the loop to its end: the word copied, the pointers and the counter moved, and the branch.
use subleq_emu.Prelude.{
  ℕ, suc, ◌+◌, ◌-◌, ◌*◌, ◌<◌, ◌≡◌, refl, ap, ap₂, ◌∙◌, inl, inr, arith, List, [], ◌∷◌, two64, add64,
  sub64, get_or, length, not, signed_le, if◌then◌else◌, Bool, true, false,
}
use subleq_emu.Ram.{Ram, readram, writeram}
use subleq_emu.Ram.Words.{IsBytes, readram-lt}
use subleq_emu.Subleq.{interp_cycle, jumps_if_greater}
use subleq_emu.Subleq.Agree.{cycles, jumps_if_greater_lem}
use subleq_emu.Jit.Copy.{Desc}
use subleq_emu.Jit.Copy.Iterate.{iteration}
use subleq_emu.Jit.Copy.Exec.{
  Words_at, Pairwise, set_at, Holds, Holds-readram, Holds-writeram, Holds-unique, At, advance,
  cycles-suc, interp_cycle_lem,
}
use subleq_emu.Jit.Copy.Pass
use subleq_emu.Jit.Copy.Pass.{IsLoop, IsPlaced, IsCode, Insn, own_cells}
use subleq_emu.Jit.Copy.Steps

module _ (m : Ram) (e : Desc) (bytes : IsBytes m) (loop : IsLoop m e) (placed : IsPlaced m e) where
  abbrev s : ℕ
  s = readram m e.sv

  abbrev d : ℕ
  d = readram m e.dv

  abbrev c : ℕ
  c = readram m e.cv

  abbrev w : ℕ
  w = readram m s

  abbrev cells : List ℕ
  cells = d ∷ own_cells e

  -- The word copied to, and the variables and fields behind the first 14 instructions.
  abbrev worked : ℕ → ℕ → ℕ → ℕ → List ℕ
  worked at_d sv dv cv = at_d ∷ sub64 0 d ∷ sub64 0 w ∷ s ∷ d ∷ d ∷ d ∷ sv ∷ dv ∷ cv ∷ []

  pairwise : Pairwise cells
  pairwise = Pass.all_cells-Pairwise m e bytes loop placed

  known :
      (vs : List ℕ) (q v : ℕ)
      → IsCode e.start q
      → readram m q ≡ v
      → (x : Ram) → Holds m cells vs x
      → readram x q ≡ v
  known = Pass.known m e bytes loop placed cells pairwise (Pass.code_away m e bytes loop placed)

  own_cell :
      (vs : List ℕ) (i : ℕ)
      → i < length cells
      → i < length vs
      → (x : Ram) → Holds m cells vs x
      → readram x (get_or cells i 0) ≡ get_or vs i 0
  own_cell vs i ic iv x h = Words_at x cells vs i ic iv h.words

  after14 :
      At m cells e.start 14 (readram m d ∷ sub64 0 d ∷ sub64 0 w ∷ s ∷ d ∷ d ∷ d ∷ s ∷ d ∷ c ∷ [])
  after14 =
      let before = Steps.after14 m e bytes loop placed in
      record {
        x = before.x;
        runs = before.runs;
        holds = record {
          words = (
            Holds-readram m (own_cells e) before.x _ d before.holds placed.dest,
            before.holds.words,
          );
          rest = λ q o. before.holds.rest q o.1;
          bytes = before.holds.bytes;
        };
      }

  after15 : At m cells e.start 15 (worked 0 s d c)
  after15 =
      advance m cells pairwise e.start 14 (worked (readram m d) s d c) 0 d (readram m d) 0
        (omega (arith, placed.code_end)) (omega arith) (omega arith) after14
        (own_cell (worked (readram m d) s d c) 5 (omega arith) (omega arith))
        (own_cell (worked (readram m d) s d c) 6 (omega arith) (omega arith))
        (known (worked (readram m d) s d c) (e.start + 24 * 14 + 16) (e.start + 24 * 14 + 24)
          (ground arith) (loop.on 14 (omega arith)))
        (own_cell (worked (readram m d) s d c) 0 (omega arith) (omega arith)) (omega arith)

  after16 : At m cells e.start 16 (worked w s d c)
  after16 =
      advance m cells pairwise e.start 15 (worked 0 s d c) 0 e.t2 (sub64 0 w) w
        (omega (arith, placed.code_end)) (omega arith) (omega arith) after15
        (known (worked 0 s d c) (e.start + 24 * 15) e.t2 (ground arith) loop.first15)
        (own_cell (worked 0 s d c) 4 (omega arith) (omega arith))
        (known (worked 0 s d c) (e.start + 24 * 15 + 16) (e.start + 24 * 15 + 24) (ground arith)
          (loop.on 15 (omega arith)))
        (own_cell (worked 0 s d c) 2 (omega arith) (omega arith)) (omega (arith, readram-lt m s))

  -- The mask is -8, so that an instruction that takes it away adds 8.
  masked : (vs : List ℕ) (x : Ram) → Holds m cells vs x → readram x e.mv ≡ two64 - 8
  masked vs x h =
      Holds-readram m cells x vs e.mv h (Pass.mask_away m e bytes loop placed) ∙ placed.mask

  bump :
      (vs : List ℕ) (k j v : ℕ)
      → (15 < k) × (k < 18)
      → j < length cells
      → j < length vs
      → At m cells e.start k vs
      → Insn m e.start k e.mv (get_or cells j 0)
      → sub64 (get_or vs j 0) (two64 - 8) ≡ v
      → At m cells e.start (suc k) (set_at j v vs)
  bump vs k j v which jc jv before insn =
      Pass.still m e bytes loop placed cells pairwise (Pass.code_away m e bytes loop placed) vs k j
        e.mv (two64 - 8) v (inr (inr which)) jc jv before insn (masked vs)

  s_moves : sub64 s (two64 - 8) ≡ s + 8
  s_moves = omega (arith, placed.source_end, readram-lt m e.sv)

  d_moves : sub64 d (two64 - 8) ≡ d + 8
  d_moves = omega (arith, placed.dest_end, readram-lt m e.dv)

  after18 : At m cells e.start 18 (worked w (s + 8) (d + 8) c)
  after18 = elim loop.i16_i17 [
    | inl (a, b) ↦
        bump (worked w (s + 8) d c) 17 8 (d + 8) (omega arith, omega arith) (omega arith)
          (omega arith)
          (bump (worked w s d c) 16 7 (s + 8) (omega arith, omega arith) (omega arith) (omega arith)
            after16 a s_moves)
          b d_moves
    | inr (a, b) ↦
        bump (worked w s (d + 8) c) 17 7 (s + 8) (omega arith, omega arith) (omega arith)
          (omega arith)
          (bump (worked w s d c) 16 8 (d + 8) (omega arith, omega arith) (omega arith) (omega arith)
            after16 a d_moves)
          b s_moves
  ]

  -- Where the last instruction goes.
  abbrev pub goes : ℕ
  goes = if signed_le c (two64 - 8) then e.start else e.start + 19 * 24

  record Passed : Type 0 where
    x : Ram
    runs : cycles 19 (m, e.start) ≡ (x, goes)
    holds : Holds m cells (worked w (s + 8) (d + 8) (add64 c 8)) x

  passed : Passed
  passed =
      let vs = worked w (s + 8) (d + 8) c in
      let x = after18.x in
      let h = after18.holds in
      let one =
        interp_cycle_lem x (e.start + 24 * 18) e.mv e.cv (two64 - 8) c
          (omega (arith, placed.code_end))
          (known vs (e.start + 24 * 18) e.mv (ground arith) loop.i18.first x h)
          (known vs (e.start + 24 * 18 + 8) e.cv (ground arith) loop.i18.second x h) (masked vs x h)
          (own_cell vs 9 (omega arith) (omega arith) x h) in
      let back = known vs (e.start + 24 * 18 + 16) e.start (ground arith) loop.back x h in
      let adds : sub64 c (two64 - 8) ≡ add64 c 8 = omega (arith, readram-lt m e.cv) in
      let branch : (if jumps_if_greater c (two64 - 8)
            then e.start + 24 * 18 + 24
            else readram x (e.start + 24 * 18 + 16))
          ≡ goes =
        rw (jumps_if_greater_lem c (two64 - 8) (readram-lt m e.cv) (omega arith), back)
          (end_of (signed_le c (two64 - 8))) in
      record {
        x = writeram x e.cv (add64 c 8);
        runs =
            cycles-suc 18 (m, e.start)
            ∙ ap interp_cycle after18.runs
            ∙ one
            ∙ ap₂ (λ v n. (writeram x e.cv v, n)) adds branch;
        holds = Holds-writeram m cells pairwise x vs 9 (add64 c 8) (omega arith) (omega arith) h;
      }
    where
      end_of :
          (t : Bool)
          → (if not t then e.start + 24 * 18 + 24 else e.start)
            ≡ (if t then e.start else e.start + 19 * 24)
      end_of true = refl
      end_of false = omega arith

  put :
      (x : Ram) (vs : List ℕ) (j v : ℕ)
      → v < two64
      → j < length cells
      → Holds m cells vs x
      → Holds m cells (set_at j v vs) (writeram x (get_or cells j 0) v)
  put x vs j v b lt h = Holds-writeram m cells pairwise x vs j v b lt h

  at_first :
      Holds m cells
        (readram m d
          ∷ readram m e.t1
          ∷ readram m e.t2
          ∷ readram m (e.start + 120)
          ∷ readram m (e.start + 360 + 8)
          ∷ readram m (e.start + 336)
          ∷ readram m (e.start + 336 + 8)
          ∷ s
          ∷ d
          ∷ c
          ∷ [])
        m
  at_first = record {
    words = (refl, (refl, (refl, (refl, (refl, (refl, (refl, (refl, (refl, (refl, tt))))))))));
    rest = λ q o. refl;
    bytes = bytes;
  }

  iteration-Holds : Holds m cells (worked w (s + 8) (d + 8) (add64 c 8)) (iteration e m)
  unfolding iteration
  iteration-Holds =
      let lt_s : s < two64 = readram-lt m e.sv in
      let lt_d : d < two64 = readram-lt m e.dv in
      let h0 = put _ _ 0 w (readram-lt m s) (omega arith) at_first in
      let h1 = put _ _ 7 (s + 8) placed.source_end (omega arith) h0 in
      let h2 = put _ _ 8 (d + 8) placed.dest_end (omega arith) h1 in
      let h3 = put _ _ 9 (add64 c 8) (omega arith) (omega arith) h2 in
      let h4 = put _ _ 1 (sub64 0 d) (omega arith) (omega arith) h3 in
      let h5 = put _ _ 2 (sub64 0 w) (omega arith) (omega arith) h4 in
      let h6 = put _ _ 3 s lt_s (omega arith) h5 in
      let h7 = put _ _ 5 d lt_d (omega arith) h6 in
      let h8 = put _ _ 6 d lt_d (omega arith) h7 in put _ _ 4 d lt_d (omega arith) h8

  -- The nineteen instructions do what `iteration` does, and go back while the counter was at most -8.
  pub cycles-iteration : cycles 19 (m, e.start) ≡ (iteration e m, goes)
  cycles-iteration =
      passed.runs
      ∙ ap (λ x. (x, goes))
          (Holds-unique m cells (worked w (s + 8) (d + 8) (add64 c 8)) passed.x (iteration e m)
            (omega arith) passed.holds iteration-Holds)
