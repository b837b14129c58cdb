-- ===== src/Jit/Copy/Steps.antt =====
-- The first fourteen instructions of a pass: they write no word but variables and the loop's fields.
use subleq_emu.Prelude.{
  ℕ, ◌+◌, ◌*◌, ◌<◌, ◌≡◌, refl, inl, inr, arith, List, [], ◌∷◌, two64, sub64, All, get_or, length,
}
use subleq_emu.Ram.{Ram, readram}
use subleq_emu.Ram.Words.{IsBytes, readram-lt}
use subleq_emu.Jit.Copy.{Desc}
use subleq_emu.Jit.Copy.Iterate.{Apart}
use subleq_emu.Jit.Copy.Exec.{Holds, Holds-readram, Words_at, At, advance}
use subleq_emu.Jit.Copy.Pass
use subleq_emu.Jit.Copy.Pass.{IsLoop, IsPlaced, IsCode, Insn, own_cells}

module _ (m : Ram) (e : Desc) (bytes : IsBytes m) (loop : IsLoop m e) (placed : IsPlaced m e) where
  abbrev s : ℕ
  s = readram m e.sv

  abbrev d : ℕ
  d = readram m e.dv

  abbrev c : ℕ
  c = readram m e.cv

  abbrev w : ℕ
  w = readram m s

  abbrev cells : List ℕ
  cells = own_cells e

  abbrev pub values : ℕ → ℕ → ℕ → ℕ → ℕ → ℕ → List ℕ
  values t1 t2 f1 f2 f3 f4 = t1 ∷ t2 ∷ f1 ∷ f2 ∷ f3 ∷ f4 ∷ s ∷ d ∷ c ∷ []

  pub s_small : s < two64
  s_small = readram-lt m e.sv

  pub d_small : d < two64
  d_small = readram-lt m e.dv

  pub w_small : w < two64
  w_small = readram-lt m s

  own_away : (q : ℕ) → IsCode e.start q → All (λ k. Apart k q) cells
  own_away q o = (Pass.code_away m e bytes loop placed q o).1

  own_cell :
      (vs : List ℕ) (i : ℕ)
      → i < length cells
      → i < length vs
      → (x : Ram) → Holds m cells vs x
      → readram x (get_or cells i 0) ≡ get_or vs i 0
  own_cell vs i ic iv x h = Words_at x cells vs i ic iv h.words

  after1 : At m cells e.start 1 (
      values 0
        (readram m e.t2)
        (readram m (e.start + 120))
        (readram m (e.start + 360 + 8))
        (readram m (e.start + 336))
        (readram m (e.start + 336 + 8)))
  after1 =
      Pass.still m e bytes loop placed cells (Pass.cells-Pairwise m e bytes loop placed) own_away
        (values (readram m e.t1) (readram m e.t2) (readram m (e.start + 120))
          (readram m (e.start + 360 + 8)) (readram m (e.start + 336))
          (readram m (e.start + 336 + 8)))
        0 0 e.t1 (readram m e.t1) 0 (inl (omega arith)) (omega arith) (omega arith)
        (Pass.at_start m e bytes loop placed) loop.i0
        (own_cell
          (values (readram m e.t1) (readram m e.t2) (readram m (e.start + 120))
            (readram m (e.start + 360 + 8)) (readram m (e.start + 336))
            (readram m (e.start + 336 + 8)))
          0 (omega arith) (omega arith))
        (omega (arith, s_small, d_small))

  after2 : At m cells e.start 2 (
      values 0 0
        (readram m (e.start + 120))
        (readram m (e.start + 360 + 8))
        (readram m (e.start + 336))
        (readram m (e.start + 336 + 8)))
  after2 =
      Pass.still m e bytes loop placed cells (Pass.cells-Pairwise m e bytes loop placed) own_away
        (values 0 (readram m e.t2) (readram m (e.start + 120)) (readram m (e.start + 360 + 8))
          (readram m (e.start + 336)) (readram m (e.start + 336 + 8)))
        1 1 e.t2 (readram m e.t2) 0 (inl (omega arith)) (omega arith) (omega arith) after1 loop.i1
        (own_cell
          (values 0 (readram m e.t2) (readram m (e.start + 120)) (readram m (e.start + 360 + 8))
            (readram m (e.start + 336)) (readram m (e.start + 336 + 8)))
          1 (omega arith) (omega arith))
        (omega (arith, s_small, d_small))

  after3 : At m cells e.start 3 (
      values 0 0 0
        (readram m (e.start + 360 + 8))
        (readram m (e.start + 336))
        (readram m (e.start + 336 + 8)))
  after3 =
      Pass.still m e bytes loop placed cells (Pass.cells-Pairwise m e bytes loop placed) own_away
        (values 0 0 (readram m (e.start + 120)) (readram m (e.start + 360 + 8))
          (readram m (e.start + 336)) (readram m (e.start + 336 + 8)))
        2 2 (e.start + 120) (readram m (e.start + 120)) 0 (inl (omega arith)) (omega arith)
        (omega arith) after2 loop.i2
        (own_cell
          (values 0 0 (readram m (e.start + 120)) (readram m (e.start + 360 + 8))
            (readram m (e.start + 336)) (readram m (e.start + 336 + 8)))
          2 (omega arith) (omega arith))
        (omega (arith, s_small, d_small))

  after4 : At m cells e.start 4 (
      values
        (sub64 0 s)
        0
        0
        (readram m (e.start + 360 + 8))
        (readram m (e.start + 336))
        (readram m (e.start + 336 + 8)))
  after4 =
      Pass.still m e bytes loop placed cells (Pass.cells-Pairwise m e bytes loop placed) own_away
        (values 0 0 0 (readram m (e.start + 360 + 8)) (readram m (e.start + 336))
          (readram m (e.start + 336 + 8)))
        3 0 e.sv s (sub64 0 s) (inl (omega arith)) (omega arith) (omega arith) after3 loop.i3
        (own_cell
          (values 0 0 0 (readram m (e.start + 360 + 8)) (readram m (e.start + 336))
            (readram m (e.start + 336 + 8)))
          6 (omega arith) (omega arith))
        (omega (arith, s_small, d_small))

  after5 : At m cells e.start 5 (
      values
        (sub64 0 s)
        0
        s
        (readram m (e.start + 360 + 8))
        (readram m (e.start + 336))
        (readram m (e.start + 336 + 8)))
  after5 =
      Pass.still m e bytes loop placed cells (Pass.cells-Pairwise m e bytes loop placed) own_away
        (values (sub64 0 s) 0 0 (readram m (e.start + 360 + 8)) (readram m (e.start + 336))
          (readram m (e.start + 336 + 8)))
        4 2 e.t1 (sub64 0 s) s (inl (omega arith)) (omega arith) (omega arith) after4 loop.i4
        (own_cell
          (values (sub64 0 s) 0 0 (readram m (e.start + 360 + 8)) (readram m (e.start + 336))
            (readram m (e.start + 336 + 8)))
          0 (omega arith) (omega arith))
        (omega (arith, s_small, d_small))

  after6 : At m cells e.start 6 (
      values
        (sub64 0 s)
        (sub64 0 w)
        s
        (readram m (e.start + 360 + 8))
        (readram m (e.start + 336))
        (readram m (e.start + 336 + 8)))
  after6 =
      advance m cells (Pass.cells-Pairwise m e bytes loop placed) e.start 5
        (values (sub64 0 s) 0 s (readram m (e.start + 360 + 8)) (readram m (e.start + 336))
          (readram m (e.start + 336 + 8)))
        1 s w (sub64 0 w) (omega (arith, placed.code_end)) (omega arith) (omega arith) after5
        (own_cell
          (values (sub64 0 s) 0 s (readram m (e.start + 360 + 8)) (readram m (e.start + 336))
            (readram m (e.start + 336 + 8)))
          2 (omega arith) (omega arith))
        (Pass.known m e bytes loop placed cells (Pass.cells-Pairwise m e bytes loop placed) own_away
          (values (sub64 0 s) 0 s (readram m (e.start + 360 + 8)) (readram m (e.start + 336))
            (readram m (e.start + 336 + 8)))
          (e.start + 24 * 5 + 8) e.t2 (ground arith) loop.second5)
        (Pass.known m e bytes loop placed cells (Pass.cells-Pairwise m e bytes loop placed) own_away
          (values (sub64 0 s) 0 s (readram m (e.start + 360 + 8)) (readram m (e.start + 336))
            (readram m (e.start + 336 + 8)))
          (e.start + 24 * 5 + 16) (e.start + 24 * 5 + 24) (ground arith) (loop.on 5 (omega arith)))
        (λ x h.
          Holds-readram m cells x
            (values (sub64 0 s) 0 s (readram m (e.start + 360 + 8)) (readram m (e.start + 336))
              (readram m (e.start + 336 + 8)))
            s h placed.source)
        refl

  after7 : At m cells e.start 7 (
      values 0
        (sub64 0 w)
        s
        (readram m (e.start + 360 + 8))
        (readram m (e.start + 336))
        (readram m (e.start + 336 + 8)))
  after7 =
      Pass.still m e bytes loop placed cells (Pass.cells-Pairwise m e bytes loop placed) own_away
        (values (sub64 0 s) (sub64 0 w) s (readram m (e.start + 360 + 8))
          (readram m (e.start + 336)) (readram m (e.start + 336 + 8)))
        6 0 e.t1 (sub64 0 s) 0 (inr (inl (omega arith, omega arith))) (omega arith) (omega arith)
        after6 loop.i6
        (own_cell
          (values (sub64 0 s) (sub64 0 w) s (readram m (e.start + 360 + 8))
            (readram m (e.start + 336)) (readram m (e.start + 336 + 8)))
          0 (omega arith) (omega arith))
        (omega (arith, s_small, d_small))

  after8 :
      At m cells e.start 8
        (values 0 (sub64 0 w) s 0 (readram m (e.start + 336)) (readram m (e.start + 336 + 8)))
  after8 =
      Pass.still m e bytes loop placed cells (Pass.cells-Pairwise m e bytes loop placed) own_away
        (values 0 (sub64 0 w) s (readram m (e.start + 360 + 8)) (readram m (e.start + 336))
          (readram m (e.start + 336 + 8)))
        7 3 (e.start + 360 + 8) (readram m (e.start + 360 + 8)) 0
        (inr (inl (omega arith, omega arith))) (omega arith) (omega arith) after7 loop.i7
        (own_cell
          (values 0 (sub64 0 w) s (readram m (e.start + 360 + 8)) (readram m (e.start + 336))
            (readram m (e.start + 336 + 8)))
          3 (omega arith) (omega arith))
        (omega (arith, s_small, d_small))

  after9 : At m cells e.start 9 (values 0 (sub64 0 w) s 0 0 (readram m (e.start + 336 + 8)))
  after9 =
      Pass.still m e bytes loop placed cells (Pass.cells-Pairwise m e bytes loop placed) own_away
        (values 0 (sub64 0 w) s 0 (readram m (e.start + 336)) (readram m (e.start + 336 + 8))) 8 4
        (e.start + 336) (readram m (e.start + 336)) 0 (inr (inl (omega arith, omega arith)))
        (omega arith) (omega arith) after8 loop.i8
        (own_cell
          (values 0 (sub64 0 w) s 0 (readram m (e.start + 336)) (readram m (e.start + 336 + 8))) 4
          (omega arith) (omega arith))
        (omega (arith, s_small, d_small))

  after10 : At m cells e.start 10 (values 0 (sub64 0 w) s 0 0 0)
  after10 =
      Pass.still m e bytes loop placed cells (Pass.cells-Pairwise m e bytes loop placed) own_away
        (values 0 (sub64 0 w) s 0 0 (readram m (e.start + 336 + 8))) 9 5 (e.start + 336 + 8)
        (readram m (e.start + 336 + 8)) 0 (inr (inl (omega arith, omega arith))) (omega arith)
        (omega arith) after9 loop.i9
        (own_cell (values 0 (sub64 0 w) s 0 0 (readram m (e.start + 336 + 8))) 5 (omega arith)
          (omega arith))
        (omega (arith, s_small, d_small))

  after11 : At m cells e.start 11 (values (sub64 0 d) (sub64 0 w) s 0 0 0)
  after11 =
      Pass.still m e bytes loop placed cells (Pass.cells-Pairwise m e bytes loop placed) own_away
        (values 0 (sub64 0 w) s 0 0 0) 10 0 e.dv d (sub64 0 d)
        (inr (inl (omega arith, omega arith))) (omega arith) (omega arith) after10 loop.i10
        (own_cell (values 0 (sub64 0 w) s 0 0 0) 7 (omega arith) (omega arith))
        (omega (arith, s_small, d_small))

  after12 : At m cells e.start 12 (values (sub64 0 d) (sub64 0 w) s d 0 0)
  after12 =
      Pass.still m e bytes loop placed cells (Pass.cells-Pairwise m e bytes loop placed) own_away
        (values (sub64 0 d) (sub64 0 w) s 0 0 0) 11 3 e.t1 (sub64 0 d) d
        (inr (inl (omega arith, omega arith))) (omega arith) (omega arith) after11 loop.i11
        (own_cell (values (sub64 0 d) (sub64 0 w) s 0 0 0) 0 (omega arith) (omega arith))
        (omega (arith, s_small, d_small))

  after13 : At m cells e.start 13 (values (sub64 0 d) (sub64 0 w) s d d 0)
  after13 =
      Pass.still m e bytes loop placed cells (Pass.cells-Pairwise m e bytes loop placed) own_away
        (values (sub64 0 d) (sub64 0 w) s d 0 0) 12 4 e.t1 (sub64 0 d) d
        (inr (inl (omega arith, omega arith))) (omega arith) (omega arith) after12 loop.i12
        (own_cell (values (sub64 0 d) (sub64 0 w) s d 0 0) 0 (omega arith) (omega arith))
        (omega (arith, s_small, d_small))

  pub after14 : At m cells e.start 14 (values (sub64 0 d) (sub64 0 w) s d d d)
  after14 =
      Pass.still m e bytes loop placed cells (Pass.cells-Pairwise m e bytes loop placed) own_away
        (values (sub64 0 d) (sub64 0 w) s d d 0) 13 5 e.t1 (sub64 0 d) d
        (inr (inl (omega arith, omega arith))) (omega arith) (omega arith) after13 loop.i13
        (own_cell (values (sub64 0 d) (sub64 0 w) s d d 0) 0 (omega arith) (omega arith))
        (omega (arith, s_small, d_small))
