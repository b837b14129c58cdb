-- ===== src/Jit/Copy/Runs.antt =====
-- Many passes of the loop: the instructions of all of them, against what `jit_copy` writes at once.
use subleq_emu.Prelude.{
  ℕ, zero, suc, ◌+◌, ◌-◌, ◌*◌, ◌≤◌, ◌<◌, ◌≡◌, refl, sym, ap, ap₂, subst, ◌∙◌, ◌⊎◌, inl, inr, arith,
  two64, All, not, signed_le, if◌then◌else◌, Bool, true, false, ◌==◌,
}
use subleq_emu.Ram.{Ram, readram}
use subleq_emu.Ram.Words.{IsBytes, readram-lt, readram_ext}
use subleq_emu.Memory.Copy.{in_range}
use subleq_emu.Subleq.{State}
use subleq_emu.Subleq.Agree.{cycles}
use subleq_emu.Jit.Copy.{Desc, run_copy, iterations}
use subleq_emu.Jit.Copy.Iterate.{Apart, IsOutside, AreApart, written}
use subleq_emu.Jit.Copy.Pass.{IsLoop, IsPlaced, IsCode, Insn, own_cells}
use subleq_emu.Jit.Copy.Refine
use subleq_emu.Jit.Copy.Refine.{IsRoutine, AreFree, After, signed_le-iterations}
use subleq_emu.Jit.Copy.Turn.{cycles-iteration}

cycles-add : (a b : ℕ) (s : State) → cycles (a + b) s ≡ cycles b (cycles a s)
cycles-add zero b s = let none : 0 + b ≡ b = omega arith in ap (λ n. cycles n s) none
cycles-add (suc a) b s =
    let front : suc a + b ≡ suc (a + b) = omega arith in
    ap (λ n. cycles n s) front ∙ cycles-add a b _

one-Apart : (a k : ℕ) → IsOutside a k → IsOutside (a + 7) k → Apart k a
one-Apart a k h g = ground arith

-- A word of which no byte is in a cell.
word-Apart :
    (e : Desc) (a : ℕ)
    → ((q : ℕ) → a ≤ q → q < a + 8 → All (IsOutside q) (written e))
    → All (λ k. Apart k a) (own_cells e)
word-Apart e a h =
    let (l1, (l2, (l3, (l4, (l5, (l6, (l7, (l8, (l9, _))))))))) = h a (omega arith) (omega arith) in
    let (r1, (r2, (r3, (r4, (r5, (r6, (r7, (r8, (r9, _))))))))) =
      h (a + 7) (omega arith) (omega arith) in
    (
      one-Apart a _ l4 r4,
      (
        one-Apart a _ l5 r5,
        (
          one-Apart a _ l6 r6,
          (
            one-Apart a _ l9 r9,
            (
              one-Apart a _ l7 r7,
              (
                one-Apart a _ l8 r8,
                (one-Apart a _ l1 r1, (one-Apart a _ l2 r2, (one-Apart a _ l3 r3, tt))),
              ),
            ),
          ),
        ),
      ),
    )

module _ (copy_fn : Ram → ℕ → ℕ → ℕ → Ram) (routine : IsRoutine copy_fn) (e : Desc)
    (apart : AreApart e) (m : Ram) (bytes : IsBytes m) where
  abbrev s : ℕ
  s = readram m e.sv

  abbrev d : ℕ
  d = readram m e.dv

  abbrev c : ℕ
  c = readram m e.cv

  module _ (total : ℕ) (free : AreFree e s d total) (code_end : e.start + 19 * 24 < two64)
      (mask : readram m e.mv ≡ two64 - 8) (loop : IsLoop m e) (k : ℕ) (x : Ram) (le : suc k ≤ total)
      (a : After copy_fn routine e apart m bytes k x) where
    -- A word that no pass has written.
    same :
        (q : ℕ)
        → ((p : ℕ) → q ≤ p → p < q + 8 → All (IsOutside p) (written e))
        → (d + 8 * total ≤ q) ⊎ (q + 8 ≤ d)
        → readram x q ≡ readram m q
    same q out away = readram_ext x m q (λ p lo hi.
        let no : in_range d (8 * k) p ≡ false = ground arith in a.body p (out p lo hi) ∙ rw no refl)

    code_same : (q : ℕ) → IsCode e.start q → readram x q ≡ readram m q
    code_same q (o0, o1, o2, o3, o4) =
        same q
          (λ p lo hi. (
            ground (arith, apart.sv_out),
            (
              ground (arith, apart.dv_out),
              (
                ground (arith, apart.cv_out),
                (
                  ground (arith, apart.t1_out),
                  (
                    ground (arith, apart.t2_out),
                    (
                      ground (arith, o1),
                      (ground (arith, o2), (ground (arith, o2), (ground (arith, o3), tt))),
                    ),
                  ),
                ),
              ),
            ),
          ))
          (ground (arith, free.dest_loop))

    mask_same : readram x e.mv ≡ readram m e.mv
    mask_same =
        same e.mv
          (λ p lo hi. (
            ground (arith, apart.sv_mv),
            (
              ground (arith, apart.dv_mv),
              (
                ground (arith, apart.cv_mv),
                (
                  ground (arith, apart.t1_mv),
                  (
                    ground (arith, apart.t2_mv),
                    (
                      ground (arith, apart.mv_out),
                      (
                        ground (arith, apart.mv_out),
                        (ground (arith, apart.mv_out), (ground (arith, apart.mv_out), tt)),
                      ),
                    ),
                  ),
                ),
              ),
            ),
          ))
          (ground (arith, free.dest_mv))

    insn :
        (i p q : ℕ)
        → (i < 5) ⊎ (((5 < i) × (i < 14)) ⊎ ((15 < i) × (i < 19)))
        → Insn m e.start i p q
        → Insn x e.start i p q
    insn i p q which h = record {
      first = code_same (e.start + 24 * i) (ground (arith, which)) ∙ h.first;
      second = code_same (e.start + 24 * i + 8) (ground (arith, which)) ∙ h.second;
    }

    on_same : (i : ℕ) → i < 18 → readram x (e.start + 24 * i + 16) ≡ e.start + 24 * i + 24
    on_same i lt = code_same (e.start + 24 * i + 16) (ground arith) ∙ loop.on i lt

    pub IsLoop-After : IsLoop x e
    IsLoop-After = record {
      i0 = insn 0 _ _ (omega arith) loop.i0;
      i1 = insn 1 _ _ (omega arith) loop.i1;
      i2 = insn 2 _ _ (omega arith) loop.i2;
      i3 = insn 3 _ _ (omega arith) loop.i3;
      i4 = insn 4 _ _ (omega arith) loop.i4;
      second5 = code_same (e.start + 24 * 5 + 8) (ground arith) ∙ loop.second5;
      i6 = insn 6 _ _ (omega arith) loop.i6;
      i7 = insn 7 _ _ (omega arith) loop.i7;
      i8 = insn 8 _ _ (omega arith) loop.i8;
      i9 = insn 9 _ _ (omega arith) loop.i9;
      i10 = insn 10 _ _ (omega arith) loop.i10;
      i11 = insn 11 _ _ (omega arith) loop.i11;
      i12 = insn 12 _ _ (omega arith) loop.i12;
      i13 = insn 13 _ _ (omega arith) loop.i13;
      first15 = code_same (e.start + 24 * 15) (ground arith) ∙ loop.first15;
      i16_i17 = elim loop.i16_i17 [
        | inl (f, g) ↦ inl (insn 16 _ _ (omega arith) f, insn 17 _ _ (omega arith) g)
        | inr (f, g) ↦ inr (insn 16 _ _ (omega arith) f, insn 17 _ _ (omega arith) g)
      ];
      i18 = insn 18 _ _ (omega arith) loop.i18;
      on = on_same;
      back = code_same (e.start + 24 * 18 + 16) (ground arith) ∙ loop.back;
    }

    pub IsPlaced-After : IsPlaced x e
    IsPlaced-After = record {
      code_end = code_end;
      apart = apart;
      source =
          subst (λ t. All (λ i. Apart i t) (own_cells e)) (sym a.at_s)
            (word-Apart e (s + 8 * k) (λ q lo hi. free.source q (omega arith) (omega arith)));
      dest =
          subst (λ t. All (λ i. Apart i t) (own_cells e)) (sym a.at_d)
            (word-Apart e (d + 8 * k) (λ q lo hi. free.dest q (omega arith) (omega arith)));
      dest_loop = ground (arith, free.dest_loop, a.at_d);
      dest_mv = ground (arith, free.dest_mv, a.at_d);
      mask = mask_same ∙ mask;
      source_end = omega (arith, free.source_end, a.at_s);
      dest_end = omega (arith, free.dest_end, a.at_d);
    }

    back_or_on :
        (b t : Bool)
        → not b ≡ t
        → (if b then e.start else e.start + 19 * 24) ≡ (if t then e.start + 19 * 24 else e.start)
    back_or_on true true h = cc
    back_or_on true false h = refl
    back_or_on false true h = refl
    back_or_on false false h = cc

    pub pass-After :
        total ≤ iterations c
        → cycles 19 (x, e.start) ≡ (
          run_copy copy_fn m e (suc k),
          if suc k == iterations c then e.start + 19 * 24 else e.start,
        )
    pass-After in_all =
        let ends : not (signed_le (readram x e.cv) (two64 - 8)) ≡ (suc k == iterations c) =
          ap (λ v. not (signed_le v (two64 - 8))) a.at_c
          ∙ signed_le-iterations c k (readram-lt m e.cv) (omega arith) in
        cycles-iteration x e a.bytes_after IsLoop-After IsPlaced-After
        ∙ ap₂ (λ (y : Ram) (n : ℕ). (y, n))
            (Refine.step copy_fn routine e apart m bytes total free k x le a)
            (back_or_on (signed_le (readram x e.cv) (two64 - 8)) (suc k == iterations c) ends)

  module _ (total : ℕ) (free : AreFree e s d total) (code_end : e.start + 19 * 24 < two64)
      (mask : readram m e.mv ≡ two64 - 8) (loop : IsLoop m e) (in_all : total ≤ iterations c) where
    -- Each pass runs nineteen instructions, and only the last of all goes on behind the loop.
    pub cycles-run_copy :
        (k : ℕ)
        → suc k ≤ total
        → cycles (19 * suc k) (m, e.start) ≡ (
          run_copy copy_fn m e (suc k),
          if suc k == iterations c then e.start + 19 * 24 else e.start,
        )
    cycles-run_copy zero le =
        pass-After total free code_end mask loop 0 m le
          (Refine.After-start copy_fn routine e apart m bytes) in_all
    cycles-run_copy (suc k) le =
        let one_more : 19 * suc (suc k) ≡ 19 * suc k + 19 = omega arith in
        let goes_on : (suc k == iterations c) ≡ false = ground arith in
        let before : cycles (19 * suc k) (m, e.start) ≡ (run_copy copy_fn m e (suc k), e.start) =
          cycles-run_copy k (omega arith)
          ∙ ap (λ b. (run_copy copy_fn m e (suc k), if b then e.start + 19 * 24 else e.start))
              goes_on in
        ap (λ n. cycles n (m, e.start)) one_more
        ∙ cycles-add (19 * suc k) 19 (m, e.start)
        ∙ ap (cycles 19) before
        ∙ pass-After total free code_end mask loop (suc k) (run_copy copy_fn m e (suc k)) le
            (Refine.After-run_copy copy_fn routine e apart m bytes total free (suc k) (omega arith)
              (omega arith))
            in_all
