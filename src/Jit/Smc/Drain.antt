-- ===== src/Jit/Smc/Drain.antt =====
-- `drain_queue`: afterwards no block is left that covers a queued word.
use subleq_emu.Prelude.{
  ℕ, zero, suc, ◌+◌, ◌*◌, ◌/◌, ◌%◌, ◌≤◌, ◌<◌, ◌≡◌, refl, ◌≢◌, ◌∙◌, sym, ◌⊎◌, inl, inr, true, false,
  some, arith, ◌&&◌, ◌==◌, leb, ltb, Bool-cases,
}
use subleq_emu.Jit.State.{Block, Cpu, queue_len}
use subleq_emu.Jit.Maps.{bit_get}
use subleq_emu.Jit.Cache.{invalidate_word, flush}
use subleq_emu.Jit.Cache.Drop.{view}
use subleq_emu.Jit.Cache.Word.{
  view_bound, view-invalidate_word, invalidate_word-IsSound, view-flush, flush-IsSound,
}
use subleq_emu.Jit.Smc.{is_static, drain, drain_queue}
use subleq_emu.Jit.Smc.Queue.{count, IsPending, SameQueue, invalidate_word-SameQueue}
use subleq_emu.Jit.Smc.Hit.{IsGood, kept, SameCode-view, SameCode-IsSound}

-- What a round of the loop leaves.
abbrev next : Cpu → Cpu
next j = record (invalidate_word j (j.queue j.qhead)) { qhead = (j.qhead + 1) % queue_len }

module _ (map : ℕ → ℕ) (size : ℕ) where
  module _ (j : Cpu) (g : IsGood map size j) (more : (j.qhead == j.qtail) ≡ false) where
    abbrev w : ℕ
    w = j.queue j.qhead

    same : SameQueue j (invalidate_word j w)
    same = invalidate_word-SameQueue j w

    survived :
        (u : ℕ) (b : Block)
        → view (next j) u ≡ some b
        → (view j u ≡ some b) × ((leb u (w * 8) && ltb (w * 8) (u + 24 * b.n)) ≡ false)
    survived u b e = kept u (w * 8) (view j u) (
        sym (view-invalidate_word j w u g.sound)
        ∙ sym (SameCode-view (invalidate_word j w) (next j) u (refl, refl))
        ∙ e)

    count-next : count (next j) + 1 ≡ count j
    count-next = ground (arith, g.ring, same)

    later : (x : ℕ) → IsPending j x → (x ≡ w) ⊎ IsPending (next j) x
    later x (inl o) = inr (inl (same.2 ∙ o))
    later x (inr (zero, lt, at)) = inl (ground (arith, g.ring))
    later x (inr (suc k, lt, at)) =
        let spot : ((j.qhead + 1) % queue_len + k) % queue_len ≡ (j.qhead + suc k) % queue_len =
          omega arith in
        inr (inr (k, omega (arith, count-next), rw (same.3, spot) at))

    next-IsGood : IsGood map size (next j)
    next-IsGood = record {
      sound =
          SameCode-IsSound (invalidate_word j w) (next j) (refl, refl)
            (invalidate_word-IsSound j w g.sound);
      ring = (omega arith, rw (same.1) g.ring.1);
      inside = λ u b e. g.inside u b (survived u b e).0;
      covered = λ u f b e lt st.
          let old = survived u b e in
          let al = view_bound j u g.sound old.0 in
          elim (g.covered u f b old.0 lt st) [
            | inl mark ↦ inl mark
            | inr p ↦ elim (later (u / 8 + f) p) [
              | inl hit ↦ absurd (ground (arith, old.1, al.1))
              | inr rest ↦ inr rest
            ]
          ];
    }

  -- What draining leaves of a CPU: a good state, with nothing pending and no new code.
  pub record IsDrained (j g : Cpu) : Type 0 where
    pub good : IsGood map size g
    pub no_overflow : g.qoverflow ≡ false
    pub empty : count g ≡ 0
    pub older : (u : ℕ) (b : Block) → view g u ≡ some b → view j u ≡ some b

  drain-IsDrained :
      (rounds : ℕ) (j : Cpu)
      → IsGood map size j
      → j.qoverflow ≡ false
      → count j ≤ rounds
      → IsDrained j (drain rounds j)
  unfolding drain
  drain-IsDrained zero j g o le = record {
    good = g;
    no_overflow = o;
    empty = omega arith;
    older = λ u b e. e;
  }
  drain-IsDrained (suc rounds) j g o le = elim (Bool-cases (j.qhead == j.qtail)) [
    | inl done ↦
        rw done
          (record { good = g; no_overflow = o; empty = ground (arith, g.ring); older = λ u b e. e })
    | inr more ↦
        let rest =
          drain-IsDrained rounds (next j) (next-IsGood j g more) ((same j g more).2 ∙ o)
            (omega (arith, count-next j g more)) in
        rw more (record {
          good = rest.good;
          no_overflow = rest.no_overflow;
          empty = rest.empty;
          older = λ u b e. (survived j g more u b (rest.older u b e)).0;
        })
  ]

  abbrev emptied : Cpu → Cpu
  emptied j = flush (record j { qoverflow = false; qhead = j.qtail })

  no_code : (j : Cpu) (u : ℕ) {b : Block} → view (emptied j) u ≢ some b
  no_code j u e = cc (sym (view-flush (record j { qoverflow = false; qhead = j.qtail }) u) ∙ e)

  emptied-IsDrained : (j : Cpu) → IsGood map size j → IsDrained j (emptied j)
  unfolding flush
  emptied-IsDrained j g = record {
    good = record {
      sound = flush-IsSound (record j { qoverflow = false; qhead = j.qtail });
      ring = (g.ring.1, g.ring.1);
      inside = λ u b e. absurd (no_code j u e);
      covered = λ u f b e. absurd (no_code j u e);
    };
    no_overflow = refl;
    empty = omega (arith, g.ring);
    older = λ u b e. absurd (no_code j u e);
  }

  -- `QUEUE_LEN` rounds empty the queue, and an overflow empties the code cache instead.
  pub drain_queue-IsDrained : (j : Cpu) → IsGood map size j → IsDrained j (drain_queue j)
  unfolding drain_queue
  drain_queue-IsDrained j g = elim (Bool-cases j.qoverflow) [
    | inl o ↦ simp o (emptied-IsDrained j g)
    | inr o ↦ simp o (drain-IsDrained queue_len j g o (omega arith))
  ]

  -- After `drain_queue` every static field of every block that the CPU can enter is marked, so
  -- that the next store to it is caught.
  pub drain_queue-marked :
      (j : Cpu) (u f : ℕ) (b : Block)
      → IsGood map size j
      → view (drain_queue j) u ≡ some b
      → f < 3 * b.n
      → is_static b f ≡ true
      → bit_get map (u / 8 + f) ≡ true
  drain_queue-marked j u f b g e lt st =
      let d = drain_queue-IsDrained j g in
      elim (d.good.covered u f b e lt st) [
        | inl mark ↦ mark
        | inr p ↦ elim p [
          | inl o ↦ cc (sym d.no_overflow ∙ o)
          | inr (k, below, at) ↦ absurd (omega (arith, d.empty, below))
        ]
      ]
