-- ===== src/Jit/Copy/Refine.antt =====
-- What `jit_copy` writes for `k + 1` iterations is one iteration more than what it writes for `k`.
use subleq_emu.Prelude.{
  ℕ, suc, ◌+◌, ◌-◌, ◌*◌, ◌≤◌, ◌<◌, ◌≡◌, refl, sym, ap, subst, ◌∙◌, ◌⊎◌, inl, inr, arith, true, not,
  ◌==◌, if◌then◌else◌, two64, add64, signed_le, All, Bool-cases,
}
use subleq_emu.Ram.{Ram, readram, writeram}
use subleq_emu.Ram.Words.{IsBytes, readram-lt, readram_ext, writeram-readram}
use subleq_emu.Memory.Copy.{IsCopy, in_range}
use subleq_emu.Jit.Copy.{Desc, last_writes, run_copy, iterations}
use subleq_emu.Jit.Copy.Iterate.{
  iteration, IsOutside, written, AgreeOff, AreApart, last_writes_ext, iteration-last_writes,
  last_writes-other, last_writes-IsBytes, last_writes-sv, last_writes-dv, last_writes-cv,
}

-- The counter lets the loop go on until its last iteration.
pub signed_le-iterations :
    (c k : ℕ)
    → c < two64
    → k < iterations c
    → (not (signed_le (add64 c (8 * k)) (two64 - 8))) ≡ (suc k == iterations c)
signed_le-iterations c k lt h = ground arith

-- What the copy routine is to do: forward over itself it may do anything.
abbrev pub IsRoutine : (Ram → ℕ → ℕ → ℕ → Ram) → Type 0
IsRoutine copy_fn = (m : Ram) (d s n : ℕ) → (d ≤ s) ⊎ (s + n ≤ d) → IsCopy m d s n (copy_fn m d s n)

-- The words that `k` iterations read and write, apart from the variables and the loop.
pub record AreFree (e : Desc) (s d k : ℕ) : Type 0 where
  pub source : (q : ℕ) → s ≤ q → q < s + 8 * k → All (IsOutside q) (written e)
  pub dest : (q : ℕ) → d ≤ q → q < d + 8 * k → All (IsOutside q) (written e)
  pub no_repeat : (d ≤ s) ⊎ (s + 8 * k ≤ d)
  pub source_end : s + 8 * k < two64
  pub dest_end : d + 8 * k < two64
  pub dest_loop : (d + 8 * k ≤ e.start) ⊎ (e.start + 19 * 24 ≤ d)
  pub dest_mv : (d + 8 * k ≤ e.mv) ⊎ (e.mv + 8 ≤ d)

module _ (copy_fn : Ram → ℕ → ℕ → ℕ → Ram) (routine : IsRoutine copy_fn) (e : Desc)
    (apart : AreApart e) (m : Ram) (bytes : IsBytes m) where
  abbrev s : ℕ
  s = readram m e.sv

  abbrev d : ℕ
  d = readram m e.dv

  abbrev c : ℕ
  c = readram m e.cv

  -- The memory after `k` iterations.
  pub record After (k : ℕ) (x : Ram) : Type 0 where
    pub at_s : readram x e.sv ≡ s + 8 * k
    pub at_d : readram x e.dv ≡ d + 8 * k
    pub at_c : readram x e.cv ≡ add64 c (8 * k)
    pub bytes_after : IsBytes x
    pub body :
        (q : ℕ)
        → All (IsOutside q) (written e)
        → x q ≡ (if in_range d (8 * k) q then m (s + (q - d)) else m q)

  pub After-start : After 0 m
  After-start = record {
    at_s = omega arith;
    at_d = omega arith;
    at_c = omega (arith, readram-lt m e.cv);
    bytes_after = bytes;
    body = λ q o. ground arith;
  }

  module _ (total : ℕ) (free : AreFree e s d total) where
    no_repeat_to : (k : ℕ) → k ≤ total → (d ≤ s) ⊎ (s + 8 * k ≤ d)
    no_repeat_to k h = ground (arith, free.no_repeat)

    copied : (k : ℕ) → k ≤ total → IsCopy m d s (8 * k) (copy_fn m d s (8 * k))
    copied k h = routine m d s (8 * k) (no_repeat_to k h)

    copied-IsBytes : (k : ℕ) → k ≤ total → IsBytes (copy_fn m d s (8 * k))
    copied-IsBytes k h q =
        subst (λ t. t < 256) (sym (copied k h q)) (ground (arith, bytes q, bytes (s + (q - d))))

    pub After-run_copy : (k : ℕ) → 0 < k → k ≤ total → After k (run_copy copy_fn m e k)
    unfolding run_copy
    After-run_copy k pos h = record {
      at_s = last_writes-sv e apart _ _ _ _ _ (omega (arith, free.source_end)) ∙ omega arith;
      at_d = last_writes-dv e apart _ _ _ _ _ (omega (arith, free.dest_end)) ∙ omega arith;
      at_c = last_writes-cv e apart _ _ _ _ _ (omega arith);
      bytes_after = last_writes-IsBytes e _ _ _ _ _ (copied-IsBytes k h);
      body = λ q o. last_writes-other e _ _ _ _ _ q o ∙ copied k h q;
    }

    -- The word that iteration `k` copies is the one that stood there at the start.
    source_word :
        (k : ℕ) (x : Ram)
        → suc k ≤ total
        → After k x
        → readram x (s + 8 * k) ≡ readram m (s + 8 * k)
    source_word k x h a = readram_ext x m (s + 8 * k) (λ q lo hi.
        a.body q (free.source q (omega arith) (omega arith)) ∙ ground (arith, free.no_repeat))

    pub step :
        (k : ℕ) (x : Ram) → suc k ≤ total → After k x → iteration e x ≡ run_copy copy_fn m e (suc k)
    unfolding run_copy
    step k x h a =
        iteration-last_writes e x
        ∙ rw (a.at_s, a.at_d, a.at_c, source_word k x h a)
            (last_writes_ext e (s + 8 * k) (d + 8 * k) (add64 (add64 c (8 * k)) 8)
                (readram m (s + 8 * k)) (writeram x (d + 8 * k) (readram m (s + 8 * k)))
                (copy_fn m d s (8 * suc k)) agree
              ∙ numbers)
      where
        pointwise :
            (q : ℕ)
            → All (IsOutside q) (written e)
            → (if in_range (d + 8 * k) 8 q then m (s + 8 * k + (q - (d + 8 * k))) else x q)
              ≡ (if in_range d (8 * suc k) q then m (s + (q - d)) else m q)
        pointwise q o = elim (Bool-cases (in_range (d + 8 * k) 8 q)) [
          | inl t ↦
              let all : in_range d (8 * suc k) q ≡ true = ground arith in
              let index : s + 8 * k + (q - (d + 8 * k)) ≡ s + (q - d) = ground arith in
              rw (t, all) (ap m index)
          | inr f ↦
              let both : in_range d (8 * suc k) q ≡ in_range d (8 * k) q = ground arith in
              rw (f, both) (a.body q o)
        ]

        agree :
            AgreeOff
              (written e)
              (writeram x (d + 8 * k) (readram m (s + 8 * k)))
              (copy_fn m d s (8 * suc k))
        agree q o =
            writeram-readram x m (d + 8 * k) (s + 8 * k) q bytes
            ∙ pointwise q o
            ∙ sym (copied (suc k) h q)

        numbers :
            last_writes e
              (s + 8 * k)
              (d + 8 * k)
              (add64 (add64 c (8 * k)) 8)
              (readram m (s + 8 * k))
              (copy_fn m d s (8 * suc k))
            ≡ last_writes e
                (s + 8 * suc k - 8)
                (d + 8 * suc k - 8)
                (add64 c (8 * suc k))
                (readram m (s + 8 * suc k - 8))
                (copy_fn m d s (8 * suc k))
        numbers =
            let one : s + 8 * k ≡ s + 8 * suc k - 8 = omega arith in
            let two : d + 8 * k ≡ d + 8 * suc k - 8 = omega arith in
            let three : add64 (add64 c (8 * k)) 8 ≡ add64 c (8 * suc k) = omega arith in
            rw (one, two, three) refl
