-- ===== src/Jit/Copy/Tests.antt =====
-- A copy loop at address 0 that has five words to copy.
use subleq_emu.Prelude.{
  ℕ, zero, suc, ◌-◌, ◌/◌, ◌%◌, ◌^◌, ◌≡◌, refl, arith, some, Bool, true, ◌+◌, ◌*◌, ◌<◌, ◌&&◌, ◌==◌,
  ==_iff, Bool-cases, inl, inr, subst, List, [], ◌∷◌, two64,
}
use subleq_emu.Ram.{Ram, readram}
use subleq_emu.Ram.Words.{IsBytes}
use subleq_emu.Memory.Copy.{memmove-IsCopy}
use subleq_emu.Jit.State.{Machine}
use subleq_emu.Jit.Tests.{machine}
use subleq_emu.Jit.Maps.{bit_get}
use subleq_emu.Jit.Copy.{
  Desc, move, match_copy, match_insns, match_field, match_sd, copy_tmpl, first_matching,
  are_variables, is_among, jit_copy, planned, is_refused, overlaps_any, any_page,
}
use subleq_emu.Jit.Copy.Pass.{IsLoop}
use subleq_emu.Jit.Copy.Refine.{IsRoutine}
use subleq_emu.Jit.Copy.Whole.{Ran, jit_copy-Ran}

-- The words of the loop: T1 at 512, T2 at 520, S at 528, D at 536, C at 544, M at 552.
abbrev words : List ℕ
words =
    512
    ∷ 512
    ∷ 24
    ∷ 520
    ∷ 520
    ∷ 48
    ∷ 120
    ∷ 120
    ∷ 72
    ∷ 528
    ∷ 512
    ∷ 96
    ∷ 512
    ∷ 120
    ∷ 120
    ∷ 0
    ∷ 520
    ∷ 144
    ∷ 512
    ∷ 512
    ∷ 168
    ∷ 368
    ∷ 368
    ∷ 192
    ∷ 336
    ∷ 336
    ∷ 216
    ∷ 344
    ∷ 344
    ∷ 240
    ∷ 536
    ∷ 512
    ∷ 264
    ∷ 512
    ∷ 368
    ∷ 288
    ∷ 512
    ∷ 336
    ∷ 312
    ∷ 512
    ∷ 344
    ∷ 336
    ∷ 0
    ∷ 0
    ∷ 360
    ∷ 520
    ∷ 0
    ∷ 384
    ∷ 552
    ∷ 536
    ∷ 408
    ∷ 552
    ∷ 528
    ∷ 432
    ∷ 552
    ∷ 544
    ∷ 0
    ∷ 0
    ∷ 0
    ∷ 0
    ∷ 0
    ∷ 0
    ∷ 0
    ∷ 0
    ∷ 7
    ∷ 7
    ∷ 800
    ∷ 640
    ∷ (two64 - 32)
    ∷ (two64 - 8)
    ∷ []

word_at : List ℕ → ℕ → ℕ
word_at [] i = 5
word_at (w ∷ ws) zero = w
word_at (w ∷ ws) (suc i) = word_at ws i

abbrev memory : Ram
memory q = word_at words (q / 8) / 256 ^ (7 - q % 8) % 256

memory-IsBytes : IsBytes memory
memory-IsBytes q = omega arith

abbrev looping : Machine
looping = record machine { mem = memory; mem_size = 4096; dyn_map = λ i. 0; page_map = λ i. 0 }

abbrev loop : Desc
loop = record { start = 0; t1 = 512; t2 = 520; sv = 528; dv = 536; cv = 544; mv = 552 }

matches : match_copy looping 0 ≡ some loop
unfolding match_copy match_insns match_field match_sd copy_tmpl first_matching are_variables
    is_among bit_get readram word_at
matches = refl

move-IsRoutine : IsRoutine move
move-IsRoutine m d s n h = memmove-IsCopy d s m n

runs_five : (jit_copy move looping loop 1000).1.n ≡ 5
unfolding jit_copy planned is_refused overlaps_any any_page readram word_at
runs_five = refl

goes_on : ℕ → Bool
goes_on zero = true
goes_on (suc k) = readram memory (24 * k + 16) == 24 * k + 24 && goes_on k

all_on : goes_on 18 ≡ true
unfolding goes_on readram word_at
all_on = refl

goes_on_at : (n k : ℕ) → goes_on n ≡ true → k < n → readram memory (24 * k + 16) ≡ 24 * k + 24
unfolding goes_on
goes_on_at zero k h lt = elim lt [ ]
goes_on_at (suc n) k h lt = elim (Bool-cases (n == k)) [
  | inl e ↦
      subst (λ i. readram memory (24 * i + 16) ≡ 24 * i + 24) ((==_iff n k).0 e) (ground (arith, h))
  | inr d ↦ goes_on_at n k (ground (arith, h)) (ground arith)
]

memory-IsLoop : IsLoop memory loop
unfolding readram word_at
memory-IsLoop = record {
  i0 = record { first = refl; second = refl };
  i1 = record { first = refl; second = refl };
  i2 = record { first = refl; second = refl };
  i3 = record { first = refl; second = refl };
  i4 = record { first = refl; second = refl };
  second5 = refl;
  i6 = record { first = refl; second = refl };
  i7 = record { first = refl; second = refl };
  i8 = record { first = refl; second = refl };
  i9 = record { first = refl; second = refl };
  i10 = record { first = refl; second = refl };
  i11 = record { first = refl; second = refl };
  i12 = record { first = refl; second = refl };
  i13 = record { first = refl; second = refl };
  first15 = refl;
  i16_i17 = inr (record { first = refl; second = refl }, record { first = refl; second = refl });
  i18 = record { first = refl; second = refl };
  on = λ k lt. from_0 k (goes_on_at 18 k all_on lt);
  back = refl;
}
  where
    from_0 :
        (k : ℕ)
        → readram memory (24 * k + 16) ≡ 24 * k + 24
        → readram memory (0 + 24 * k + 16) ≡ 0 + 24 * k + 24
    from_0 k h = let none : 0 + 24 * k ≡ 24 * k = omega arith in rw none h

jit_copy-Ran_example : Ran loop 1000 looping (jit_copy move looping loop 1000)
jit_copy-Ran_example =
    jit_copy-Ran move move-IsRoutine looping looping 0 loop 1000 matches memory-IsLoop refl
      (omega arith) memory-IsBytes
