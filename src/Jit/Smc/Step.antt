-- ===== src/Jit/Smc/Step.antt =====
-- `interp_step`: what it does to the machine that Dawn sees, and that no CPU is left with code
-- translated from a word that the instruction overwrote.
use subleq_emu.Prelude.{
  ℕ, ◌+◌, ◌*◌, ◌/◌, ◌%◌, ◌≤◌, ◌<◌, ◌≡◌, refl, ◌≢◌, ◌∙◌, sym, subst, ◌⊎◌, inl, inr, true, some,
  arith, ◌==◌, ==_iff, Bool-cases, add64, sub64,
}
use subleq_emu.Ram.{readram, writeram}
use subleq_emu.Ram.Words.{readram-writeram_disjoint, readram-lt}
use subleq_emu.Jit.State.{Block, Cpu, Machine}
use subleq_emu.Jit.Maps.{bit_get}
use subleq_emu.Jit.Cache.{lookup}
use subleq_emu.Jit.Cache.Drop.{view}
use subleq_emu.Jit.Cache.Word.{view_bound}
use subleq_emu.Jit.Smc.{is_static, on_stats, store_check, interp_step}
use subleq_emu.Jit.Smc.Queue.{IsPending}
use subleq_emu.Jit.Smc.Hit.{
  IsGood, IsValid, SameCode-IsSound, first_word, last_word, SameMemory, store_check-IsValid,
  store_check-SameMemory, store_check-clear,
}

abbrev count_step : Cpu → Cpu
count_step j = on_stats j (λ s. record s { interp_steps = s.interp_steps + 1 })

count_step-IsGood :
    (map : ℕ → ℕ) (size : ℕ) (j : Cpu) → IsGood map size j → IsGood map size (count_step j)
unfolding lookup
count_step-IsGood map size j g = record {
  sound = SameCode-IsSound j (count_step j) (refl, refl) g.sound;
  ring = g.ring;
  inside = g.inside;
  covered = g.covered;
}

module _ (m : Machine) (c eip : ℕ) where
  open m use {mem}

  -- The address that the instruction stores to.
  abbrev pub store_address : ℕ
  store_address = readram mem (add64 eip 8)

  abbrev checked : Machine
  checked = store_check m c store_address

  same : SameMemory m checked
  same = store_check-SameMemory m c store_address

  pub mem-interp_step :
      (interp_step m c eip).0.mem
      ≡ writeram mem store_address
          (sub64 (readram mem store_address) (readram mem (readram mem eip)))
  unfolding interp_step
  mem-interp_step = rw (same.0)

  pub ncpus-interp_step : (interp_step m c eip).0.ncpus ≡ m.ncpus
  unfolding interp_step
  ncpus-interp_step = same.2

  pub mem_size-interp_step : (interp_step m c eip).0.mem_size ≡ m.mem_size
  unfolding interp_step
  mem_size-interp_step = same.1

module _ (m : Machine) (c eip : ℕ) (v : IsValid m) (hc : c < m.ncpus) where
  open m use {mem}

  abbrev address : ℕ
  address = store_address m c eip

  abbrev after_check : Machine
  after_check = checked m c eip

  after_check_same : SameMemory m after_check
  after_check_same = same m c eip

  checked-IsValid : IsValid after_check
  checked-IsValid = store_check-IsValid m c address v hc

  -- A step keeps the invariant.
  pub interp_step-IsValid : IsValid (interp_step m c eip).0
  unfolding interp_step
  interp_step-IsValid = record {
    map_bytes = checked-IsValid.map_bytes;
    size = checked-IsValid.size;
    cpu = λ d hd. elim (Bool-cases (c == d)) [
      | inl e ↦ rw e (
          count_step-IsGood after_check.static_map after_check.mem_size (after_check.cpus c)
            (checked-IsValid.cpu c (rw (after_check_same.2) hc)))
      | inr e ↦ rw e (checked-IsValid.cpu d hd)
    ];
  }

  cpus_after : (d u : ℕ) → view ((interp_step m c eip).0.cpus d) u ≡ view (after_check.cpus d) u
  unfolding interp_step lookup
  cpus_after d u = elim (Bool-cases (c == d)) [
    | inl e ↦ let e' : c ≡ d = (==_iff c d).0 e in rw (e, e')
    | inr e ↦ rw e
  ]

  IsPending-after :
      (d x : ℕ) → IsPending (after_check.cpus d) x → IsPending ((interp_step m c eip).0.cpus d) x
  unfolding interp_step
  IsPending-after d x p = elim (Bool-cases (c == d)) [
    | inl e ↦ rw e (subst (λ t. IsPending (after_check.cpus t) x) (sym ((==_iff c d).0 e)) p)
    | inr e ↦ rw e p
  ]

  -- Whatever block a CPU can still enter, each word that the block took as static holds what it
  -- held before the step, unless the CPU will drop the block when it next drains its queue.
  pub interp_step-fresh :
      (d u f : ℕ) (b : Block)
      → d < m.ncpus
      → view ((interp_step m c eip).0.cpus d) u ≡ some b
      → f < 3 * b.n
      → is_static b f ≡ true
      → (readram (interp_step m c eip).0.mem (u + 8 * f) ≡ readram mem (u + 8 * f))
        ⊎ IsPending ((interp_step m c eip).0.cpus d) (u / 8 + f)
  interp_step-fresh d u f b hd e lt st = elim (good.covered u f b e' lt st) [
    | inr p ↦ inr (IsPending-after d (u / 8 + f) p)
    | inl mark ↦ inl (rw (mem-interp_step m c eip) (untouched mark))
  ]
    where
      good : IsGood after_check.static_map after_check.mem_size (after_check.cpus d)
      good = checked-IsValid.cpu d (rw (after_check_same.2) hd)

      e' : view (after_check.cpus d) u ≡ some b
      e' = sym (cpus_after d u) ∙ e

      al : (b.n ≤ 64) × (u % 8 ≡ 0)
      al = view_bound (after_check.cpus d) u good.sound e'

      inside : u + 24 * b.n ≤ m.mem_size
      inside = omega (arith, good.inside u b e', after_check_same.1)

      apart :
          bit_get after_check.static_map (u / 8 + f) ≡ true
          → (u / 8 + f ≢ first_word address) × (u / 8 + f ≢ last_word address)
      apart mark =
          let clear =
            store_check-clear m c address v hc (u / 8 + f) (omega (arith, al.1, inside, lt)) in
          (λ p. cc (clear (inl p)), λ p. cc (clear (inr p)))

      side :
          (u / 8 + f ≢ first_word address) × (u / 8 + f ≢ last_word address)
          → (u + 8 * f + 8 ≤ address) ⊎ (address + 8 ≤ u + 8 * f)
      side a = omega (arith, a.0, a.1, al.1, inside, v.size, readram-lt mem (add64 eip 8))

      untouched :
          bit_get after_check.static_map (u / 8 + f) ≡ true
          → readram
              (writeram mem address (sub64 (readram mem address) (readram mem (readram mem eip))))
              (u + 8 * f)
            ≡ readram mem (u + 8 * f)
      untouched mark = readram-writeram_disjoint mem address _ (u + 8 * f) (side (apart mark))
