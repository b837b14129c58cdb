-- ===== src/Jit/Tests.antt =====
-- Two CPUs over a small memory, the first with one block, and the theorems at that machine.
use subleq_emu.Prelude.{
  ℕ, zero, suc, ◌+◌, ◌/◌, ◌<◌, ◌≡◌, refl, inl, inr, true, false, some, [], ◌∷◌, arith, ◌==◌,
  Bool-cases, Option-cases, none, if◌then◌else◌, ◌⊎◌,
}
use subleq_emu.Ram.{Ram, readram, writeram}
use subleq_emu.Jit.State.{Block, Stats, Cpu, Machine}
use subleq_emu.Jit.Maps.{bit_get, mark_static, mark_static-page_map}
use subleq_emu.Jit.Cache.{hash, find, lookup, invalidate_word, patch_rel32}
use subleq_emu.Jit.Cache.Word.{view-invalidate_word}
use subleq_emu.Jit.Cache.Jump.{jump_target, jump_target-patch_rel32}
use subleq_emu.Jit.Cache.Drop.{view, IsSound}
use subleq_emu.Jit.Smc.{interp_step, store_check, drain, drain_queue}
use subleq_emu.Jit.Smc.Queue.{IsPending}
use subleq_emu.Jit.Smc.Step.{interp_step-fresh, interp_step-IsValid}
use subleq_emu.Jit.Smc.Drain.{drain_queue-marked}
use subleq_emu.Jit.Smc.Hit.{IsGood, IsValid, store_check-clear}

abbrev pub no_stats : Stats
no_stats = record {
  executed = 0;
  entries = 0;
  links = 0;
  smc_exits = 0;
  hoist_exits = 0;
  smc_words = 0;
  invalidations = 0;
  revalidations = 0;
  interp_steps = 0;
  flushes = 0;
}

-- One instruction at 0x100, every field static.
abbrev pub block : Block
block = record {
  start = 0x100;
  n = 1;
  entry = 0x5000;
  inv_stub = 0x5040;
  incoming = 0x6000 ∷ [];
  hoist = [];
  smask = λ i. 7;
  shash = 0;
  valid = true;
}

abbrev pub cpu : Cpu
cpu = record {
  code = λ a. 0;
  code_base = 0x5000;
  code_ptr = 0x5100;
  blocks = λ i. block;
  nblocks = 1;
  free_links = 0;
  nlinks = 1;
  max_links = 8;
  nmeta = 0;
  htab = λ h. if h == hash 0x100 then 0 ∷ [] else [];
  last_eip = 0;
  strong = true;
  weak_steps = 0;
  exact = false;
  qhead = 0;
  qtail = 0;
  qoverflow = false;
  queue = λ i. 0;
  phead = 0;
  ptail = 1;
  pending = λ i. record { block = 0; stamp = 0 };
  stats = no_stats;
}

-- At 0 the instruction 0x200, 0x208, 0x300; the static words are 0x20, 0x21 and 0x22.
abbrev pub ram : Ram
ram = writeram (writeram (writeram (λ a. 0) 0 0x200) 8 0x208) 16 0x300

abbrev pub machine : Machine
machine = record {
  mem = ram;
  mem_size = 0x1000;
  static_map = λ i. if i == 4 then 7 else 0;
  dyn_map = λ i. 0;
  page_map = λ p. 1;
  ncpus = 2;
  cpus = λ c. cpu;
  epoch = 1;
  quiet = λ c. 0;
}

only_block : (a i : ℕ) → lookup cpu a ≡ some i → a ≡ 0x100
unfolding lookup find
only_block a i e = elim (Bool-cases (hash a == hash 0x100)) [
  | inl at ↦ ground arith
  | inr off ↦ ground arith
]

view_block : (a : ℕ) {b : Block} → view cpu a ≡ some b → (a ≡ 0x100) × (b ≡ block)
view_block a {b} e = elim (Option-cases (lookup cpu a)) [
  | inl none_there ↦ cc (rw none_there at e)
  | inr (i, at) ↦ (only_block a i at, ground (arith, (rw at at e)))
]

cpu-IsSound : IsSound cpu
unfolding find
cpu-IsSound = record {
  distinct = λ h. elim (Bool-cases (h == hash 0x100)) [
    | inl at ↦ rw at (no_more, tt)
    | inr off ↦ rw off tt
  ];
  found = λ a i e. let at : a ≡ 0x100 = only_block a i e in rw at (refl, omega arith, refl);
}
  where
    no_more : find (λ i. block) 0x100 [] ≡ none
    no_more = refl

marked : (f : ℕ) → f < 3 → bit_get machine.static_map (0x100 / 8 + f) ≡ true
unfolding bit_get
marked zero h = refl
marked (suc zero) h = refl
marked (suc (suc zero)) h = refl
marked (suc (suc (suc f))) h = absurd (omega arith)

cpu-IsGood : IsGood machine.static_map 0x1000 cpu
cpu-IsGood = record {
  sound = cpu-IsSound;
  ring = omega arith;
  inside = λ u b e. let at = view_block u e in rw (at.0, at.1) (omega arith);
  covered =
      λ u f b e lt st. let at = view_block u e in inl (rw (at.0) (marked f (rw (at.1) at lt)));
}

pub machine-IsValid : IsValid machine
machine-IsValid = record {
  map_bytes = λ e. ground arith;
  size = omega arith;
  cpu = λ d h. cpu-IsGood;
}

-- The instruction at 0 stores to 0x208, away from the block.
step_keeps_block : view ((interp_step machine 0 0).0.cpus 0) 0x100 ≡ some block
unfolding interp_step lookup find hash store_check readram writeram bit_get
step_keeps_block = refl

interp_step-fresh_example :
    (readram (interp_step machine 0 0).0.mem 0x108 ≡ readram ram 0x108)
    ⊎ IsPending ((interp_step machine 0 0).0.cpus 0) 0x21
interp_step-fresh_example =
    interp_step-fresh machine 0 0 machine-IsValid (omega arith) 0 0x100 1 block (omega arith)
      step_keeps_block (omega arith) refl

interp_step-IsValid_example : IsValid (interp_step machine 0 0).0
interp_step-IsValid_example = interp_step-IsValid machine 0 0 machine-IsValid (omega arith)

-- A store to 0x104 touches the words 0x20 and 0x21.
store_check-clear_example : bit_get (store_check machine 0 0x104).static_map 0x21 ≡ false
store_check-clear_example =
    store_check-clear machine 0 0x104 machine-IsValid (omega arith) 0x21 (omega arith) (inr refl)

view-invalidate_word_example : view (invalidate_word cpu 0x21) 0x100 ≡ none
unfolding lookup find hash
view-invalidate_word_example = view-invalidate_word cpu 0x21 0x100 cpu-IsSound

drained_keeps_block : view (drain_queue cpu) 0x100 ≡ some block
unfolding drain_queue drain lookup find hash
drained_keeps_block = refl

drain_queue-marked_example : bit_get machine.static_map 0x21 ≡ true
drain_queue-marked_example =
    drain_queue-marked machine.static_map 0x1000 cpu 0x100 1 block cpu-IsGood drained_keeps_block
      (omega arith) refl

mark_static-page_map_example : (mark_static machine 0x200).page_map 0 ≡ 1
mark_static-page_map_example = mark_static-page_map machine 0x200 0xffd (omega arith) (omega arith)

jump_target-patch_rel32_example : jump_target (patch_rel32 (λ a. 0) 0x6000 0x5000) 0x6000 ≡ 0x5000
jump_target-patch_rel32_example =
    jump_target-patch_rel32 (λ a. 0) 0x6000 0x5000 (omega arith) (omega arith) (omega arith)
