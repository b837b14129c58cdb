-- ===== src/Jit/Reval/Round.antt =====
-- One round of `revalidate` of kernel/src/jit.c, for the block at the head of the ring.
use subleq_emu.Prelude.{
  ℕ, ◌+◌, ◌*◌, ◌%◌, ◌<◌, ◌≡◌, refl, sym, ◌∙◌, ◌≤◌, ◌≢◌, ◌/◌, ◌⊎◌, inl, inr, Bool, true, false, not,
  ◌||◌, ◌==◌, ==_self, ==_iff, Bool-cases, arith,
}
use subleq_emu.Jit.State.{Block, Cpu, Machine, pending_len}
use subleq_emu.Jit.Cache.{lookup}
use subleq_emu.Jit.Smc.{set_cpu, on_stats}
use subleq_emu.Jit.Smc.Hit.{IsGood, IsValid, SameCode-IsSound}
use subleq_emu.Jit.Reval.{static_hash, revalidate_one}
use subleq_emu.Jit.Smc.{is_static}
use subleq_emu.Jit.Smc.Hit.{SameCode, SameCode-view}
use subleq_emu.Ram.{Ram}
use subleq_emu.Jit.Reval.Checked.{
  hash_of, static_hash_lem, IsClear, Fewer, drop_fields-mem, drop_fields-Fewer, drop_fields-IsClear,
}
use subleq_emu.Jit.Reval.Pending.{
  SamePending, drop_fields-ncpus, drop_fields-SamePending, drop_fields-IsValid,
}

abbrev pub pop_pending : Cpu → Cpu
pop_pending j = record j { phead = (j.phead + 1) % pending_len }

abbrev count_reval : Cpu → Cpu
count_reval j = on_stats j (λ s. record s { revalidations = s.revalidations + 1 })

pop_pending-IsGood :
    (map : ℕ → ℕ) (size : ℕ) (j : Cpu) → IsGood map size j → IsGood map size (pop_pending j)
unfolding lookup
pop_pending-IsGood map size j g = record {
  sound = SameCode-IsSound j (pop_pending j) (refl, refl) g.sound;
  ring = g.ring;
  inside = g.inside;
  covered = g.covered;
}

count_reval-IsGood :
    (map : ℕ → ℕ) (size : ℕ) (j : Cpu) → IsGood map size j → IsGood map size (count_reval j)
unfolding lookup
count_reval-IsGood map size j g = record {
  sound = SameCode-IsSound j (count_reval j) (refl, refl) g.sound;
  ring = g.ring;
  inside = g.inside;
  covered = g.covered;
}

set_cpu-IsValid :
    (m : Machine) (c : ℕ) (j : Cpu)
    → IsValid m
    → IsGood m.static_map m.mem_size j
    → IsValid (set_cpu m c j)
set_cpu-IsValid m c j v g = record {
  map_bytes = v.map_bytes;
  size = v.size;
  cpu = λ d hd. elim (Bool-cases (c == d)) [ inl e ↦ rw e g | inr e ↦ rw e (v.cpu d hd) ];
}

-- The block still stands for its static words, or stands no more.
abbrev pub IsKept : Ram → Block → Type 0
IsKept mem b = (b.valid ≡ false) ⊎ (hash_of mem b ≡ b.shash)

-- What becomes of the code for a block taken from the ring: all stays as it is if the block is kept,
-- and else no block that can be entered has an instruction over one of its static fields, and every
-- block that can be entered could be before.
abbrev pub IsChecked : Ram → Block → Cpu → Cpu → Type 0
IsChecked mem b j g =
    (IsKept mem b × SameCode j g)
    ⊎ ((¬ IsKept mem b)
        × ((f : ℕ) → f < 3 * b.n → is_static b f ≡ true → IsClear g (b.start / 8 + f))
        × Fewer j g)

unchanged-IsKept :
    (mem : Ram) (b : Block) → (not b.valid || static_hash mem b == b.shash) ≡ true → IsKept mem b
unchanged-IsKept mem b e = elim (Bool-cases b.valid) [
  | inl t ↦
      let same : (static_hash mem b == b.shash) ≡ true = ground (arith, e, t) in
      inr (sym (static_hash_lem mem b) ∙ (==_iff _ _).0 same)
  | inr f ↦ inl f
]

changed-IsKept :
    (mem : Ram) (b : Block) → (not b.valid || static_hash mem b == b.shash) ≡ false → ¬ IsKept mem b
changed-IsKept mem b e (inl f) = ground (arith, e, f)
changed-IsKept mem b e (inr h) = ground (arith, e, static_hash_lem mem b ∙ h)

module _ (m : Machine) (c : ℕ) where
  abbrev popped : Machine
  popped = set_cpu m c (pop_pending (m.cpus c))

  abbrev counted : Machine
  counted = set_cpu popped c (count_reval (popped.cpus c))

  abbrev block : Block
  block = (m.cpus c).blocks ((m.cpus c).pending (m.cpus c).phead).block

  abbrev unchanged : Bool
  unchanged = not block.valid || static_hash m.mem block == block.shash

  popped_cpu : popped.cpus c ≡ pop_pending (m.cpus c)
  popped_cpu = rw (==_self c) refl

  counted_cpu : counted.cpus c ≡ count_reval (pop_pending (m.cpus c))
  counted_cpu = rw (==_self c) refl

  pub one_ncpus : (revalidate_one m c).ncpus ≡ m.ncpus
  unfolding revalidate_one
  one_ncpus = elim (Bool-cases unchanged) [
    | inl e ↦ rw e refl
    | inr e ↦ rw e (drop_fields-ncpus (block.n * 3) counted c block 0)
  ]

  pub one_pending : c < m.ncpus → SamePending (pop_pending (m.cpus c)) ((revalidate_one m c).cpus c)
  unfolding revalidate_one
  one_pending h = elim (Bool-cases unchanged) [
    | inl e ↦ rw (e, ==_self c) (refl, refl, refl)
    | inr e ↦ rw e (rw counted_cpu at (drop_fields-SamePending (block.n * 3) counted c block 0 h))
  ]

  counted-IsValid : IsValid m → c < m.ncpus → IsValid counted
  counted-IsValid v h =
      let p : IsValid popped =
        set_cpu-IsValid m c (pop_pending (m.cpus c)) v
          (pop_pending-IsGood m.static_map m.mem_size (m.cpus c) (v.cpu c h)) in
      set_cpu-IsValid popped c (count_reval (popped.cpus c)) p
        (count_reval-IsGood m.static_map m.mem_size (popped.cpus c) (p.cpu c h))

  pub one-IsValid : IsValid m → c < m.ncpus → IsValid (revalidate_one m c)
  unfolding revalidate_one
  one-IsValid v h =
      let p : IsValid popped =
        set_cpu-IsValid m c (pop_pending (m.cpus c)) v
          (pop_pending-IsGood m.static_map m.mem_size (m.cpus c) (v.cpu c h)) in
      elim (Bool-cases unchanged) [
        | inl e ↦ rw e p
        | inr e ↦ rw e (drop_fields-IsValid (block.n * 3) counted c block 0 (counted-IsValid v h) h)
      ]

  one_mem : (revalidate_one m c).mem ≡ m.mem
  unfolding revalidate_one
  one_mem = elim (Bool-cases unchanged) [
    | inl e ↦ rw e refl
    | inr e ↦ rw e (drop_fields-mem (block.n * 3) counted c block 0)
  ]

  one-IsChecked :
      IsValid m → c < m.ncpus → IsChecked m.mem block (m.cpus c) ((revalidate_one m c).cpus c)
  unfolding revalidate_one
  one-IsChecked v h =
      let p : IsValid counted = counted-IsValid v h in
      elim (Bool-cases unchanged) [
        | inl e ↦ rw (e, ==_self c) (inl (unchanged-IsKept m.mem block e, (refl, refl)))
        | inr e ↦ rw e (
            inr (
              changed-IsKept m.mem block e,
              (λ f lt st.
                  drop_fields-IsClear (block.n * 3) counted c block 0 f p h (omega arith)
                    (omega arith) st),
              λ u b k.
                  let before = drop_fields-Fewer (block.n * 3) counted c block 0 p h u b k in
                  sym (SameCode-view (m.cpus c) (counted.cpus c) u (rw counted_cpu (refl, refl)))
                  ∙ before,
            ))
      ]

abbrev pub oldest : Cpu → Block
oldest j = j.blocks (j.pending j.phead).block

-- One block, not made later than `low`, is taken from the ring and checked.
pub record Round (c low : ℕ) (m g : Machine) : Type 0 where
  pub waits : (m.cpus c).phead ≢ (m.cpus c).ptail
  pub old : ((m.cpus c).pending (m.cpus c).phead).stamp ≤ low
  pub taken : SamePending (pop_pending (m.cpus c)) (g.cpus c)
  pub mem : g.mem ≡ m.mem
  pub checked : IsChecked m.mem (oldest (m.cpus c)) (m.cpus c) (g.cpus c)

pub one-Round :
    (m : Machine) (c low : ℕ)
    → IsValid m
    → c < m.ncpus
    → (m.cpus c).phead ≢ (m.cpus c).ptail
    → ((m.cpus c).pending (m.cpus c).phead).stamp ≤ low
    → Round c low m (revalidate_one m c)
one-Round m c low v h waits old = record {
  waits = waits;
  old = old;
  taken = one_pending m c h;
  mem = one_mem m c;
  checked = one-IsChecked m c v h;
}
