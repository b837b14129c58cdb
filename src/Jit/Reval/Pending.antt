-- ===== src/Jit/Reval/Pending.antt =====
-- What the drops of kernel/src/jit.c leave alone: the ring of the blocks to check again.
use subleq_emu.Prelude.{
  ℕ, zero, suc, ◌+◌, ◌*◌, ◌/◌, ◌<◌, ◌≡◌, refl, ◌∙◌, inl, inr, ltb, ==_self, Bool-cases,
  Option-cases, if◌then◌else◌,
}
use subleq_emu.Jit.State.{Block, Cpu, Machine}
use subleq_emu.Jit.Cache.{lookup, invalidate, drop_at, drop_from, invalidate_word}
use subleq_emu.Jit.Smc.{is_static, smc_hit}
use subleq_emu.Jit.Smc.Hit.{cpus-smc_hit, IsValid, smc_hit-IsValid}
use subleq_emu.Jit.Reval.{drop_fields}

abbrev pub SamePending : Cpu → Cpu → Type 0
SamePending j g = (g.phead ≡ j.phead) × (g.ptail ≡ j.ptail) × (g.pending ≡ j.pending)

then_same : (j g h : Cpu) → SamePending j g → SamePending g h → SamePending j h
then_same j g h p q = (q.0 ∙ p.0, q.1 ∙ p.1, q.2 ∙ p.2)

invalidate-SamePending : (j : Cpu) (i : ℕ) → SamePending j (invalidate j i)
unfolding invalidate
invalidate-SamePending j i = elim (Bool-cases (j.blocks i).valid) [
  | inl e ↦ rw e (refl, refl, refl)
  | inr e ↦ rw e (refl, refl, refl)
]

drop_at-SamePending : (j : Cpu) (s a : ℕ) → SamePending j (drop_at j s a)
unfolding drop_at
drop_at-SamePending j s a = elim (Option-cases (lookup j s)) [
  | inl e ↦ rw (e, drop_at) (refl, refl, refl)
  | inr (i, e) ↦
      rw (e, drop_at)
        (elim (Bool-cases (ltb a (s + 24 * (j.blocks i).n))) [
          | inl c ↦ rw c (invalidate-SamePending j i)
          | inr c ↦ rw c (refl, refl, refl)
        ])
]

drop_from-SamePending : (r : ℕ) (j : Cpu) (s a : ℕ) → SamePending j (drop_from r j s a)
unfolding drop_from
drop_from-SamePending zero j s a = (refl, refl, refl)
drop_from-SamePending (suc r) j s a =
    then_same j (drop_at j s a) (drop_from r (drop_at j s a) (s + 8) a) (drop_at-SamePending j s a)
      (drop_from-SamePending r (drop_at j s a) (s + 8) a)

smc_hit-SamePending :
    (m : Machine) (c w : ℕ) → c < m.ncpus → SamePending (m.cpus c) ((smc_hit m c w).cpus c)
smc_hit-SamePending m c w h =
    rw (cpus-smc_hit m c w c h, ==_self c) (unfold invalidate_word in drop_from-SamePending _ _ _ _)

-- One hit or none.
abbrev pub hit_when : Machine → ℕ → Block → ℕ → Machine
hit_when m c b f = if is_static b f then smc_hit m c (b.start / 8 + f) else m

pub ncpus-smc_hit : (m : Machine) (c w : ℕ) → (smc_hit m c w).ncpus ≡ m.ncpus
unfolding smc_hit
ncpus-smc_hit m c w = refl

pub hit_when-ncpus : (m : Machine) (c : ℕ) (b : Block) (f : ℕ) → (hit_when m c b f).ncpus ≡ m.ncpus
hit_when-ncpus m c b f = elim (Bool-cases (is_static b f)) [
  | inl e ↦ rw e (ncpus-smc_hit m c (b.start / 8 + f))
  | inr e ↦ rw e refl
]

hit_when-SamePending :
    (m : Machine) (c : ℕ) (b : Block) (f : ℕ)
    → c < m.ncpus
    → SamePending (m.cpus c) ((hit_when m c b f).cpus c)
hit_when-SamePending m c b f h = elim (Bool-cases (is_static b f)) [
  | inl e ↦ rw e (smc_hit-SamePending m c (b.start / 8 + f) h)
  | inr e ↦ rw e (refl, refl, refl)
]

pub hit_when-IsValid :
    (m : Machine) (c : ℕ) (b : Block) (f : ℕ) → IsValid m → c < m.ncpus → IsValid (hit_when m c b f)
hit_when-IsValid m c b f v h = elim (Bool-cases (is_static b f)) [
  | inl e ↦ rw e (smc_hit-IsValid m c (b.start / 8 + f) v h)
  | inr e ↦ rw e v
]

pub drop_fields-ncpus :
    (r : ℕ) (m : Machine) (c : ℕ) (b : Block) (f : ℕ) → (drop_fields r m c b f).ncpus ≡ m.ncpus
unfolding drop_fields
drop_fields-ncpus zero m c b f = refl
drop_fields-ncpus (suc r) m c b f =
    drop_fields-ncpus r (hit_when m c b f) c b (f + 1) ∙ hit_when-ncpus m c b f

pub drop_fields-SamePending :
    (r : ℕ) (m : Machine) (c : ℕ) (b : Block) (f : ℕ)
    → c < m.ncpus
    → SamePending (m.cpus c) ((drop_fields r m c b f).cpus c)
unfolding drop_fields
drop_fields-SamePending zero m c b f h = (refl, refl, refl)
drop_fields-SamePending (suc r) m c b f h =
    let m' = hit_when m c b f in
    then_same (m.cpus c) (m'.cpus c) ((drop_fields r m' c b (f + 1)).cpus c)
      (hit_when-SamePending m c b f h)
      (drop_fields-SamePending r m' c b (f + 1) (rw (hit_when-ncpus m c b f) h))

pub drop_fields-IsValid :
    (r : ℕ) (m : Machine) (c : ℕ) (b : Block) (f : ℕ)
    → IsValid m
    → c < m.ncpus
    → IsValid (drop_fields r m c b f)
unfolding drop_fields
drop_fields-IsValid zero m c b f v h = v
drop_fields-IsValid (suc r) m c b f v h =
    drop_fields-IsValid r (hit_when m c b f) c b (f + 1) (hit_when-IsValid m c b f v h)
      (rw (hit_when-ncpus m c b f) h)
