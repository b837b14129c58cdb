-- ===== src/Jit/Reval/Checked.antt =====
-- What a round of `revalidate` of kernel/src/jit.c does for the block that it takes from the ring,
-- against a hash over the list of the block's static words and the lowest of the published epochs.
use subleq_emu.Prelude.{
  ℕ, zero, suc, ◌+◌, ◌-◌, ◌*◌, ◌/◌, ◌≤◌, ◌<◌, ◌≡◌, refl, sym, subst, ap, ◌∙◌, ◌⊎◌, inl, inr, true,
  false, ◌&&◌, some, List, [], ◌∷◌, ◌==◌, leb, ltb, ==_self, ==_iff, Bool-cases, arith, two64,
  mul64, bit_xor, if◌then◌else◌,
}
use subleq_emu.Ram.{Ram, load64}
use subleq_emu.Jit.State.{Block, Cpu, Machine}
use subleq_emu.Jit.Cache.Drop.{view}
use subleq_emu.Jit.Cache.Word.{view-invalidate_word}
use subleq_emu.Jit.Smc.{is_static, smc_hit}
use subleq_emu.Jit.Cache.{invalidate_word}
use subleq_emu.Jit.Smc.Hit.{IsValid, SameCode-view, SameCode-IsSound, kept, tally, cpus-smc_hit}
use subleq_emu.Jit.Reval.{hash_fields, static_hash, min_quiet, drop_fields}
use subleq_emu.Jit.Reval.Pending.{hit_when, hit_when-ncpus, hit_when-IsValid}

-- The words of the static fields among the `rounds` fields from `f` on.
abbrev pub static_words : ℕ → Ram → Block → ℕ → List ℕ
static_words zero mem b f = []
static_words (suc rounds) mem b f =
    let rest = static_words rounds mem b (f + 1) in
    if is_static b f then load64 mem (b.start + 8 * f) ∷ rest else rest

-- A word is mixed in by exclusive or, and a multiplication by 2^40 + 435.
abbrev pub mix : ℕ → List ℕ → ℕ
mix h [] = h
mix h (w ∷ ws) = mix (mul64 (bit_xor h w) 1099511628211) ws

abbrev pub hash_of : Ram → Block → ℕ
hash_of mem b = mix 11400714819323198485 (static_words (3 * b.n) mem b 0)

hash_fields-mix :
    (r : ℕ) (mem : Ram) (b : Block) (f h : ℕ)
    → hash_fields r mem b f h ≡ mix h (static_words r mem b f)
unfolding hash_fields
hash_fields-mix zero mem b f h = refl
hash_fields-mix (suc r) mem b f h = elim (Bool-cases (is_static b f)) [
  | inl e ↦ rw e (hash_fields-mix r mem b (f + 1) _)
  | inr e ↦ rw e (hash_fields-mix r mem b (f + 1) h)
]

pub static_hash_lem : (mem : Ram) (b : Block) → static_hash mem b ≡ hash_of mem b
unfolding static_hash
static_hash_lem mem b =
    let fields : b.n * 3 ≡ 3 * b.n = omega arith in
    rw fields (hash_fields-mix (3 * b.n) mem b 0 11400714819323198485)

-- No epoch of the `n` CPUs is below `low`, and one of them is `low` if any is below the largest
-- 64-bit number.
pub record IsLowest (n : ℕ) (quiet : ℕ → ℕ) (low : ℕ) : Type 0 where
  pub below : (d : ℕ) → d < n → low ≤ quiet d
  pub reached : (low ≡ two64 - 1) ⊎ ((d : ℕ) × (d < n) × (quiet d ≡ low))

-- No block that can be entered has an instruction over word `w`.
abbrev pub IsClear : Cpu → ℕ → Type 0
IsClear j w = (u : ℕ) (b : Block) → view j u ≡ some b → (8 * w < u) ⊎ (u + 24 * b.n ≤ 8 * w)

abbrev pub Fewer : Cpu → Cpu → Type 0
Fewer j g = (u : ℕ) (b : Block) → view g u ≡ some b → view j u ≡ some b

module _ (m : Machine) (c w : ℕ) (v : IsValid m) (h : c < m.ncpus) where
  seen :
      (u : ℕ) (b : Block)
      → view ((smc_hit m c w).cpus c) u ≡ some b
      → (view (m.cpus c) u ≡ some b) × ((leb u (w * 8) && ltb (w * 8) (u + 24 * b.n)) ≡ false)
  seen u b e =
      let sound = SameCode-IsSound (m.cpus c) (tally (m.cpus c)) (refl, refl) (v.cpu c h).sound in
      let e' : view (invalidate_word (tally (m.cpus c)) w) u ≡ some b =
        rw (cpus-smc_hit m c w c h, ==_self c) at e in
      let k = kept u (w * 8) _ (sym (view-invalidate_word (tally (m.cpus c)) w u sound) ∙ e') in
      (sym (SameCode-view (m.cpus c) (tally (m.cpus c)) u (refl, refl)) ∙ k.0, k.1)

  smc_hit-Fewer : Fewer (m.cpus c) ((smc_hit m c w).cpus c)
  smc_hit-Fewer u b e = (seen u b e).0

  smc_hit-IsClear : IsClear ((smc_hit m c w).cpus c) w
  smc_hit-IsClear u b e = ground (arith, (seen u b e).1)

mem-smc_hit : (m : Machine) (c w : ℕ) → (smc_hit m c w).mem ≡ m.mem
unfolding smc_hit
mem-smc_hit m c w = refl

hit_when-Fewer :
    (m : Machine) (c : ℕ) (b : Block) (f : ℕ)
    → IsValid m
    → c < m.ncpus
    → Fewer (m.cpus c) ((hit_when m c b f).cpus c)
hit_when-Fewer m c b f v h = elim (Bool-cases (is_static b f)) [
  | inl e ↦ rw e (smc_hit-Fewer m c (b.start / 8 + f) v h)
  | inr e ↦ rw e (λ u x k. k)
]

hit_when-mem : (m : Machine) (c : ℕ) (b : Block) (f : ℕ) → (hit_when m c b f).mem ≡ m.mem
hit_when-mem m c b f = elim (Bool-cases (is_static b f)) [
  | inl e ↦ rw e (mem-smc_hit m c (b.start / 8 + f))
  | inr e ↦ rw e refl
]

pub drop_fields-mem :
    (r : ℕ) (m : Machine) (c : ℕ) (b : Block) (f : ℕ) → (drop_fields r m c b f).mem ≡ m.mem
unfolding drop_fields
drop_fields-mem zero m c b f = refl
drop_fields-mem (suc r) m c b f =
    drop_fields-mem r (hit_when m c b f) c b (f + 1) ∙ hit_when-mem m c b f

pub drop_fields-Fewer :
    (r : ℕ) (m : Machine) (c : ℕ) (b : Block) (f : ℕ)
    → IsValid m
    → c < m.ncpus
    → Fewer (m.cpus c) ((drop_fields r m c b f).cpus c)
unfolding drop_fields
drop_fields-Fewer zero m c b f v h = λ u x k. k
drop_fields-Fewer (suc r) m c b f v h =
    let m' = hit_when m c b f in
    let later =
      drop_fields-Fewer r m' c b (f + 1) (hit_when-IsValid m c b f v h)
        (rw (hit_when-ncpus m c b f) h) in
    λ u x k. hit_when-Fewer m c b f v h u x (later u x k)

-- Each static field among the `r` from `f` on is clear of blocks after the drops.
pub drop_fields-IsClear :
    (r : ℕ) (m : Machine) (c : ℕ) (b : Block) (f i : ℕ)
    → IsValid m
    → c < m.ncpus
    → f ≤ i
    → i < f + r
    → is_static b i ≡ true
    → IsClear ((drop_fields r m c b f).cpus c) (b.start / 8 + i)
unfolding drop_fields
drop_fields-IsClear zero m c b f i v h lo hi st = ground arith
drop_fields-IsClear (suc r) m c b f i v h lo hi st = elim (Bool-cases (f == i)) [
  | inl here ↦
      let at_f : is_static b f ≡ true =
        subst (λ k. is_static b k ≡ true) (sym ((==_iff f i).0 here)) st in
      λ u x k.
        let hit = drop_fields-Fewer r (hit_when m c b f) c b (f + 1) valid count u x k in
        ground (
          arith,
          smc_hit-IsClear m c (b.start / 8 + f) v h u x (rw at_f at hit),
          (==_iff f i).0 here,
        )
  | inr there ↦
      drop_fields-IsClear r (hit_when m c b f) c b (f + 1) i valid count (ground arith)
        (omega arith) st
]
  where
    valid : IsValid (hit_when m c b f)
    valid = hit_when-IsValid m c b f v h

    count : c < (hit_when m c b f).ncpus
    count = rw (hit_when-ncpus m c b f) h

min_quiet-IsLowest :
    (r : ℕ) (quiet : ℕ → ℕ) (c low n : ℕ)
    → c + r ≡ n
    → ((d : ℕ) → d < c → low ≤ quiet d)
    → (low ≡ two64 - 1) ⊎ ((d : ℕ) × (d < n) × (quiet d ≡ low))
    → IsLowest n quiet (min_quiet r quiet c low)
unfolding min_quiet
min_quiet-IsLowest zero quiet c low n e below reached = record {
  below = λ d lt. below d (omega arith);
  reached = reached;
}
min_quiet-IsLowest (suc r) quiet c low n e below reached = elim (Bool-cases (ltb (quiet c) low)) [
  | inl less ↦ rw less (
      min_quiet-IsLowest r quiet (c + 1) (quiet c) n (omega arith)
        (λ d lt. elim (Bool-cases (d == c)) [
          | inl same ↦ ground (arith, ap quiet ((==_iff d c).0 same))
          | inr other ↦ ground (arith, below d)
        ])
        (inr (c, omega arith, refl)))
  | inr more ↦ rw more (
      min_quiet-IsLowest r quiet (c + 1) low n (omega arith)
        (λ d lt. elim (Bool-cases (d == c)) [
          | inl same ↦ ground (arith, ap quiet ((==_iff d c).0 same))
          | inr other ↦ ground (arith, below d)
        ])
        reached)
]

pub min_quiet_lem : (n : ℕ) (quiet : ℕ → ℕ) → IsLowest n quiet (min_quiet n quiet 0 (two64 - 1))
min_quiet_lem n quiet =
    min_quiet-IsLowest n quiet 0 (two64 - 1) n (omega arith) (λ d lt. ground arith) (inl refl)
