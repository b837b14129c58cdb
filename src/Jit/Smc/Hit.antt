-- ===== src/Jit/Smc/Hit.antt =====
-- The invariant that ties the static map to the translated code, and `smc_hit` and `store_check`,
-- which keep it.
use subleq_emu.Prelude.{
  ℕ, ◌+◌, ◌*◌, ◌/◌, ◌≤◌, ◌<◌, ◌≡◌, refl, ◌∙◌, sym, ◌⊎◌, inl, inr, Bool, true, false, Option, none,
  some, arith, not, ◌&&◌, ◌==◌, leb, ltb, lt→ltb, ==_iff, ==_self, Bool-cases, if◌then◌else◌,
  update, add64, two63,
}
use subleq_emu.Jit.State.{Block, Cpu, Machine}
use subleq_emu.Jit.Maps.{bit_get, bit_clr, IsBytes, bit_get-bit_clr, bit_clr-IsBytes}
use subleq_emu.Jit.Cache.{lookup, invalidate_word}
use subleq_emu.Jit.Cache.Drop.{view, IsSound, keep}
use subleq_emu.Jit.Cache.Word.{view_bound, view-invalidate_word, invalidate_word-IsSound}
use subleq_emu.Jit.Smc.{is_static, on_stats, push_word, smc_hit, store_check}
use subleq_emu.Jit.Smc.Queue.{
  IsPending, IsRing, SameQueue-IsPending, invalidate_word-SameQueue, push_word-IsRing,
  push_word-IsPending_self, push_word-IsPending, broadcast_lem,
}

-- Every static field of every block a CPU can enter is marked, or the CPU will drop the block
-- when it next drains its queue.
abbrev pub IsCovered : (ℕ → ℕ) → Cpu → Type 0
IsCovered map j =
    (u f : ℕ) (b : Block)
    → view j u ≡ some b
    → f < 3 * b.n
    → is_static b f ≡ true
    → (bit_get map (u / 8 + f) ≡ true) ⊎ IsPending j (u / 8 + f)

-- A CPU's part of the invariant.
pub record IsGood (map : ℕ → ℕ) (size : ℕ) (j : Cpu) : Type 0 where
  pub sound : IsSound j
  pub ring : IsRing j
  pub inside : (u : ℕ) (b : Block) → view j u ≡ some b → u + 24 * b.n ≤ size
  pub covered : IsCovered map j

pub record IsValid (m : Machine) : Type 0 where
  pub map_bytes : IsBytes m.static_map
  pub size : m.mem_size ≤ two63
  pub cpu : (d : ℕ) → d < m.ncpus → IsGood m.static_map m.mem_size (m.cpus d)

-- A change that leaves the table and the blocks alone.
abbrev pub SameCode : Cpu → Cpu → Type 0
SameCode j g = (g.htab ≡ j.htab) × (g.blocks ≡ j.blocks)

pub SameCode-lookup : (j g : Cpu) (u : ℕ) → SameCode j g → lookup g u ≡ lookup j u
unfolding lookup
SameCode-lookup j g u s = rw (s.0, s.1)

pub SameCode-view : (j g : Cpu) (u : ℕ) → SameCode j g → view g u ≡ view j u
SameCode-view j g u s = rw (SameCode-lookup j g u s, s.1)

pub SameCode-IsSound : (j g : Cpu) → SameCode j g → IsSound j → IsSound g
SameCode-IsSound j g s h = record {
  distinct = λ k. rw (s.0, s.1) (h.distinct k);
  found = λ a i e. rw (s.1) (h.found a i (sym (SameCode-lookup j g a s) ∙ e));
}

push_word-SameCode : (j : Cpu) (w : ℕ) → SameCode j (push_word j w)
unfolding push_word
push_word-SameCode j w = ground arith

-- A block that survives `invalidate_word` was there before, and does not reach the word.
pub kept :
    (u a : ℕ) (v : Option Block) {b : Block}
    → (if leb u a then keep u a v else v) ≡ some b
    → (v ≡ some b) × ((leb u a && ltb a (u + 24 * b.n)) ≡ false)
kept u a none e = ground arith
kept u a (some x) e = ground arith

abbrev pub tally : Cpu → Cpu
tally j = on_stats j (λ s. record s { smc_words = s.smc_words + 1 })

pub cpus-smc_hit :
    (m : Machine) (c w d : ℕ)
    → d < m.ncpus
    → (smc_hit m c w).cpus d
      ≡ (if d == c then invalidate_word (tally (m.cpus c)) w else push_word (m.cpus d) w)
unfolding smc_hit
cpus-smc_hit m c w d h =
    broadcast_lem m.ncpus (update m.cpus c (invalidate_word (tally (m.cpus c)) w)) c w 0 d
    ∙ (let on : (leb 0 d && ltb d (0 + m.ncpus)) ≡ true = ground arith in
        elim (Bool-cases (d == c)) [
          | inl e ↦ let e' : d ≡ c = (==_iff d c).0 e in rw (on, e, e', ==_self c)
          | inr e ↦ let e' : (c == d) ≡ false = ground arith in rw (on, e, e')
        ])

pub static_map-smc_hit :
    (m : Machine) (c w x : ℕ)
    → IsBytes m.static_map
    → bit_get (smc_hit m c w).static_map x ≡ (if w == x then false else bit_get m.static_map x)
unfolding smc_hit
static_map-smc_hit m c w x h = bit_get-bit_clr m.static_map w x h

module _ (m : Machine) (w : ℕ) (h : IsBytes m.static_map) where
  open m use {static_map as map, mem_size as size}

  -- The CPU that stores drops the blocks over the word.
  own-IsGood :
      (j : Cpu) → IsGood map size j → IsGood (bit_clr map w) size (invalidate_word (tally j) w)
  own-IsGood j g = record {
    sound = invalidate_word-IsSound (tally j) w sound;
    ring = let s = invalidate_word-SameQueue (tally j) w in rw (s.0, s.1) g.ring;
    inside = λ u b e. g.inside u b (before u b e).0;
    covered = λ u f b e lt st.
        let old = before u b e in
        let bound = view_bound j u g.sound old.0 in
        elim (g.covered u f b old.0 lt st) [
          | inl mark ↦
              inl (rw (bit_get-bit_clr map w (u / 8 + f) h) (ground (arith, old.1, bound.1)))
          | inr p ↦ inr (
              SameQueue-IsPending (tally j) (invalidate_word (tally j) w) (u / 8 + f)
                (invalidate_word-SameQueue (tally j) w) p)
        ];
  }
    where
      sound : IsSound (tally j)
      sound = SameCode-IsSound j (tally j) (refl, refl) g.sound

      before :
          (u : ℕ) (b : Block)
          → view (invalidate_word (tally j) w) u ≡ some b
          → (view j u ≡ some b) × ((leb u (w * 8) && ltb (w * 8) (u + 24 * b.n)) ≡ false)
      before u b e =
          let k =
            kept u (w * 8) (view (tally j) u)
              (sym (view-invalidate_word (tally j) w u sound) ∙ e) in
          (sym (SameCode-view j (tally j) u (refl, refl)) ∙ k.0, k.1)

  -- Another CPU has the word queued.
  other-IsGood : (j : Cpu) → IsGood map size j → IsGood (bit_clr map w) size (push_word j w)
  other-IsGood j g = record {
    sound = SameCode-IsSound j (push_word j w) same g.sound;
    ring = push_word-IsRing j w g.ring;
    inside = λ u b e. g.inside u b (before u b e);
    covered = λ u f b e lt st. elim (g.covered u f b (before u b e) lt st) [
      | inl mark ↦ elim (Bool-cases (w == u / 8 + f)) [
        | inl hit ↦
            let w=x : w ≡ u / 8 + f = (==_iff _ _).0 hit in
            inr (rw (← w=x) (push_word-IsPending_self j w g.ring))
        | inr miss ↦ inl (rw (bit_get-bit_clr map w (u / 8 + f) h, miss) mark)
      ]
      | inr p ↦ inr (push_word-IsPending j w (u / 8 + f) g.ring p)
    ];
  }
    where
      same : SameCode j (push_word j w)
      same = push_word-SameCode j w

      before : (u : ℕ) (b : Block) → view (push_word j w) u ≡ some b → view j u ≡ some b
      before u b e = sym (SameCode-view j (push_word j w) u same) ∙ e

-- `smc_hit` keeps the invariant.
pub smc_hit-IsValid : (m : Machine) (c w : ℕ) → IsValid m → c < m.ncpus → IsValid (smc_hit m c w)
unfolding smc_hit
smc_hit-IsValid m c w v hc = record {
  map_bytes = bit_clr-IsBytes m.static_map w v.map_bytes;
  size = v.size;
  cpu = λ d hd. rw (cpus-smc_hit m c w d hd) (elim (Bool-cases (d == c)) [
    | inl e ↦ rw e (own-IsGood m w v.map_bytes (m.cpus c) (v.cpu c hc))
    | inr e ↦ rw e (other-IsGood m w v.map_bytes (m.cpus d) (v.cpu d hd))
  ]);
}

-- The two words that a store of eight bytes at `b` touches.
abbrev pub first_word : ℕ → ℕ
first_word b = b / 8

abbrev pub last_word : ℕ → ℕ
last_word b = add64 b 7 / 8

abbrev hit_if : Bool → Machine → ℕ → ℕ → Machine
hit_if test m c w = if test then smc_hit m c w else m

abbrev test_first : Machine → ℕ → Bool
test_first m b = ltb (first_word b) (m.mem_size / 8) && bit_get m.static_map (first_word b)

abbrev test_last : Machine → Machine → ℕ → Bool
test_last m m0 b =
    not (last_word b == first_word b)
    && (ltb (last_word b) (m.mem_size / 8) && bit_get m0.static_map (last_word b))

store_check_lem :
    (m : Machine) (c b : ℕ)
    → let m0 = hit_if (test_first m b) m c (first_word b) in
      store_check m c b ≡ hit_if (test_last m m0 b) m0 c (last_word b)
unfolding store_check
store_check_lem m c b = refl

-- What a hit, taken or not, leaves alone.
abbrev pub SameMemory : Machine → Machine → Type 0
SameMemory m g = (g.mem ≡ m.mem) × (g.mem_size ≡ m.mem_size) × (g.ncpus ≡ m.ncpus)

hit_if-SameMemory : (t : Bool) (m : Machine) (c w : ℕ) → SameMemory m (hit_if t m c w)
unfolding smc_hit
hit_if-SameMemory true m c w = (refl, refl, refl)
hit_if-SameMemory false m c w = (refl, refl, refl)

hit_if-IsValid :
    (t : Bool) (m : Machine) (c w : ℕ) → IsValid m → c < m.ncpus → IsValid (hit_if t m c w)
hit_if-IsValid true m c w v h = smc_hit-IsValid m c w v h
hit_if-IsValid false m c w v h = v

hit_if-map :
    (t : Bool) (m : Machine) (c w x : ℕ)
    → IsBytes m.static_map
    → bit_get (hit_if t m c w).static_map x
      ≡ (if t && (w == x) then false else bit_get m.static_map x)
hit_if-map true m c w x h = static_map-smc_hit m c w x h
hit_if-map false m c w x h = refl

module _ (m : Machine) (c b : ℕ) where
  abbrev m0 : Machine
  m0 = hit_if (test_first m b) m c (first_word b)

  m0_same : SameMemory m m0
  m0_same = hit_if-SameMemory (test_first m b) m c (first_word b)

  pub store_check-SameMemory : SameMemory m (store_check m c b)
  store_check-SameMemory =
      let s = hit_if-SameMemory (test_last m m0 b) m0 c (last_word b) in
      rw (store_check_lem m c b) (s.0 ∙ m0_same.0, s.1 ∙ m0_same.1, s.2 ∙ m0_same.2)

module _ (m : Machine) (c b : ℕ) (v : IsValid m) (hc : c < m.ncpus) where
  abbrev n0 : Machine
  n0 = m0 m c b

  m0-IsValid : IsValid n0
  m0-IsValid = hit_if-IsValid (test_first m b) m c (first_word b) v hc

  pub store_check-IsValid : IsValid (store_check m c b)
  store_check-IsValid =
      rw (store_check_lem m c b) (
        hit_if-IsValid (test_last m n0 b) n0 c (last_word b) m0-IsValid (rw ((m0_same m c b).2) hc))

  m0_clear : first_word b < m.mem_size / 8 → bit_get n0.static_map (first_word b) ≡ false
  m0_clear h =
      hit_if-map (test_first m b) m c (first_word b) (first_word b) v.map_bytes
      ∙ rw (lt→ltb _ _ h, ==_self (first_word b))
          (elim (Bool-cases (bit_get m.static_map (first_word b))) [ inl e ↦ rw e | inr e ↦ rw e ])

  hit_if_clear :
      (t : Bool) (x : ℕ)
      → bit_get n0.static_map x ≡ false
      → (if t && (last_word b == x) then false else bit_get n0.static_map x) ≡ false
  hit_if_clear t x e =
      rw e (elim (Bool-cases (t && (last_word b == x))) [ inl p ↦ rw p | inr p ↦ rw p ])

  map_lem :
      (x : ℕ)
      → bit_get (store_check m c b).static_map x
        ≡ (if test_last m n0 b && (last_word b == x) then false else bit_get n0.static_map x)
  map_lem x =
      rw (store_check_lem m c b)
        (hit_if-map (test_last m n0 b) n0 c (last_word b) x m0-IsValid.map_bytes)

  first_clear :
      first_word b < m.mem_size / 8 → bit_get (store_check m c b).static_map (first_word b) ≡ false
  first_clear h =
      map_lem (first_word b) ∙ hit_if_clear (test_last m n0 b) (first_word b) (m0_clear h)

  last_clear :
      last_word b < m.mem_size / 8 → bit_get (store_check m c b).static_map (last_word b) ≡ false
  last_clear h = elim (Bool-cases (last_word b == first_word b)) [
    | inl e ↦
        let e' : last_word b ≡ first_word b = (==_iff _ _).0 e in rw e' (first_clear (rw e' at h))
    | inr e ↦ map_lem (last_word b) ∙ elim (Bool-cases (bit_get n0.static_map (last_word b))) [
      | inl on ↦ rw (e, lt→ltb _ _ h, on, ==_self (last_word b))
      | inr off ↦ hit_if_clear (test_last m n0 b) (last_word b) off
    ]
  ]

  -- No word that the store touches, if it lies in Dawn's memory, is marked any more.
  pub store_check-clear :
      (x : ℕ)
      → x < m.mem_size / 8
      → (x ≡ first_word b) ⊎ (x ≡ last_word b)
      → bit_get (store_check m c b).static_map x ≡ false
  store_check-clear x hx (inl e) = rw e (first_clear (rw e at hx))
  store_check-clear x hx (inr e) = rw e (last_clear (rw e at hx))
