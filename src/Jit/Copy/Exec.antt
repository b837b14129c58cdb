-- ===== src/Jit/Copy/Exec.antt =====
-- A run of SUBLEQ instructions, followed by the words of a few cells that share no byte.
use subleq_emu.Prelude.{
  ℕ, zero, suc, ◌+◌, ◌-◌, ◌*◌, ◌≤◌, ◌<◌, ◌≡◌, refl, sym, ap, ap₂, ◌∙◌, ◌⊎◌, inl, inr, arith, List,
  [], ◌∷◌, if◌then◌else◌, two64, add64, sub64, All, Bool-cases, length, get_or, fun_ext, leb, ltb,
  ◌&&◌, true, false, Bool,
}
use subleq_emu.Ram.{Ram, readram, writeram}
use subleq_emu.Ram.Words.{
  IsBytes, readram_ext, readram-writeram, readram-writeram_disjoint, writeram-other,
  writeram-IsBytes, writeram-readram,
}
use subleq_emu.Subleq.{State, interp_cycle, jumps_if_greater}
use subleq_emu.Subleq.Agree.{cycles}
use subleq_emu.Jit.Copy.Iterate.{Apart, IsOutside}

abbrev pub set_at : ℕ → ℕ → List ℕ → List ℕ
set_at i v [] = []
set_at zero v (x ∷ xs) = v ∷ xs
set_at (suc i) v (x ∷ xs) = x ∷ set_at i v xs

-- The cells read as the values say.
abbrev pub Words : Ram → List ℕ → List ℕ → Type 0
Words x [] vs = Unit
Words x (c ∷ cs) [] = Unit
Words x (c ∷ cs) (v ∷ vs) = (readram x c ≡ v) × Words x cs vs

abbrev pub Pairwise : List ℕ → Type 0
Pairwise [] = Unit
Pairwise (c ∷ cs) = All (λ k. Apart c k) cs × Pairwise cs

Words-writeram_apart :
    (x : Ram) (a v : ℕ) (cs vs : List ℕ)
    → All (λ k. Apart a k) cs
    → Words x cs vs
    → Words (writeram x a v) cs vs
Words-writeram_apart x a v [] vs o h = tt
Words-writeram_apart x a v (c ∷ cs) [] o h = tt
Words-writeram_apart x a v (c ∷ cs) (w ∷ vs) (o, os) (h, hs) = (
  readram-writeram_disjoint x a v c (ground (arith, o)) ∙ h,
  Words-writeram_apart x a v cs vs os hs,
)

All-Apart_at :
    (c : ℕ) (cs : List ℕ) (j : ℕ)
    → j < length cs
    → All (λ k. Apart c k) cs
    → Apart c (get_or cs j 0)
All-Apart_at c [] j lt h = ground arith
All-Apart_at c (k ∷ cs) zero lt h = h.0
All-Apart_at c (k ∷ cs) (suc j) lt h = All-Apart_at c cs j (omega arith) h.1

Words-writeram :
    (x : Ram) (v : ℕ) (cs vs : List ℕ) (j : ℕ)
    → v < two64
    → j < length cs
    → Pairwise cs
    → Words x cs vs
    → Words (writeram x (get_or cs j 0) v) cs (set_at j v vs)
Words-writeram x v [] vs j b lt p h = tt
Words-writeram x v (c ∷ cs) [] j b lt p h = tt
Words-writeram x v (c ∷ cs) (w ∷ vs) zero b lt p h =
    (readram-writeram x c v b, Words-writeram_apart x c v cs vs p.0 h.1)
Words-writeram x v (c ∷ cs) (w ∷ vs) (suc j) b lt p h =
    let away : Apart c (get_or cs j 0) = All-Apart_at c cs j (omega arith) p.0 in
    (
      readram-writeram_disjoint x (get_or cs j 0) v c (ground (arith, away)) ∙ h.0,
      Words-writeram x v cs vs j b (omega arith) p.1 h.1,
    )

pub Words_at :
    (x : Ram) (cs vs : List ℕ) (j : ℕ)
    → j < length cs
    → j < length vs
    → Words x cs vs
    → readram x (get_or cs j 0) ≡ get_or vs j 0
Words_at x [] vs j lt lv h = ground arith
Words_at x (c ∷ cs) [] j lt lv h = ground arith
Words_at x (c ∷ cs) (v ∷ vs) zero lt lv h = h.0
Words_at x (c ∷ cs) (v ∷ vs) (suc j) lt lv h = Words_at x cs vs j (omega arith) (omega arith) h.1

All-IsOutside :
    (cs : List ℕ) (a q : ℕ) → All (λ k. Apart k a) cs → a ≤ q → q < a + 8 → All (IsOutside q) cs
All-IsOutside [] a q h lo hi = tt
All-IsOutside (c ∷ cs) a q (h, hs) lo hi = (ground (arith, h), All-IsOutside cs a q hs lo hi)

All-at :
    (cs : List ℕ) (q j : ℕ) → j < length cs → All (IsOutside q) cs → IsOutside q (get_or cs j 0)
All-at [] q j lt h = ground arith
All-at (k ∷ cs) q zero lt h = h.0
All-at (k ∷ cs) q (suc j) lt h = All-at cs q j (omega arith) h.1

-- Memory `x` differs from `m` in the cells only, and these hold the values.
pub record Holds (m : Ram) (cs vs : List ℕ) (x : Ram) : Type 0 where
  pub words : Words x cs vs
  pub rest : (q : ℕ) → All (IsOutside q) cs → x q ≡ m q
  pub bytes : IsBytes x

module _ (m : Ram) (cs : List ℕ) where
  pub Holds-writeram :
      (p : Pairwise cs) (x : Ram) (vs : List ℕ) (j v : ℕ)
      → v < two64
      → j < length cs
      → Holds m cs vs x
      → Holds m cs (set_at j v vs) (writeram x (get_or cs j 0) v)
  Holds-writeram p x vs j v b lt h = record {
    words = Words-writeram x v cs vs j b lt p h.words;
    rest = λ q o. writeram-other x (get_or cs j 0) v q (All-at cs q j lt o) ∙ h.rest q o;
    bytes = writeram-IsBytes x (get_or cs j 0) v h.bytes;
  }

  -- A word that shares no byte with a cell is as it was.
  pub Holds-readram :
      (x : Ram) (vs : List ℕ) (a : ℕ)
      → Holds m cs vs x
      → All (λ k. Apart k a) cs
      → readram x a ≡ readram m a
  Holds-readram x vs a h away =
      readram_ext x m a (λ q lo hi. h.rest q (All-IsOutside cs a q away lo hi))

  -- `k` instructions from `start` on have been run one after the other.
  pub record At (start k : ℕ) (vs : List ℕ) : Type 0 where
    pub x : Ram
    pub runs : cycles k (m, start) ≡ (x, start + 24 * k)
    pub holds : Holds m cs vs x

pub cycles-suc : (k : ℕ) (s : State) → cycles (suc k) s ≡ interp_cycle (cycles k s)
cycles-suc zero s = refl
cycles-suc (suc k) s = cycles-suc k (interp_cycle s)

-- What an instruction does, by the words that it reads.
pub interp_cycle_lem :
    (x : Ram) (p a b va vb : ℕ)
    → p + 24 < two64
    → readram x p ≡ a
    → readram x (p + 8) ≡ b
    → readram x a ≡ va
    → readram x b ≡ vb
    → interp_cycle (x, p)
      ≡ (writeram x b (sub64 vb va), if jumps_if_greater vb va then p + 24 else readram x (p + 16))
unfolding interp_cycle readram writeram
interp_cycle_lem x p a b va vb lt ea eb eva evb =
    let one : add64 p 8 ≡ p + 8 = omega arith in
    let two : add64 p 16 ≡ p + 16 = omega arith in
    let three : add64 p 24 ≡ p + 24 = omega arith in rw (one, two, three, ea, eb, eva, evb) refl

module _ (m : Ram) (cs : List ℕ) (p : Pairwise cs) where
  -- One instruction more, of which every word is known and which goes on to the next one.
  pub advance :
      (start k : ℕ) (vs : List ℕ) (j a va v : ℕ)
      → start + 24 * k + 24 < two64
      → j < length cs
      → j < length vs
      → At m cs start k vs
      → ((x : Ram) → Holds m cs vs x → readram x (start + 24 * k) ≡ a)
      → ((x : Ram) → Holds m cs vs x → readram x (start + 24 * k + 8) ≡ get_or cs j 0)
      → ((x : Ram) → Holds m cs vs x → readram x (start + 24 * k + 16) ≡ start + 24 * k + 24)
      → ((x : Ram) → Holds m cs vs x → readram x a ≡ va)
      → sub64 (get_or vs j 0) va ≡ v
      → At m cs start (suc k) (set_at j v vs)
  advance start k vs j a va v lt jc jv before fa fb fc fva ev =
      let x = before.x in
      let h = before.holds in
      let b = get_or cs j 0 in
      let old : readram x b ≡ get_or vs j 0 = Words_at x cs vs j jc jv h.words in
      let one =
        interp_cycle_lem x (start + 24 * k) a b va (get_or vs j 0) lt (fa x h) (fb x h) (fva x h)
          old in
      let small : v < two64 = omega (arith, ev) in
      let same : (if jumps_if_greater (get_or vs j 0) va
            then start + 24 * k + 24
            else readram x (start + 24 * k + 16))
          ≡ start + 24 * suc k =
        rw (fc x h) (next_one (jumps_if_greater (get_or vs j 0) va)) in
      record {
        x = writeram x b v;
        runs =
            cycles-suc k (m, start)
            ∙ ap interp_cycle before.runs
            ∙ one
            ∙ ap₂ (λ w n. (writeram x b w, n)) ev same;
        holds = Holds-writeram m cs p x vs j v small jc h;
      }
    where
      next_one :
          (t : Bool) → (if t then start + 24 * k + 24 else start + 24 * k + 24) ≡ start + 24 * suc k
      next_one true = omega arith
      next_one false = omega arith

word_bytes :
    (x y : Ram) (c q : ℕ)
    → IsBytes x
    → IsBytes y
    → readram x c ≡ readram y c
    → c ≤ q
    → q < c + 8
    → x q ≡ y q
word_bytes x y c q bx by e lo hi =
    let inside : (leb c q && ltb q (c + 8)) ≡ true = ground arith in
    let index : c + (q - c) ≡ q = omega arith in
    ap x (sym index)
    ∙ (sym (writeram-readram x x c c q bx ∙ rw inside refl)
        ∙ ap (λ v. writeram x c v q) e
        ∙ (writeram-readram x y c c q by ∙ rw inside refl))
    ∙ ap y index

IsOutside-or_same :
    (x y : Ram) (cs vs : List ℕ) (q : ℕ)
    → IsBytes x
    → IsBytes y
    → length cs ≤ length vs
    → Words x cs vs
    → Words y cs vs
    → All (IsOutside q) cs ⊎ (x q ≡ y q)
IsOutside-or_same x y [] vs q bx by lt hx hy = inl tt
IsOutside-or_same x y (c ∷ cs) [] q bx by lt hx hy = ground arith
IsOutside-or_same x y (c ∷ cs) (v ∷ vs) q bx by lt hx hy =
    elim (IsOutside-or_same x y cs vs q bx by (omega arith) hx.1 hy.1) [
      | inr e ↦ inr e
      | inl o ↦ elim (Bool-cases (leb c q && ltb q (c + 8))) [
        | inl t ↦ inr (word_bytes x y c q bx by (hx.0 ∙ sym hy.0) (ground arith) (ground arith))
        | inr f ↦ inl (ground arith, o)
      ]
    ]

-- The values of the cells say what memory is.
pub Holds-unique :
    (m : Ram) (cs vs : List ℕ) (x y : Ram)
    → length cs ≤ length vs
    → Holds m cs vs x
    → Holds m cs vs y
    → x ≡ y
Holds-unique m cs vs x y lt hx hy = fun_ext (λ q.
    elim (IsOutside-or_same x y cs vs q hx.bytes hy.bytes lt hx.words hy.words) [
      | inl o ↦ hx.rest q o ∙ sym (hy.rest q o)
      | inr e ↦ e
    ])
