-- ===== src/Jit/Cache/Word.antt =====
-- `invalidate_word`: the walk over the addresses where a block reaching the word can start.
use subleq_emu.Prelude.{
  ℕ, zero, suc, ◌+◌, ◌-◌, ◌*◌, ◌/◌, ◌%◌, ◌≤◌, ◌≡◌, refl, ◌≢◌, ◌∙◌, inl, inr, true, false, Option,
  none, some, arith, ◌&&◌, ◌==◌, leb, ltb, Bool-cases, Option-cases, if◌then◌else◌,
}
use subleq_emu.Jit.State.{Block, Cpu, max_block}
use subleq_emu.Jit.Cache.{find, lookup, drop_at, drop_from, invalidate_word, flush}
use subleq_emu.Jit.Cache.Drop.{view, IsSound, keep, drop_at-IsSound, view-drop_at}

pub view_unaligned : (j : Cpu) (u : ℕ) → IsSound j → u % 8 ≢ 0 → view j u ≡ none
view_unaligned j u s ne = elim (Option-cases (lookup j u)) [
  | inl e ↦ rw e
  | inr (i, e) ↦ absurd (ne (s.found u i e).2)
]

drop_from-IsSound : (r : ℕ) (j : Cpu) (t a : ℕ) → IsSound j → IsSound (drop_from r j t a)
unfolding drop_from
drop_from-IsSound zero j t a s = s
drop_from-IsSound (suc r) j t a s =
    drop_from-IsSound r (drop_at j t a) (t + 8) a (drop_at-IsSound j t a s)

-- The walk of `r` rounds from `t` on treats every block that starts there, and no other.
view-drop_from :
    (r : ℕ) (j : Cpu) (t a u : ℕ)
    → IsSound j
    → t % 8 ≡ 0
    → view (drop_from r j t a) u
      ≡ (if leb t u && ltb u (t + r * 8) then keep u a (view j u) else view j u)
unfolding drop_from
view-drop_from zero j t a u s al =
    let off : (leb t u && ltb u (t + 0 * 8)) ≡ false = ground arith in rw off
view-drop_from (suc r) j t a u s al =
    view-drop_from r (drop_at j t a) (t + 8) a u (drop_at-IsSound j t a s) (omega arith)
    ∙ rw (view-drop_at j t a u s) (elim (Bool-cases (u % 8 == 0)) [
      | inl on ↦ elim (Bool-cases (t == u)) [
        | inl here ↦
            let below : (leb (t + 8) u && ltb u (t + 8 + r * 8)) ≡ false = ground arith in
            let inside : (leb t u && ltb u (t + suc r * 8)) ≡ true = ground arith in
            rw (here, below, inside)
        | inr there ↦
            let same : (leb (t + 8) u && ltb u (t + 8 + r * 8))
                ≡ (leb t u && ltb u (t + suc r * 8)) =
              ground arith in
            rw (there, same)
      ]
      | inr off ↦
          let nothing : view j u ≡ none = view_unaligned j u s (ground arith) in
          let there : (t == u) ≡ false = ground arith in rw (there, nothing) (ground arith)
    ])

pub invalidate_word-IsSound : (j : Cpu) (w : ℕ) → IsSound j → IsSound (invalidate_word j w)
unfolding invalidate_word
invalidate_word-IsSound j w s = drop_from-IsSound _ j _ (w * 8) s

-- A block found is at most `max_block` instructions long.
pub view_bound :
    (j : Cpu) (u : ℕ) {b : Block} → IsSound j → view j u ≡ some b → (b.n ≤ max_block) × (u % 8 ≡ 0)
view_bound j u {b} s e = elim (Option-cases (lookup j u)) [
  | inl e' ↦ cc (rw e' at e)
  | inr (i, e') ↦
      let same : some (j.blocks i) ≡ some b = rw e' at e in ground (arith, s.found u i e')
]

abbrev lowest : ℕ → ℕ
lowest a = if leb (24 * max_block) a then a - 24 * max_block + 8 else 0

-- The walk starts low enough to meet every block that reaches the word.
walk_reaches :
    (w u : ℕ) (b : Block)
    → b.n ≤ max_block
    → u % 8 ≡ 0
    → (if leb (lowest (w * 8)) u && ltb u (lowest (w * 8) + ((w * 8 - lowest (w * 8)) / 8 + 1) * 8)
        then keep u (w * 8) (some b)
        else some b)
      ≡ (if leb u (w * 8) then keep u (w * 8) (some b) else some b)
walk_reaches w u b bound al = ground arith

-- Exactly the blocks with an instruction over word `w` are gone; the others are as they were.
pub view-invalidate_word :
    (j : Cpu) (w u : ℕ)
    → IsSound j
    → view (invalidate_word j w) u ≡ (if leb u (w * 8) then keep u (w * 8) (view j u) else view j u)
unfolding invalidate_word
view-invalidate_word j w u s =
    view-drop_from ((w * 8 - lowest (w * 8)) / 8 + 1) j (lowest (w * 8)) (w * 8) u s (ground arith)
    ∙ split (view j u) refl
  where
    split :
        (v : Option Block)
        → view j u ≡ v
        → (if leb (lowest (w * 8)) u
              && ltb u (lowest (w * 8) + ((w * 8 - lowest (w * 8)) / 8 + 1) * 8)
            then keep u (w * 8) (view j u)
            else view j u)
          ≡ (if leb u (w * 8) then keep u (w * 8) (view j u) else view j u)
    split none e = rw e (ground arith)
    split (some b) e = let bound = view_bound j u s e in rw e (walk_reaches w u b bound.0 bound.1)

-- After a flush there is no block at all.
pub view-flush : (j : Cpu) (u : ℕ) → view (flush j) u ≡ none
unfolding flush lookup find
view-flush j u = refl

pub flush-IsSound : (j : Cpu) → IsSound (flush j)
unfolding flush lookup find
flush-IsSound j = record { distinct = λ h. tt; found = λ a i e. cc }
