-- ===== src/Jit/Smc/Queue.antt =====
-- The queue of words that other CPUs dropped code for: what is pushed stays until it is drained,
-- or the overflow flag stands for it.
use subleq_emu.Prelude.{
  ℕ, zero, suc, ◌+◌, ◌-◌, ◌*◌, ◌%◌, ◌<◌, ◌≡◌, refl, ◌∙◌, ◌⊎◌, inl, inr, true, false, arith, not,
  ◌&&◌, ◌==◌, leb, ltb, ==_iff, ==_self, Bool-cases, Option-cases, if◌then◌else◌,
}
use subleq_emu.Jit.State.{Cpu, queue_len}
use subleq_emu.Jit.Cache.{lookup, invalidate, drop_at, drop_from, invalidate_word}
use subleq_emu.Jit.Smc.{push_word, broadcast}

abbrev pub count : Cpu → ℕ
count j = (j.qtail + queue_len - j.qhead) % queue_len

-- Word `x` is among the `count` words of the ring from `qhead` on.
abbrev pub InQueue : Cpu → ℕ → Type 0
InQueue j x = (k : ℕ) × (k < count j) × (j.queue ((j.qhead + k) % queue_len) ≡ x)

-- Draining will drop what covers `x`: it is queued, or all code is to go.
abbrev pub IsPending : Cpu → ℕ → Type 0
IsPending j x = (j.qoverflow ≡ true) ⊎ InQueue j x

abbrev pub IsRing : Cpu → Type 0
IsRing j = (j.qhead < queue_len) × (j.qtail < queue_len)

abbrev pub SameQueue : Cpu → Cpu → Type 0
SameQueue j g =
    (g.qhead ≡ j.qhead) × (g.qtail ≡ j.qtail) × (g.qoverflow ≡ j.qoverflow) × (g.queue ≡ j.queue)

SameQueue-trans : (j g h : Cpu) → SameQueue j g → SameQueue g h → SameQueue j h
SameQueue-trans j g h p q = (q.0 ∙ p.0, q.1 ∙ p.1, q.2 ∙ p.2, q.3 ∙ p.3)

invalidate-SameQueue : (j : Cpu) (i : ℕ) → SameQueue j (invalidate j i)
unfolding invalidate
invalidate-SameQueue j i = elim (Bool-cases (j.blocks i).valid) [
  | inl e ↦ rw e (refl, refl, refl, refl)
  | inr e ↦ rw e (refl, refl, refl, refl)
]

drop_at-SameQueue : (j : Cpu) (s a : ℕ) → SameQueue j (drop_at j s a)
unfolding drop_at
drop_at-SameQueue j s a = elim (Option-cases (lookup j s)) [
  | inl e ↦ rw (e, drop_at) (refl, refl, refl, refl)
  | inr (i, e) ↦
      rw (e, drop_at)
        (elim (Bool-cases (ltb a (s + 24 * (j.blocks i).n))) [
          | inl c ↦ rw c (invalidate-SameQueue j i)
          | inr c ↦ rw c (refl, refl, refl, refl)
        ])
]

drop_from-SameQueue : (r : ℕ) (j : Cpu) (s a : ℕ) → SameQueue j (drop_from r j s a)
unfolding drop_from
drop_from-SameQueue zero j s a = (refl, refl, refl, refl)
drop_from-SameQueue (suc r) j s a =
    SameQueue-trans j (drop_at j s a) (drop_from r (drop_at j s a) (s + 8) a)
      (drop_at-SameQueue j s a) (drop_from-SameQueue r (drop_at j s a) (s + 8) a)

pub invalidate_word-SameQueue : (j : Cpu) (w : ℕ) → SameQueue j (invalidate_word j w)
unfolding invalidate_word
invalidate_word-SameQueue j w = drop_from-SameQueue _ j _ (w * 8)

pub SameQueue-IsPending : (j g : Cpu) (x : ℕ) → SameQueue j g → IsPending j x → IsPending g x
SameQueue-IsPending j g x s (inl o) = inl (s.2 ∙ o)
SameQueue-IsPending j g x s (inr (k, lt, at)) = inr (k, rw (s.0, s.1) lt, rw (s.0, s.3) at)

pub push_word-IsRing : (j : Cpu) (w : ℕ) → IsRing j → IsRing (push_word j w)
unfolding push_word
push_word-IsRing j w r = ground arith

-- What is pushed is pending, and what was pending still is.
pub push_word-IsPending_self : (j : Cpu) (w : ℕ) → IsRing j → IsPending (push_word j w) w
unfolding push_word
push_word-IsPending_self j w r = elim (Bool-cases ((j.qtail + 1) % queue_len == j.qhead)) [
  | inl full ↦ rw full (inl refl)
  | inr room ↦ rw room (inr (count j, ground arith, ground arith))
]

pub push_word-IsPending :
    (j : Cpu) (w x : ℕ) → IsRing j → IsPending j x → IsPending (push_word j w) x
unfolding push_word
push_word-IsPending j w x r p = elim (Bool-cases ((j.qtail + 1) % queue_len == j.qhead)) [
  | inl full ↦ rw full (inl refl)
  | inr room ↦
      rw room (elim p [ inl o ↦ inl o | inr (k, lt, at) ↦ inr (k, ground arith, ground arith) ])
]

-- Every CPU but the one that stores is sent the word, once.
pub broadcast_lem :
    (r : ℕ) (cpus : ℕ → Cpu) (c w i d : ℕ)
    → broadcast r cpus c w i d
      ≡ (if (leb i d && ltb d (i + r)) && not (d == c) then push_word (cpus d) w else cpus d)
unfolding broadcast
broadcast_lem zero cpus c w i d = let e : (leb i d && ltb d (i + 0)) ≡ false = ground arith in rw e
broadcast_lem (suc r) cpus c w i d = broadcast_lem r _ c w (i + 1) d ∙ elim (Bool-cases (i == d)) [
  | inl here ↦
      let i=d : i ≡ d = (==_iff i d).0 here in
      let off : (leb (i + 1) d && ltb d (i + 1 + r)) ≡ false = ground arith in
      let on : (leb i d && ltb d (i + suc r)) ≡ true = ground arith in
      rw (off, on, i=d) (elim (Bool-cases (d == c)) [ inl e ↦ rw e | inr e ↦ rw (e, ==_self d) ])
  | inr there ↦
      let same : (leb (i + 1) d && ltb d (i + 1 + r)) ≡ (leb i d && ltb d (i + suc r)) =
        ground arith in
      rw same (elim (Bool-cases (i == c)) [ inl e ↦ rw e | inr e ↦ rw (e, there) ])
]
