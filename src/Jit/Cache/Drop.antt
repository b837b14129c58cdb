-- ===== src/Jit/Cache/Drop.antt =====
-- The code cache as a finite map from addresses to blocks, and what dropping code does to it.
use mathlib.Core.Option
use subleq_emu.Prelude.{
  ℕ, ◌+◌, ◌*◌, ◌%◌, ◌≤◌, ◌≡◌, ◌≢◌, ◌∙◌, sym, ap, inl, inr, true, Option, none, some, ◌==◌, ltb,
  ==_iff, ==→ne, ne→==, ==_self, Bool-cases, Option-cases, if◌then◌else◌,
}
use subleq_emu.Jit.State.{Block, Cpu, max_block}
use subleq_emu.Jit.Cache.{hash, lookup, unlink, invalidate, drop_at}
use subleq_emu.Jit.Cache.Find.{
  Distinct, find-start, find_ext, Distinct-ext, find-unlink_ne, find-unlink_self, Distinct-unlink,
}

-- The block translated from an address, if there is one.
abbrev pub view : Cpu → ℕ → Option Block
view j a = Option.map j.blocks (lookup j a)

-- Chains have one block for an address; blocks found are valid, aligned, and of bounded length.
pub record IsSound (j : Cpu) : Type 0 where
  pub distinct : (h : ℕ) → Distinct j.blocks (j.htab h)
  pub found :
      (a i : ℕ)
      → lookup j a ≡ some i
      → ((j.blocks i).valid ≡ true) × ((j.blocks i).n ≤ max_block) × (a % 8 ≡ 0)

module _ (j : Cpu) (s : IsSound j) (a i : ℕ) (at : lookup j a ≡ some i) where
  start_at : (j.blocks i).start ≡ a
  unfolding lookup
  start_at = find-start j.blocks a (j.htab (hash a)) at

  same_start : (k : ℕ) → ((invalidate j i).blocks k).start ≡ (j.blocks k).start
  unfolding invalidate
  same_start k = rw (s.found a i at).0 (elim (Bool-cases (i == k)) [
    | inl e ↦ rw e (ap (λ t. (j.blocks t).start) ((==_iff i k).0 e))
    | inr e ↦ rw e
  ])

  htab-invalidate :
      (h : ℕ)
      → (invalidate j i).htab h ≡ (if hash a == h then unlink i (j.htab (hash a)) else j.htab h)
  unfolding invalidate
  htab-invalidate h = rw ((s.found a i at).0, start_at)

  pub lookup-invalidate :
      (t : ℕ) → lookup (invalidate j i) t ≡ (if a == t then none else lookup j t)
  unfolding lookup
  lookup-invalidate t =
      find_ext _ j.blocks t _ same_start
      ∙ rw (htab-invalidate (hash t)) (elim (Bool-cases (a == t)) [
        | inl here ↦
            let e : a ≡ t = (==_iff a t).0 here in
            rw (← e, ==_self a, ==_self (hash a))
              (find-unlink_self j.blocks i a (j.htab (hash a)) (s.distinct (hash a)) at)
        | inr there ↦ rw there (elim (Bool-cases (hash a == hash t)) [
          | inl same ↦
              let e : hash a ≡ hash t = (==_iff _ _).0 same in
              rw (same, e)
                (find-unlink_ne j.blocks i t (j.htab (hash t))
                  (λ p. ==→ne a t there (sym start_at ∙ p)))
          | inr other ↦ rw other
        ])
      ])

  blocks-invalidate : (k : ℕ) → i ≢ k → (invalidate j i).blocks k ≡ j.blocks k
  unfolding invalidate
  blocks-invalidate k ne = rw ((s.found a i at).0, ne→== i k ne)

  found_ne : (t k : ℕ) → a ≢ t → lookup j t ≡ some k → i ≢ k
  unfolding lookup
  found_ne t k ne e p =
      ne (sym start_at ∙ ap (λ x. (j.blocks x).start) p ∙ find-start j.blocks t (j.htab (hash t)) e)

  pub view-invalidate : (t : ℕ) → view (invalidate j i) t ≡ (if a == t then none else view j t)
  view-invalidate t = rw (lookup-invalidate t) (elim (Bool-cases (a == t)) [
    | inl here ↦ rw here
    | inr there ↦ rw there (elim (Option-cases (lookup j t)) [
      | inl e ↦ rw e
      | inr (k, e) ↦ rw e (ap some (blocks-invalidate k (found_ne t k (==→ne a t there) e)))
    ])
  ])

  pub invalidate-IsSound : IsSound (invalidate j i)
  invalidate-IsSound = record {
    distinct = λ h.
        Distinct-ext j.blocks _ _ (λ k. sym (same_start k))
          (rw (htab-invalidate h) (elim (Bool-cases (hash a == h)) [
            | inl e ↦ rw e (Distinct-unlink j.blocks i (j.htab (hash a)) (s.distinct (hash a)))
            | inr e ↦ rw e (s.distinct h)
          ]));
    found = λ t k e. elim (Bool-cases (a == t)) [
      | inl here ↦ cc (rw (lookup-invalidate t, here) at e)
      | inr there ↦
          let e' : lookup j t ≡ some k = rw (lookup-invalidate t, there) at e in
          rw (blocks-invalidate k (found_ne t k (==→ne a t there) e')) (s.found t k e')
    ];
  }

-- What is left of the block at `t` when the instruction covering `a`, at or after `t`, is dropped.
abbrev pub keep : ℕ → ℕ → Option Block → Option Block
keep t a none = none
keep t a (some b) = if ltb a (t + 24 * b.n) then none else some b

pub drop_at-IsSound : (j : Cpu) (t a : ℕ) → IsSound j → IsSound (drop_at j t a)
unfolding drop_at
drop_at-IsSound j t a s = elim (Option-cases (lookup j t)) [
  | inl e ↦ rw (e, drop_at) s
  | inr (i, e) ↦
      rw (e, drop_at)
        (elim (Bool-cases (ltb a (t + 24 * (j.blocks i).n))) [
          | inl c ↦ rw c (invalidate-IsSound j s t i e)
          | inr c ↦ rw c s
        ])
]

pub view-drop_at :
    (j : Cpu) (t a u : ℕ)
    → IsSound j
    → view (drop_at j t a) u ≡ (if t == u then keep u a (view j u) else view j u)
unfolding drop_at
view-drop_at j t a u s = elim (Bool-cases (t == u)) [
  | inl here ↦
      let t=u : t ≡ u = (==_iff t u).0 here in
      rw (here, ← t=u)
        (elim (Option-cases (lookup j t)) [
          | inl e ↦ rw (e, drop_at) (rw e)
          | inr (i, e) ↦
              rw (e, drop_at)
                (elim (Bool-cases (ltb a (t + 24 * (j.blocks i).n))) [
                  | inl c ↦ rw c (rw (view-invalidate j s t i e t, ==_self t))
                  | inr c ↦ rw c (rw e)
                ])
        ])
  | inr there ↦ rw there (elim (Option-cases (lookup j t)) [
    | inl e ↦ rw (e, drop_at)
    | inr (i, e) ↦
        rw (e, drop_at)
          (elim (Bool-cases (ltb a (t + 24 * (j.blocks i).n))) [
            | inl c ↦ rw c (rw (view-invalidate j s t i e u, there))
            | inr c ↦ rw c
          ])
  ])
]
