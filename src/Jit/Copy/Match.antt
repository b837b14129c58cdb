-- ===== src/Jit/Copy/Match.antt =====
-- What `match_copy` has seen when it accepts a loop.
use mathlib.Core.Option.{some-injective, none-ne-some}
use mathlib.Core.Bool.{false≢true}
use subleq_emu.Prelude.{
  ℕ, ◌+◌, ◌*◌, ◌/◌, ◌≡◌, refl, sym, ap, subst, ◌∙◌, ◌⊎◌, inl, inr, arith, Bool, true, false, not,
  ◌&&◌, ◌||◌, Option, none, some, List, [], ◌∷◌, ◌==◌, if◌then◌else◌, Bool-cases, ==_iff, update,
}
use subleq_emu.Ram.{readram}
use subleq_emu.Jit.State.{Machine}
use subleq_emu.Jit.Maps.{bit_get}
use subleq_emu.Jit.Copy.{Matching, x_any, x_s, x_d, x_sd, match_sd, match_field, match_insns}

-- Symbol `x` stands for `v` from here on.
abbrev pub IsBound : Matching → ℕ → ℕ → Type 0
IsBound t x v = (t.bound x ≡ true) × (t.sym x ≡ v)

abbrev pub Extends : Matching → Matching → Type 0
Extends t u = (x v : ℕ) → IsBound t x v → IsBound u x v

-- A field with value `v` agrees with the template's symbol `x` under the symbols' final values.
abbrev pub Agrees : Matching → ℕ → ℕ → Type 0
Agrees r x v = (x ≡ x_any) ⊎ ((x ≡ x_sd) ⊎ IsBound r x v)

match_sd-Extends : (k v : ℕ) (t u : Matching) → match_sd k v t ≡ some u → Extends t u
unfolding match_sd
match_sd-Extends k v t u h =
    go (not (v == t.sym x_s) && not (v == t.sym x_d)) (k == 16) (v == t.sd) h
  where
    go :
        (a b c : Bool)
        → (if a then none else if b then some (record t { sd = v }) else if c then none else some t)
          ≡ some u
        → Extends t u
    go true b c h = absurd (none-ne-some _ h)
    go false true c h = subst (λ w. Extends t w) (some-injective _ _ h) (λ x w i. i)
    go false false true h = absurd (none-ne-some _ h)
    go false false false h = subst (λ w. Extends t w) (some-injective _ _ h) (λ x w i. i)

-- After a field: what was bound stays so, and the field agrees with its symbol.
record Step (t u : Matching) (x v : ℕ) : Type 0 where
  extends : Extends t u
  agrees : Agrees u x v

bind-Step :
    (t : Matching) (x v : ℕ)
    → t.bound x ≡ false
    → Step t (record t { sym = update t.sym x v; bound = update t.bound x true }) x v
bind-Step t x v free = record {
  extends = λ y w i. elim (Bool-cases (x == y)) [
    | inl e ↦ absurd (false≢true (sym free ∙ ap t.bound ((==_iff _ _).0 e) ∙ i.0))
    | inr e ↦ rw e i
  ];
  agrees = inr (inr (ground arith));
}

match_field-Step :
    (m : Machine) (k a x : ℕ) (t u : Matching)
    → match_field m k a x t ≡ some u
    → Step t u x (readram m.mem a)
unfolding match_field
match_field-Step m k a x t u h =
    go (x == x_any) (bit_get m.dyn_map (a / 8)) (x == x_sd) (t.bound x) (t.sym x == v) refl refl
      refl refl h
  where
    v : ℕ
    v = readram m.mem a

    go :
        (any dynamic sd bound same : Bool)
        → (x == x_any) ≡ any
        → (x == x_sd) ≡ sd
        → t.bound x ≡ bound
        → (t.sym x == v) ≡ same
        → (if any
            then some t
            else if dynamic
            then none
            else if sd
            then match_sd k v t
            else if not bound
            then some (record t { sym = update t.sym x v; bound = update t.bound x true })
            else if same
            then some t
            else none)
          ≡ some u
        → Step t u x v
    go true dynamic sd bound same e f b s h =
        subst (λ w. Step t w x v) (some-injective _ _ h)
          (record { extends = λ y w i. i; agrees = inl ((==_iff _ _).0 e) })
    go false true sd bound same e f b s h = absurd (none-ne-some _ h)
    go false false true bound same e f b s h = record {
      extends = match_sd-Extends k v t u h;
      agrees = inr (inl ((==_iff _ _).0 f));
    }
    go false false false false same e f b s h =
        subst (λ w. Step t w x v) (some-injective _ _ h) (bind-Step t x v b)
    go false false false true false e f b s h = absurd (none-ne-some _ h)
    go false false false true true e f b s h =
        subst (λ w. Step t w x v) (some-injective _ _ h)
          (record { extends = λ y w i. i; agrees = inr (inr (b, (==_iff _ _).0 s)) })

-- Instruction `k` at `p` in memory agrees with its line of the template.
pub record IsInsn (m : Machine) (start k x y : ℕ) (r : Matching) : Type 0 where
  pub next : readram m.mem (start + 24 * k + 16) ≡ (if k == 18 then start else start + 24 * k + 24)
  pub first : Agrees r x (readram m.mem (start + 24 * k))
  pub second : Agrees r y (readram m.mem (start + 24 * k + 8))

abbrev pub AreInsns : Machine → ℕ → List (ℕ × ℕ) → ℕ → Matching → Type 0
AreInsns m start [] k r = Unit
AreInsns m start ((x, y) ∷ insns) k r = IsInsn m start k x y r × AreInsns m start insns (k + 1) r

Agrees-Extends : (t r : Matching) (x v : ℕ) → Extends t r → Agrees t x v → Agrees r x v
Agrees-Extends t r x v e (inl a) = inl a
Agrees-Extends t r x v e (inr (inl a)) = inr (inl a)
Agrees-Extends t r x v e (inr (inr a)) = inr (inr (e x v a))

-- An instruction that agrees, and what is left of the match behind it.
record Split (m : Machine) (start k x y : ℕ) (insns : List (ℕ × ℕ)) (t r : Matching) : Type 0 where
  u : Matching
  w : Matching
  next : readram m.mem (start + 24 * k + 16) ≡ (if k == 18 then start else start + 24 * k + 24)
  first : Step t u x (readram m.mem (start + 24 * k))
  second : Step u w y (readram m.mem (start + 24 * k + 8))
  rest : match_insns m start insns (k + 1) w ≡ some r

match_insns-Split :
    (m : Machine) (start k x y : ℕ) (insns : List (ℕ × ℕ)) (t r : Matching)
    → match_insns m start ((x, y) ∷ insns) k t ≡ some r
    → Split m start k x y insns t r
unfolding match_insns
match_insns-Split m start k x y insns t r h =
    go
      (not (readram m.mem (p + 16) == (if k == 18 then start else p + 24))
        || bit_get m.dyn_map ((p + 16) / 8))
      refl h
  where
    p : ℕ
    p = start + 24 * k

    field2 :
        (u : Matching) (o : Option Matching)
        → readram m.mem (p + 16) ≡ (if k == 18 then start else p + 24)
        → match_field m k p x t ≡ some u
        → match_field m k (p + 8) y u ≡ o
        → elim o [ none ↦ none | some w ↦ match_insns m start insns (k + 1) w ] ≡ some r
        → Split m start k x y insns t r
    field2 u none c one two e = absurd (none-ne-some _ e)
    field2 u (some w) c one two e = record {
      u = u;
      w = w;
      next = c;
      first = match_field-Step m k p x t u one;
      second = match_field-Step m k (p + 8) y u w two;
      rest = e;
    }

    field1 :
        (o : Option Matching)
        → readram m.mem (p + 16) ≡ (if k == 18 then start else p + 24)
        → match_field m k p x t ≡ o
        → elim o [
          | none ↦ none
          | some u ↦ elim (match_field m k (p + 8) y u) [
            | none ↦ none
            | some w ↦ match_insns m start insns (k + 1) w
          ]
        ]
          ≡ some r
        → Split m start k x y insns t r
    field1 none c one e = absurd (none-ne-some _ e)
    field1 (some u) c one e = field2 u (match_field m k (p + 8) y u) c one refl e

    go :
        (b : Bool)
        → (not (readram m.mem (p + 16) == (if k == 18 then start else p + 24))
            || bit_get m.dyn_map ((p + 16) / 8))
          ≡ b
        → (if b then none else elim (match_field m k p x t) [
          | none ↦ none
          | some u ↦ elim (match_field m k (p + 8) y u) [
            | none ↦ none
            | some w ↦ match_insns m start insns (k + 1) w
          ]
        ])
          ≡ some r
        → Split m start k x y insns t r
    go true c e = absurd (none-ne-some _ e)
    go false c e = field1 (match_field m k p x t) (ground arith) refl e

match_insns-done :
    (m : Machine) (start k : ℕ) (t r : Matching) → match_insns m start [] k t ≡ some r → t ≡ r
unfolding match_insns
match_insns-done m start k t r h = some-injective _ _ h

pub match_insns-AreInsns :
    (m : Machine) (start : ℕ) (insns : List (ℕ × ℕ)) (k : ℕ) (t r : Matching)
    → match_insns m start insns k t ≡ some r
    → Extends t r × AreInsns m start insns k r
match_insns-AreInsns m start [] k t r h =
    (subst (λ w. Extends t w) (match_insns-done m start k t r h) (λ x v i. i), tt)
match_insns-AreInsns m start ((x, y) ∷ insns) k t r h =
    let now = match_insns-Split m start k x y insns t r h in
    let (later, all) = match_insns-AreInsns m start insns (k + 1) now.w r now.rest in
    let from_u : Extends now.u r = λ z v i. later z v (now.second.extends z v i) in
    (
      (λ z v i. from_u z v (now.first.extends z v i)),
      (
        record {
          next = now.next;
          first = Agrees-Extends now.u r x _ from_u now.first.agrees;
          second = Agrees-Extends now.w r y _ later now.second.agrees;
        },
        all,
      ),
    )
