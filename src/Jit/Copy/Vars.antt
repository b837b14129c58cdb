-- ===== src/Jit/Copy/Vars.antt =====
-- The variables of a loop that `match_copy` has accepted.
use mathlib.Core.Bool.{false≢true}
use mathlib.Core.Option.{some-injective, none-ne-some}
use subleq_emu.Prelude.{
  ℕ, ◌+◌, ◌-◌, ◌*◌, ◌/◌, ◌≤◌, ◌≡◌, ◌≢◌, refl, subst, ◌⊎◌, inl, inr, arith, Bool, true, false, not,
  ◌&&◌, ◌||◌, Option, none, some, List, [], ◌∷◌, ltb, ◌==◌, if◌then◌else◌, two64, All, Bool-cases,
  ==→ne,
}
use subleq_emu.Jit.State.{Machine}
use subleq_emu.Jit.Copy.{
  Desc, Matching, copy_tmpl, first_matching, match_insns, match_copy, desc_of, variables,
  is_variable, are_variables, is_among,
}
use subleq_emu.Jit.Copy.Iterate.{Apart, AreApart}

-- The loop lies in memory, and its variables share no byte with one another or with it.
pub record IsDesc (m : Machine) (e : Desc) : Type 0 where
  pub fits : e.start + 19 * 24 ≤ m.mem_size
  pub apart : AreApart e

and_true : (a b : Bool) → (a && b) ≡ true → (a ≡ true) × (b ≡ true)
and_true true b h = (refl, h)
and_true false b h = (h, absurd (false≢true h))

is_among-All : (v : ℕ) (ws : List ℕ) → not (is_among v ws) ≡ true → All (λ w. w ≢ v) ws
unfolding is_among
is_among-All v [] h = tt
is_among-All v (w ∷ ws) h = elim (Bool-cases (w == v)) [
  | inl e ↦ absurd (false≢true (subst (λ b. not (b || is_among v ws) ≡ true) e h))
  | inr e ↦ (==→ne w v e, is_among-All v ws (subst (λ b. not (b || is_among v ws) ≡ true) e h))
]

module _ (m : Machine) (small : m.mem_size ≤ two64 - 8) where
  aligned_distinct : (v w : ℕ) → v / 8 * 8 ≡ v → w / 8 * 8 ≡ w → v ≢ w → Apart v w
  aligned_distinct v w a b n = ground arith

  record IsVariable (start v : ℕ) : Type 0 where
    aligned : v / 8 * 8 ≡ v
    out : (v + 8 ≤ start) ⊎ (start + 19 * 24 ≤ v)

  is_variable-IsVariable :
      (start v : ℕ)
      → start + 19 * 24 ≤ m.mem_size
      → is_variable m start v ≡ true
      → IsVariable start v
  is_variable-IsVariable start v fits h = record { aligned = ground arith; out = ground arith }

  are_variables-head :
      (start : ℕ) (earlier : List ℕ) (v : ℕ) (vs : List ℕ)
      → start + 19 * 24 ≤ m.mem_size
      → are_variables m start earlier (v ∷ vs) ≡ true
      → IsVariable start v
        × All (λ w. w ≢ v) earlier
        × (are_variables m start (v ∷ earlier) vs ≡ true)
  unfolding are_variables
  are_variables-head start earlier v vs fits h =
      let (i, rest) = and_true (is_variable m start v) _ h in
      let (n, later) = and_true (not (is_among v earlier)) _ rest in
      (is_variable-IsVariable start v fits i, is_among-All v earlier n, later)

  are_variables-AreApart :
      (e : Desc)
      → e.start + 19 * 24 ≤ m.mem_size
      → are_variables m e.start [] (variables e) ≡ true
      → AreApart e
  are_variables-AreApart e fits h =
      let (t1, n1, h1) =
        are_variables-head e.start [] e.t1 (e.t2 ∷ e.sv ∷ e.dv ∷ e.cv ∷ e.mv ∷ []) fits h in
      let (t2, n2, h2) =
        are_variables-head e.start (e.t1 ∷ []) e.t2 (e.sv ∷ e.dv ∷ e.cv ∷ e.mv ∷ []) fits h1 in
      let (sv, n3, h3) =
        are_variables-head e.start (e.t2 ∷ e.t1 ∷ []) e.sv (e.dv ∷ e.cv ∷ e.mv ∷ []) fits h2 in
      let (dv, n4, h4) =
        are_variables-head e.start (e.sv ∷ e.t2 ∷ e.t1 ∷ []) e.dv (e.cv ∷ e.mv ∷ []) fits h3 in
      let (cv, n5, h5) =
        are_variables-head e.start (e.dv ∷ e.sv ∷ e.t2 ∷ e.t1 ∷ []) e.cv (e.mv ∷ []) fits h4 in
      let (mv, n6, h6) =
        are_variables-head e.start (e.cv ∷ e.dv ∷ e.sv ∷ e.t2 ∷ e.t1 ∷ []) e.mv [] fits h5 in
      record {
        t1_t2 = aligned_distinct e.t1 e.t2 t1.aligned t2.aligned n2.0;
        t1_sv = aligned_distinct e.t1 e.sv t1.aligned sv.aligned n3.1.0;
        t1_dv = aligned_distinct e.t1 e.dv t1.aligned dv.aligned n4.1.1.0;
        t1_cv = aligned_distinct e.t1 e.cv t1.aligned cv.aligned n5.1.1.1.0;
        t2_sv = aligned_distinct e.t2 e.sv t2.aligned sv.aligned n3.0;
        t2_dv = aligned_distinct e.t2 e.dv t2.aligned dv.aligned n4.1.0;
        t2_cv = aligned_distinct e.t2 e.cv t2.aligned cv.aligned n5.1.1.0;
        sv_dv = aligned_distinct e.sv e.dv sv.aligned dv.aligned n4.0;
        sv_cv = aligned_distinct e.sv e.cv sv.aligned cv.aligned n5.1.0;
        dv_cv = aligned_distinct e.dv e.cv dv.aligned cv.aligned n5.0;
        sv_out = sv.out;
        dv_out = dv.out;
        cv_out = cv.out;
        t1_out = t1.out;
        t2_out = t2.out;
        mv_out = mv.out;
        t1_mv = aligned_distinct e.t1 e.mv t1.aligned mv.aligned n6.1.1.1.1.0;
        t2_mv = aligned_distinct e.t2 e.mv t2.aligned mv.aligned n6.1.1.1.0;
        sv_mv = aligned_distinct e.sv e.mv sv.aligned mv.aligned n6.1.1.0;
        dv_mv = aligned_distinct e.dv e.mv dv.aligned mv.aligned n6.1.0;
        cv_mv = aligned_distinct e.cv e.mv cv.aligned mv.aligned n6.0;
      }

  pub match_copy-IsDesc : (start : ℕ) (e : Desc) → match_copy m start ≡ some e → IsDesc m e
  unfolding match_copy
  match_copy-IsDesc start e h = go (ltb m.mem_size (start + 19 * 24)) refl h
    where
      finish :
          (t : Matching) (b : Bool)
          → are_variables m start [] (variables (desc_of start t)) ≡ b
          → ltb m.mem_size (start + 19 * 24) ≡ false
          → (if b then some (desc_of start t) else none) ≡ some e
          → IsDesc m e
      finish t false v f h = absurd (none-ne-some _ h)
      finish t true v f h =
          let fits : start + 19 * 24 ≤ m.mem_size = ground arith in
          subst (λ d. IsDesc m d) (some-injective _ _ h)
            (record { fits = fits; apart = are_variables-AreApart (desc_of start t) fits v })

      matched :
          (o : Option Matching)
          → ltb m.mem_size (start + 19 * 24) ≡ false
          → elim o [
            | none ↦ none
            | some t ↦
                if are_variables m start [] (variables (desc_of start t))
                then some (desc_of start t)
                else none
          ]
            ≡ some e
          → IsDesc m e
      matched none f h = absurd (none-ne-some _ h)
      matched (some t) f h =
          finish t (are_variables m start [] (variables (desc_of start t))) refl f h

      go :
          (b : Bool)
          → ltb m.mem_size (start + 19 * 24) ≡ b
          → (if b then none else elim (match_insns m start copy_tmpl 0 (first_matching start)) [
            | none ↦ none
            | some t ↦
                if are_variables m start [] (variables (desc_of start t))
                then some (desc_of start t)
                else none
          ])
            ≡ some e
          → IsDesc m e
      go true f h = absurd (none-ne-some _ h)
      go false f h = matched (match_insns m start copy_tmpl 0 (first_matching start)) f h
