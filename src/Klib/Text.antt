-- ===== src/Klib/Text.antt =====
-- The string functions of kernel/src/klib.c over a memory of bytes. `fuel` bounds the bytes looked
-- at; `none` is a text that goes on longer. With more fuel than the text has bytes there is a result.
use subleq_emu.Prelude.{
  ℕ, zero, suc, ◌+◌, ◌-◌, ◌≤◌, ◌<◌, ◌≡◌, ◌≢◌, refl, sym, ap, ◌∙◌, ◌⊎◌, inl, inr, arith, Bool-cases,
  true, false, Option, none, some, ◌==◌, leb, ltb, ◌&&◌, if◌then◌else◌, update, ℤ, pos, negsuc,
}
use subleq_emu.Ram.{Ram}

unfoldable pub strlen_from : ℕ → Ram → ℕ → ℕ → Option ℕ
strlen_from zero m s len = none
strlen_from (suc fuel) m s len =
    let rest = strlen_from fuel m s (len + 1) in if m (s + len) == 0 then some len else rest

unfoldable pub strlen : ℕ → Ram → ℕ → Option ℕ
strlen fuel m s = strlen_from fuel m s 0

-- `(int)a - (int)b`
abbrev pub difference : ℕ → ℕ → ℤ
difference a b = if leb b a then pos (a - b) else negsuc (b - a - 1)

unfoldable pub strcmp : ℕ → Ram → ℕ → ℕ → Option ℤ
strcmp zero m s1 s2 = none
strcmp (suc fuel) m s1 s2 =
    let rest = strcmp fuel m (s1 + 1) (s2 + 1) in
    if m s1 == 0
    then some (difference (m s1) (m s2))
    else if m s1 == m s2
    then rest
    else some (difference (m s1) (m s2))

unfoldable pub strncmp_from : ℕ → Ram → ℕ → ℕ → ℕ → ℤ
strncmp_from zero m s1 s2 i = pos 0
strncmp_from (suc rounds) m s1 s2 i =
    let rest = strncmp_from rounds m s1 s2 (i + 1) in
    if m (s1 + i) == m (s2 + i)
    then if m (s1 + i) == 0 then pos 0 else rest
    else difference (m (s1 + i)) (m (s2 + i))

unfoldable pub strncmp : Ram → ℕ → ℕ → ℕ → ℤ
strncmp m s1 s2 n = strncmp_from n m s1 s2 0

-- The memory after the copy.
unfoldable pub strcpy : ℕ → Ram → ℕ → ℕ → Option Ram
strcpy zero m dest src = none
strcpy (suc fuel) m dest src =
    let copied = update m dest (m src) in
    let rest = strcpy fuel copied (dest + 1) (src + 1) in if m src == 0 then some copied else rest

-- A text of `n` bytes and its terminator.
pub record IsText (m : Ram) (s n : ℕ) : Type 0 where
  pub bytes : (k : ℕ) → k < n → m (s + k) ≢ 0
  pub end : m (s + n) ≡ 0

add_zero : (a : ℕ) → a + 0 ≡ a
add_zero a = omega arith

strlen_from-IsText :
    (fuel : ℕ) (m : Ram) (s n len : ℕ)
    → IsText m s n
    → len ≤ n
    → n < len + fuel
    → strlen_from fuel m s len ≡ some n
unfolding strlen_from
strlen_from-IsText zero m s n len t le lt = absurd (omega arith)
strlen_from-IsText (suc fuel) m s n len t le lt = elim (Bool-cases (len == n)) [
  | inl e ↦
      let same : len ≡ n = ground arith in
      let stop : (m (s + len) == 0) ≡ true = ground (arith, ap (λ k. m (s + k)) same, t.end) in
      rw stop (ap some same)
  | inr e ↦
      let more : (m (s + len) == 0) ≡ false = ground (arith, t.bytes len) in
      rw more (strlen_from-IsText fuel m s n (len + 1) t (ground arith) (omega arith))
]

-- With fuel for the terminator, the length of a text is found.
pub strlen-IsText :
    (fuel : ℕ) (m : Ram) (s n : ℕ) → IsText m s n → n < fuel → strlen fuel m s ≡ some n
unfolding strlen
strlen-IsText fuel m s n t lt = strlen_from-IsText fuel m s n 0 t (omega arith) (omega arith)

-- A text is copied whole, with its terminator and nothing behind it, to a place apart from it.
pub strcpy-IsText :
    (fuel : ℕ) (m : Ram) (dest src n : ℕ)
    → IsText m src n
    → n < fuel
    → (dest + n < src) ⊎ (src + n < dest)
    → (after : Ram) × (strcpy fuel m dest src ≡ some after)
      × ((q : ℕ)
          → after q ≡ (if leb dest q && ltb q (dest + n + 1) then m (src + (q - dest)) else m q))
unfolding strcpy
strcpy-IsText zero m dest src n t lt apart = absurd (omega arith)
strcpy-IsText (suc fuel) m dest src zero t lt apart =
    let stop : (m src == 0) ≡ true = ground (arith, t.end, ap m (add_zero src)) in
    (update m dest (m src), rw stop refl, λ q. one q)
  where
    one :
        (q : ℕ)
        → update m dest (m src) q
          ≡ (if leb dest q && ltb q (dest + 0 + 1) then m (src + (q - dest)) else m q)
    one q = elim (Bool-cases (dest == q)) [
      | inl e ↦
          let at : src ≡ src + (q - dest) = ground arith in
          let in_range : (leb dest q && ltb q (dest + 0 + 1)) ≡ true = ground arith in
          rw (e, in_range) (ap m at)
      | inr e ↦
          let out : (leb dest q && ltb q (dest + 0 + 1)) ≡ false = ground arith in rw (e, out) refl
    ]
strcpy-IsText (suc fuel) m dest src (suc n) t lt apart =
    let (after, result, copied) =
      strcpy-IsText fuel (update m dest (m src)) (dest + 1) (src + 1) n rest_of (omega arith)
        (ground arith) in
    (after, rw more result, λ q. copied q ∙ whole q)
  where
    more : (m src == 0) ≡ false
    more = ground (arith, t.bytes 0 (omega arith), ap m (add_zero src))

    behind : (k : ℕ) → k ≤ n → update m dest (m src) (src + 1 + k) ≡ m (src + suc k)
    behind k le =
        let off : (dest == src + 1 + k) ≡ false = ground arith in rw off (ap m (omega arith))

    rest_of : IsText (update m dest (m src)) (src + 1) n
    rest_of = record {
      bytes = λ k lt z. t.bytes (suc k) (omega arith) (sym (behind k (omega arith)) ∙ z);
      end = behind n (omega arith) ∙ t.end;
    }

    whole :
        (q : ℕ)
        → (if leb (dest + 1) q && ltb q (dest + 1 + n + 1)
            then update m dest (m src) (src + 1 + (q - (dest + 1)))
            else update m dest (m src) q)
          ≡ (if leb dest q && ltb q (dest + suc n + 1) then m (src + (q - dest)) else m q)
    whole q = elim (Bool-cases (leb (dest + 1) q && ltb q (dest + 1 + n + 1))) [
      | inl e ↦
          let both : (leb dest q && ltb q (dest + suc n + 1)) ≡ true = ground arith in
          let off : (dest == src + 1 + (q - (dest + 1))) ≡ false = ground arith in
          let at : src + 1 + (q - (dest + 1)) ≡ src + (q - dest) = ground arith in
          rw (e, both, off) (ap m at)
      | inr e ↦ elim (Bool-cases (dest == q)) [
        | inl f ↦
            let both : (leb dest q && ltb q (dest + suc n + 1)) ≡ true = ground arith in
            let at : src ≡ src + (q - dest) = ground arith in rw (e, f, both) (ap m at)
        | inr f ↦
            let both : (leb dest q && ltb q (dest + suc n + 1)) ≡ false = ground arith in
            rw (e, f, both) refl
      ]
    ]
