-- ===== src/Klib/Print.antt =====
-- The numbers that kernel/src/klib.c prints, read back.
use mathlib.Core.Option
use native.Mathlib.Nat.{div-lt_iff_lt-mul, div-add-mod', mod-lt, pow-suc, pow-zero}
use subleq_emu.Prelude.{
  Bool, ◌&&◌, ℕ, zero, suc, ◌+◌, ◌-◌, ◌*◌, ◌/◌, ◌%◌, ◌^◌, ◌≤◌, ◌<◌, ◌≡◌, ◌≢◌, refl, sym, ap, ◌∙◌,
  subst, inl, inr, some, List, [], ◌∷◌, ◌==◌, leb, Bool-cases, if◌then◌else◌, arith, true, false,
  length, get_or,
}
use subleq_emu.Klib.{fill_buf, decimal_digit, hex_digit, hex_to_ascii_tab, kprn_ui, kprn_x}

-- The value of one printed digit, `0` to `9` or `a` to `f`, and 99 for any other character.
abbrev pub digit_value : ℕ → ℕ
digit_value c =
    if leb 48 c && leb c 57 then c - 48 else if leb 97 c && leb c 102 then c - 87 else 99

-- Every character is a digit of the base.
abbrev pub AreDigits : ℕ → List ℕ → Type 0
AreDigits base [] = true ≡ true
AreDigits base (c ∷ cs) = (digit_value c < base) × AreDigits base cs

-- The value of a text behind the value `n`.

abbrev pub read : ℕ → List ℕ → ℕ → ℕ
read base [] n = n
read base (c ∷ cs) n = read base cs (n * base + digit_value c)

abbrev pub leading : List ℕ → ℕ
leading [] = 0
leading (c ∷ cs) = digit_value c

-- `s` is the text of `x` before `text`, with at most `room` digits and no zero before it.
record Prints (base room x : ℕ) (text : List ℕ) (s : List ℕ) : Type 0 where
  pub value : read base s 0 ≡ read base text x
  pub digits : AreDigits base text → AreDigits base s
  pub fits : length s ≤ room + length text
  pub first : x ≢ 0 → leading s ≢ 0
  pub empty : x ≡ 0 → s ≡ text

is_zero : (n : ℕ) → (n == 0) ≡ true → n ≡ 0
is_zero n e = ground arith

nothing_left : (base room x : ℕ) (text : List ℕ) → x ≡ 0 → Prints base room x text text
nothing_left base room x text e = record {
  value = ap (read base text) (sym e);
  digits = λ h. h;
  fits = omega arith;
  first = λ n. omega (arith, n, e);
  empty = λ z. refl;
}

module _ (base : ℕ) (digit : ℕ → ℕ) (b : 1 < base)
    (exact : (d : ℕ) → d < base → digit_value (digit d) ≡ d) where
  digit_below : (d : ℕ) → d < base → digit_value (digit d) < base
  digit_below d lt = omega (arith, exact d lt, lt)

  shorter : (room x : ℕ) → x < base ^ suc room → x / base < base ^ room
  shorter room x lt =
      (div-lt_iff_lt-mul {k = base} {x = x} {y = base ^ room} (omega arith)).1
        (omega (arith, pow-suc base room, lt))

  -- The last digit that is written is the first of the text.
  first_digit :
      (room x : ℕ) (text s : List ℕ)
      → x ≢ 0
      → Prints base room (x / base) (digit (x % base) ∷ text) s
      → leading s ≢ 0
  first_digit room x text s n p = elim (Bool-cases (x / base == 0)) [
    | inl last ↦
        let only : leading s ≡ x % base =
          ap leading (p.empty (is_zero (x / base) last))
          ∙ exact (x % base) (mod-lt x (omega arith)) in
        let whole : 0 * base + x % base ≡ x =
          subst (λ q. q * base + x % base ≡ x) (is_zero (x / base) last) (div-add-mod' x base) in
        omega (arith, only, whole, n)
    | inr more ↦ p.first (ground arith)
  ]

  fill_buf-Prints :
      (room x : ℕ) (text : List ℕ)
      → x < base ^ room
      → (s : List ℕ) × (fill_buf base digit room x text ≡ some s) × Prints base room x text s
  unfolding fill_buf
  fill_buf-Prints zero x text lt =
      let none_left : x ≡ 0 = omega (arith, pow-zero base, lt) in
      let tested : (x == 0) ≡ true = ground arith in
      (text, rw tested refl, nothing_left base zero x text none_left)
  fill_buf-Prints (suc room) x text lt = elim (Bool-cases (x == 0)) [
    | inl done ↦ (text, rw done refl, nothing_left base (suc room) x text (ground arith))
    | inr more ↦
        let (s, eq, p) =
          fill_buf-Prints room (x / base) (digit (x % base) ∷ text) (shorter room x lt) in
        (
          s,
          rw more eq,
          record {
            value =
                p.value
                ∙ ap (read base text) (
                    ap (λ d. x / base * base + d) (exact (x % base) (mod-lt x (omega arith)))
                    ∙ div-add-mod' x base);
            digits = λ h. p.digits (digit_below (x % base) (mod-lt x (omega arith)), h);
            fits = omega (arith, p.fits);
            first = λ n. first_digit room x text s n p;
            empty = λ z. ground arith;
          },
        )
  ]

-- A text of at most `room` characters, all of them digits of the base, that starts with another
-- digit than 0 and reads back as `x`.
abbrev pub IsNumeral : ℕ → ℕ → ℕ → List ℕ → Type 0
IsNumeral base room x s =
    (read base s 0 ≡ x) × AreDigits base s × (length s ≤ room) × (leading s ≢ 0)

decimal : (d : ℕ) → d < 10 → digit_value (decimal_digit d) ≡ d
decimal d lt = ground arith

-- The digits have the values `i`, `i + 1` and so on.
abbrev are_values : List ℕ → ℕ → Bool
are_values [] i = true
are_values (c ∷ cs) i = digit_value c == i && are_values cs (i + 1)

both : {a b : Bool} → (a && b) ≡ true → (a ≡ true) × (b ≡ true)
both {a} {b} e = (ground arith, ground arith)

digit_value-get_or :
    (cs : List ℕ) (i d : ℕ)
    → are_values cs i ≡ true
    → d < length cs
    → digit_value (get_or cs d 0) ≡ i + d
digit_value-get_or [] i d v lt = ground arith
digit_value-get_or (c ∷ cs) i zero v lt = ground arith
digit_value-get_or (c ∷ cs) i (suc d) v lt =
    let later = digit_value-get_or cs (i + 1) d (both v).1 (omega arith) in later ∙ omega arith

hex_values : are_values hex_to_ascii_tab 0 ≡ true
hex_values = refl

hexadecimal : (d : ℕ) → d < 16 → digit_value (hex_digit d) ≡ d
hexadecimal d lt = digit_value-get_or hex_to_ascii_tab 0 d hex_values lt ∙ omega arith

-- `kprn_ui` of a positive 64-bit number stays inside its buffer and prints at most 20 characters,
-- each of them one of the digits `0` to `9` and the first not `0`, that read back as the number in
-- base 10.
pub kprn_ui-IsNumeral :
    (x : ℕ)
    → x < 18446744073709551616
    → x ≢ 0
    → (s : List ℕ) × (kprn_ui x ≡ some s) × IsNumeral 10 20 x s
unfolding kprn_ui
kprn_ui-IsNumeral x lt n =
    let more : (x == 0) ≡ false = ground arith in
    let (s, eq, p) = fill_buf-Prints 10 decimal_digit (omega arith) decimal 20 x [] (omega arith) in
    (s, rw more eq, (p.value, p.digits refl, omega (arith, p.fits), p.first n))

-- `kprn_x` of a positive 64-bit number stays inside its buffer and prints `0x` and a hexadecimal
-- numeral of at most 16 digits, without a zero before it, that reads back as the number.
pub kprn_x-IsNumeral :
    (x : ℕ)
    → x < 18446744073709551616
    → x ≢ 0
    → (s : List ℕ) × (kprn_x x ≡ some (48 ∷ 120 ∷ s)) × IsNumeral 16 16 x s
unfolding kprn_x
kprn_x-IsNumeral x lt n =
    let more : (x == 0) ≡ false = ground arith in
    let (s, eq, p) = fill_buf-Prints 16 hex_digit (omega arith) hexadecimal 16 x [] (omega arith) in
    (
      s,
      rw more (ap (Option.map (λ t. 48 ∷ 120 ∷ t)) eq),
      (p.value, p.digits refl, omega (arith, p.fits), p.first n),
    )
