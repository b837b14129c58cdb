-- ===== src/Keyboard/Range.antt =====
-- Which scan codes make `keyboard_handler` of kernel/src/keyboard.c read behind its tables, which
-- have 58 entries while MAX_CODE is 0x57.
use subleq_emu.Prelude.{
  ℕ, ◌≤◌, ◌<◌, ◌≡◌, refl, ap, inl, inr, ◌⊎◌, true, false, Option, none, some, arith, ◌==◌, ltb,
  if◌then◌else◌,
}
use subleq_emu.Keyboard.{
  Keyboard, max_code, extra_key, keypad, modifier, plain_key, keyboard_handler,
}
use subleq_emu.Keyboard.Chars.{table_len, table_char-typed}

plain_key-same :
    (f g : ℕ → ℕ) (k : Keyboard) (b : ℕ)
    → (b < table_len) ⊎ (max_code ≤ b)
    → plain_key f k b ≡ plain_key g k b
unfolding plain_key
plain_key-same f g k b (inl lt) = rw (table_char-typed f k b lt, table_char-typed g k b lt) refl
plain_key-same f g k b (inr ge) = let large : ltb b max_code ≡ false = ground arith in rw large refl

-- A scan code below 58 or from 0x57 on is handled the same whatever lies behind the tables.
pub keyboard_handler-in_tables :
    (f g : ℕ → ℕ) (k : Keyboard) (b : ℕ)
    → (b < table_len) ⊎ (max_code ≤ b)
    → keyboard_handler f k b ≡ keyboard_handler g k b
unfolding keyboard_handler
keyboard_handler-in_tables f g k b h =
    ap
      (λ (p : Option Keyboard).
        if b == 0xe0
        then some (record k { extra_scancodes = true })
        else if k.extra_scancodes
        then extra_key (record k { extra_scancodes = false }) b
        else elim (keypad k b) [
          | some r ↦ r
          | none ↦ elim (modifier k b) [ some t ↦ some t | none ↦ p ]
        ])
      (plain_key-same f g k b h)
