-- ===== src/Keyboard/Chars.antt =====
-- The characters that the tables of kernel/src/keyboard.c give, against a description of the
-- American layout: a table without modifiers, the shifted symbols, and the case of letters.
use subleq_emu.Prelude.{
  ℕ, zero, suc, ◌-◌, ◌<◌, ◌≡◌, refl, inl, inr, Bool, true, false, ◌&&◌, ◌||◌, none, List, [], ◌∷◌,
  arith, ◌==◌, ltb, leb, Bool-cases, if◌then◌else◌, get_or, map, ◌++◌, length, ◌+◌,
}
use subleq_emu.Io.Reg
use subleq_emu.Keyboard.Tables.{ascii_capslock, ascii_shift, ascii_shift_capslock, ascii_nomod}
use subleq_emu.Keyboard.{
  Keyboard, put, table_char, key_value, keypad, modifier, plain_key, keyboard_handler,
}

abbrev pub table_len : ℕ
table_len = 58

abbrev pub is_letter : ℕ → Bool
is_letter c = leb 97 c && leb c 122

-- `c` and what shift makes of it.
abbrev pub shifts_to : List (ℕ × ℕ)
shifts_to =
    (49, 33)
    ∷ (50, 64)
    ∷ (51, 35)
    ∷ (52, 36)
    ∷ (53, 37)
    ∷ (54, 94)
    ∷ (55, 38)
    ∷ (56, 42)
    ∷ (57, 40)
    ∷ (48, 41)
    ∷ (45, 95)
    ∷ (61, 43)
    ∷ (91, 123)
    ∷ (93, 125)
    ∷ (59, 58)
    ∷ (39, 34)
    ∷ (96, 126)
    ∷ (92, 124)
    ∷ (44, 60)
    ∷ (46, 62)
    ∷ (47, 63)
    ∷ []

abbrev pub assoc : List (ℕ × ℕ) → ℕ → ℕ
assoc [] c = c
assoc (p ∷ ps) c = if p.0 == c then p.1 else assoc ps c

-- The character of a key that gives `c` alone.
abbrev pub typed : Bool → Bool → ℕ → ℕ
typed caps shift c =
    if is_letter c
    then (if caps then (if shift then c else c - 32) else if shift then c - 32 else c)
    else if shift
    then assoc shifts_to c
    else c

-- The keys of the American layout from scan code 0 on, by the character they give alone: escape, the
-- digits, backspace and tab, the three rows of letters with enter before the second and the symbols
-- where they stand, and the space bar. 0 is a key without a character; a letter is its place in the
-- alphabet.
abbrev letter : ℕ → ℕ
letter place = 96 + place

abbrev top_row : List ℕ
top_row = map letter (17 ∷ 23 ∷ 5 ∷ 18 ∷ 20 ∷ 25 ∷ 21 ∷ 9 ∷ 15 ∷ 16 ∷ [])

abbrev home_row : List ℕ
home_row = map letter (1 ∷ 19 ∷ 4 ∷ 6 ∷ 7 ∷ 8 ∷ 10 ∷ 11 ∷ 12 ∷ [])

abbrev bottom_row : List ℕ
bottom_row = map letter (26 ∷ 24 ∷ 3 ∷ 22 ∷ 2 ∷ 14 ∷ 13 ∷ [])

abbrev digit_row : List ℕ
digit_row = map (λ d. 48 + d) (1 ∷ 2 ∷ 3 ∷ 4 ∷ 5 ∷ 6 ∷ 7 ∷ 8 ∷ 9 ∷ 0 ∷ [])

abbrev pub layout : List ℕ
layout =
    (0 ∷ 27 ∷ [])
    ++ digit_row
    ++ (45 ∷ 61 ∷ 8 ∷ 9 ∷ [])
    ++ top_row
    ++ (91 ∷ 93 ∷ 10 ∷ 0 ∷ [])
    ++ home_row
    ++ (59 ∷ 39 ∷ 96 ∷ 0 ∷ 92 ∷ [])
    ++ bottom_row
    ++ (44 ∷ 46 ∷ 47 ∷ 0 ∷ 0 ∷ 0 ∷ 32 ∷ [])

layout_table : ascii_nomod ≡ layout
layout_table = refl

-- What Dawn is to be told for a character: 13 for a new line, and while Ctrl is down 22 for V, 23 for
-- X and 25 for C, small or capital. Every other character is itself.
abbrev pub with_ctrl : List (ℕ × ℕ)
with_ctrl = (86, 22) ∷ (88, 23) ∷ (67, 25) ∷ (118, 22) ∷ (120, 23) ∷ (99, 25) ∷ []

abbrev pub told : Bool → ℕ → ℕ
told ctrl c = assoc ((10, 13) ∷ []) (if ctrl then assoc with_ctrl c else c)

key_value-told : (k : Keyboard) (c : ℕ) → key_value k c ≡ told k.ctrl_active c
unfolding key_value
key_value-told k c = ground arith

get_or-map :
    (f : ℕ → ℕ) (xs : List ℕ) (i d e : ℕ)
    → i < length xs
    → get_or (map f xs) i d ≡ f (get_or xs i e)
get_or-map f [] i d e lt = ground arith
get_or-map f (x ∷ xs) zero d e lt = refl
get_or-map f (x ∷ xs) (suc i) d e lt = get_or-map f xs i d e (omega arith)

capslock_table : ascii_capslock ≡ map (typed true false) ascii_nomod
capslock_table = refl

shift_table : ascii_shift ≡ map (typed false true) ascii_nomod
shift_table = refl

shift_capslock_table : ascii_shift_capslock ≡ map (typed true true) ascii_nomod
shift_capslock_table = refl

nomod_table : ascii_nomod ≡ map (typed false false) ascii_nomod
nomod_table = refl

-- For a code inside the tables, the character is that of the key alone with the modifiers applied.
pub table_char-typed :
    (beyond : ℕ → ℕ) (k : Keyboard) (b : ℕ)
    → b < table_len
    → table_char beyond k b ≡ typed k.capslock_active k.shift_active (get_or ascii_nomod b 0)
unfolding table_char
table_char-typed beyond k b lt = elim (Bool-cases k.capslock_active) [
  | inl c ↦ elim (Bool-cases k.shift_active) [
    | inl s ↦ rw (c, s) (get_or-map (typed true true) ascii_nomod b (beyond b) 0 lt)
    | inr s ↦ rw (c, s) (get_or-map (typed true false) ascii_nomod b (beyond b) 0 lt)
  ]
  | inr c ↦ elim (Bool-cases k.shift_active) [
    | inl s ↦ rw (c, s) (get_or-map (typed false true) ascii_nomod b (beyond b) 0 lt)
    | inr s ↦ rw (c, s) (get_or-map (typed false false) ascii_nomod b (beyond b) 0 lt)
  ]
]

pub keypad_below : (k : Keyboard) (b : ℕ) → b < 0x47 → keypad k b ≡ none
unfolding keypad
keypad_below k b lt = ground arith

no_modifier :
    (k : Keyboard) (b : ℕ)
    → b < table_len
    → (b == 0x2a || b == 0x36 || b == 0x1d) ≡ false
    → modifier k b ≡ none
unfolding modifier
no_modifier k b lt m = ground arith

pub keyboard_handler-plain :
    (beyond : ℕ → ℕ) (k : Keyboard) (b : ℕ)
    → b < 0xe0
    → k.extra_scancodes ≡ false
    → keypad k b ≡ none
    → modifier k b ≡ none
    → keyboard_handler beyond k b ≡ plain_key beyond k b
unfolding keyboard_handler
keyboard_handler-plain beyond k b lt x p m =
    let other : (b == 0xe0) ≡ false = ground arith in rw (other, p, m, x)

pub plain_key-put :
    (beyond : ℕ → ℕ) (k : Keyboard) (b : ℕ)
    → b < 0x57
    → plain_key beyond k b ≡ put k Reg.keyboard_base (key_value k (table_char beyond k b))
unfolding plain_key
plain_key-put beyond k b lt = let small : ltb b 0x57 ≡ true = ground arith in rw small

-- A scan code below 58 that is no Shift or Ctrl key, with no prefix before it: the keyboard register
-- is to get what is told for the character that the layout gives this key, with the case of letters
-- and the symbols as Caps Lock and Shift make them. That is 13 for a new line, 22, 23 and 25 for V, X
-- and C with Ctrl, and else the character.
pub keyboard_handler-typed :
    (beyond : ℕ → ℕ) (k : Keyboard) (b : ℕ)
    → b < table_len
    → k.extra_scancodes ≡ false
    → (b == 0x2a || b == 0x36 || b == 0x1d) ≡ false
    → keyboard_handler beyond k b
      ≡ put k Reg.keyboard_base
          (told k.ctrl_active (typed k.capslock_active k.shift_active (get_or layout b 0)))
keyboard_handler-typed beyond k b lt x m = rw (
  keyboard_handler-plain beyond k b (omega arith) x (keypad_below k b (omega arith))
      (no_modifier k b lt m),
  plain_key-put beyond k b (omega arith),
  table_char-typed beyond k b lt,
  key_value-told k (typed k.capslock_active k.shift_active (get_or ascii_nomod b 0)),
)
