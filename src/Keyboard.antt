-- ===== src/Keyboard.antt =====
-- The keyboard, kernel/src/keyboard.c: `keyboard_handler` turns scan codes into writes to Dawn's
-- keyboard and mouse registers. What it writes at once goes to `ram`, what it defers to `io`; the
-- result `none` is the panic of an overflowing queue. A look into a table behind its last entry
-- reads what `beyond` holds there, whatever that is.
pub mod Tables
pub mod Chars
pub mod Queue
pub mod Range
mod Tests
use subleq_emu.Prelude.{
  ℕ, ◌+◌, ◌-◌, Bool, true, false, not, ◌&&◌, ◌||◌, Option, none, some, ◌==◌, ltb, if◌then◌else◌,
  get_or, two64,
}
use subleq_emu.Ram.{Ram, writeram}
use subleq_emu.Io.{Io, io_write}
use subleq_emu.Io.Reg
use subleq_emu.Keyboard.Tables.{ascii_capslock, ascii_shift, ascii_shift_capslock, ascii_nomod}

pub record Keyboard : Type 0 where
  pub capslock_active : Bool
  pub shift_active : Bool
  pub ctrl_active : Bool
  pub extra_scancodes : Bool
  pub hw_mouse_enabled : Bool
  pub io : Io
  pub ram : Ram

abbrev pub max_code : ℕ
max_code = 0x57

-- `0x3000000` and `-0x3000000` as `uint64_t`
abbrev pub step_up : ℕ
step_up = 0x3000000

abbrev pub step_down : ℕ
step_down = two64 - 0x3000000

unfoldable pub put : Keyboard → ℕ → ℕ → Option Keyboard
put k loc v = elim (io_write k.io loc v) [ none ↦ none | some q ↦ some (record k { io = q }) ]

-- The codes after the prefix `0xe0`.
unfoldable pub extra_key : Keyboard → ℕ → Option Keyboard
extra_key k b =
    if b == 0x48
    then put k Reg.keyboard_base (if k.shift_active then 18 else 14)
    else if b == 0x4b
    then put k Reg.keyboard_base (if k.shift_active then 19 else if k.ctrl_active then 4 else 15)
    else if b == 0x50
    then put k Reg.keyboard_base (if k.shift_active then 20 else 16)
    else if b == 0x4d
    then put k Reg.keyboard_base (if k.shift_active then 21 else if k.ctrl_active then 7 else 17)
    else if b == 0x49
    then put k Reg.keyboard_base 9
    else if b == 0x51
    then put k Reg.keyboard_base 10
    else if b == 0x53
    then put k Reg.keyboard_base 29
    else if b == 0x1d
    then some (record k { ctrl_active = true })
    else if b == 0x9d
    then some (record k { ctrl_active = false })
    else some k

-- A keypad key that moves Dawn's pointer, by a deferred write.
unfoldable pub move : Keyboard → ℕ → ℕ → Option Keyboard
move k loc v = put (record k { hw_mouse_enabled = false }) loc v

-- A keypad key that clicks, by a write at once.
unfoldable pub click : Keyboard → ℕ → ℕ → Option Keyboard
click k loc v = some (record k { hw_mouse_enabled = false; ram = writeram k.ram loc v })

unfoldable pub table_char : (ℕ → ℕ) → Keyboard → ℕ → ℕ
table_char beyond k b =
    if not k.capslock_active && not k.shift_active
    then get_or ascii_nomod b (beyond b)
    else if not k.capslock_active && k.shift_active
    then get_or ascii_shift b (beyond b)
    else if k.capslock_active && k.shift_active
    then get_or ascii_shift_capslock b (beyond b)
    else get_or ascii_capslock b (beyond b)

-- The value that the keyboard register gets for character `c`.
unfoldable pub key_value : Keyboard → ℕ → ℕ
key_value k c =
    if (c == 118 || c == 86) && k.ctrl_active
    then 22
    else if (c == 120 || c == 88) && k.ctrl_active
    then 23
    else if (c == 99 || c == 67) && k.ctrl_active
    then 25
    else if c == 10
    then 13
    else if c == 27
    then 27
    else c

-- The keys that only change a modifier.
unfoldable pub modifier : Keyboard → ℕ → Option Keyboard
modifier k b =
    if b == 0x2a || b == 0x36
    then some (record k { shift_active = true })
    else if b == 0xaa || b == 0xb6
    then some (record k { shift_active = false })
    else if b == 0x1d
    then some (record k { ctrl_active = true })
    else if b == 0x9d
    then some (record k { ctrl_active = false })
    else if b == 0x3a
    then some (record k { capslock_active = not k.capslock_active })
    else none

-- The keypad in its role as a mouse.
unfoldable pub keypad : Keyboard → ℕ → Option (Option Keyboard)
keypad k b =
    if b == 0x4b
    then some (move k Reg.mouse_rel_x step_down)
    else if b == 0x4d
    then some (move k Reg.mouse_rel_x step_up)
    else if b == 0x48
    then some (move k Reg.mouse_rel_y step_down)
    else if b == 0x50
    then some (move k Reg.mouse_rel_y step_up)
    else if b == 0x47
    then some (click k Reg.mouse_click_l Reg.fixed_one)
    else if b == 0xc7
    then some (click k Reg.mouse_click_l 0)
    else if b == 0x49
    then some (click k Reg.mouse_click_r Reg.fixed_one)
    else if b == 0xc9
    then some (click k Reg.mouse_click_r 0)
    else if b == 0x4c
    then some (click k Reg.mouse_click_m Reg.fixed_one)
    else if b == 0xcc
    then some (click k Reg.mouse_click_m 0)
    else none

unfoldable pub plain_key : (ℕ → ℕ) → Keyboard → ℕ → Option Keyboard
plain_key beyond k b =
    if ltb b max_code then put k Reg.keyboard_base (key_value k (table_char beyond k b)) else some k

unfoldable pub keyboard_handler : (ℕ → ℕ) → Keyboard → ℕ → Option Keyboard
keyboard_handler beyond k b =
    if b == 0xe0
    then some (record k { extra_scancodes = true })
    else if k.extra_scancodes
    then extra_key (record k { extra_scancodes = false }) b
    else elim (keypad k b) [
      | some r ↦ r
      | none ↦ elim (modifier k b) [ some t ↦ some t | none ↦ plain_key beyond k b ]
    ]
