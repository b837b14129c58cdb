-- ===== src/Keyboard/Tests.antt =====
-- A keyboard with nothing pressed and an empty queue.
use subleq_emu.Prelude.{ℕ, ◌≡◌, refl, inl, true, false, arith, get_or}
use subleq_emu.Io.Reg
use subleq_emu.Io.Queue.{InRing}
use subleq_emu.Keyboard.{Keyboard, put, keyboard_handler}
use subleq_emu.Keyboard.Chars.{typed, told, layout, keyboard_handler-typed}
use subleq_emu.Keyboard.Queue.{Reacts, keyboard_handler-Reacts}
use subleq_emu.Keyboard.Range.{keyboard_handler-in_tables}

abbrev idle : Keyboard
idle = record {
  capslock_active = false;
  shift_active = true;
  ctrl_active = false;
  extra_scancodes = false;
  hw_mouse_enabled = true;
  io = record { stack = λ i. record { io_loc = 0; value = 0 }; head = 0; tail = 0 };
  ram = λ a. 0;
}

idle-InRing : InRing idle.io
idle-InRing = (omega arith, omega arith)

abbrev zeros : ℕ → ℕ
zeros = λ i. 0

abbrev ones : ℕ → ℕ
ones = λ i. 1

-- Shift and the key of the letter Q.
shift_q : told false (typed false true (get_or layout 0x10 0)) ≡ 81
shift_q = refl

keyboard_handler-typed_example :
    keyboard_handler zeros idle 0x10
    ≡ put idle Reg.keyboard_base (told false (typed false true (get_or layout 0x10 0)))
keyboard_handler-typed_example = keyboard_handler-typed zeros idle 0x10 (omega arith) refl refl

keyboard_handler-Reacts_example : Reacts idle.io (keyboard_handler zeros idle 0x4b)
keyboard_handler-Reacts_example = keyboard_handler-Reacts zeros idle 0x4b idle-InRing

keyboard_handler-in_tables_example :
    keyboard_handler zeros idle 0x1e ≡ keyboard_handler ones idle 0x1e
keyboard_handler-in_tables_example =
    keyboard_handler-in_tables zeros ones idle 0x1e (inl (omega arith))
