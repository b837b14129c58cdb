-- ===== src/Io/Reg.antt =====
-- Dawn's mouse and keyboard registers, kernel/src/dawn.h.
use subleq_emu.Prelude.{ℕ}

abbrev pub mouse_click_l : ℕ
mouse_click_l = 335542176

abbrev pub mouse_click_r : ℕ
mouse_click_r = 335542184

abbrev pub mouse_click_m : ℕ
mouse_click_m = 335542192

abbrev pub mouse_rel_x : ℕ
mouse_rel_x = 335542200

abbrev pub mouse_rel_y : ℕ
mouse_rel_y = 335542208

abbrev pub mouse_abs_x : ℕ
mouse_abs_x = 335542224

abbrev pub mouse_abs_y : ℕ
mouse_abs_y = 335542232

abbrev pub mouse_touch : ℕ
mouse_touch = 335542240

abbrev pub mouse_scroll : ℕ
mouse_scroll = 335542248

abbrev pub keyboard_base : ℕ
keyboard_base = 335542256

-- `DAWN_FIXED_ONE`
abbrev pub fixed_one : ℕ
fixed_one = 0x100000000
