-- ===== src/Mouse/Tests.antt =====
-- A pointer at the middle of a screen of 1024 by 768 pixels, and no packet waiting.
use subleq_emu.Prelude.{◌+◌, true, false, ◌≡◌, refl, [], ◌∷◌, arith, if◌then◌else◌, pos, ◌+ℤ◌, ◌-ℤ◌}
use subleq_emu.Ram.{Ram}
use subleq_emu.Mouse.{
  Mouse, Packet, DawnPacket, has_bit, process_packet, clamp, movement, mouse_update,
  packet_complete,
}
use subleq_emu.Mouse.Position.{IsNearest, IsFraction, signed9, process_packet-IsNearest}
use subleq_emu.Mouse.Buttons.{latest, ShowsAfter, mouse_update-latest, packet_complete-Shows}
use subleq_emu.Mouse.Framing.{on_bytes, on_packets, on_bytes-bytes}

abbrev nothing : DawnPacket
nothing = record {
  mouse_x = 0;
  mouse_y = 0;
  mouse_click_l = 0;
  mouse_click_r = 0;
  mouse_click_m = 0;
}

abbrev still : Mouse
still = record {
  hw_mouse_enabled = true;
  mouse_x = 512;
  mouse_y = 384;
  dawn = nothing;
  packets = λ i. nothing;
  packet_i = 0;
  handler_cycle = 0;
  current_packet = record { flags = 9; x_mov = 3; y_mov = 4 };
  discard_packet = false;
}

-- A press of the left button on a move to the left, and a packet that overflows.
abbrev press : Packet
press = record { flags = 0x19; x_mov = 0xfe; y_mov = 4 }

abbrev overflow : Packet
overflow = record { flags = 0x48; x_mov = 1; y_mov = 1 }

press_position : (process_packet 1024 768 still press).0.mouse_x ≡ 510
unfolding process_packet clamp movement ◌+ℤ◌ ◌-ℤ◌
press_position = refl

process_packet-IsNearest_example :
    IsNearest 1024
      (pos 512 +ℤ signed9 ((if has_bit 0x19 4 then 256 else 0) + 0xfe))
      (process_packet 1024 768 still press).0.mouse_x
    × IsNearest 768
        (pos 384 -ℤ signed9 ((if has_bit 0x19 5 then 256 else 0) + 4))
        (process_packet 1024 768 still press).0.mouse_y
    × IsFraction 1024
        (process_packet 1024 768 still press).0.mouse_x
        (process_packet 1024 768 still press).1.mouse_x
    × IsFraction 768
        (process_packet 1024 768 still press).0.mouse_y
        (process_packet 1024 768 still press).1.mouse_y
process_packet-IsNearest_example =
    process_packet-IsNearest 1024 768 still press (omega arith) (omega arith) (omega arith)
      (omega arith) (omega arith) (omega arith)

abbrev zeros : Ram
zeros = λ a. 0

mouse_update-latest_example : latest (mouse_update still zeros).0 ≡ latest still
mouse_update-latest_example = mouse_update-latest still zeros

packet_complete-Shows_example : ShowsAfter still 9 (packet_complete 1024 768 still)
packet_complete-Shows_example = packet_complete-Shows 1024 768 still

on_bytes-bytes_example :
    on_bytes 1024 768 (0x19 ∷ 0xfe ∷ 4 ∷ 0x48 ∷ 1 ∷ 1 ∷ []) still
    ≡ on_packets 1024 768 (press ∷ overflow ∷ []) still
on_bytes-bytes_example = on_bytes-bytes 1024 768 (press ∷ overflow ∷ []) still (refl, refl)
