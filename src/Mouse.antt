-- ===== src/Mouse.antt =====
-- The mouse, kernel/src/mouse.c: the three bytes of a packet, the pointer's position, and the packets
-- that wait for Dawn. The screen is `w` by `h` pixels, at least one of each. Drawing the pointer is
-- not modelled; the result `none` is the panic on too many packets.
pub mod Position
pub mod Buttons
pub mod Framing
mod Tests
use subleq_emu.Prelude.{
  ℕ, zero, suc, ◌+◌, ◌-◌, ◌*◌, ◌/◌, ◌%◌, ◌^◌, Bool, true, false, not, ◌&&◌, ◌||◌, Option, none,
  some, ◌==◌, ltb, leb, if◌then◌else◌, update, two64, ℤ, pos, negsuc, ◌+ℤ◌, ◌-ℤ◌,
}
use subleq_emu.Ram.{Ram, readram, writeram}
use subleq_emu.Io.Reg

-- `mouse_packet_t`
pub record Packet : Type 0 where
  pub flags : ℕ
  pub x_mov : ℕ
  pub y_mov : ℕ

-- `dmouse_packet_t`, and also the variables `dawn_mouse_x` to `dawn_mouse_click_m`
pub record DawnPacket : Type 0 where
  pub mouse_x : ℕ
  pub mouse_y : ℕ
  pub mouse_click_l : ℕ
  pub mouse_click_r : ℕ
  pub mouse_click_m : ℕ

pub record Mouse : Type 0 where
  pub hw_mouse_enabled : Bool
  pub mouse_x : ℕ
  pub mouse_y : ℕ
  pub dawn : DawnPacket
  pub packets : ℕ → DawnPacket
  pub packet_i : ℕ
  pub handler_cycle : ℕ
  pub current_packet : Packet
  pub discard_packet : Bool

abbrev pub max_packets : ℕ
max_packets = 1024

-- `v & (1 << n)`
abbrev pub has_bit : ℕ → ℕ → Bool
has_bit v n = v / 2 ^ n % 2 == 1

abbrev pub click_of : ℕ → ℕ → ℕ
click_of flags n = if has_bit flags n then Reg.fixed_one else 0

-- `scale_position(0, max, 0, DAWN_FIXED_ONE, val)`
unfoldable pub scale_position : ℕ → ℕ → ℕ
scale_position max val = Reg.fixed_one * val % two64 / max

-- The movement of a byte and its sign bit.
unfoldable pub movement : ℕ → Bool → ℤ
movement byte negative = if negative then pos byte -ℤ pos 256 else pos byte

-- The new position, which is kept on the screen.
unfoldable pub clamp : ℕ → ℤ → ℕ
clamp bound (negsuc n) = 0
clamp bound (pos n) = if leb bound n then bound - 1 else n

unfoldable pub process_packet : ℕ → ℕ → Mouse → Packet → Mouse × DawnPacket
process_packet w h m p =
    let x = clamp w (pos m.mouse_x +ℤ movement p.x_mov (has_bit p.flags 4)) in
    let y = clamp h (pos m.mouse_y -ℤ movement p.y_mov (has_bit p.flags 5)) in
    (
      record m { mouse_x = x; mouse_y = y },
      record {
        mouse_x = scale_position w x;
        mouse_y = scale_position h y;
        mouse_click_l = click_of p.flags 0;
        mouse_click_r = click_of p.flags 1;
        mouse_click_m = click_of p.flags 2;
      },
    )

-- The loop that moves the packets from `i` on one place down.
unfoldable pub shift_down : ℕ → (ℕ → DawnPacket) → ℕ → ℕ → DawnPacket
shift_down zero packets i = packets
shift_down (suc rounds) packets i = shift_down rounds (update packets (i - 1) (packets i)) (i + 1)

unfoldable pub take_packet : Mouse → Mouse
take_packet m = if m.packet_i == 0 then m else record m {
  dawn = m.packets 0;
  packets = shift_down (m.packet_i - 1) m.packets 1;
  packet_i = m.packet_i - 1;
}

unfoldable pub tell : DawnPacket → Ram → Ram
tell d r0 =
    let r1 = writeram r0 Reg.mouse_click_l d.mouse_click_l in
    let r2 = writeram r1 Reg.mouse_click_r d.mouse_click_r in
    let r3 = writeram r2 Reg.mouse_click_m d.mouse_click_m in
    let r4 = writeram r3 Reg.mouse_abs_x d.mouse_x in writeram r4 Reg.mouse_abs_y d.mouse_y

-- Whether Dawn has yet to clear a mouse register.
unfoldable pub is_busy : Ram → Bool
is_busy r =
    not (readram r Reg.mouse_rel_x == 0)
    || (not (readram r Reg.mouse_rel_y == 0)
        || (not (readram r Reg.mouse_abs_x == 0)
            || (not (readram r Reg.mouse_abs_y == 0)
                || (not (readram r Reg.mouse_touch == 0)
                    || not (readram r Reg.mouse_scroll == 0)))))

unfoldable pub mouse_update : Mouse → Ram → Mouse × Ram
mouse_update m r =
    if not m.hw_mouse_enabled || is_busy r
    then (m, r)
    else let t = take_packet m in (t, tell t.dawn r)

-- Whether button `n` of the packet is as in `click`.
abbrev pub same_button : ℕ → ℕ → ℕ → Bool
same_button flags n click = if has_bit flags n then not (click == 0) else click == 0

abbrev pub same_buttons : ℕ → DawnPacket → Bool
same_buttons flags d =
    same_button flags 0 d.mouse_click_l
    && (same_button flags 1 d.mouse_click_r && same_button flags 2 d.mouse_click_m)

unfoldable pub is_location_info : Mouse → Packet → Bool
is_location_info m p =
    same_buttons p.flags (if m.packet_i == 0 then m.dawn else m.packets (m.packet_i - 1))

-- What becomes of the packet for Dawn: it replaces what Dawn is told, or waits.
unfoldable pub place : Mouse → Packet → DawnPacket → Option Mouse
place m p d =
    if is_location_info m p
    then some (record m { dawn = d })
    else if m.packet_i == max_packets
    then none
    else some (record m { packets = update m.packets m.packet_i d; packet_i = m.packet_i + 1 })

-- The third byte of a packet that is not discarded.
unfoldable pub packet_complete : ℕ → ℕ → Mouse → Option Mouse
packet_complete w h m =
    let done = process_packet w h (record m { hw_mouse_enabled = true }) m.current_packet in
    place done.0 m.current_packet done.1

unfoldable pub third_byte : ℕ → ℕ → Mouse → ℕ → Option Mouse
third_byte w h m b =
    let t = record m {
      current_packet = record (m.current_packet) { y_mov = b };
      handler_cycle = 0;
    } in
    if m.discard_packet then some (record t { discard_packet = false }) else packet_complete w h t

-- The interrupt, with `b` the byte that `mouse_read` gives.
unfoldable pub mouse_handler : ℕ → ℕ → Mouse → ℕ → Option Mouse
mouse_handler w h m b =
    if m.handler_cycle == 0
    then some (record m {
      current_packet = record (m.current_packet) { flags = b };
      handler_cycle = 1;
      discard_packet = (m.discard_packet || (has_bit b 6 || has_bit b 7)) || not (has_bit b 3);
    })
    else if m.handler_cycle == 1
    then some
        (record m { current_packet = record (m.current_packet) { x_mov = b }; handler_cycle = 2 })
    else if m.handler_cycle == 2
    then third_byte w h m b
    else some m

-- The variables that `mouse_init` sets before it speaks to the device.
unfoldable pub mouse_init : ℕ → ℕ → Mouse → Mouse
mouse_init w h m = record m {
  mouse_x = w / 2;
  mouse_y = h / 2;
  dawn = record (m.dawn) { mouse_x = scale_position w (w / 2); mouse_y = scale_position h (h / 2) };
}
