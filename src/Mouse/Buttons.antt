-- ===== src/Mouse/Buttons.antt =====
-- The buttons through the queue of packets of kernel/src/mouse.c: what is last in it is what the last
-- packet of the mouse said, and Dawn takes the packets in order.
use subleq_emu.Prelude.{
  ℕ, zero, suc, ◌+◌, ◌-◌, ◌≤◌, ◌<◌, ◌≡◌, refl, sym, ap, subst, ◌∙◌, Bool, true, false, inl, inr,
  not, ◌||◌, Option, none, some, ◌==◌, Bool-cases, if◌then◌else◌, arith, update,
}
use subleq_emu.Ram.{Ram}
use subleq_emu.Mouse.{
  Mouse, Packet, DawnPacket, has_bit, click_of, process_packet, shift_down, take_packet,
  mouse_update, is_busy, place, same_buttons, is_location_info, max_packets, packet_complete,
}

abbrev pub pressed : ℕ → Bool
pressed click = not (click == 0)

-- The packet that Dawn is to see last.
abbrev pub latest : Mouse → DawnPacket
latest m = if m.packet_i == 0 then m.dawn else m.packets (m.packet_i - 1)

-- The buttons of `d` are those of the flags.
abbrev pub Shows : ℕ → DawnPacket → Type 0
Shows flags d =
    (pressed d.mouse_click_l ≡ has_bit flags 0)
    × (pressed d.mouse_click_r ≡ has_bit flags 1)
    × (pressed d.mouse_click_m ≡ has_bit flags 2)

pressed-click_of : (flags n : ℕ) → pressed (click_of flags n) ≡ has_bit flags n
pressed-click_of flags n = ground arith

same_buttons-Shows : (flags : ℕ) (d : DawnPacket) → same_buttons flags d ≡ true → Shows flags d
same_buttons-Shows flags d e = (ground arith, ground arith, ground arith)

process_packet-Shows : (w h : ℕ) (m : Mouse) (p : Packet) → Shows p.flags (process_packet w h m p).1
unfolding process_packet
process_packet-Shows w h m p =
    (pressed-click_of p.flags 0, pressed-click_of p.flags 1, pressed-click_of p.flags 2)

shift_down_below :
    (n : ℕ) (packets : ℕ → DawnPacket) (i j : ℕ) → j + 1 < i → shift_down n packets i j ≡ packets j
unfolding shift_down
shift_down_below zero packets i j lt = refl
shift_down_below (suc n) packets i j lt =
    let apart : (i - 1 == j) ≡ false = ground arith in
    let other : update packets (i - 1) (packets i) j ≡ packets j = ground arith in
    shift_down_below n (update packets (i - 1) (packets i)) (i + 1) j (omega arith) ∙ other

shift_down_within :
    (n : ℕ) (packets : ℕ → DawnPacket) (i j : ℕ)
    → 1 ≤ i
    → i ≤ j + 1
    → j + 1 < i + n
    → shift_down n packets i j ≡ packets (j + 1)
unfolding shift_down
shift_down_within zero packets i j one le lt = ground arith
shift_down_within (suc n) packets i j one le lt = elim (Bool-cases (i == j + 1)) [
  | inl first ↦
      shift_down_below n (update packets (i - 1) (packets i)) (i + 1) j (ground arith)
      ∙ ground arith
  | inr later ↦
      shift_down_within n (update packets (i - 1) (packets i)) (i + 1) j (omega arith)
        (ground arith) (omega arith)
      ∙ ground arith
]

-- Taking the first packet does not change what Dawn sees last.
latest-take_packet : (m : Mouse) → latest (take_packet m) ≡ latest m
unfolding take_packet
latest-take_packet m = elim (Bool-cases (m.packet_i == 0)) [
  | inl empty ↦ rw empty (rw empty refl)
  | inr some_left ↦ rw some_left (elim (Bool-cases (m.packet_i - 1 == 0)) [
    | inl one ↦ rw one (ap m.packets (ground arith))
    | inr more ↦ rw more (
        shift_down_within (m.packet_i - 1) m.packets 1 (m.packet_i - 1 - 1) (omega arith)
          (omega arith) (ground arith)
        ∙ ap m.packets (ground arith))
  ])
]

-- Whatever the registers hold, an update does not change what Dawn is to see last.
pub mouse_update-latest : (m : Mouse) (r : Ram) → latest (mouse_update m r).0 ≡ latest m
unfolding mouse_update
mouse_update-latest m r = elim (Bool-cases (not m.hw_mouse_enabled || is_busy r)) [
  | inl idle ↦ rw idle refl
  | inr ready ↦ rw ready (latest-take_packet m)
]

-- `t` shows the flags last; a panic needs a full queue.
abbrev pub ShowsAfter : Mouse → ℕ → Option Mouse → Type 0
ShowsAfter m flags none = m.packet_i ≡ max_packets
ShowsAfter m flags (some t) = Shows flags (latest t)

replaced-Shows :
    (t : Mouse) (d : DawnPacket) (flags : ℕ)
    → Shows flags d
    → Shows flags (latest t)
    → Shows flags (latest (record t { dawn = d }))
replaced-Shows t d flags new old = elim (Bool-cases (t.packet_i == 0)) [
  | inl empty ↦ rw empty new
  | inr waiting ↦
      rw waiting
        (subst (λ c. Shows flags (if c then t.dawn else t.packets (t.packet_i - 1))) waiting old)
]

latest_appended :
    (t : Mouse) (d : DawnPacket)
    → latest (record t { packets = update t.packets t.packet_i d; packet_i = t.packet_i + 1 }) ≡ d
latest_appended t d = ground arith

place-Shows :
    (m : Mouse) (p : Packet) (d : DawnPacket) → Shows p.flags d → ShowsAfter m p.flags (place m p d)
unfolding place is_location_info
place-Shows m p d new = elim (Bool-cases (same_buttons p.flags (latest m))) [
  | inl same ↦
      rw (ShowsAfter, same)
        (replaced-Shows m d p.flags new (same_buttons-Shows p.flags (latest m) same))
  | inr other ↦ elim (Bool-cases (m.packet_i == max_packets)) [
    | inl full ↦ rw (ShowsAfter, other, full) (ground arith)
    | inr room ↦
        rw (ShowsAfter, other, room) (subst (Shows p.flags) (sym (latest_appended m d)) new)
  ]
]

-- Once a packet is complete, the buttons that Dawn is to see last are the packet's, and the handler
-- panics only when 1024 packets wait.
pub packet_complete-Shows :
    (w h : ℕ) (m : Mouse) → ShowsAfter m m.current_packet.flags (packet_complete w h m)
unfolding packet_complete process_packet
packet_complete-Shows w h m =
    place-Shows (process_packet w h (record m { hw_mouse_enabled = true }) m.current_packet).0
      m.current_packet _
      (process_packet-Shows w h (record m { hw_mouse_enabled = true }) m.current_packet)
