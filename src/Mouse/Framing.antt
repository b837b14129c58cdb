-- ===== src/Mouse/Framing.antt =====
-- The bytes of `mouse_handler` of kernel/src/mouse.c as a stream of whole packets.
use mathlib.Core.Option.{bind}
use subleq_emu.Prelude.{
  ℕ, ◌≡◌, refl, ◌∙◌, Bool, false, not, ◌||◌, inl, inr, Option, none, some, List, [], ◌∷◌,
  Bool-cases, if◌then◌else◌, arith,
}
use subleq_emu.Mouse.{
  Mouse, Packet, DawnPacket, has_bit, process_packet, place, packet_complete, third_byte,
  mouse_handler,
}

-- An overflowing movement, or no first byte.
abbrev pub is_bad : ℕ → Bool
is_bad flags = (has_bit flags 6 || has_bit flags 7) || not (has_bit flags 3)

abbrev pub Ready : Mouse → Type 0
Ready m = (m.handler_cycle ≡ 0) × (m.discard_packet ≡ false)

place-Ready :
    (m : Mouse) (p : Packet) (d : DawnPacket) {t : Mouse} → Ready m → place m p d ≡ some t → Ready t
unfolding place
place-Ready m p d r e = ground arith

module _ (w h : ℕ) where
  -- One interrupt for each byte.
  abbrev pub on_bytes : List ℕ → Mouse → Option Mouse
  on_bytes [] m = some m
  on_bytes (b ∷ bs) m = bind (mouse_handler w h m b) (on_bytes bs)

  abbrev pub on_packet : Mouse → Packet → Option Mouse
  on_packet m p =
      if is_bad p.flags
      then some (record m { current_packet = p })
      else packet_complete w h (record m { current_packet = p })

  abbrev pub on_packets : List Packet → Mouse → Option Mouse
  on_packets [] m = some m
  on_packets (p ∷ ps) m = bind (on_packet m p) (on_packets ps)

  abbrev pub bytes : List Packet → List ℕ
  bytes [] = []
  bytes (p ∷ ps) = p.flags ∷ p.x_mov ∷ p.y_mov ∷ bytes ps

  packet_complete-Ready :
      (m : Mouse) {t : Mouse} → Ready m → packet_complete w h m ≡ some t → Ready t
  unfolding packet_complete process_packet
  packet_complete-Ready m r e = place-Ready _ _ _ r e

  on_packet-Ready :
      (m : Mouse) (p : Packet) {t : Mouse} → Ready m → on_packet m p ≡ some t → Ready t
  on_packet-Ready m p r e = elim (Bool-cases (is_bad p.flags)) [
    | inl bad ↦ ground arith
    | inr good ↦ packet_complete-Ready (record m { current_packet = p }) r (rw good at e)
  ]

  three_bytes :
      (m : Mouse) (p : Packet) (rest : List ℕ)
      → Ready m
      → on_bytes (p.flags ∷ p.x_mov ∷ p.y_mov ∷ rest) m ≡ bind (on_packet m p) (on_bytes rest)
  unfolding mouse_handler third_byte bind
  three_bytes m p rest (c, d) = elim (Bool-cases (is_bad p.flags)) [
    | inl bad ↦ rw (c, d, bad) refl
    | inr good ↦ rw (c, d, good) refl
  ]

  continue_from :
      (ps : List Packet) (o : Option Mouse)
      → ((t : Mouse) → o ≡ some t → on_bytes (bytes ps) t ≡ on_packets ps t)
      → bind o (on_bytes (bytes ps)) ≡ bind o (on_packets ps)
  unfolding bind
  continue_from ps none f = refl
  continue_from ps (some t) f = f t refl

  -- From the start of a packet, the handler that is called for each byte of a sequence of packets
  -- does what one step for each packet does: a packet with an overflow or without its mark is read
  -- to its end and dropped, and every other one is completed. Either stops at a panic.
  pub on_bytes-bytes :
      (ps : List Packet) (m : Mouse) → Ready m → on_bytes (bytes ps) m ≡ on_packets ps m
  on_bytes-bytes [] m r = refl
  on_bytes-bytes (p ∷ ps) m r =
      three_bytes m p (bytes ps) r
      ∙ continue_from ps (on_packet m p)
          (λ t e. on_bytes-bytes ps t (on_packet-Ready m p {t = t} r e))
